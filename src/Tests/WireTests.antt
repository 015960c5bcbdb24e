-- ===== src/Tests/WireTests.antt =====
-- The frames at concrete fields.
use sovereign.Prelude.{
  ℕ, ◌≡◌, refl, List, [], ◌∷◌, ◌++◌, ltb, take, true, false, some, replicate, if◌then◌else◌, arith,
}
use sovereign.Wire.Fields.{is_zero}
use sovereign.Wire.Batch.{
  BatchEnvelope, ok, unsigned, marshal_batch_envelope, unmarshal_batch_envelope, batch_wire,
  is_batch_frame, is_digest_frame, FitsHeader, unmarshal-marshal,
}
use sovereign.Bytes.{be_bytes, be_value}
use sovereign.Wire.Worker.{Hello, encode_hello, decode_hello}
use sovereign.Wire.Submit.{EntryFits, encode_submit, decode_submit, decode-encode_submit}
use sovereign.Entry.{CrdtEntry}
use sovereign.Wire.Pipe.{
  PipeFrame, PipeFits, write_pipe_frame, pipe_frame, end_of_stream, truncated_payload,
  read_pipe_frame, read_pipe_frame-written, frame_header_len,
}

abbrev frame : List ℕ
frame = marshal_batch_envelope (replicate 16 3) (replicate 64 1) 12 2 (9 ∷ 9 ∷ [])

abbrev envelope : BatchEnvelope
envelope = record {
  origin_node_id = replicate 16 3;
  origin_sig = replicate 64 1;
  origin_seq = 12;
  batch_count = 2;
  wire = frame;
}

fits : FitsHeader (replicate 16 3) (replicate 64 1) 12 2
fits = record { id_len = refl; sig_len = refl; seq_lt = omega arith; count_lt = omega arith }

unmarshal-marshal_example :
    (unmarshal_batch_envelope frame ≡ (if is_zero (replicate 64 1) then unsigned else ok envelope))
    × (batch_wire envelope ≡ 9 ∷ 9 ∷ [])
    × (is_batch_frame frame ≡ true)
    × (is_digest_frame frame ≡ false)
unmarshal-marshal_example =
    unmarshal-marshal (replicate 16 3) (replicate 64 1) 12 2 (9 ∷ 9 ∷ []) fits

abbrev hello : Hello
hello = record { node_id = replicate 16 5; lamport = 77; root = replicate 32 6 }

-- The hello decodes.
hello_decodes : decode_hello (encode_hello hello) ≡ some hello
unfolding decode_hello encode_hello be_bytes be_value
hello_decodes = refl

abbrev entry : CrdtEntry
entry = record {
  payload_digest = replicate 32 1;
  origin_node_id = replicate 16 2;
  dot_node_id = replicate 16 2;
  dot_counter = 9;
  system_time = 1;
  valid_time_start = 2;
  valid_time_end = 3;
  assertion_time = 4;
  decision_time = 5;
  h3_index = 6;
}

entry_fits : EntryFits entry
entry_fits = record {
  digest_len = refl;
  origin_len = refl;
  dot_len = refl;
  counter_lt = omega arith;
  system_lt = omega arith;
  start_lt = omega arith;
  end_lt = omega arith;
  assertion_lt = omega arith;
  decision_lt = omega arith;
  h3_lt = omega arith;
}

submit_decoded : decode_submit (encode_submit (1 ∷ 2 ∷ []) entry) ≡ some (entry, 1 ∷ 2 ∷ [])
submit_decoded = decode-encode_submit (1 ∷ 2 ∷ []) entry (omega arith) entry_fits

abbrev bye : PipeFrame
bye = record { op = 5; frame_seq = 7; payload = 1 ∷ 2 ∷ [] }

bye_fits : PipeFits bye
bye_fits = record { op_lt = omega arith; seq_lt = omega arith; payload_lt = omega arith }

read_pipe_frame-written_example :
    (read_pipe_frame (write_pipe_frame bye ++ 3 ∷ []) ≡ pipe_frame bye (3 ∷ []))
    × (read_pipe_frame (take 6 (write_pipe_frame bye))
        ≡ (if ltb 6 frame_header_len then end_of_stream else truncated_payload))
unfolding write_pipe_frame be_bytes
read_pipe_frame-written_example = read_pipe_frame-written bye (3 ∷ []) 6 bye_fits (omega arith)
