-- ===== src/Wire/Pipe.antt =====
-- The frames between the supervisor and a worker, writeFrame and readFrame of
-- internal/chaos/protocol.go, over the bytes that the pipe brings up to its end. Its other errors are
-- left out.
use sovereign.Prelude.{
  ℕ, ◌+◌, ◌^◌, ◌<◌, ◌≤◌, ◌≡◌, refl, sym, ap, ◌∙◌, List, [], ◌∷◌, ◌++◌, inl, inr, Bool-cases, length,
  length-append, drop, take, ltb, if◌then◌else◌, true, false, arith,
}
use mathlib.Core.List.{append-nil}
use sovereign.Bytes.{be_bytes, be_value, length-be_bytes as len}
use sovereign.Wire.Fields.{
  slice, flat, behind, field_at, be_field_at, length-flat, slice-take, length-take_lt,
}

abbrev pub frame_header_len : ℕ
frame_header_len = 9

-- `Frame`
pub record PipeFrame : Type 0 where
  pub op : ℕ
  pub frame_seq : ℕ
  pub payload : List ℕ

-- `writeFrame`
unfoldable pub write_pipe_frame : PipeFrame → List ℕ
write_pipe_frame f =
    be_bytes 1 f.op ++ (be_bytes 4 (length f.payload) ++ (be_bytes 4 f.frame_seq ++ f.payload))

-- The result of `readFrame`: a frame with the bytes behind it, io.EOF, or the other error.
pub data PipeRead : Type 0 where
  pipe_frame : PipeFrame → List ℕ → PipeRead
  end_of_stream truncated_payload : PipeRead

-- `readFrame`
unfoldable pub read_pipe_frame : List ℕ → PipeRead
read_pipe_frame bytes =
    let payload_len = be_value (slice 1 4 bytes) in
    if ltb (length bytes) frame_header_len
    then end_of_stream
    else if ltb (length bytes) (frame_header_len + payload_len)
    then truncated_payload
    else pipe_frame
        (record {
          op = be_value (slice 0 1 bytes);
          frame_seq = be_value (slice 5 4 bytes);
          payload = slice frame_header_len payload_len bytes;
        })
        (drop (frame_header_len + payload_len) bytes)

pub record PipeFits (f : PipeFrame) : Type 0 where
  pub op_lt : f.op < 256
  pub seq_lt : f.frame_seq < 2 ^ 32
  pub payload_lt : length f.payload < 2 ^ 32

module _ (f : PipeFrame) (fits : PipeFits f) where
  header : List (List ℕ)
  header = be_bytes 1 f.op ∷ be_bytes 4 (length f.payload) ∷ be_bytes 4 f.frame_seq ∷ []

  reassociated : (rest : List ℕ) → write_pipe_frame f ++ rest ≡ flat header (f.payload ++ rest)
  unfolding write_pipe_frame be_bytes header
  reassociated rest = refl

  not_cut : (n k : ℕ) → ltb (9 + (n + k)) 9 ≡ false
  not_cut n k = ground arith

  whole : (n k : ℕ) → ltb (9 + (n + k)) (9 + n) ≡ false
  whole n k = ground arith

  length-written :
      (rest : List ℕ)
      → length (flat header (f.payload ++ rest)) ≡ 9 + (length f.payload + length rest)
  unfolding header
  length-written rest = omega (
    arith,
    length-flat header (f.payload ++ rest),
    length-append f.payload rest,
    len 1 f.op,
    len 4 (length f.payload),
    len 4 f.frame_seq,
  )

  read-written : (rest : List ℕ) → read_pipe_frame (write_pipe_frame f ++ rest) ≡ pipe_frame f rest
  unfolding read_pipe_frame header
  read-written rest =
      let b = be_bytes 1 f.op in
      let n = be_bytes 4 (length f.payload) in
      let s = be_bytes 4 f.frame_seq in
      ap read_pipe_frame (reassociated rest)
      ∙ rw
          (
            length-written rest,
            be_field_at (b ∷ []) (length f.payload) (s ++ (f.payload ++ rest)) 1 4
                (omega (arith, len 1 f.op)) fits.payload_lt,
            not_cut (length f.payload) (length rest),
            whole (length f.payload) (length rest),
            be_field_at [] f.op (n ++ (s ++ (f.payload ++ rest))) 0 1 refl fits.op_lt,
            be_field_at (b ∷ n ∷ []) f.frame_seq (f.payload ++ rest) 5 4
                (omega (arith, len 1 f.op, len 4 (length f.payload))) fits.seq_lt,
            field_at header f.payload rest 9 (length f.payload)
                (omega (arith, len 1 f.op, len 4 (length f.payload), len 4 f.frame_seq)) refl,
            behind (b ∷ n ∷ s ∷ f.payload ∷ []) rest (9 + length f.payload)
                (omega (arith, len 1 f.op, len 4 (length f.payload), len 4 f.frame_seq)),
          )
          refl

  read-cut :
      (n : ℕ)
      → n < length (write_pipe_frame f)
      → read_pipe_frame (take n (write_pipe_frame f))
        ≡ (if ltb n frame_header_len then end_of_stream else truncated_payload)
  unfolding read_pipe_frame header be_bytes
  read-cut n h =
      let bytes = write_pipe_frame f in
      let have : length (take n bytes) ≡ n = length-take_lt n bytes h in
      elim (Bool-cases (ltb n 9)) [
        | inl e ↦ rw (have, e) refl
        | inr e ↦
            let long : 9 ≤ n = ground arith in
            let value : be_value (slice 1 4 (take n bytes)) ≡ length f.payload =
              ap be_value
                (slice-take n 1 4 bytes (omega (arith, long)) ∙ ap (slice 1 4) (nothing_behind))
              ∙ be_field_at (be_bytes 1 f.op ∷ []) (length f.payload)
                  (be_bytes 4 f.frame_seq ++ (f.payload ++ [])) 1 4 (omega (arith, len 1 f.op))
                  fits.payload_lt in
            let missing : ltb n (9 + length f.payload) ≡ true =
              ground (arith, h, ap length nothing_behind, length-written []) in
            rw (have, e, value, missing) refl
      ]
    where
      nothing_behind : write_pipe_frame f ≡ flat header (f.payload ++ [])
      nothing_behind = sym (append-nil (write_pipe_frame f)) ∙ reassociated []

-- A frame that was written is read, whatever stands behind it; and where the pipe ends inside it, the
-- result is the end of the stream if the header is not whole, and a truncated payload if it is; for an
-- operation of one byte, and a number and a payload length of 32 bits.
pub read_pipe_frame-written :
    (f : PipeFrame) (rest : List ℕ) (n : ℕ)
    → PipeFits f
    → n < length (write_pipe_frame f)
    → (read_pipe_frame (write_pipe_frame f ++ rest) ≡ pipe_frame f rest)
      × (read_pipe_frame (take n (write_pipe_frame f))
          ≡ (if ltb n frame_header_len then end_of_stream else truncated_payload))
read_pipe_frame-written f rest n fits h = (read-written f fits rest, read-cut f fits n h)
