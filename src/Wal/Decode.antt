-- ===== src/Wal/Decode.antt =====
-- The payloads of the records as they are read back, internal/chaos/wal.go.
use sovereign.Prelude.{
  ℕ, ◌+◌, ◌-◌, List, true, false, Option, none, some, length, take, drop, ltb, ◌==◌, if◌then◌else◌,
  replicate,
}
use sovereign.Bytes.{be_value}
use sovereign.Entry.{CrdtEntry}
use sovereign.Wire.Fields.{slice}
use sovereign.Wire.Submit.{decode_crdt_entry, crdt_entry_wire_len}
use sovereign.Wal.{WalEntry, WalMutation, WalCheckpoint, identity_of}

abbrev wal_entry_len : ℕ
wal_entry_len = 80

-- `decodeWALEntry`
unfoldable pub decode_wal_entry : List ℕ → WalEntry
decode_wal_entry src = record {
  payload_digest = slice 0 32 src;
  origin_node_id = slice 32 16 src;
  dot_node_id = slice 48 16 src;
  dot_counter = be_value (slice 64 8 src);
  system_time = be_value (slice 72 8 src);
}

-- The entry that a record of the first format stands for: the fields it has, and zeros.
unfoldable pub synthesized : WalEntry → CrdtEntry
synthesized e = record {
  payload_digest = e.payload_digest;
  origin_node_id = e.origin_node_id;
  dot_node_id = e.dot_node_id;
  dot_counter = e.dot_counter;
  system_time = e.system_time;
  valid_time_start = 0;
  valid_time_end = 0;
  assertion_time = 0;
  decision_time = 0;
  h3_index = 0;
}

-- `decodeMutationPayload`
unfoldable pub decode_mutation_payload : List ℕ → Option WalMutation
decode_mutation_payload p =
    if ltb (length p) 4
    then none
    else let n = be_value (slice 0 4 p) in
      let need = 4 + n + 16 + 8 + wal_entry_len in
      let e = decode_wal_entry (slice (28 + n) wal_entry_len p) in
      if ltb (length p) need
      then none
      else some (record {
        entity_id = slice 4 n p;
        full = synthesized e;
        node_id = slice (4 + n) 16 p;
        counter = be_value (slice (20 + n) 8 p);
        entry = e;
        legacy = true;
      })

-- `decodeMutationV2Payload`
unfoldable pub decode_mutation_v2_payload : List ℕ → Option WalMutation
decode_mutation_v2_payload p =
    if ltb (length p) 4
    then none
    else let n = be_value (slice 0 4 p) in
      let need = 4 + n + 16 + 8 + crdt_entry_wire_len in
      let full = decode_crdt_entry (slice (28 + n) crdt_entry_wire_len p) in
      if ltb (length p) need
      then none
      else some (record {
        entity_id = slice 4 n p;
        full = full;
        node_id = slice (4 + n) 16 p;
        counter = be_value (slice (20 + n) 8 p);
        entry = identity_of full;
        legacy = false;
      })

abbrev pub zero_checkpoint : WalCheckpoint
zero_checkpoint = record {
  merkle_root = replicate 32 0;
  fingerprint = replicate 32 0;
  lamport_high = 0;
  cut_seq = 0;
  clock_high = 0;
  has_cut_seq = false;
  has_fingerprint = false;
}

-- The checkpoint of the `WALRecCheckpoint` case of `ReplayWAL`.
unfoldable pub decode_checkpoint : List ℕ → Option WalCheckpoint
decode_checkpoint p =
    if ltb (length p) 40
    then none
    else some (record zero_checkpoint {
      merkle_root = slice 0 32 p;
      lamport_high = be_value (slice 32 8 p);
    })

-- The checkpoint of the `WALRecCheckpointV2` case, before its clock is clamped; what is not there
-- stays zero.
unfoldable pub decode_checkpoint_v2 : List ℕ → Option WalCheckpoint
decode_checkpoint_v2 p =
    if ltb (length p) 48
    then none
    else some (record {
      merkle_root = slice 0 32 p;
      fingerprint = if ltb (length p) 88 then replicate 32 0 else slice 56 32 p;
      lamport_high = be_value (slice 32 8 p);
      cut_seq = be_value (slice 40 8 p);
      clock_high = if ltb (length p) 56 then 0 else be_value (slice 48 8 p);
      has_cut_seq = true;
      has_fingerprint = if ltb (length p) 88 then false else true;
    })

-- `unwrapChecksummed`: the type and the payload inside, where the checksum fits.
unfoldable pub unwrap_checksummed : (List ℕ → ℕ) → List ℕ → Option (ℕ × List ℕ)
unwrap_checksummed crc32c payload =
    if ltb (length payload) 5
    then none
    else let body = take (length payload - 4) payload in
      let want = be_value (drop (length payload - 4) payload) in
      if want == crc32c body then some (be_value (slice 0 1 body), drop 1 body) else none
