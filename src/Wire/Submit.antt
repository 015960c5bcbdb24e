-- ===== src/Wire/Submit.antt =====
-- The submission of an entry to a worker, internal/chaos/codec.go.
use sovereign.Prelude.{
  ℕ, ◌+◌, ◌^◌, ◌<◌, ◌≡◌, refl, List, [], ◌∷◌, ◌++◌, Option, none, some, false, length, ltb,
  if◌then◌else◌, arith,
}
use sovereign.Bytes.{be_bytes, be_value, length-be_bytes as len}
use sovereign.Entry.{CrdtEntry}
use sovereign.Wire.Fields.{slice, field_at, be_field_at, length-flat}

-- `encodeCRDTEntry`, at the end of what has been written: 120 bytes
unfoldable pub encode_crdt_entry : CrdtEntry → List ℕ
encode_crdt_entry e =
    e.payload_digest
    ++ (e.origin_node_id
        ++ (e.dot_node_id
            ++ (be_bytes 8 e.dot_counter
                ++ (be_bytes 8 e.system_time
                    ++ (be_bytes 8 e.valid_time_start
                        ++ (be_bytes 8 e.valid_time_end
                            ++ (be_bytes 8 e.assertion_time
                                ++ (be_bytes 8 e.decision_time
                                    ++ (be_bytes 8 e.h3_index ++ [])))))))))

-- `decodeCRDTEntry`
unfoldable pub decode_crdt_entry : List ℕ → CrdtEntry
decode_crdt_entry src = record {
  payload_digest = slice 0 32 src;
  origin_node_id = slice 32 16 src;
  dot_node_id = slice 48 16 src;
  dot_counter = be_value (slice 64 8 src);
  system_time = be_value (slice 72 8 src);
  valid_time_start = be_value (slice 80 8 src);
  valid_time_end = be_value (slice 88 8 src);
  assertion_time = be_value (slice 96 8 src);
  decision_time = be_value (slice 104 8 src);
  h3_index = be_value (slice 112 8 src);
}

abbrev pub crdt_entry_wire_len : ℕ
crdt_entry_wire_len = 120

-- `EncodeSubmit`
unfoldable pub encode_submit : List ℕ → CrdtEntry → List ℕ
encode_submit entity_id entry =
    be_bytes 4 (length entity_id) ++ (entity_id ++ (encode_crdt_entry entry ++ []))

-- `DecodeSubmit`
unfoldable pub decode_submit : List ℕ → Option (CrdtEntry × List ℕ)
decode_submit p =
    if ltb (length p) 4
    then none
    else let ent_len = be_value (slice 0 4 p) in
      let need = 4 + ent_len + crdt_entry_wire_len in
      if ltb (length p) need
      then none
      else some (decode_crdt_entry (slice (4 + ent_len) crdt_entry_wire_len p), slice 4 ent_len p)

-- The byte arrays of an entry have their sizes, and its numbers 64 bits.
pub record EntryFits (e : CrdtEntry) : Type 0 where
  pub digest_len : length e.payload_digest ≡ 32
  pub origin_len : length e.origin_node_id ≡ 16
  pub dot_len : length e.dot_node_id ≡ 16
  pub counter_lt : e.dot_counter < 2 ^ 64
  pub system_lt : e.system_time < 2 ^ 64
  pub start_lt : e.valid_time_start < 2 ^ 64
  pub end_lt : e.valid_time_end < 2 ^ 64
  pub assertion_lt : e.assertion_time < 2 ^ 64
  pub decision_lt : e.decision_time < 2 ^ 64
  pub h3_lt : e.h3_index < 2 ^ 64

pub length-encode_crdt_entry : (e : CrdtEntry) → EntryFits e → length (encode_crdt_entry e) ≡ 120
unfolding encode_crdt_entry
length-encode_crdt_entry e f = omega (
  arith,
  length-flat
      (e.payload_digest
        ∷ e.origin_node_id
        ∷ e.dot_node_id
        ∷ be_bytes 8 e.dot_counter
        ∷ be_bytes 8 e.system_time
        ∷ be_bytes 8 e.valid_time_start
        ∷ be_bytes 8 e.valid_time_end
        ∷ be_bytes 8 e.assertion_time
        ∷ be_bytes 8 e.decision_time
        ∷ be_bytes 8 e.h3_index
        ∷ [])
      [],
  len 8 e.dot_counter,
  len 8 e.system_time,
  len 8 e.valid_time_start,
  len 8 e.valid_time_end,
  len 8 e.assertion_time,
  len 8 e.decision_time,
  len 8 e.h3_index,
  f.digest_len,
  f.origin_len,
  f.dot_len,
)

pub decode-encode_crdt_entry :
    (e : CrdtEntry) → EntryFits e → decode_crdt_entry (encode_crdt_entry e) ≡ e
unfolding decode_crdt_entry encode_crdt_entry
decode-encode_crdt_entry e f =
    let b = be_bytes 8 in
    let r9 : List ℕ = [] in
    let r8 = b e.h3_index ++ r9 in
    let r7 = b e.decision_time ++ r8 in
    let r6 = b e.assertion_time ++ r7 in
    let r5 = b e.valid_time_end ++ r6 in
    let r4 = b e.valid_time_start ++ r5 in
    let r3 = b e.system_time ++ r4 in
    let r2 = b e.dot_counter ++ r3 in
    rw
      (
        field_at [] e.payload_digest (e.origin_node_id ++ (e.dot_node_id ++ r2)) 0 32 refl
            f.digest_len,
        field_at (e.payload_digest ∷ []) e.origin_node_id (e.dot_node_id ++ r2) 32 16
            (omega (arith, f.digest_len, f.origin_len, f.dot_len)) f.origin_len,
        field_at (e.payload_digest ∷ e.origin_node_id ∷ []) e.dot_node_id r2 48 16
            (omega (arith, f.digest_len, f.origin_len, f.dot_len)) f.dot_len,
        be_field_at (e.payload_digest ∷ e.origin_node_id ∷ e.dot_node_id ∷ []) e.dot_counter r3 64 8
            (omega (arith, f.digest_len, f.origin_len, f.dot_len)) f.counter_lt,
        be_field_at (e.payload_digest ∷ e.origin_node_id ∷ e.dot_node_id ∷ b e.dot_counter ∷ [])
            e.system_time r4 72 8
            (omega (arith, f.digest_len, f.origin_len, f.dot_len, len 8 e.dot_counter)) f.system_lt,
        be_field_at
            (e.payload_digest
              ∷ e.origin_node_id
              ∷ e.dot_node_id
              ∷ b e.dot_counter
              ∷ b e.system_time
              ∷ [])
            e.valid_time_start r5 80 8
            (omega (
              arith,
              f.digest_len,
              f.origin_len,
              f.dot_len,
              len 8 e.dot_counter,
              len 8 e.system_time,
            ))
            f.start_lt,
        be_field_at
            (e.payload_digest
              ∷ e.origin_node_id
              ∷ e.dot_node_id
              ∷ b e.dot_counter
              ∷ b e.system_time
              ∷ b e.valid_time_start
              ∷ [])
            e.valid_time_end r6 88 8
            (omega (
              arith,
              f.digest_len,
              f.origin_len,
              f.dot_len,
              len 8 e.dot_counter,
              len 8 e.system_time,
              len 8 e.valid_time_start,
            ))
            f.end_lt,
        be_field_at
            (e.payload_digest
              ∷ e.origin_node_id
              ∷ e.dot_node_id
              ∷ b e.dot_counter
              ∷ b e.system_time
              ∷ b e.valid_time_start
              ∷ b e.valid_time_end
              ∷ [])
            e.assertion_time r7 96 8
            (omega (
              arith,
              f.digest_len,
              f.origin_len,
              f.dot_len,
              len 8 e.dot_counter,
              len 8 e.system_time,
              len 8 e.valid_time_start,
              len 8 e.valid_time_end,
            ))
            f.assertion_lt,
        be_field_at
            (e.payload_digest
              ∷ e.origin_node_id
              ∷ e.dot_node_id
              ∷ b e.dot_counter
              ∷ b e.system_time
              ∷ b e.valid_time_start
              ∷ b e.valid_time_end
              ∷ b e.assertion_time
              ∷ [])
            e.decision_time r8 104 8
            (omega (
              arith,
              f.digest_len,
              f.origin_len,
              f.dot_len,
              len 8 e.dot_counter,
              len 8 e.system_time,
              len 8 e.valid_time_start,
              len 8 e.valid_time_end,
              len 8 e.assertion_time,
            ))
            f.decision_lt,
        be_field_at
            (e.payload_digest
              ∷ e.origin_node_id
              ∷ e.dot_node_id
              ∷ b e.dot_counter
              ∷ b e.system_time
              ∷ b e.valid_time_start
              ∷ b e.valid_time_end
              ∷ b e.assertion_time
              ∷ b e.decision_time
              ∷ [])
            e.h3_index r9 112 8
            (omega (
              arith,
              f.digest_len,
              f.origin_len,
              f.dot_len,
              len 8 e.dot_counter,
              len 8 e.system_time,
              len 8 e.valid_time_start,
              len 8 e.valid_time_end,
              len 8 e.assertion_time,
              len 8 e.decision_time,
            ))
            f.h3_lt,
      )
      refl

not_short : (n : ℕ) → ltb (4 + n + 120) 4 ≡ false
not_short n = ground arith

enough : (n : ℕ) → ltb (4 + n + 120) (4 + n + 120) ≡ false
enough n = ground arith

-- A submission that is encoded decodes to its entry and its entity, where the entry's fields have
-- their sizes and the entity's length fits in 32 bits.
pub decode-encode_submit :
    (entity_id : List ℕ) (entry : CrdtEntry)
    → length entity_id < 2 ^ 32
    → EntryFits entry
    → decode_submit (encode_submit entity_id entry) ≡ some (entry, entity_id)
unfolding decode_submit encode_submit
decode-encode_submit k e short f =
    let n = be_bytes 4 (length k) in
    let body = encode_crdt_entry e in
    let size : length (encode_submit k e) ≡ 4 + length k + 120 =
      omega (
        arith,
        length-flat (n ∷ k ∷ body ∷ []) [],
        len 4 (length k),
        length-encode_crdt_entry e f,
      ) in
    rw
      (
        size,
        be_field_at [] (length k) (k ++ (body ++ [])) 0 4 refl short,
        not_short (length k),
        enough (length k),
        field_at (n ∷ []) k (body ++ []) 4 (length k) (omega (arith, len 4 (length k))) refl,
        field_at (n ∷ k ∷ []) body [] (4 + length k) 120 (omega (arith, len 4 (length k)))
            (length-encode_crdt_entry e f),
        decode-encode_crdt_entry e f,
      )
      refl
