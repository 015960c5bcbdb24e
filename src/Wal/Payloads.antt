-- ===== src/Wal/Payloads.antt =====
-- What an append writes as the payload of a record decodes to what it was given.
use sovereign.Prelude.{
  ℕ, ◌+◌, ◌^◌, ◌<◌, ◌≤◌, ◌≡◌, refl, sym, ap, ◌∙◌, List, [], ◌∷◌, ◌++◌, true, false, some, length,
  length-append, take, ltb, if◌then◌else◌, replicate, inl, inr, Bool-cases, arith,
}
use mathlib.Core.List.{append-nil}
use sovereign.Bytes.{be_bytes, be_value, length-be_bytes as len, be_value-be_bytes}
use sovereign.Wire.Fields.{field_at, be_field_at, length-flat, behind, total}
use sovereign.Wire.Submit.{
  encode_crdt_entry, EntryFits, length-encode_crdt_entry, decode-encode_crdt_entry,
}
use sovereign.Wal.{WalMutation, WalCheckpoint, identity_of, max_record_payload_len}
use sovereign.Wal.Encode.{
  put_mutation_v2_payload, put_checkpoint_v2_payload, put_clock_advance_payload,
}
use sovereign.Wal.Decode.{
  decode_mutation_v2_payload, decode_checkpoint, decode_checkpoint_v2, zero_checkpoint,
}
use sovereign.Wal.Replay.{decode_advance}

-- The fields of a mutation have their sizes, and its record is one that a replay accepts.
pub record MutationFits (m : WalMutation) : Type 0 where
  pub size_le : length m.entity_id + 153 ≤ max_record_payload_len
  pub node_len : length m.node_id ≡ 16
  pub counter_lt : m.counter < 2 ^ 64
  pub full_fits : EntryFits m.full

pub record CheckpointFits (c : WalCheckpoint) : Type 0 where
  pub root_len : length c.merkle_root ≡ 32
  pub fingerprint_len : length c.fingerprint ≡ 32
  pub lamport_lt : c.lamport_high < 2 ^ 64
  pub cut_lt : c.cut_seq < 2 ^ 64
  pub clock_lt : c.clock_high < 2 ^ 64

-- The mutation that a replay makes of a record: the entry's subset is derived.
unfoldable pub recorded_mutation : WalMutation → WalMutation
recorded_mutation m = record m { entry = identity_of m.full; legacy = false }

-- A checkpoint with the cut, and one of the older form
unfoldable pub recorded_checkpoint_v2 : WalCheckpoint → WalCheckpoint
recorded_checkpoint_v2 c = record c {
  fingerprint = if c.has_fingerprint then c.fingerprint else replicate 32 0;
  has_cut_seq = true;
}

unfoldable pub recorded_checkpoint : WalCheckpoint → WalCheckpoint
recorded_checkpoint c = record zero_checkpoint {
  merkle_root = c.merkle_root;
  lamport_high = c.lamport_high;
}

pub length-put_mutation :
    (m : WalMutation)
    → MutationFits m
    → length (put_mutation_v2_payload m) ≡ length m.entity_id + 148
unfolding put_mutation_v2_payload
length-put_mutation m f = omega (
  arith,
  length-flat
      (be_bytes 4 (length m.entity_id)
        ∷ m.entity_id
        ∷ m.node_id
        ∷ be_bytes 8 m.counter
        ∷ encode_crdt_entry m.full
        ∷ [])
      [],
  len 4 (length m.entity_id),
  len 8 m.counter,
  length-encode_crdt_entry m.full f.full_fits,
  f.node_len,
)

not_short : (n : ℕ) → ltb (n + 148) 4 ≡ false
not_short n = ground arith

enough : (n : ℕ) → ltb (n + 148) (4 + n + 16 + 8 + 120) ≡ false
enough n = ground arith

pub decode-put_mutation :
    (m : WalMutation)
    → MutationFits m
    → decode_mutation_v2_payload (put_mutation_v2_payload m) ≡ some (recorded_mutation m)
unfolding decode_mutation_v2_payload put_mutation_v2_payload recorded_mutation
decode-put_mutation m f =
    let k = m.entity_id in
    let n = be_bytes 4 (length k) in
    let c = be_bytes 8 m.counter in
    let body = encode_crdt_entry m.full in
    rw
      (
        length-put_mutation m f,
        be_field_at [] (length k) (k ++ (m.node_id ++ (c ++ (body ++ [])))) 0 4 refl
            (omega (arith, f.size_le)),
        not_short (length k),
        enough (length k),
        field_at (n ∷ []) k (m.node_id ++ (c ++ (body ++ []))) 4 (length k)
            (omega (arith, len 4 (length k))) refl,
        field_at (n ∷ k ∷ []) m.node_id (c ++ (body ++ [])) (4 + length k) 16
            (omega (arith, len 4 (length k))) f.node_len,
        be_field_at (n ∷ k ∷ m.node_id ∷ []) m.counter (body ++ []) (20 + length k) 8
            (omega (arith, len 4 (length k), f.node_len)) f.counter_lt,
        field_at (n ∷ k ∷ m.node_id ∷ c ∷ []) body [] (28 + length k) 120
            (omega (arith, len 4 (length k), f.node_len, len 8 m.counter))
            (length-encode_crdt_entry m.full f.full_fits),
        decode-encode_crdt_entry m.full f.full_fits,
      )
      refl

take_all : (n : ℕ) (xs : List ℕ) → length xs ≡ n → take n xs ≡ xs
take_all n xs h = ap (take n) (sym (append-nil xs)) ∙ field_at [] xs [] 0 n refl h

-- A number that is all there is.
be_whole : (n v : ℕ) → v < 256 ^ n → be_value (take n (be_bytes n v)) ≡ v
be_whole n v h = ap be_value (take_all n (be_bytes n v) (len n v)) ∙ be_value-be_bytes n v h

pub decode-put_advance :
    (a : ℕ) → a < 2 ^ 64 → decode_advance (put_clock_advance_payload a) ≡ some a
unfolding decode_advance put_clock_advance_payload
decode-put_advance a lt = rw (len 8 a) (rw (be_whole 8 a lt) refl)

pub decode-checkpoint :
    (c : WalCheckpoint)
    → CheckpointFits c
    → decode_checkpoint (c.merkle_root ++ be_bytes 8 c.lamport_high) ≡ some (recorded_checkpoint c)
unfolding decode_checkpoint recorded_checkpoint
decode-checkpoint c f =
    let l = be_bytes 8 c.lamport_high in
    let size : length (c.merkle_root ++ l) ≡ 40 =
      omega (arith, length-append c.merkle_root l, f.root_len, len 8 c.lamport_high) in
    rw
      (
        size,
        field_at [] c.merkle_root l 0 32 refl f.root_len,
        behind (c.merkle_root ∷ []) l 32 (omega (arith, f.root_len)),
        be_whole 8 c.lamport_high f.lamport_lt,
      )
      refl

long_enough : (n k : ℕ) → k ≤ 56 → ltb (56 + n) k ≡ false
long_enough n k h = ground arith

length-put_checkpoint_v2 :
    (c : WalCheckpoint)
    → CheckpointFits c
    → length (put_checkpoint_v2_payload c) ≡ (if c.has_fingerprint then 88 else 56)
unfolding put_checkpoint_v2_payload
length-put_checkpoint_v2 c f =
    let fields =
      c.merkle_root
      ∷ be_bytes 8 c.lamport_high
      ∷ be_bytes 8 c.cut_seq
      ∷ be_bytes 8 c.clock_high
      ∷ [] in
    let fixed : total fields ≡ 56 =
      omega (arith, f.root_len, len 8 c.lamport_high, len 8 c.cut_seq, len 8 c.clock_high) in
    elim (Bool-cases c.has_fingerprint) [
      | inl e ↦ rw e (omega (arith, length-flat fields c.fingerprint, fixed, f.fingerprint_len))
      | inr e ↦ rw e (omega (arith, length-flat fields [], fixed))
    ]

pub length-put_checkpoint_v2_le :
    (c : WalCheckpoint) → CheckpointFits c → length (put_checkpoint_v2_payload c) ≤ 88
length-put_checkpoint_v2_le c f = grind (arith, length-put_checkpoint_v2 c f)

-- The fields in front of a tail, which is the fingerprint or nothing
decode-with_tail :
    (c : WalCheckpoint) (t : List ℕ)
    → CheckpointFits c
    → decode_checkpoint_v2 (
        c.merkle_root
        ++ (be_bytes 8 c.lamport_high ++ (be_bytes 8 c.cut_seq ++ (be_bytes 8 c.clock_high ++ t))))
      ≡ some (record c {
        fingerprint = if ltb (56 + length t) 88 then replicate 32 0 else take 32 t;
        has_cut_seq = true;
        has_fingerprint = if ltb (56 + length t) 88 then false else true;
      })
unfolding decode_checkpoint_v2
decode-with_tail c t f =
    let root = c.merkle_root in
    let l = be_bytes 8 c.lamport_high in
    let cut = be_bytes 8 c.cut_seq in
    let clock = be_bytes 8 c.clock_high in
    let size : length (root ++ (l ++ (cut ++ (clock ++ t)))) ≡ 56 + length t = omega (
      arith,
      length-flat (root ∷ l ∷ cut ∷ clock ∷ []) t,
      f.root_len,
      len 8 c.lamport_high,
      len 8 c.cut_seq,
      len 8 c.clock_high,
    ) in
    rw
      (
        size,
        long_enough (length t) 48 (omega arith),
        long_enough (length t) 56 (omega arith),
        field_at [] root (l ++ (cut ++ (clock ++ t))) 0 32 refl f.root_len,
        be_field_at (root ∷ []) c.lamport_high (cut ++ (clock ++ t)) 32 8
            (omega (arith, f.root_len)) f.lamport_lt,
        be_field_at (root ∷ l ∷ []) c.cut_seq (clock ++ t) 40 8
            (omega (arith, f.root_len, len 8 c.lamport_high)) f.cut_lt,
        be_field_at (root ∷ l ∷ cut ∷ []) c.clock_high t 48 8
            (omega (arith, f.root_len, len 8 c.lamport_high, len 8 c.cut_seq)) f.clock_lt,
        behind (root ∷ l ∷ cut ∷ clock ∷ []) t 56
            (omega (arith, f.root_len, len 8 c.lamport_high, len 8 c.cut_seq, len 8 c.clock_high)),
      )
      refl

pub decode-put_checkpoint_v2 :
    (c : WalCheckpoint)
    → CheckpointFits c
    → decode_checkpoint_v2 (put_checkpoint_v2_payload c) ≡ some (recorded_checkpoint_v2 c)
unfolding put_checkpoint_v2_payload recorded_checkpoint_v2
decode-put_checkpoint_v2 c f = elim (Bool-cases c.has_fingerprint) [
  | inl e ↦
      rw
        (
          e,
          decode-with_tail c c.fingerprint f,
          f.fingerprint_len,
          take_all 32 c.fingerprint f.fingerprint_len,
        )
        refl
  | inr e ↦ rw (e, decode-with_tail c [] f) refl
]
