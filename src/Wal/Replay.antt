-- ===== src/Wal/Replay.antt =====
-- `ReplayWAL` of internal/chaos/wal.go over the bytes of a file. Reading fails at the end of the file
-- only; the loop runs on fuel.
use sovereign.Prelude.{
  ℕ, zero, suc, ◌+◌, ◌%◌, ◌^◌, ◌⊎◌, inl, inr, List, [], ◌∷◌, ◌++◌, Bool, true, false, not, Option,
  none, some, length, drop, ltb, ◌==◌, if◌then◌else◌,
}
use sovereign.Bytes.{be_value}
use sovereign.Wire.Fields.{slice}
use sovereign.Wal.{
  WalMutation, WalCheckpoint, wal_magic, wal_version, max_record_payload_len,
  max_credible_clock_high,
}
use sovereign.Wal.Encode.{
  wal_rec_mutation, wal_rec_checkpoint, wal_rec_clock_advance, wal_rec_mutation_v2,
  wal_rec_checkpoint_v2, wal_rec_checksummed,
}
use sovereign.Wal.Decode.{
  decode_mutation_payload, decode_mutation_v2_payload, decode_checkpoint, decode_checkpoint_v2,
  unwrap_checksummed, zero_checkpoint,
}

-- `WALRecord`, of which either the mutation or the advance is set: the type, that, and the number.
pub data WalRecord : Type 0 where
  mutation_record : ℕ → WalMutation → ℕ → WalRecord
  advance_record : ℕ → ℕ → WalRecord

-- `Replayed`, without the directory and the flag that is set wherever the replay returns it
pub record Replayed : Type 0 where
  pub mutations : List WalMutation
  pub advances : List ℕ
  pub ordered : List WalRecord
  pub final_checkpt : WalCheckpoint
  pub has_checkpoint : Bool
  pub lamport_high : ℕ
  pub next_seq : ℕ
  pub final_checkpt_seq : ℕ
  pub legacy_checkpoint : Bool
  pub records_verified : ℕ
  pub clock_high_clamped : Bool
  pub clock_high_raw : ℕ

abbrev pub nothing_replayed : Replayed
nothing_replayed = record {
  mutations = [];
  advances = [];
  ordered = [];
  final_checkpt = zero_checkpoint;
  has_checkpoint = false;
  lamport_high = 0;
  next_seq = 0;
  final_checkpt_seq = 0;
  legacy_checkpoint = false;
  records_verified = 0;
  clock_high_clamped = false;
  clock_high_raw = 0;
}

pub data ReplayError : Type 0 where
  short_header bad_magic bad_version payload_too_long seq_gap : ReplayError
  corrupt short_record unknown_type : ReplayError

pub data ReplayResult : Type 0 where
  replayed : Replayed → ReplayResult
  replay_failed : ReplayError → ReplayResult
  out_of_fuel : ReplayResult

-- The larger of two, as the code compares them.
unfoldable pub raise : ℕ → ℕ → ℕ
raise high c = if ltb high c then c else high

-- The cases of `WALRecMutation` and `WALRecMutationV2`
unfoldable pub replay_mutation : ℕ → WalMutation → ℕ → Replayed → Replayed
replay_mutation rec_type m seq out = record out {
  mutations = out.mutations ++ m ∷ [];
  ordered = out.ordered ++ mutation_record rec_type m seq ∷ [];
  lamport_high = raise out.lamport_high m.counter;
}

-- The case of `WALRecClockAdvance`
unfoldable pub replay_advance : ℕ → ℕ → Replayed → Replayed
replay_advance advanced_to seq out = record out {
  advances = out.advances ++ advanced_to ∷ [];
  ordered = out.ordered ++ advance_record advanced_to seq ∷ [];
  lamport_high = raise out.lamport_high advanced_to;
}

-- What the two cases of checkpoints share.
unfoldable pub replay_checkpoint : WalCheckpoint → ℕ → Replayed → Replayed
replay_checkpoint c seq out = record out {
  final_checkpt = c;
  has_checkpoint = true;
  final_checkpt_seq = seq;
  legacy_checkpoint = not c.has_fingerprint;
  lamport_high = raise out.lamport_high c.lamport_high;
}

-- The clamp of the case of `WALRecCheckpointV2`, and the rest of it.
unfoldable pub replay_checkpoint_v2 : WalCheckpoint → ℕ → Replayed → Replayed
replay_checkpoint_v2 c seq out =
    if ltb max_credible_clock_high c.clock_high
    then replay_checkpoint (record c { clock_high = raise out.lamport_high c.lamport_high }) seq
        (record out {
          clock_high_clamped = true;
          clock_high_raw = raise out.clock_high_raw c.clock_high;
        })
    else replay_checkpoint c seq out

-- A record that is decoded changes the replay; one that is too short ends it.
unfoldable pub decoded_with : {A : Type 0} → Option A → (A → Replayed) → ReplayError ⊎ Replayed
decoded_with none f = inl short_record
decoded_with (some a) f = inr (f a)

unfoldable pub decode_advance : List ℕ → Option ℕ
decode_advance p = if ltb (length p) 8 then none else some (be_value (slice 0 8 p))

-- The switch of `ReplayWAL`
unfoldable pub dispatch : ℕ → List ℕ → ℕ → Replayed → ReplayError ⊎ Replayed
dispatch rec_type p seq out =
    if rec_type == wal_rec_mutation
    then decoded_with (decode_mutation_payload p) (λ m. replay_mutation wal_rec_mutation m seq out)
    else if rec_type == wal_rec_mutation_v2
    then decoded_with (decode_mutation_v2_payload p)
        (λ m. replay_mutation wal_rec_mutation_v2 m seq out)
    else if rec_type == wal_rec_clock_advance
    then decoded_with (decode_advance p) (λ a. replay_advance a seq out)
    else if rec_type == wal_rec_checkpoint
    then decoded_with (decode_checkpoint p) (λ c. replay_checkpoint c seq out)
    else if rec_type == wal_rec_checkpoint_v2
    then decoded_with (decode_checkpoint_v2 p) (λ c. replay_checkpoint_v2 c seq out)
    else inl unknown_type

-- A complete record is counted.
unfoldable pub count_record : ℕ → Replayed → Replayed
count_record seq out = record out {
  records_verified = out.records_verified + 1;
  next_seq = if ltb seq out.next_seq then out.next_seq else (seq + 1) % 2 ^ 64;
}

-- A complete record: a wrapper is opened first.
unfoldable pub replay_record : (List ℕ → ℕ) → ℕ → List ℕ → ℕ → Replayed → ReplayError ⊎ Replayed
replay_record crc32c rec_type payload seq out =
    if rec_type == wal_rec_checksummed
    then elim (unwrap_checksummed crc32c payload) [
      | none ↦ inl corrupt
      | some (inner_type, inner) ↦ dispatch inner_type inner seq (count_record seq out)
    ]
    else dispatch rec_type payload seq (count_record seq out)

-- The test of the numbers: the first is 0, and each other is one more than the one before it.
unfoldable pub in_sequence : ℕ → ℕ → ℕ → Bool
in_sequence records_verified prev_seq seq =
    if records_verified == 0 then seq == 0 else seq == (prev_seq + 1) % 2 ^ 64

-- The fields of a record's header, and its payload
abbrev pub seq_of : List ℕ → ℕ
seq_of bytes = be_value (slice 0 8 bytes)

abbrev pub type_of : List ℕ → ℕ
type_of bytes = be_value (slice 8 1 bytes)

abbrev pub payload_len_of : List ℕ → ℕ
payload_len_of bytes = be_value (slice 9 4 bytes)

abbrev pub payload_of : List ℕ → List ℕ
payload_of bytes = slice 13 (payload_len_of bytes) bytes

abbrev pub behind_record : List ℕ → List ℕ
behind_record bytes = drop (13 + payload_len_of bytes) bytes

-- How far a pass of the loop gets: the log ends here, cleanly or torn; the replay fails; or a record is
-- done.
pub data Pass : Type 0 where
  log_ends : Pass
  pass_fails : ReplayError → Pass
  record_done : Replayed → Pass

unfoldable pub replay_pass : (List ℕ → ℕ) → Replayed → ℕ → List ℕ → Pass
replay_pass crc32c out prev_seq bytes =
    if ltb (length bytes) 13
    then log_ends
    else if ltb max_record_payload_len (payload_len_of bytes)
    then pass_fails payload_too_long
    else if not (in_sequence out.records_verified prev_seq (seq_of bytes))
    then pass_fails seq_gap
    else if ltb (length bytes) (13 + payload_len_of bytes)
    then log_ends
    else elim (replay_record crc32c (type_of bytes) (payload_of bytes) (seq_of bytes) out) [
      | inl e ↦ pass_fails e
      | inr out' ↦ record_done out'
    ]

-- The loop of `ReplayWAL`
unfoldable pub replay_loop : (List ℕ → ℕ) → ℕ → Replayed → ℕ → List ℕ → ReplayResult
replay_loop crc32c zero out prev_seq bytes = out_of_fuel
replay_loop crc32c (suc f) out prev_seq bytes = elim (replay_pass crc32c out prev_seq bytes) [
  | log_ends ↦ replayed out
  | pass_fails e ↦ replay_failed e
  | record_done out' ↦ replay_loop crc32c f out' (seq_of bytes) (behind_record bytes)
]

-- `ReplayWAL`; each record takes a byte at least, so there is fuel for all of them.
unfoldable pub replay_wal : (List ℕ → ℕ) → List ℕ → ReplayResult
replay_wal crc32c file =
    if ltb (length file) 8
    then replay_failed short_header
    else if not (be_value (slice 0 4 file) == wal_magic)
    then replay_failed bad_magic
    else if not (be_value (slice 4 2 file) == wal_version)
    then replay_failed bad_version
    else replay_loop crc32c (suc (length file)) nothing_replayed 0 (drop 8 file)
