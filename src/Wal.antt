-- ===== src/Wal.antt =====
-- The write-ahead log of the engine, internal/chaos/wal.go: its records. A file is the list of its
-- bytes.
pub mod Encode
pub mod Append
pub mod Decode
pub mod Replay
pub mod Open
pub mod Payloads
pub mod Frames
pub mod Steps
pub mod Ops
pub mod OpSteps
pub mod Torn
pub mod Whole
pub mod Cut
pub mod Recovers
pub mod Holds
pub mod Reach
pub mod Passes
pub mod Kinds
pub mod Agrees
pub mod Halts
pub mod Sound
pub mod Reports
pub mod Loss
pub mod Batch
use sovereign.Prelude.{ℕ, ◌-◌, ◌^◌, List, [], ◌∷◌, Bool, true, false, not, ◌&&◌, ◌||◌, length, ◌==◌}
use sovereign.Entry.{CrdtEntry, CausalDot}
use sovereign.EntryMap.{same_key}
use sovereign.Wire.Fields.{is_zero}

abbrev pub wal_magic : ℕ
wal_magic = 1463897088

abbrev pub wal_version : ℕ
wal_version = 1

abbrev pub max_record_payload_len : ℕ
max_record_payload_len = 4194304

-- `MaxCredibleClockHigh`
abbrev pub max_credible_clock_high : ℕ
max_credible_clock_high = 1152921504606846976

-- `WALEntry`
pub record WalEntry : Type 0 where
  pub payload_digest : List ℕ
  pub origin_node_id : List ℕ
  pub dot_node_id : List ℕ
  pub dot_counter : ℕ
  pub system_time : ℕ

-- `WALMutation`
pub record WalMutation : Type 0 where
  pub entity_id : List ℕ
  pub full : CrdtEntry
  pub node_id : List ℕ
  pub counter : ℕ
  pub entry : WalEntry
  pub legacy : Bool

-- `WALCheckpoint`
pub record WalCheckpoint : Type 0 where
  pub merkle_root : List ℕ
  pub fingerprint : List ℕ
  pub lamport_high : ℕ
  pub cut_seq : ℕ
  pub clock_high : ℕ
  pub has_cut_seq : Bool
  pub has_fingerprint : Bool

-- The five fields of an entry that the older records keep.
unfoldable pub identity_of : CrdtEntry → WalEntry
identity_of e = record {
  payload_digest = e.payload_digest;
  origin_node_id = e.origin_node_id;
  dot_node_id = e.dot_node_id;
  dot_counter = e.dot_counter;
  system_time = e.system_time;
}

-- `NewWALMutation`
unfoldable pub new_wal_mutation : List ℕ → CausalDot → CrdtEntry → WalMutation
new_wal_mutation entity_id dot entry =
    let stamped = record entry {
      dot_node_id = dot.node_id;
      dot_counter = dot.counter;
      origin_node_id = dot.node_id;
    } in
    record {
      entity_id = entity_id;
      full = stamped;
      node_id = dot.node_id;
      counter = dot.counter;
      entry = identity_of stamped;
      legacy = false;
    }

-- `validateV2`
unfoldable pub validate_v2 : WalMutation → Bool
validate_v2 m =
    not (length m.entity_id == 0)
    && not m.legacy
    && same_key m.full.dot_node_id m.node_id
    && (m.full.dot_counter == m.counter)
    && not (is_zero m.full.origin_node_id)
