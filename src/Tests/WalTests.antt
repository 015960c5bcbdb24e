-- ===== src/Tests/WalTests.antt =====
-- The write-ahead log at concrete records, with a checksum that is the bytes' number to 32 bits.
use sovereign.Prelude.{
  ℕ, ◌%◌, ◌^◌, ◌<◌, ◌≤◌, ◌≡◌, ◌≢◌, refl, List, [], ◌∷◌, ◌++◌, true, none, some, length, take, drop,
  replicate, arith,
}
use sovereign.Bytes.{be_bytes, be_value}
use sovereign.Entry.{CrdtEntry, compare_bytes}
use sovereign.Wire.Submit.{EntryFits}
use sovereign.Wal.{max_record_payload_len, WalMutation, new_wal_mutation, validate_v2}
use sovereign.Wal.Encode.{
  record_bytes, wal_rec_checksummed, frame_checksummed, put_clock_advance_payload,
  encode_clock_advance_checksummed,
}
use sovereign.Wal.Append.{
  Wal, Append, whole, short, appended, batch_appended, batch_failed_at, append_mutations,
  append_clock_advance, write_and_sync, write_record,
}
use sovereign.Wal.Replay.{
  replayed, replay_failed, seq_gap, corrupt, payload_len_of, out_of_fuel, nothing_replayed,
  replay_wal,
}
use sovereign.Wal.Open.{wal_header, open_wal, scan_records}
use sovereign.Wal.Payloads.{MutationFits}
use sovereign.Wal.Ops.{
  WalOp, put_mutation, put_advance, op_bytes, log_bytes, absorb_all, HasWidth32,
}
use sovereign.Wal.Recovers.{log_recovers, replay_wal-log}
use sovereign.Wal.Holds.{Holds, append_op}
use sovereign.Wal.Reach.{Reachable, created, put, Reachable-replayed}
use sovereign.Wal.Halts.{replay_wal-and-scan_halt, open_wal-agrees}
use sovereign.Wal.Sound.{IsSound}
use sovereign.Wal.Reports.{replay_wal-IsSound}
use sovereign.Wal.Loss.{replay_wal-gap, replay_wal-corrupt}
use sovereign.Wal.Batch.{put_all, all_whole, append_mutations-Holds}

abbrev pub test_crc : List ℕ → ℕ
test_crc bytes = be_value bytes % 2 ^ 32

pub test_wide : HasWidth32 test_crc
test_wide bytes = omega arith

abbrev pub stored : CrdtEntry
stored = record {
  payload_digest = replicate 32 1;
  origin_node_id = replicate 16 2;
  dot_node_id = replicate 16 2;
  dot_counter = 9;
  system_time = 100;
  valid_time_start = 101;
  valid_time_end = 102;
  assertion_time = 103;
  decision_time = 104;
  h3_index = 105;
}

abbrev pub mutated : WalMutation
mutated = new_wal_mutation (97 ∷ 98 ∷ []) (record { node_id = replicate 16 2; counter = 9 }) stored

stored_fits : EntryFits stored
stored_fits = record {
  digest_len = refl;
  origin_len = refl;
  dot_len = refl;
  counter_lt = omega arith;
  system_lt = omega arith;
  start_lt = omega arith;
  end_lt = omega arith;
  assertion_lt = omega arith;
  decision_lt = omega arith;
  h3_lt = omega arith;
}

pub mutated_fits : MutationFits mutated
unfolding new_wal_mutation
mutated_fits = record {
  size_le = omega arith;
  node_len = refl;
  counter_lt = omega arith;
  full_fits = stored_fits;
}

abbrev pub ops : List WalOp
ops = put_advance 5 ∷ put_mutation mutated ∷ []

log_recovers_example :
    (k : ℕ) × (1 ≤ k)
    × (k ≤ 2)
    × (replay_wal test_crc (take 60 (wal_header ++ log_bytes test_crc 0 ops))
        ≡ replayed (absorb_all 0 (take k ops) nothing_replayed))
    × (open_wal (take 60 (wal_header ++ log_bytes test_crc 0 ops))
        ≡ some (record { file = wal_header ++ log_bytes test_crc 0 (take k ops); next_seq = k }))
unfolding log_bytes op_bytes encode_clock_advance_checksummed frame_checksummed record_bytes
    put_clock_advance_payload be_bytes
log_recovers_example =
    log_recovers test_crc ops 60 1 test_wide (omega arith, (mutated_fits, tt)) (omega arith)
      (omega arith) (omega arith)

replay_wal-and-scan_halt_example :
    (replay_wal test_crc (wal_header ++ log_bytes test_crc 0 ops) ≢ out_of_fuel)
    × (scan_records (wal_header ++ log_bytes test_crc 0 ops) ≢ none)
replay_wal-and-scan_halt_example =
    replay_wal-and-scan_halt test_crc (wal_header ++ log_bytes test_crc 0 ops)

replay_wal-gap_example :
    replay_wal test_crc
      (wal_header ++ (log_bytes test_crc 0 ops ++ (op_bytes test_crc 3 (put_advance 7) ++ [])))
    ≡ replay_failed seq_gap
replay_wal-gap_example =
    replay_wal-gap test_crc ops (put_advance 7) 3 [] test_wide (omega arith, (mutated_fits, tt))
      (omega arith) (omega arith) (omega arith) (omega arith)

replay_wal-corrupt_example :
    replay_wal test_crc (
      wal_header
      ++ (log_bytes test_crc 0 ops
          ++ (record_bytes 2 wal_rec_checksummed ((3 ∷ 0 ∷ []) ++ be_bytes 4 1) ++ [])))
    ≡ replay_failed corrupt
unfolding be_value
replay_wal-corrupt_example =
    replay_wal-corrupt test_crc ops (3 ∷ 0 ∷ []) [] 1 test_wide (omega arith, (mutated_fits, tt))
      (omega arith) (omega arith) (omega arith) (omega arith) (omega arith)

fresh : Wal
fresh = record { file = wal_header; next_seq = 0 }

abbrev advanced : Wal
advanced = (append_op test_crc (put_advance 5) whole true fresh).1

advanced-Reachable : Reachable test_crc advanced
unfolding open_wal fresh
advanced-Reachable =
    put fresh (put_advance 5) true (created fresh refl) tt (omega arith) (omega arith)

Reachable-replayed_example :
    (es : List WalOp) × Holds test_crc es advanced
    × (replay_wal test_crc advanced.file ≡ replayed (absorb_all 0 es nothing_replayed))
Reachable-replayed_example = Reachable-replayed test_crc advanced test_wide advanced-Reachable

abbrev pub logged : List ℕ
logged = wal_header ++ log_bytes test_crc 0 ops

pub logged_replays : replay_wal test_crc logged ≡ replayed (absorb_all 0 ops nothing_replayed)
logged_replays =
    replay_wal-log test_crc ops test_wide (omega arith, (mutated_fits, tt)) (omega arith)

open_wal-agrees_example :
    (last : ℕ) × (last ≤ length logged)
    × (scan_records logged
        ≡ some (record {
          next_seq = (absorb_all 0 ops nothing_replayed).next_seq;
          count = (absorb_all 0 ops nothing_replayed).records_verified;
          last_good = last;
        }))
    × (open_wal logged
        ≡ some (record {
          file = take last logged;
          next_seq = (absorb_all 0 ops nothing_replayed).next_seq;
        }))
open_wal-agrees_example =
    open_wal-agrees test_crc logged (absorb_all 0 ops nothing_replayed) logged_replays

replay_wal-IsSound_example : IsSound (absorb_all 0 ops nothing_replayed)
replay_wal-IsSound_example =
    replay_wal-IsSound test_crc logged (absorb_all 0 ops nothing_replayed) logged_replays

fresh-Holds : Holds test_crc [] fresh
unfolding fresh log_bytes wal_header be_bytes
fresh-Holds = record { file_is = refl; seq_is = refl; few = omega arith; fit = tt }

append_mutations-Holds_example :
    (w' : Wal) × Holds test_crc (put_all (mutated ∷ [])) w'
    × (append_mutations test_crc (all_whole (mutated ∷ [])) true fresh ≡ (batch_appended, w'))
    × (append_mutations test_crc
          (all_whole (mutated ∷ []) ++ (record mutated { entity_id = [] }, whole) ∷ [])
          true
          fresh
        ≡ (batch_failed_at 1, w'))
    × (append_mutations test_crc (all_whole (mutated ∷ []) ++ (mutated, short 5) ∷ []) true fresh
        ≡ (
          batch_failed_at 1,
          record w' {
            file = w'.file ++ take 5 (op_bytes test_crc w'.next_seq (put_mutation mutated));
          },
        ))
unfolding validate_v2 new_wal_mutation compare_bytes fresh
append_mutations-Holds_example =
    append_mutations-Holds test_crc (mutated ∷ []) mutated (record mutated { entity_id = [] }) whole
      5 [] [] true fresh fresh-Holds ((refl, mutated_fits), tt) refl refl (omega arith)

-- A write that brings one byte into the file and fails, and then an append that succeeds
abbrev retried : Append × Wal
retried =
    append_clock_advance test_crc 5 whole true
      (append_clock_advance test_crc 5 (short 1) true
        (record { file = wal_header; next_seq = 0 })).1

retried_appended : retried.0 ≡ appended
unfolding append_clock_advance write_and_sync
retried_appended = refl

-- The replay takes what follows the header for a payload of 96 MiB, which it refuses.
retried_too_long :
    (payload_len_of (drop 8 retried.1.file) ≡ 100663296) × (max_record_payload_len < 100663296)
unfolding append_clock_advance write_and_sync write_record wal_header be_bytes be_value
    encode_clock_advance_checksummed frame_checksummed record_bytes put_clock_advance_payload
retried_too_long = (refl, omega arith)
