-- ===== src/Tests/RecoveryTests.antt =====
-- The recovery of an engine from a log of a mutation and a checkpoint, and the checkpoint's image.
use sovereign.Prelude.{
  ℕ, ◌≤◌, ◌≡◌, ◌⊎◌, refl, sym, ap, inl, inr, List, [], ◌∷◌, ◌++◌, true, some, replicate, arith,
}
use Prim.Native.Nat.{max}
use mathlib.Core.Path.{subst}
use sovereign.Prelude.Members.{Mem}
use sovereign.Bytes.{All}
use sovereign.Entry.{IncomingEntry, compare_bytes}
use sovereign.Wal.{WalMutation, WalCheckpoint, identity_of, new_wal_mutation}
use sovereign.Wal.Append.{Wal}
use sovereign.Wal.Decode.{zero_checkpoint}
use sovereign.Wal.Open.{wal_header}
use sovereign.Wal.Payloads.{CheckpointFits, recorded_mutation, recorded_checkpoint_v2}
use sovereign.Wal.Replay.{
  Replayed, replayed, replay_wal, nothing_replayed, mutation_record, count_record, replay_mutation,
  replay_checkpoint, replay_checkpoint_v2, raise,
}
use sovereign.Wal.Ops.{WalOp, put_mutation, put_checkpoint, log_bytes, absorb, absorb_all}
use sovereign.Wal.Recovers.{replay_wal-log}
use sovereign.Wal.Holds.{Holds}
use sovereign.Recovery.{
  SnapshotImage, StoreAnswer, loaded, EngineCall, join_records, advance_to, choose_image,
  restore_entry, restored, restore_loop, restore_calls, check_mutation_record, add_to_chunk,
  flush_chunk, rebuilt_initial, in_image, recover_calls, skips_tail, skips_hole, is_anchored,
  has_phantom, has_mutation, same_dot, cut_from,
}
use sovereign.Recovery.Joined.{joined_of}
use sovereign.Recovery.Complete.{Stands, recover_calls_complete}
use sovereign.Recovery.Clock.{recover_calls-clock}
use sovereign.Recovery.Durable.{IsFaithful, recover_calls_durable}
use sovereign.Tests.WalTests.{test_crc, test_wide, mutated, mutated_fits}

abbrev node : List ℕ
node = replicate 16 2

-- The mutation, and a checkpoint behind it whose clock is ahead of the mark.
abbrev checkpointed : WalCheckpoint
checkpointed = record zero_checkpoint {
  lamport_high = 9;
  cut_seq = 1;
  clock_high = 20;
  has_cut_seq = true;
}

abbrev checkpoint_ops : List WalOp
checkpoint_ops = put_mutation mutated ∷ put_checkpoint checkpointed ∷ []

checkpoint_fits : CheckpointFits checkpointed
checkpoint_fits = record {
  root_len = refl;
  fingerprint_len = refl;
  lamport_lt = omega arith;
  cut_lt = omega arith;
  clock_lt = omega arith;
}

abbrev checkpoint_log : List ℕ
checkpoint_log = wal_header ++ log_bytes test_crc 0 checkpoint_ops

abbrev rep : Replayed
rep = absorb_all 0 checkpoint_ops nothing_replayed

replays : replay_wal test_crc checkpoint_log ≡ replayed rep
replays =
    replay_wal-log test_crc checkpoint_ops test_wide (mutated_fits, (checkpoint_fits, tt))
      (omega arith)

abbrev imaged : IncomingEntry
imaged = record { entity_id = mutated.entity_id; entry = mutated.full }

-- The image of the checkpoint
abbrev image : SnapshotImage
image = record {
  records = imaged ∷ [];
  merkle_root = replicate 32 0;
  lamport_high = 9;
  cut_seq = 1;
}

abbrev calls : List EngineCall
calls = join_records (imaged ∷ []) ∷ advance_to 20 ∷ []

recovered : recover_calls node rep (loaded image) ≡ some calls
unfolding recover_calls restore_calls choose_image restore_loop check_mutation_record add_to_chunk
    flush_chunk rebuilt_initial restore_entry skips_tail skips_hole in_image is_anchored has_phantom
    has_mutation same_dot cut_from absorb_all absorb count_record replay_mutation
    replay_checkpoint_v2 replay_checkpoint recorded_checkpoint_v2 raise recorded_mutation
    new_wal_mutation compare_bytes identity_of
recovered = refl

there : Mem (mutation_record 4 (recorded_mutation mutated) 0) rep.ordered
unfolding absorb_all absorb count_record replay_mutation replay_checkpoint_v2 replay_checkpoint
    recorded_checkpoint_v2
there = inl refl

recover_calls_complete_example :
    Mem (restored node (recorded_mutation mutated)) (joined_of calls)
    ⊎ Stands node rep (loaded image) calls (recorded_mutation mutated)
recover_calls_complete_example =
    recover_calls_complete node rep (loaded image) calls 4 (recorded_mutation mutated) 0 recovered
      there

recover_calls-clock_example :
    (before : List EngineCall) × ((n : ℕ) × (calls ≡ before ++ advance_to n ∷ [])
      × (n ≡ max rep.lamport_high rep.final_checkpt.clock_high)
      × (rep.final_checkpt.clock_high ≤ n)
      × All (λ (m : WalMutation). m.counter ≤ n) rep.mutations
      × All (λ (a : ℕ). a ≤ n) rep.advances)
recover_calls-clock_example =
    recover_calls-clock test_crc checkpoint_log node rep (loaded image) calls replays recovered

written : Wal
written = record { file = checkpoint_log; next_seq = 2 }

written-Holds : Holds test_crc checkpoint_ops written
unfolding written
written-Holds = record {
  file_is = refl;
  seq_is = refl;
  few = omega arith;
  fit = (mutated_fits, (checkpoint_fits, tt));
}

image_in : StoreAnswer → SnapshotImage
image_in (loaded img) = img
image_in _ = image

image-IsFaithful : IsFaithful (loaded image) mutated
unfolding image_in
image-IsFaithful img r h k f g =
    let same : image ≡ img = ap image_in h in
    let in_it : Mem r image.records = subst (λ (i : SnapshotImage). Mem r i.records) (sym same) k in
    the_one r in_it
  where
    the_one : (x : IncomingEntry) → Mem x (imaged ∷ []) → x ≡ imaged
    the_one x (inl e) = e
    the_one x (inr m) = elim m [ ]

recover_calls_durable_example :
    Mem (record { entity_id = mutated.entity_id; entry = mutated.full }) (joined_of calls)
unfolding written
recover_calls_durable_example =
    recover_calls_durable test_crc checkpoint_ops written mutated node rep (loaded image) calls
      test_wide written-Holds (inl refl) image-IsFaithful replays recovered
