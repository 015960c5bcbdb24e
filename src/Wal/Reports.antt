-- ===== src/Wal/Reports.antt =====
-- What a replay reports of any file is sound.
use sovereign.Prelude.{ℕ, zero, suc, ◌≡◌, refl, inl, inr, List, drop, length, arith}
use sovereign.Wal.Replay.{
  Replayed, replayed, nothing_replayed, count_record, replay_pass, replay_loop, replay_wal, seq_of,
  type_of, payload_of, behind_record,
}
use sovereign.Wal.Passes.{replay_pass-Done, Pass-cases}
use sovereign.Wal.Kinds.{replay_record-kept}
use sovereign.Wal.Sound.{IsSound, IsSound-kept}
use sovereign.Wal.Halts.{replay_wal-loop}

count_record-IsSound : (seq : ℕ) (o : Replayed) → IsSound o → IsSound (count_record seq o)
unfolding count_record
count_record-IsSound seq o s = record {
  mutations_le = s.mutations_le;
  advances_le = s.advances_le;
  checkpoint_le = s.checkpoint_le;
  clock_le = s.clock_le;
  ordered_mutations = s.ordered_mutations;
  ordered_advances = s.ordered_advances;
  no_clock = s.no_clock;
  legacy_is = s.legacy_is;
}

replay_loop-IsSound :
    (crc32c : List ℕ → ℕ) (f : ℕ) (out out' : Replayed) (prev_seq : ℕ) (bytes : List ℕ)
    → IsSound out
    → replay_loop crc32c f out prev_seq bytes ≡ replayed out'
    → IsSound out'
unfolding replay_loop
replay_loop-IsSound crc32c zero out out' prev_seq bytes s h = absurd cc
replay_loop-IsSound crc32c (suc f) out out' prev_seq bytes s h =
    elim (Pass-cases (replay_pass crc32c out prev_seq bytes)) [
      | inl e ↦ let same : out ≡ out' = let k = rw (e, replay_loop) at h in cc in rw (← same) s
      | inr (inl (_, e)) ↦ absurd (let k = rw (e, replay_loop) at h in cc)
      | inr (inr (o, e)) ↦
          let d = replay_pass-Done crc32c out prev_seq bytes o e in
          replay_loop-IsSound crc32c f o out' (seq_of bytes) (behind_record bytes)
            (replay_record-kept IsSound IsSound-kept crc32c (type_of bytes) (payload_of bytes)
              (seq_of bytes) out o (count_record-IsSound (seq_of bytes) out s) d.made)
            (rw (e, replay_loop) at h)
    ]

-- Whatever a file holds, where its replay succeeds the Lamport high-water mark is no less than the
-- counter of any mutation, any advance and the final checkpoint's own mark; the final checkpoint's clock
-- is at most 2^60 or at most that mark, and 0 where there is no checkpoint; the mutations and the
-- advances are those of the stream of records, in its order; and the flag for a checkpoint without a
-- fingerprint is that of the final one.
pub replay_wal-IsSound :
    (crc32c : List ℕ → ℕ) (file : List ℕ) (out : Replayed)
    → replay_wal crc32c file ≡ replayed out
    → IsSound out
replay_wal-IsSound crc32c file out h =
    let (_, _, loop) = replay_wal-loop crc32c file out h in
    replay_loop-IsSound crc32c (suc (length file)) nothing_replayed out 0 (drop 8 file)
      (record {
        mutations_le = tt;
        advances_le = tt;
        checkpoint_le = omega arith;
        clock_le = inl (omega arith);
        ordered_mutations = refl;
        ordered_advances = refl;
        no_clock = inr refl;
        legacy_is = refl;
      })
      loop
