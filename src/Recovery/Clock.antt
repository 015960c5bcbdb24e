-- ===== src/Recovery/Clock.antt =====
-- The clock of a recovered engine covers all that the log shows.
use sovereign.Prelude.{ℕ, ◌≤◌, ◌≡◌, sym, ap, ◌∙◌, List, [], ◌∷◌, ◌++◌, some, arith}
use Prim.Native.Nat.{max}
use sovereign.Bytes.{All, All-weaken}
use sovereign.Wal.{WalMutation}
use sovereign.Wal.Replay.{Replayed, replayed, replay_wal}
use sovereign.Wal.Sound.{IsSound}
use sovereign.Wal.Reports.{replay_wal-IsSound}
use sovereign.Recovery.{
  StoreAnswer, EngineCall, advance_to, rebuilt_initial, restore_calls, recover_calls,
}
use sovereign.Recovery.Joined.{some_injective}
use sovereign.Recovery.Complete.{both-some}

rebuilt_initial-max :
    (rep : Replayed)
    → IsSound rep
    → rebuilt_initial rep ≡ max rep.lamport_high rep.final_checkpt.clock_high
unfolding rebuilt_initial
rebuilt_initial-max rep s = grind (arith, s.no_clock)

-- Where the log of a file is replayed and the recovery goes through, its last call moves the engine's
-- clock to the larger of the log's high-water mark and the final checkpoint's clock, and so to a number
-- that is no less than the counter of any mutation, any advance of the log, or that clock.
pub recover_calls-clock :
    (crc32c : List ℕ → ℕ) (file node_id : List ℕ) (rep : Replayed) (answer : StoreAnswer)
    (calls : List EngineCall)
    → replay_wal crc32c file ≡ replayed rep
    → recover_calls node_id rep answer ≡ some calls
    → (before : List EngineCall) × ((n : ℕ) × (calls ≡ before ++ advance_to n ∷ [])
        × (n ≡ max rep.lamport_high rep.final_checkpt.clock_high)
        × (rep.final_checkpt.clock_high ≤ n)
        × All (λ (m : WalMutation). m.counter ≤ n) rep.mutations
        × All (λ (a : ℕ). a ≤ n) rep.advances)
unfolding recover_calls
recover_calls-clock crc32c file node_id rep answer calls h r =
    let s = replay_wal-IsSound crc32c file rep h in
    let n = rebuilt_initial rep in
    let is_max = rebuilt_initial-max rep s in
    let up : rep.lamport_high ≤ n = omega (arith, is_max) in
    let (xs, (ys, front, last, whole)) =
      both-some (restore_calls node_id rep answer) (some (advance_to n ∷ [])) calls r in
    let end = some_injective (advance_to n ∷ []) ys last in
    (
      xs,
      (
        n,
        sym whole ∙ ap (λ (t : List EngineCall). xs ++ t) (sym end),
        is_max,
        omega (arith, is_max),
        All-weaken (λ (m : WalMutation). m.counter ≤ rep.lamport_high)
            (λ (m : WalMutation). m.counter ≤ n) rep.mutations (λ m k. omega (arith, k, up))
            s.mutations_le,
        All-weaken (λ (a : ℕ). a ≤ rep.lamport_high) (λ (a : ℕ). a ≤ n) rep.advances
            (λ a k. omega (arith, k, up)) s.advances_le,
      ),
    )
