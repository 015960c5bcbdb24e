-- ===== src/Tests/ClockTests.antt =====
-- The clock, the rate gate and the skew bound at concrete values.
use sovereign.Prelude.{
  ℕ, ◌+◌, ◌≤◌, ◌<◌, some, ◌≡◌, ◌&&◌, ◌==◌, ltb, length, refl, List, [], ◌∷◌, none, false, replicate,
  if◌then◌else◌, arith,
}
use Prim.Native.Nat.{min}
use sovereign.EntryMap.{same_key}
use sovereign.Entry.{compare_bytes}
use sovereign.Lamport.{
  Clock, new_clock, close, next_dot, advance_lamport_to, save_step, u64_mod, start_counter,
  recover_lamport,
}
use sovereign.Lamport.Monotone.{IsFile, Lives, counter_in, restart_covers}
use sovereign.Bytes.{All}
use sovereign.Admission.{initial_budget, keep, drop, accept, peer_of, new_peer}
use sovereign.Admission.Budget.{AllBalanced, accept_lem}
use sovereign.Skew.{
  LamportSnapshot, max_uint64, envelope_of, max_acceptable_dot_counter,
  max_acceptable_dot_counter_lem,
}
use sovereign.Tests.Models.{test_float}

-- A clock that opens at 5, hands out 6 and is advanced to 900.
abbrev clock : Clock test_float
clock =
    advance_lamport_to test_float 900 (next_dot test_float (7 ∷ []) (new_clock test_float 5 none)).1

clock_room : (new_clock test_float 5 none).lamport_counter + 1 + save_step < u64_mod
unfolding new_clock start_counter recover_lamport
clock_room = omega arith

clock-Lives :
    Lives test_float
      (7 ∷ [])
      (900
        ∷ (next_dot test_float (7 ∷ []) (new_clock test_float 5 none)).0.counter
        ∷ (new_clock test_float 5 none).lamport_counter
        ∷ [])
      clock
clock-Lives =
    Lives.advances 900 (Lives.mints (Lives.opens 5 none (omega arith) tt) clock_room) (omega arith)

-- The file holds 4096 when it is closed.
abbrev counter_file : List ℕ
counter_file = 0 ∷ 0 ∷ 0 ∷ 0 ∷ 0 ∷ 0 ∷ 16 ∷ 0 ∷ []

counter_bytes : IsFile (some counter_file)
counter_bytes = (
  omega arith,
  (
    omega arith,
    (omega arith, (omega arith, (omega arith, (omega arith, (omega arith, (omega arith, tt)))))),
  ),
)

restart_covers_example :
    let start =
      (new_clock test_float 3 (close test_float clock (some counter_file))).lamport_counter in
    All
      (λ (n : ℕ). n ≤ start)
      (900
        ∷ (next_dot test_float (7 ∷ []) (new_clock test_float 5 none)).0.counter
        ∷ (new_clock test_float 5 none).lamport_counter
        ∷ [])
    × (clock.last_saved_counter ≤ start)
    × (counter_in test_float (some counter_file) ≤ start)
restart_covers_example =
    restart_covers test_float (7 ∷ [])
      (900
        ∷ (next_dot test_float (7 ∷ []) (new_clock test_float 5 none)).0.counter
        ∷ (new_clock test_float 5 none).lamport_counter
        ∷ [])
      clock (some counter_file) 3 clock-Lives counter_bytes

other_key : same_key (2 ∷ []) (replicate 32 1) ≡ false
unfolding compare_bytes
other_key = refl

abbrev node_key : List ℕ
node_key = replicate 32 1

accept_lem_example :
    ((accept test_float node_key 5 ((replicate 32 2, new_peer test_float) ∷ [])).0
      ≡ (if (length node_key == 32) && ltb 5 initial_budget then keep else drop))
    × AllBalanced test_float
        (accept test_float node_key 5 ((replicate 32 2, new_peer test_float) ∷ [])).1
    × (peer_of test_float
          (2 ∷ [])
          (accept test_float node_key 5 ((replicate 32 2, new_peer test_float) ∷ [])).1
        ≡ peer_of test_float (2 ∷ []) ((replicate 32 2, new_peer test_float) ∷ []))
accept_lem_example =
    accept_lem test_float node_key (2 ∷ []) 5 ((replicate 32 2, new_peer test_float) ∷ [])
      ((omega arith, omega arith), tt) other_key

abbrev snapshot : LamportSnapshot test_float
snapshot = record {
  lamport = 40;
  observed_inbound_rate = 2;
  horizon_seconds = 60;
  absolute_slack = 1000;
}

max_acceptable_dot_counter_lem_example :
    (max_acceptable_dot_counter test_float snapshot
      ≡ min max_uint64 (40 + envelope_of test_float snapshot + 1000))
    × (40 ≤ max_acceptable_dot_counter test_float snapshot)
    × (envelope_of test_float snapshot ≤ max_uint64)
max_acceptable_dot_counter_lem_example =
    max_acceptable_dot_counter_lem test_float snapshot (omega arith)
