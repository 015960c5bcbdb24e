-- ===== src/Lamport.antt =====
-- The Lamport clock of the engine (pkg/sync/crdt.go): `NextDot` and `AdvanceLamportTo`, run by one
-- goroutine at a time, so that each compare-and-swap succeeds at its first attempt, and the counter
-- file that `persistLamport` writes and `recoverLamport` reads.
-- `offered` lists, newest first, the values handed to the persist worker by the non-blocking send;
-- which of them the worker takes depends on the scheduler.
pub mod Monotone
use sovereign.Prelude.{
  ℕ, ◌+◌, ◌-◌, ◌%◌, ◌^◌, List, [], ◌∷◌, Option, none, some, leb, ltb, length, take, if◌then◌else◌,
}
use sovereign.Bytes.{be_bytes, be_value}
use sovereign.Entry.{CausalDot}
use sovereign.Float64.{Float64}

abbrev pub u64_mod : ℕ
u64_mod = 2 ^ 64

-- The distance between a counter and the watermark that is saved for it.
abbrev pub save_step : ℕ
save_step = 1000

-- `recoverLamport` on the bytes of the counter file; `none` is an error, a missing file too.
unfoldable pub recover_lamport : Option (List ℕ) → Option ℕ
recover_lamport none = none
recover_lamport (some bytes) = if ltb (length bytes) 8 then none else some (be_value (take 8 bytes))

-- What a successful `persistLamport` leaves in the file.
unfoldable pub persist_lamport : ℕ → Option (List ℕ)
persist_lamport val = some (be_bytes 8 val)

-- The counter that an engine starts with: what was recovered, where that is larger.
unfoldable pub start_counter : ℕ → Option ℕ → ℕ
start_counter initial_counter none = initial_counter
start_counter initial_counter (some recovered) =
    if ltb initial_counter recovered then recovered else initial_counter

module _ (fl : Float64) where
  open fl use {Float, zero_float, tenth, nine_tenths, from_u64, add, mul}

  -- `observed_inbound_rate` is the float whose bits the code stores.
  pub record Clock : Type 0 where
    pub lamport_counter : ℕ
    pub last_saved_counter : ℕ
    pub offered : List ℕ
    pub observed_inbound_rate : Float

  -- `NextDot`
  unfoldable pub next_dot : List ℕ → Clock → CausalDot × Clock
  next_dot node c =
      let counter = (c.lamport_counter + 1) % u64_mod in
      let dot : CausalDot = record { node_id = node; counter = counter } in
      let c' = record c { lamport_counter = counter } in
      if leb counter c.last_saved_counter
      then (dot, c')
      else let next_limit = (counter + save_step) % u64_mod in
        if leb next_limit c.last_saved_counter
        then (dot, c')
        else (dot, record c' { last_saved_counter = next_limit; offered = next_limit ∷ c.offered })

  -- The watermark's part of `AdvanceLamportTo`.
  unfoldable pub raise_saved : ℕ → Clock → Clock
  raise_saved remote_counter c =
      if leb remote_counter c.last_saved_counter
      then c
      else let next_limit = (remote_counter + save_step) % u64_mod in
        record c { last_saved_counter = next_limit; offered = next_limit ∷ c.offered }

  -- `AdvanceLamportTo`; the difference does not wrap, since the counter is below the remote one.
  unfoldable pub advance_lamport_to : ℕ → Clock → Clock
  unfolding raise_saved
  advance_lamport_to remote_counter c =
      if leb remote_counter c.lamport_counter
      then c
      else let delta = remote_counter - c.lamport_counter in
        let c' = raise_saved remote_counter (record c { lamport_counter = remote_counter }) in
        record c' {
          observed_inbound_rate =
              add (mul tenth (from_u64 delta)) (mul nine_tenths c.observed_inbound_rate);
        }

  -- The clock of `NewDeltaCRDTEngine`: the saved counter lifts the caller's.
  unfoldable pub new_clock : ℕ → Option (List ℕ) → Clock
  new_clock initial_counter file =
      let start = start_counter initial_counter (recover_lamport file) in
      record {
        lamport_counter = start;
        last_saved_counter = start;
        offered = [];
        observed_inbound_rate = zero_float;
      }

  -- The value that `Close` writes last: the larger of the file's counter and the watermark (a file
  -- that cannot be read counts as 0).
  unfoldable pub final_counter : Clock → Option (List ℕ) → ℕ
  final_counter c file =
      let current : ℕ = elim (recover_lamport file) [ none ↦ 0 | some v ↦ v ] in
      if ltb c.last_saved_counter current then current else c.last_saved_counter

  -- The file after `Close`, whose write succeeds.
  unfoldable pub close : Clock → Option (List ℕ) → Option (List ℕ)
  unfolding final_counter
  close c file = persist_lamport (final_counter c file)
