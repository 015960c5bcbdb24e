-- ===== src/Receive/Skewed.antt =====
-- The clock gate and the skew bound of `ReconstructEntryWithSkewBound` together.
use sovereign.Prelude.{ℕ, ◌≤◌, ◌≡◌, refl, List, true, ltb, if◌then◌else◌, arith}
use sovereign.Prelude.Int.{ℤ}
use sovereign.Float64.{Float64}
use sovereign.EntryMap.{EntryMap}
use sovereign.Lamport.{Clock, advance_lamport_to}
use sovereign.Skew.{max_uint64, max_acceptable_dot_counter, max_acceptable_dot_counter_lem}
use sovereign.WallClock.{admit}
use sovereign.Reconstruct.{
  WireEvent, Checked, checked, rejected, ReconstructedEntry, and_then, lamport_skew_poisoning,
  reconstruct_entry, reconstruct_entry_with_skew_bound, reconstruct_entry-IsVouched,
}
use sovereign.Receive.{Receiver, snapshot_of}

module _ (fl : Float64) where
  advance-above : (n : ℕ) (c : Clock fl) → n ≤ (advance_lamport_to fl n c).lamport_counter
  unfolding advance_lamport_to
  advance-above n c = ground arith

  advance-lt :
      (n m : ℕ) (c : Clock fl)
      → n ≤ m
      → c.lamport_counter ≤ m
      → (advance_lamport_to fl n c).lamport_counter ≤ m
  unfolding advance_lamport_to
  advance-lt n m c h k = ground arith

  admit-clock :
      (local physical : ℤ) (n : ℕ) (c : Clock fl)
      → (admit fl local physical n c).0 ≡ true
      → (admit fl local physical n c).1 ≡ advance_lamport_to fl n c
  unfolding admit
  admit-clock local physical n c h = ground arith

  skew_passes :
      (sha256 : List ℕ → List ℕ) (ev : WireEvent) (bound : ℕ) (c : Checked ReconstructedEntry)
      → reconstruct_entry sha256 ev ≡ c
      → ev.dot_counter ≤ bound
      → and_then c (λ r.
        if ltb bound r.entry.dot_counter then rejected lamport_skew_poisoning else checked r)
        ≡ c
  skew_passes sha256 ev bound (rejected e) h small = refl
  skew_passes sha256 ev bound (checked r) h small =
      let v = reconstruct_entry-IsVouched sha256 ev r h in ground (arith, v.counter)

module _ (fl : Float64) (em : EntryMap) (hash : List ℕ → ℕ) where
  -- Behind the clock gate the skew bound never refuses an event: the gate has moved the clock, from
  -- which the bound is counted, to the event's own counter.
  pub admit-defeats_skew :
      (sha256 : List ℕ → List ℕ) (ev : WireEvent) (local physical : ℤ) (r : Receiver fl em hash)
      → ev.dot_counter ≤ max_uint64
      → r.engine.clock.lamport_counter ≤ max_uint64
      → (admit fl local physical ev.dot_counter r.engine.clock).0 ≡ true
      → let clock' = (admit fl local physical ev.dot_counter r.engine.clock).1 in
        reconstruct_entry_with_skew_bound sha256 fl ev
          (snapshot_of fl em hash (record r { engine = record r.engine { clock = clock' } }))
        ≡ reconstruct_entry sha256 ev
  unfolding reconstruct_entry_with_skew_bound snapshot_of
  admit-defeats_skew sha256 ev local physical r small fits ok =
      let c = r.engine.clock in
      let n = ev.dot_counter in
      let moved = admit-clock fl local physical n c ok in
      let above = advance-above fl n c in
      let s =
        snapshot_of fl em hash
          (record r { engine = record r.engine { clock = (admit fl local physical n c).1 } }) in
      let low : n ≤ s.lamport = rw moved above in
      let high : s.lamport ≤ max_uint64 = rw moved (advance-lt fl n max_uint64 c small fits) in
      let (_, bound, _) = max_acceptable_dot_counter_lem fl s high in
      skew_passes fl sha256 ev (max_acceptable_dot_counter fl s) (reconstruct_entry sha256 ev) refl
        (omega (arith, low, bound))
