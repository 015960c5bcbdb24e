-- ===== src/Lamport/Monotone.antt =====
-- The clock only goes forward, the saved watermark stays at or above it, and a restart after
-- `Close` never hands out a counter again.
use sovereign.Prelude.{
  ℕ, ◌+◌, ◌≤◌, ◌<◌, ◌≡◌, refl, List, [], ◌∷◌, Option, none, some, take, length-take, inl, inr,
  Option-cases, arith,
}
use Prim.Native.Nat.{max}
use sovereign.Bytes.{be_bytes, be_value-be_bytes, be_value-lt, IsByte, All, All-take, All-weaken}
use sovereign.Float64.{Float64}
use sovereign.Lamport.{
  u64_mod, save_step, Clock, next_dot, advance_lamport_to, recover_lamport, persist_lamport,
  new_clock, close, final_counter, start_counter,
}

-- The counter file holds what was written.
recover-persist : (v : ℕ) → v < u64_mod → recover_lamport (persist_lamport v) ≡ some v
unfolding recover_lamport persist_lamport be_bytes
recover-persist v h = rw (be_value-be_bytes 8 v h) refl

-- The bytes of a counter file, where there is one.
abbrev pub IsFile : Option (List ℕ) → Type 0
IsFile none = Unit
IsFile (some bytes) = All IsByte bytes

recovered_fits :
    (file : Option (List ℕ)) (v : ℕ) → IsFile file → recover_lamport file ≡ some v → v < u64_mod
unfolding recover_lamport
recovered_fits none v f h = cc
recovered_fits (some bytes) v f h =
    ground (arith, be_value-lt (take 8 bytes) (All-take IsByte 8 bytes f), length-take 8 bytes)

pub start_counter-lt :
    (initial : ℕ) (file : Option (List ℕ))
    → initial < u64_mod
    → IsFile file
    → start_counter initial (recover_lamport file) < u64_mod
unfolding start_counter
start_counter-lt initial file h f = elim (Option-cases (recover_lamport file)) [
  | inl e ↦ rw e h
  | inr (v, e) ↦ rw e (ground (arith, recovered_fits file v f e))
]

module _ (fl : Float64) where
  -- The counter is at most the watermark, and the watermark is a uint64.
  pub record IsSaved (c : Clock fl) : Type 0 where
    pub covered : c.lamport_counter ≤ c.last_saved_counter
    pub fits : c.last_saved_counter < u64_mod

  -- Below the last thousand counters, with a watermark that covers the clock, the new dot of
  -- `NextDot` is this node's and one above the counter, which becomes the dot's,
  -- and the watermark covers it and has not gone back.
  pub next_dot_lem :
      (node : List ℕ) (c : Clock fl)
      → c.lamport_counter + 1 + save_step < u64_mod
      → IsSaved c
      → ((next_dot fl node c).0 ≡ record { node_id = node; counter = c.lamport_counter + 1 })
        × ((next_dot fl node c).1.lamport_counter ≡ c.lamport_counter + 1)
        × (c.last_saved_counter ≤ (next_dot fl node c).1.last_saved_counter)
        × IsSaved (next_dot fl node c).1
  unfolding next_dot
  next_dot_lem node c room v = ground arith

  -- For a remote counter at least a thousand below 2^64, and a watermark that covers the clock,
  -- `AdvanceLamportTo` makes the counter the larger of the two; the watermark covers it and has
  -- not gone back.
  pub advance_lamport_to_lem :
      (r : ℕ) (c : Clock fl)
      → r + save_step < u64_mod
      → IsSaved c
      → ((advance_lamport_to fl r c).lamport_counter ≡ max r c.lamport_counter)
        × (c.last_saved_counter ≤ (advance_lamport_to fl r c).last_saved_counter)
        × IsSaved (advance_lamport_to fl r c)
  unfolding advance_lamport_to
  advance_lamport_to_lem r c room v = ground arith

  -- The counter in the file, 0 where none can be read.
  abbrev pub counter_in : Option (List ℕ) → ℕ
  counter_in file = elim (recover_lamport file) [ none ↦ 0 | some v ↦ v ]

  final_counter_bounds :
      (c : Clock fl) (file : Option (List ℕ))
      → IsFile file
      → IsSaved c
      → (c.last_saved_counter ≤ final_counter fl c file)
        × (counter_in file ≤ final_counter fl c file)
        × (final_counter fl c file < u64_mod)
  unfolding final_counter
  final_counter_bounds c file f v = elim (Option-cases (recover_lamport file)) [
    | inl e ↦ rw e (ground arith)
    | inr (w, e) ↦ rw e (ground (arith, recovered_fits file w f e))
  ]

  -- The life of an engine's clock from its opening on, with the counters that it started with,
  -- handed out and was advanced to, newest first; all of them are a thousand below 2^64.
  pub data Lives (node : List ℕ) : List ℕ → Clock fl → Type 0 where
    opens :
        (initial : ℕ) (file : Option (List ℕ))
        → initial < u64_mod
        → IsFile file
        → Lives node ((new_clock fl initial file).lamport_counter ∷ []) (new_clock fl initial file)
    mints :
        {ns : List ℕ} {c : Clock fl}
        → Lives node ns c
        → c.lamport_counter + 1 + save_step < u64_mod
        → Lives node ((next_dot fl node c).0.counter ∷ ns) (next_dot fl node c).1
    advances :
        {ns : List ℕ} {c : Clock fl} (r : ℕ)
        → Lives node ns c
        → r + save_step < u64_mod
        → Lives node (r ∷ ns) (advance_lamport_to fl r c)

  new_clock-IsSaved :
      (initial : ℕ) (file : Option (List ℕ))
      → initial < u64_mod
      → IsFile file
      → IsSaved (new_clock fl initial file)
  unfolding new_clock
  new_clock-IsSaved initial file h f = record {
    covered = omega arith;
    fits = start_counter-lt initial file h f;
  }

  AllUpTo-trans :
      (ns : List ℕ) (a b : ℕ) → a ≤ b → All (λ (n : ℕ). n ≤ a) ns → All (λ (n : ℕ). n ≤ b) ns
  AllUpTo-trans ns a b up below =
      All-weaken (λ (n : ℕ). n ≤ a) (λ (n : ℕ). n ≤ b) ns (λ n k. omega (arith, k, up)) below

  -- The clock covers its past, and the watermark covers the clock.
  Lives-covered :
      {node ns : List ℕ} {c : Clock fl}
      → Lives node ns c
      → IsSaved c × All (λ (n : ℕ). n ≤ c.lamport_counter) ns
  Lives-covered (opens initial file h f) = (new_clock-IsSaved initial file h f, (omega arith, tt))
  Lives-covered {node} (mints {ns} {c} l room) =
      let (v, below) = Lives-covered l in
      let (dot, at, _, v') = next_dot_lem node c room v in
      (v', (rw (dot, at) (omega arith), AllUpTo-trans ns _ _ (omega (arith, at)) below))
  Lives-covered (advances {ns} {c} r l room) =
      let (v, below) = Lives-covered l in
      let (at, _, v') = advance_lamport_to_lem r c room v in
      (v', (omega (arith, at), AllUpTo-trans ns _ _ (omega (arith, at)) below))

  -- Whatever an engine's clock did since it opened, and whatever bytes the counter file holds when
  -- `Close` writes it, an engine that opens on what was written starts at or above every counter that
  -- the closed one started with, handed out or was advanced to, its watermark, and the counter that
  -- the file held. The counters stay a thousand below 2^64.
  pub restart_covers :
      (node ns : List ℕ) (c : Clock fl) (file : Option (List ℕ)) (initial : ℕ)
      → Lives node ns c
      → IsFile file
      → let start = (new_clock fl initial (close fl c file)).lamport_counter in
        All (λ (n : ℕ). n ≤ start) ns × (c.last_saved_counter ≤ start) × (counter_in file ≤ start)
  unfolding close new_clock start_counter
  restart_covers node ns c file initial l f =
      let (v, below) = Lives-covered l in
      let (saved, held, fits) = final_counter_bounds c file f v in
      let start = (new_clock fl initial (close fl c file)).lamport_counter in
      let up : final_counter fl c file ≤ start =
        ground (arith, recover-persist (final_counter fl c file) fits) in
      (
        AllUpTo-trans ns c.lamport_counter start (omega (arith, up, saved, v.covered)) below,
        omega (arith, up, saved),
        omega (arith, up, held),
      )
