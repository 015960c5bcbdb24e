-- ===== src/Engine/Valid.antt =====
-- The invariant of the engine, and how the clock of `Join` moves.
use sovereign.Prelude.{
  ℕ, ◌+◌, ◌≤◌, ◌<◌, List, [], ◌∷◌, some, ◌≡◌, inl, inr, Option-cases, length, get_elem?, arith,
}
use sovereign.Bytes.{All}
use sovereign.Float64.{Float64}
use sovereign.Entry.{CausalDot, CrdtEntry, IncomingEntry, dot}
use sovereign.Entry.Order.{compare_dots-eq}
use sovereign.EntryMap.{EntryMap}
use sovereign.Merge.Find.{find}
use sovereign.Merge.Sorted.{IsSorted}
use sovereign.Lamport.{Clock, u64_mod, save_step, advance_lamport_to}
use sovereign.Lamport.Monotone.{IsSaved, advance_lamport_to_lem}
use sovereign.Engine.Defs.{Engine, route_shard, entries_at}
use sovereign.Engine.Join.{advance_all}
use sovereign.Engine.Incoming.{hit, find_incoming}
use sovereign.Engine.Merging.{SortedIn}
use sovereign.Engine.Shards.{All-get_elem?}

module _ (fl : Float64) (em : EntryMap) (hash : List ℕ → ℕ) where
  open em use {Map, get}

  -- There is a shard, every entry list is sorted, the clock covers every dot that is stored, and
  -- the watermark covers the clock.
  pub record IsValid (e : Engine fl em hash) : Type 0 where
    pub some_shards : 0 < length e.shards
    pub sorted : All (SortedIn fl em hash) e.shards
    pub covered :
        (k : List ℕ) (d : CausalDot) (x : CrdtEntry)
        → find d (entries_at fl em hash e.shards k) ≡ some x
        → d.counter ≤ e.clock.lamport_counter
    pub saved : IsSaved fl e.clock

  pub entries_at-IsSorted :
      (shards : List Map) (k : List ℕ)
      → All (SortedIn fl em hash) shards
      → IsSorted (entries_at fl em hash shards k)
  unfolding entries_at
  entries_at-IsSorted shards k a =
      let i = route_shard fl em hash (length shards) k in
      elim (Option-cases (get_elem? shards i)) [
        | inl e ↦ rw (e, entries_at) tt
        | inr (m, e) ↦
            rw (e, entries_at) (All-get_elem? fl em hash (SortedIn fl em hash) shards i m e a k)
      ]

  -- The counters of a delta leave room below 2^64 for the watermark.
  abbrev pub HasRoom : List IncomingEntry → Type 0
  HasRoom xs = All (λ (x : IncomingEntry). x.entry.dot_counter + save_step < u64_mod) xs

  -- After the callback the clock is at or above where it was and every counter of the delta.
  pub advance_all_lem :
      (xs : List IncomingEntry) (c : Clock fl)
      → HasRoom xs
      → IsSaved fl c
      → IsSaved fl (advance_all fl em hash xs c)
        × (c.lamport_counter ≤ (advance_all fl em hash xs c).lamport_counter)
        × All
            (λ (x : IncomingEntry).
              x.entry.dot_counter ≤ (advance_all fl em hash xs c).lamport_counter)
            xs
  unfolding advance_all
  advance_all_lem [] c r v = (v, omega arith, tt)
  advance_all_lem (x ∷ xs) c r v =
      let (at, up, ok) = advance_lamport_to_lem fl x.entry.dot_counter c r.0 v in
      let (v', up', all) =
        advance_all_lem xs (advance_lamport_to fl x.entry.dot_counter c) r.1 ok in
      (v', omega arith, (omega arith, all))

  -- A dot of the delta has the counter of an entry of the delta.
  pub incoming_counter :
      (bound : ℕ) (k : List ℕ) (d : CausalDot) (xs : List IncomingEntry) (y : CrdtEntry)
      → All (λ (x : IncomingEntry). x.entry.dot_counter ≤ bound) xs
      → find_incoming k d xs ≡ some y
      → d.counter ≤ bound
  unfolding hit
  incoming_counter bound k d [] y a h = cc
  incoming_counter bound k d (x ∷ xs) y a h =
      ground (arith, incoming_counter bound k d xs y, compare_dots-eq d (dot x.entry))
