-- ===== src/Engine/Convergence.antt =====
-- Replicas converge: what an engine holds depends on the entries that it received, and not on the
-- order, the grouping or the repetition of the deltas that brought them.
use sovereign.Prelude.{ℕ, List, [], ◌∷◌, ◌++◌, some}
use sovereign.Float64.{Float64}
use sovereign.Entry.{IncomingEntry}
use sovereign.EntryMap.{EntryMap}
use sovereign.Engine.Defs.{Engine, Outcome, done, panic}
use sovereign.Engine.Join.{join}
use sovereign.Engine.Sorter.{Sorter}
use sovereign.Engine.Picks.{Picks}
use sovereign.Engine.Valid.{HasRoom}

-- All entries that the deltas bring, in their order.
abbrev pub entries_in : List (List IncomingEntry) → List IncomingEntry
entries_in [] = []
entries_in (xs ∷ deltas) = xs ++ entries_in deltas

module _ (fl : Float64) (em : EntryMap) (hash : List ℕ → ℕ) (so : Sorter) where
  -- The deltas joined one after the other.
  unfoldable pub join_all :
      List (List IncomingEntry) → Engine fl em hash → Outcome (Engine fl em hash)
  join_all [] e = done e
  join_all (xs ∷ deltas) e = elim (join fl em hash so (some xs) e) [
    | done e' ↦ join_all deltas e'
    | panic ↦ panic
  ]

  abbrev pub AllRoom : List (List IncomingEntry) → Type 0
  AllRoom [] = Unit
  AllRoom (xs ∷ deltas) = HasRoom fl em hash xs × AllRoom deltas
