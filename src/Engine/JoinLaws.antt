-- ===== src/Engine/JoinLaws.antt =====
-- What `Join` promises: it returns, keeps the invariant, and leaves at each entity and dot the
-- entry that was there, or else one of the delta's there.
use sovereign.Prelude.{
  ℕ, ◌<◌, ◌≤◌, List, [], ◌∷◌, Option, none, some, false, ◌≡◌, sym, ap, ◌∙◌, inl, inr, length, arith,
}
use mathlib.Core.List.Permᴰ
use sovereign.Bytes.{All}
use sovereign.Float64.{Float64}
use sovereign.Entry.{CausalDot, CrdtEntry, IncomingEntry}
use sovereign.EntryMap.{EntryMap}
use sovereign.Merge.Find.{find, or_else}
use sovereign.Engine.Defs.{Engine, done, entries_at, point_get}
use sovereign.Engine.Join.{dedup_incoming, group_blocks, advance_all, join_incoming, join}
use sovereign.Engine.Incoming.{find_incoming, find-blocks}
use sovereign.Engine.Blocks.{dedup-sorted}
use sovereign.Engine.Sorter.{Sorter, All-Perm}
use sovereign.Engine.Picks.{Picks, find-Picks, Picks-Perm}
use sovereign.Engine.Merging.{SortedIn, or_else-none, or_else-some}
use sovereign.Engine.Rounds.{find-join_shards}
use sovereign.Engine.Valid.{IsValid, HasRoom, advance_all_lem, incoming_counter}

module _ (fl : Float64) (em : EntryMap) (hash : List ℕ → ℕ) (so : Sorter) where
  -- The engine after the delta `xs`, where `join` does not panic.
  abbrev pub joined : List IncomingEntry → Engine fl em hash → Engine fl em hash
  joined [] e = e
  joined (x ∷ xs) e =
      join_incoming fl em hash so (x ∷ xs)
        (record e { clock = advance_all fl em hash (x ∷ xs) e.clock })

  join-joined :
      (xs : List IncomingEntry) (e : Engine fl em hash)
      → e.closing ≡ false
      → join fl em hash so (some xs) e ≡ done (joined xs e)
  unfolding join
  join-joined [] e h = rw h
  join-joined (x ∷ xs) e h = rw h

  -- The shards after `join_incoming`.
  join_incoming-shards :
      (xs : List IncomingEntry) (e : Engine fl em hash) (k : List ℕ) (d : CausalDot)
      → 0 < length e.shards
      → All (SortedIn fl em hash) e.shards
      → (find d (entries_at fl em hash (join_incoming fl em hash so xs e).shards k)
          ≡ or_else (find d (entries_at fl em hash e.shards k)) (find_incoming k d (so.sort xs)))
        × All (SortedIn fl em hash) (join_incoming fl em hash so xs e).shards
        × (length (join_incoming fl em hash so xs e).shards ≡ length e.shards)
  unfolding join_incoming
  join_incoming-shards xs e k d pos a =
      let blocks = group_blocks (dedup_incoming (so.sort xs)) in
      let (found, sorted, len) =
        find-join_shards fl em hash blocks
          record { shards = e.shards; total_inserted = 0; total_skipped = 0 } k d pos
          (dedup-sorted (so.sort xs) (so.ascending xs)) a in
      (
        found
            ∙ ap (or_else (find d (entries_at fl em hash e.shards k)))
                (find-blocks k d (so.sort xs)),
        sorted,
        len,
      )

  -- The entry that the sorted delta has first.
  abbrev taken : List IncomingEntry → List ℕ → CausalDot → Option CrdtEntry
  taken [] k d = none
  taken (x ∷ xs) k d = find_incoming k d (so.sort (x ∷ xs))

  taken-Picks : (xs : List IncomingEntry) (k : List ℕ) (d : CausalDot) → Picks k d xs (taken xs k d)
  taken-Picks [] k d = find-Picks k d []
  taken-Picks (x ∷ xs) k d =
      let p = so.perm (x ∷ xs) in
      Picks-Perm k d (taken (x ∷ xs) k d) p (Permᴰ.symm p) (find-Picks k d (so.sort (x ∷ xs)))

  -- At each entity and dot.
  point_get-joined :
      (xs : List IncomingEntry) (e : Engine fl em hash) (k : List ℕ) (d : CausalDot)
      → IsValid fl em hash e
      → find d (point_get fl em hash (joined xs e) k)
        ≡ or_else (find d (point_get fl em hash e k)) (taken xs k d)
  unfolding point_get
  point_get-joined [] e k d v = sym (or_else-none (find d (entries_at fl em hash e.shards k)))
  point_get-joined (x ∷ xs) e k d v =
      (join_incoming-shards (x ∷ xs) (record e { clock = advance_all fl em hash (x ∷ xs) e.clock })
        k d v.some_shards v.sorted).0

  pub joined-IsValid :
      (xs : List IncomingEntry) (e : Engine fl em hash)
      → HasRoom fl em hash xs
      → IsValid fl em hash e
      → IsValid fl em hash (joined xs e)
  unfolding join_incoming
  joined-IsValid [] e r v = v
  joined-IsValid (x ∷ xs) e r v =
      let clock' = advance_all fl em hash (x ∷ xs) e.clock in
      let e' = record e { clock = clock' } in
      let (ok, up, above) = advance_all_lem fl em hash (x ∷ xs) e.clock r v.saved in
      let at = λ (k : List ℕ) (d : CausalDot).
        join_incoming-shards (x ∷ xs) e' k d v.some_shards v.sorted in
      let (_, sorted, len) = at [] record { node_id = []; counter = 0 } in
      record {
        some_shards = rw len v.some_shards;
        sorted = sorted;
        covered = λ k d y h.
            elim (or_else-some (find d (entries_at fl em hash e.shards k)) (taken (x ∷ xs) k d) y
              (sym ((at k d).0) ∙ h)) [
                | inl old ↦ omega (arith, v.covered k d y old)
                | inr new ↦
                    incoming_counter fl em hash clock'.lamport_counter k d (so.sort (x ∷ xs)) y
                      (All-Perm
                        (λ (z : IncomingEntry). z.entry.dot_counter ≤ clock'.lamport_counter)
                        (x ∷ xs) (so.sort (x ∷ xs)) (so.perm (x ∷ xs)) above)
                      new
              ];
        saved = ok;
      }

  joined-closing :
      (xs : List IncomingEntry) (e : Engine fl em hash)
      → e.closing ≡ false
      → (joined xs e).closing ≡ false
  unfolding join_incoming
  joined-closing [] e h = h
  joined-closing (x ∷ xs) e h = h

  -- On a valid engine that is open, `Join` of any delta with room returns, the engine is valid
  -- again, and at each entity and dot it holds the entry that it held, or else one that the delta
  -- has there, or nothing where neither has one. The delta may repeat an entity and dot; which of
  -- the repeats is taken is left to the sort.
  pub join_lem :
      (xs : List IncomingEntry) (e : Engine fl em hash)
      → e.closing ≡ false
      → HasRoom fl em hash xs
      → IsValid fl em hash e
      → (e' : Engine fl em hash) × (join fl em hash so (some xs) e ≡ done e')
        × IsValid fl em hash e'
        × (e'.closing ≡ false)
        × ((k : List ℕ) (d : CausalDot)
            → (o : Option CrdtEntry) × (find d (point_get fl em hash e' k)
                ≡ or_else (find d (point_get fl em hash e k)) o)
              × Picks k d xs o)
  join_lem xs e o r v = (
    joined xs e,
    join-joined xs e o,
    joined-IsValid xs e r v,
    joined-closing xs e o,
    λ k d. (taken xs k d, point_get-joined xs e k d v, taken-Picks xs k d),
  )
