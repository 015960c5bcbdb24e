-- ===== src/Engine/Picks.antt =====
-- Which of a delta's entries `Join` takes for an entity and a dot: one of those that the delta has
-- there. Which one is the sort's choice.
use sovereign.Prelude.{
  ℕ, List, [], ◌∷◌, ◌++◌, Option, none, some, ◌≡◌, refl, sym, ◌∙◌, ap, inl, inr, ◌⊎◌, ◌↔◌,
  Option-cases, arith,
}
use sovereign.Prelude.Members.{Mem, Mem-append, Mem-split}
use mathlib.Core.List.{Permᴰ}
use sovereign.Entry.{CausalDot, CrdtEntry, IncomingEntry, dot}
use sovereign.Entry.Order.{compare_bytes_refl, compare_bytes-eq, compare_dots-eq, compare_dots_refl}
use sovereign.Merge.Find.{or_else}
use sovereign.Engine.Incoming.{hit, find_incoming}
use sovereign.Engine.Sorter.{Mem-Perm}

abbrev pub SameEntries : List IncomingEntry → List IncomingEntry → Type 0
SameEntries xs ys = (x : IncomingEntry) → Mem x xs ↔ Mem x ys

-- No two different entries at one entity and dot.
abbrev pub Coherent : List IncomingEntry → Type 0
Coherent xs =
    (x y : IncomingEntry)
    → Mem x xs
    → Mem y xs
    → x.entity_id ≡ y.entity_id
    → dot x.entry ≡ dot y.entry
    → x.entry ≡ y.entry

module _ (k : List ℕ) (d : CausalDot) where
  abbrev pub IsAt : IncomingEntry → Type 0
  IsAt x = (x.entity_id ≡ k) × (dot x.entry ≡ d)

  -- Nothing, where the list has no entry of the entity and the dot; else one that it has there.
  abbrev pub Picks : List IncomingEntry → Option CrdtEntry → Type 0
  Picks xs o =
      ((o ≡ none) × ((x : IncomingEntry) → Mem x xs → IsAt x → ⊥))
      ⊎ ((x : IncomingEntry) × Mem x xs × IsAt x × (o ≡ some x.entry))

  hit-IsAt : (x : IncomingEntry) (y : CrdtEntry) → hit k d x ≡ some y → IsAt x × (y ≡ x.entry)
  unfolding hit
  hit-IsAt x y h = ground (arith, compare_bytes-eq k x.entity_id, compare_dots-eq d (dot x.entry))

  IsAt-hit : (x : IncomingEntry) → IsAt x → hit k d x ≡ some x.entry
  unfolding hit
  IsAt-hit x a = ground (arith, a.0, a.1, compare_bytes_refl k, compare_dots_refl d)

  pub find-Picks : (xs : List IncomingEntry) → Picks xs (find_incoming k d xs)
  find-Picks [] = inl (refl, λ x m a. m)
  find-Picks (x ∷ xs) = elim (Option-cases (hit k d x)) [
    | inr (y, h) ↦ let (a, e) = hit-IsAt x y h in rw h (inr (x, inl refl, a, ap some e))
    | inl h ↦ elim (find-Picks xs) [
      | inl (e, no_hit) ↦
          rw (h, e)
            (inl (
              refl,
              λ z m a. elim m [ inl same ↦ let k = IsAt-hit z a in cc | inr m' ↦ no_hit z m' a ],
            ))
      | inr (y, m, a, e) ↦ rw (h, e) (inr (y, inr m, a, refl))
    ]
  ]

  pub Picks-Perm :
      {xs ys : List IncomingEntry} (o : Option CrdtEntry)
      → Permᴰ xs ys
      → Permᴰ ys xs
      → Picks xs o
      → Picks ys o
  Picks-Perm o p q (inl (e, no_hit)) = inl (e, λ x m a. no_hit x (Mem-Perm x q m) a)
  Picks-Perm o p q (inr (x, m, a, e)) = inr (x, Mem-Perm x p m, a, e)

  pub Picks-append :
      (xs ys : List IncomingEntry) (o o' : Option CrdtEntry)
      → Picks xs o
      → Picks ys o'
      → Picks (xs ++ ys) (or_else o o')
  Picks-append xs ys o o' (inr (x, m, a, e)) q = rw e (inr (x, Mem-append x xs ys (inl m), a, refl))
  Picks-append xs ys o o' (inl (e, no_hit)) (inr (y, m, a, f)) =
      rw (e, f) (inr (y, Mem-append y xs ys (inr m), a, refl))
  Picks-append xs ys o o' (inl (e, no_hit)) (inl (f, no_other)) =
      rw (e, f)
        (inl (
          refl,
          λ x m a. elim (Mem-split x xs ys m) [ inl h ↦ no_hit x h a | inr h ↦ no_other x h a ],
        ))

  -- Of lists with the same, coherent entries the same one is taken.
  pub Picks-agree :
      (xs ys : List IncomingEntry) (o o' : Option CrdtEntry)
      → SameEntries xs ys
      → Coherent xs
      → Picks xs o
      → Picks ys o'
      → o ≡ o'
  Picks-agree xs ys o o' s c (inl (e, _)) (inl (f, _)) = e ∙ sym f
  Picks-agree xs ys o o' s c (inl (e, no_hit)) (inr (y, m, a, f)) = absurd (no_hit y ((s y).1 m) a)
  Picks-agree xs ys o o' s c (inr (x, m, a, e)) (inl (f, no_hit)) = absurd (no_hit x ((s x).0 m) a)
  Picks-agree xs ys o o' s c (inr (x, m, a, e)) (inr (y, n, b, f)) =
      e ∙ ap some (c x y m ((s y).1 n) (a.0 ∙ sym b.0) (a.1 ∙ sym b.1)) ∙ sym f
