-- ===== src/Recovery/Complete.antt =====
-- No mutation of the log is lost by a recovery.
use sovereign.Prelude.{
  ℕ, ◌≡◌, ◌⊎◌, refl, sym, ap, ◌∙◌, inl, inr, List, [], ◌∷◌, ◌++◌, Bool, true, false, ◌||◌, Option,
  none, some, ltb, leb, ◌==◌, ==_iff, first_true, second_true, Bool-cases, Option-cases, arith,
}
use mathlib.Core.List.{append-nil}
use sovereign.Prelude.Members.{Mem, Mem-append}
use sovereign.Entry.{IncomingEntry}
use sovereign.EntryMap.{same_key, key_eq}
use sovereign.Wal.{WalMutation}
use sovereign.Wal.Replay.{Replayed, WalRecord, mutation_record, advance_record}
use sovereign.Recovery.{
  SnapshotImage, StoreAnswer, EngineCall, join_records, advance_to, choose_image, rebuilt_initial,
  cut_from, restore_calls, restored, restore_loop, skips_tail, skips_hole, in_image, both,
  recover_calls, same_dot,
}
use sovereign.Recovery.Joined.{
  joined_of, kept, joined_of-append, joined_of-restore_loop, some_injective,
}

pub both-some :
    (x y : Option (List EngineCall)) (calls : List EngineCall)
    → both x y ≡ some calls
    → (xs : List EngineCall) × ((ys : List EngineCall) × (x ≡ some xs)
        × (y ≡ some ys)
        × (xs ++ ys ≡ calls))
both-some none y calls h = absurd cc
both-some (some xs) none calls h = absurd cc
both-some (some xs) (some ys) calls h = (xs, (ys, refl, refl, some_injective (xs ++ ys) calls h))

module _ (node_id : List ℕ) (rep : Replayed) (answer : StoreAnswer) (calls : List EngineCall) where
  -- Without an image, the calls join the whole log.
  without_image :
      choose_image node_id rep answer ≡ none
      → restore_calls node_id rep answer ≡ some calls
      → joined_of calls ≡ kept node_id (skips_tail false (cut_from rep)) rep.ordered
  unfolding restore_calls
  without_image e h =
      joined_of-restore_loop node_id (skips_tail false (cut_from rep)) [] rep.ordered calls
        (rw (e, restore_calls) at h)

  -- With one, they join it, the log from the cut on, and what the image lacks below the cut.
  with_image :
      (img : SnapshotImage)
      → choose_image node_id rep answer ≡ some img
      → restore_calls node_id rep answer ≡ some calls
      → joined_of calls
        ≡ img.records
          ++ (kept node_id (skips_tail true (cut_from rep)) rep.ordered
              ++ kept node_id (skips_hole (cut_from rep) img.records) rep.ordered)
  unfolding restore_calls
  with_image img e h =
      let tail = restore_loop node_id (skips_tail true (cut_from rep)) [] rep.ordered in
      let holes = restore_loop node_id (skips_hole (cut_from rep) img.records) [] rep.ordered in
      let (is, (xs, image, rest, whole)) =
        both-some (some (join_records img.records ∷ [])) (both tail holes) calls
          (rw (e, restore_calls) at h) in
      let (ts, (hs, tailed, repaired, behind)) = both-some tail holes xs rest in
      let first = some_injective (join_records img.records ∷ []) is image in
      ap joined_of (sym whole)
      ∙ (joined_of-append is xs
          ∙ (rw
              (
                ← first,
                ← behind,
                joined_of-append ts hs,
                joined_of-restore_loop node_id (skips_tail true (cut_from rep)) [] rep.ordered ts
                    tailed,
                joined_of-restore_loop node_id (skips_hole (cut_from rep) img.records) []
                    rep.ordered hs repaired,
                append-nil img.records,
              )
              refl))

-- What the loop does not skip, it keeps.
Mem-kept :
    (node_id : List ℕ) (skipped : WalRecord → Bool) (t : ℕ) (m : WalMutation) (seq : ℕ)
    (recs : List WalRecord)
    → Mem (mutation_record t m seq) recs
    → skipped (mutation_record t m seq) ≡ false
    → Mem (restored node_id m) (kept node_id skipped recs)
unfolding kept
Mem-kept node_id skipped t m seq [] k s = elim k [ ]
Mem-kept node_id skipped t m seq (mutation_record t' m' seq' ∷ recs) (inl e) s =
    let here : skipped (mutation_record t' m' seq') ≡ false = ap skipped (sym e) ∙ s in
    let same : m ≡ m' = cc in rw here (inl (ap (restored node_id) same))
Mem-kept node_id skipped t m seq (mutation_record t' m' seq' ∷ recs) (inr k) s =
    elim (Bool-cases (skipped (mutation_record t' m' seq'))) [
      | inl e ↦ rw e (Mem-kept node_id skipped t m seq recs k s)
      | inr e ↦ rw e (inr (Mem-kept node_id skipped t m seq recs k s))
    ]
Mem-kept node_id skipped t m seq (advance_record a seq' ∷ recs) (inl e) s = absurd cc
Mem-kept node_id skipped t m seq (advance_record a seq' ∷ recs) (inr k) s =
    Mem-kept node_id skipped t m seq recs k s

-- A mutation is in the tail, or below the cut.
placed :
    (cut t : ℕ) (m : WalMutation) (seq : ℕ) (records : List IncomingEntry)
    → (skips_tail true cut (mutation_record t m seq) ≡ false)
      ⊎ ((skips_hole cut records (mutation_record t m seq) ≡ false) ⊎ (in_image records m ≡ true))
unfolding skips_tail skips_hole
placed cut t m seq records = elim (Bool-cases (in_image records m)) [
  | inl e ↦ inr (inr e)
  | inr e ↦ elim (Bool-cases (ltb seq cut)) [
    | inr k ↦ inl k
    | inl k ↦ inr (inl (rw e (below seq cut k)))
  ]
]
  where
    below : (a b : ℕ) → ltb a b ≡ true → (leb b a || false) ≡ false
    below a b h = grind arith

none_or_some :
    (node_id : List ℕ) (rep : Replayed) (answer : StoreAnswer)
    → (choose_image node_id rep answer ≡ none)
      ⊎ ((img : SnapshotImage) × (choose_image node_id rep answer ≡ some img))
none_or_some node_id rep answer = Option-cases (choose_image node_id rep answer)

in_rest :
    (node_id : List ℕ) (rep : Replayed) (answer : StoreAnswer) (calls : List EngineCall)
    (img : SnapshotImage) (m : WalMutation)
    → choose_image node_id rep answer ≡ some img
    → restore_calls node_id rep answer ≡ some calls
    → Mem (restored node_id m) (
        kept node_id (skips_tail true (cut_from rep)) rep.ordered
        ++ kept node_id (skips_hole (cut_from rep) img.records) rep.ordered)
    → Mem (restored node_id m) (joined_of calls)
in_rest node_id rep answer calls img m e h k = rw (with_image node_id rep answer calls img e h) (
    Mem-append (restored node_id m) img.records
      (kept node_id (skips_tail true (cut_from rep)) rep.ordered
        ++ kept node_id (skips_hole (cut_from rep) img.records) rep.ordered)
      (inr k))

dot_parts : (a b : List ℕ) (i j : ℕ) → same_dot a i b j ≡ true → (a ≡ b) × (i ≡ j)
unfolding same_dot
dot_parts a b i j h = (
  sym (key_eq a b (first_true (same_key a b) (i == j) h)),
  (==_iff i j).0 (second_true (same_key a b) (i == j) h),
)

-- Where the image has a mutation's dot, it has an entry at it.
at_dot :
    (records : List IncomingEntry) (m : WalMutation)
    → in_image records m ≡ true
    → (r : IncomingEntry) × Mem r records
      × (r.entry.dot_node_id ≡ m.node_id)
      × (r.entry.dot_counter ≡ m.counter)
unfolding in_image
at_dot [] m h = absurd cc
at_dot (r ∷ records) m h =
    elim (Bool-cases (same_dot r.entry.dot_node_id r.entry.dot_counter m.node_id m.counter)) [
      | inl e ↦
          let (f, g) = dot_parts r.entry.dot_node_id m.node_id r.entry.dot_counter m.counter e in
          (r, inl refl, f, g)
      | inr e ↦ let (q, k, f, g) = at_dot records m (rw e at h) in (q, inr k, f, g)
    ]

-- An entry of the image with the mutation's dot, which the calls join.
abbrev pub Stands : List ℕ → Replayed → StoreAnswer → List EngineCall → WalMutation → Type 0
Stands node_id rep answer calls m =
    (img : SnapshotImage) × (r : IncomingEntry) × (choose_image node_id rep answer ≡ some img)
    × Mem r img.records
    × Mem r (joined_of calls)
    × (r.entry.dot_node_id ≡ m.node_id)
    × (r.entry.dot_counter ≡ m.counter)

restored_or_in_image :
    (node_id : List ℕ) (rep : Replayed) (answer : StoreAnswer) (calls : List EngineCall) (t : ℕ)
    (m : WalMutation) (seq : ℕ)
    → restore_calls node_id rep answer ≡ some calls
    → Mem (mutation_record t m seq) rep.ordered
    → Mem (restored node_id m) (joined_of calls) ⊎ Stands node_id rep answer calls m
unfolding skips_tail
restored_or_in_image node_id rep answer calls t m seq h k = elim (none_or_some node_id rep answer) [
  | inl e ↦ inl (
      rw (without_image node_id rep answer calls e h)
        (Mem-kept node_id (skips_tail false (cut_from rep)) t m seq rep.ordered k refl))
  | inr (img, e) ↦
      let tail = kept node_id (skips_tail true (cut_from rep)) rep.ordered in
      let holes = kept node_id (skips_hole (cut_from rep) img.records) rep.ordered in
      elim (placed (cut_from rep) t m seq img.records) [
        | inl s ↦ inl (
            in_rest node_id rep answer calls img m e h (
              Mem-append (restored node_id m) tail holes
                (inl (Mem-kept node_id (skips_tail true (cut_from rep)) t m seq rep.ordered k s))))
        | inr (inl s) ↦ inl (
            in_rest node_id rep answer calls img m e h (
              Mem-append (restored node_id m) tail holes (
                inr (
                  Mem-kept node_id (skips_hole (cut_from rep) img.records) t m seq rep.ordered k
                    s))))
        | inr (inr s) ↦
            let (r, k, f, g) = at_dot img.records m s in
            inr (
              img,
              r,
              e,
              k,
              rw (with_image node_id rep answer calls img e h)
                  (Mem-append r img.records (tail ++ holes) (inl k)),
              f,
              g,
            )
      ]
]

-- Where a recovery goes through, for each mutation of the log a call joins the entry that it
-- restores to, whatever the cut of the checkpoint; or the image is used, it has an entry at the
-- mutation's dot, and a call joins that entry.
pub recover_calls_complete :
    (node_id : List ℕ) (rep : Replayed) (answer : StoreAnswer) (calls : List EngineCall) (t : ℕ)
    (m : WalMutation) (seq : ℕ)
    → recover_calls node_id rep answer ≡ some calls
    → Mem (mutation_record t m seq) rep.ordered
    → Mem (restored node_id m) (joined_of calls) ⊎ Stands node_id rep answer calls m
unfolding recover_calls
recover_calls_complete node_id rep answer calls t m seq h k =
    let end = advance_to (rebuilt_initial rep) ∷ [] in
    let (xs, (ys, front, last, whole)) =
      both-some (restore_calls node_id rep answer) (some end) calls h in
    elim (restored_or_in_image node_id rep answer xs t m seq front k) [
      | inl here ↦ inl (
          rw (← whole, joined_of-append xs ys)
            (Mem-append (restored node_id m) (joined_of xs) (joined_of ys) (inl here)))
      | inr (img, r, e, mem, joins, f, g) ↦ inr (
        img,
        r,
        e,
        mem,
        rw (← whole, joined_of-append xs ys)
            (Mem-append r (joined_of xs) (joined_of ys) (inl joins)),
        f,
        g,
      )
    ]
