-- ===== src/Dominance/Reference.antt =====
-- The sweep keeps the rows that the quadratic rescan keeps, in their order: a row goes just when
-- some row is newer, at or below the horizon, and valid over all of its interval.
use sovereign.Prelude.{
  ◌≡◌, refl, sym, ap, ◌∙◌, List, [], ◌∷◌, ◌++◌, map, Bool, true, false, not, ◌&&◌, ◌||◌, arith, inl,
  inr, Bool-cases,
}
use sovereign.Prelude.Int.{ℤ, pos, ltb_ℤ}
use sovereign.Prelude.Members.{any, filter, any-append, filter-append, filter_keep, filter_drop}
use sovereign.Bytes.{All}
use sovereign.Dominance.Batches.{
  IsAscending, rows_of, AtTime, After, AreBatches, All-imp, filter_ext, AreBatches-batches,
  rows_of-batches,
}
use sovereign.Dominance.{
  Row, LiveInterval, leb_ℤ, Batch, batches, is_covered, interval_of, SweepState, sweep_batch, sweep,
  dominance_prune,
}

-- The row contains the interval and is at or below the horizon.
abbrev admits : ℤ → Row → Row → Bool
admits horizon r p = leb_ℤ p.sys_t horizon && (leb_ℤ p.vs r.vs && leb_ℤ r.ve p.ve)

-- The test of the rescan: `p` lets the row `r` go.
abbrev pub dominates : ℤ → Row → Row → Bool
dominates horizon r p = ltb_ℤ r.sys_t p.sys_t && admits horizon r p

-- The rows that no row of the whole list dominates.
abbrev pub prune_reference : List Row → ℤ → List Row
prune_reference rows horizon = filter (λ (r : Row). not (any (dominates horizon r) rows)) rows

abbrev contains : Row → Row → Bool
contains r p = leb_ℤ p.vs r.vs && leb_ℤ r.ve p.ve

any_mono :
    {A : Type 0} (p q : A → Bool) (xs : List A)
    → ((x : A) → p x ≡ true → q x ≡ true)
    → any p xs ≡ true
    → any q xs ≡ true
any_mono p q [] f h = h
any_mono p q (x ∷ xs) f h = ground (arith, any_mono p q xs f, f x)

leb_ℤ_trans : (a b c : ℤ) → leb_ℤ a b ≡ true → leb_ℤ b c ≡ true → leb_ℤ a c ≡ true
leb_ℤ_trans a b c h k = ground arith

split_and : (a b : Bool) → (a && b) ≡ true → (a ≡ true) × (b ≡ true)
split_and a b h = ground arith

join_and : (a b : Bool) → a ≡ true → b ≡ true → (a && b) ≡ true
join_and a b h k = ground arith

-- What covers a row that contains `r` covers `r`.
cover_trans :
    (live : List LiveInterval) (x r : Row)
    → is_covered live x ≡ true
    → contains r x ≡ true
    → is_covered live r ≡ true
unfolding is_covered
cover_trans live x r h c =
    any_mono _ _ live
      (λ (l : LiveInterval) w.
        let (a, b) = split_and (leb_ℤ l.vs x.vs) (leb_ℤ x.ve l.ve) w in
        let (d, e) = split_and (leb_ℤ x.vs r.vs) (leb_ℤ r.ve x.ve) c in
        join_and (leb_ℤ l.vs r.vs) (leb_ℤ r.ve l.ve) (leb_ℤ_trans l.vs x.vs r.vs a d)
          (leb_ℤ_trans r.ve x.ve l.ve e b))
      h

is_covered-append :
    (ls ms : List LiveInterval) (r : Row)
    → is_covered (ls ++ ms) r ≡ (is_covered ls r || is_covered ms r)
unfolding is_covered
is_covered-append ls ms r = any-append _ ls ms

is_covered-cons :
    (x : Row) (ls : List LiveInterval) (r : Row)
    → is_covered (interval_of x ∷ ls) r ≡ (contains r x || is_covered ls r)
unfolding is_covered
is_covered-cons x ls r = refl

absorb : (a s k b : Bool) → (a || s) ≡ (a || b) → (k ≡ true → a ≡ true) → (a || s) ≡ (a || (k || b))
absorb a s k b h f = ground (arith, f)

both_sides : (a s k b : Bool) → (a || s) ≡ (a || b) → (a || (k || s)) ≡ (a || (k || b))
both_sides a s k b h = ground arith

abbrev survivors_of : List LiveInterval → List Row → List Row
survivors_of live xs = filter (λ (x : Row). not (is_covered live x)) xs

-- With the survivors of some rows added, what is covered is what was, or what one of the rows contains.
covered_survivors :
    (live : List LiveInterval) (xs : List Row) (r : Row)
    → (is_covered live r || is_covered (map interval_of (survivors_of live xs)) r)
      ≡ (is_covered live r || any (contains r) xs)
covered_survivors live [] r = unfold is_covered in refl
covered_survivors live (x ∷ xs) r = elim (Bool-cases (is_covered live x)) [
  | inl e ↦ rw (filter_drop (λ (y : Row). not (is_covered live y)) x xs (ap not e)) (
      absorb (is_covered live r) (is_covered (map interval_of (survivors_of live xs)) r)
        (contains r x) (any (contains r) xs) (covered_survivors live xs r) (cover_trans live x r e))
  | inr e ↦ rw (filter_keep (λ (y : Row). not (is_covered live y)) x xs (ap not e)) (
      rw (is_covered-cons x (map interval_of (survivors_of live xs)) r) (
        both_sides (is_covered live r) (is_covered (map interval_of (survivors_of live xs)) r)
          (contains r x) (any (contains r) xs) (covered_survivors live xs r)))
]

or_false : (a : Bool) → a ≡ (a || false)
or_false a = ground arith

sweep_batch-live :
    (h : ℤ) (b : Batch) (s : SweepState) (r : Row)
    → is_covered (sweep_batch h b s).live r
      ≡ (is_covered s.live r || (leb_ℤ b.batch_sys h && any (contains r) b.rows))
unfolding sweep_batch
sweep_batch-live h b s r = elim (Bool-cases (leb_ℤ b.batch_sys h)) [
  | inl e ↦ rw e (
      is_covered-append s.live (map interval_of (survivors_of s.live b.rows)) r
      ∙ covered_survivors s.live b.rows r)
  | inr e ↦ rw e (or_false (is_covered s.live r))
]

-- In one batch the horizon lets all rows in, or none.
any-admits :
    (h t : ℤ) (xs : List Row) (r : Row)
    → All (AtTime t) xs
    → any (admits h r) xs ≡ (leb_ℤ t h && any (contains r) xs)
any-admits h t [] r a = ground arith
any-admits h t (x ∷ xs) r a = ground (arith, any-admits h t xs r)

swap : (a a' b b' : Bool) → a ≡ a' → b' ≡ b → (a || b) ≡ (b' || a')
swap a a' b b' h k = ground arith

-- The live intervals cover a row just when some row of the batches admits it.
sweep-live :
    (h : ℤ) (bs : List Batch) (r : Row)
    → AreBatches bs
    → is_covered (sweep h bs).live r ≡ any (admits h r) (rows_of bs)
unfolding sweep
sweep-live h [] r a = unfold is_covered in refl
sweep-live h (b ∷ rest) r (at, after, a) =
    sweep_batch-live h b (sweep h rest) r
    ∙ swap (is_covered (sweep h rest).live r) (any (admits h r) (rows_of rest))
        (leb_ℤ b.batch_sys h && any (contains r) b.rows) (any (admits h r) b.rows)
        (sweep-live h rest r a) (any-admits h b.batch_sys b.rows r at)
    ∙ sym (any-append (admits h r) b.rows (rows_of rest))

-- For a row before all of the list the rescan's test is the admission.
any-dominates :
    (h : ℤ) (xs : List Row) (r : Row)
    → All (After r.sys_t) xs
    → any (dominates h r) xs ≡ any (admits h r) xs
any-dominates h [] r a = refl
any-dominates h (x ∷ xs) r a = ground (arith, any-dominates h xs r)

-- Rows that are not newer dominate nothing.
any-dominates_older :
    (h : ℤ) (xs : List Row) (r : Row)
    → All (λ (x : Row). leb_ℤ x.sys_t r.sys_t ≡ true) xs
    → any (dominates h r) xs ≡ false
any-dominates_older h [] r a = refl
any-dominates_older h (x ∷ xs) r a = ground (arith, any-dominates_older h xs r)

-- No row of a list is newer than `r`.
abbrev NoneAfter : Row → List Row → Type 0
NoneAfter r xs = All (λ (x : Row). leb_ℤ x.sys_t r.sys_t ≡ true) xs

-- In a list behind such rows they do not matter.
any-dominates_behind :
    (h : ℤ) (xs ys : List Row) (r : Row)
    → NoneAfter r xs
    → any (dominates h r) (xs ++ ys) ≡ any (dominates h r) ys
any-dominates_behind h xs ys r a =
    any-append (dominates h r) xs ys
    ∙ ap (λ (t : Bool). t || any (dominates h r) ys) (any-dominates_older h xs r a)

positive : (h : ℤ) → ltb_ℤ (pos 0) h ≡ true → leb_ℤ h (pos 0) ≡ false
positive h e = ground arith

both_parts : {A : Type 0} {a b c d : List A} → a ≡ b → c ≡ d → a ++ c ≡ b ++ d
both_parts h k = cc

same_time : (t : ℤ) (x r : Row) → AtTime t r → AtTime t x → leb_ℤ x.sys_t r.sys_t ≡ true
same_time t x r h k = ground arith

earlier : (t : ℤ) (x r : Row) → After t r → AtTime t x → leb_ℤ x.sys_t r.sys_t ≡ true
earlier t x r h k = ground arith

later_than : (t : ℤ) (x r : Row) → AtTime t r → After t x → After r.sys_t x
later_than t x r h k = ground arith

-- For a row of the first batch the probe is the rescan's test.
probe_lem :
    (h : ℤ) (b : Batch) (rest : List Batch) (r : Row)
    → AreBatches (b ∷ rest)
    → AtTime b.batch_sys r
    → is_covered (sweep h rest).live r ≡ any (dominates h r) (b.rows ++ rows_of rest)
probe_lem h b rest r (at, after, a) e =
    sweep-live h rest r a
    ∙ sym (
        any-dominates h (rows_of rest) r (
          All-imp (After b.batch_sys) (After r.sys_t) (rows_of rest)
            (λ x. later_than b.batch_sys x r e) after))
    ∙ sym (
        any-dominates_behind h b.rows (rows_of rest) r (
          All-imp (AtTime b.batch_sys) (λ (x : Row). leb_ℤ x.sys_t r.sys_t ≡ true) b.rows
            (λ x. same_time b.batch_sys x r e) at))

-- For a row of a later batch the first batch does not matter.
rest_lem :
    (h : ℤ) (b : Batch) (rest : List Batch) (r : Row)
    → All (AtTime b.batch_sys) b.rows
    → After b.batch_sys r
    → any (dominates h r) (rows_of rest) ≡ any (dominates h r) (b.rows ++ rows_of rest)
rest_lem h b rest r at lt = sym (
    any-dominates_behind h b.rows (rows_of rest) r (
      All-imp (AtTime b.batch_sys) (λ (x : Row). leb_ℤ x.sys_t r.sys_t ≡ true) b.rows
        (λ x. earlier b.batch_sys x r lt) at))

-- What the sweep keeps is what no row of the batches dominates.
sweep-kept :
    (h : ℤ) (bs : List Batch) → AreBatches bs → (sweep h bs).kept ≡ prune_reference (rows_of bs) h
unfolding sweep sweep_batch
sweep-kept h [] a = refl
sweep-kept h (b ∷ rest) (at, after, a) =
    let survives = λ (r : Row). not (any (dominates h r) (b.rows ++ rows_of rest)) in
    let now =
      filter_ext (λ (r : Row). not (is_covered (sweep h rest).live r)) survives b.rows
        (All-imp (AtTime b.batch_sys) _ b.rows
          (λ r e. ap not (probe_lem h b rest r (at, after, a) e)) at) in
    let later =
      filter_ext (λ (r : Row). not (any (dominates h r) (rows_of rest))) survives (rows_of rest)
        (All-imp (After b.batch_sys) _ (rows_of rest) (λ r lt. ap not (rest_lem h b rest r at lt))
          after) in
    both_parts now (sweep-kept h rest a ∙ later)
    ∙ sym (filter-append survives b.rows (rows_of rest))

-- On rows in the order of their system time and a positive horizon, `DominancePrune` keeps, in
-- their order, just the rows that no row of the list dominates: none is newer, at or below the
-- horizon, and valid over all of the row's interval.
pub dominance_prune-reference :
    (rows : List Row) (horizon : ℤ)
    → IsAscending rows
    → ltb_ℤ (pos 0) horizon ≡ true
    → dominance_prune rows horizon ≡ prune_reference rows horizon
unfolding dominance_prune
dominance_prune-reference rows horizon s h = rw (positive horizon h) (
    sweep-kept horizon (batches rows) (AreBatches-batches rows s)
    ∙ ap (λ (t : List Row). prune_reference t horizon) (rows_of-batches rows))
