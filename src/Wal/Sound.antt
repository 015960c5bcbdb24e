-- ===== src/Wal/Sound.antt =====
-- What a replay reports of any file: the high-water mark bounds every counter that was read, and the
-- clock of the final checkpoint is credible or at most that mark.
use sovereign.Prelude.{
  ℕ, ◌≤◌, ◌≡◌, ◌∙◌, ◌⊎◌, refl, sym, ap, inl, inr, List, [], ◌∷◌, ◌++◌, true, not, ◌&&◌, Option,
  none, some, length, ltb, Bool-cases, arith,
}
use mathlib.Core.List.{append-nil}
use sovereign.Bytes.{All, All-weaken}
use sovereign.Wal.{WalMutation, WalCheckpoint, max_credible_clock_high}
use sovereign.Wal.Decode.{decode_checkpoint}
use sovereign.Wal.Replay.{
  Replayed, WalRecord, mutation_record, advance_record, raise, replay_mutation, replay_advance,
  replay_checkpoint, replay_checkpoint_v2,
}
use sovereign.Wal.Kinds.{Kept}

-- The mutations and the advances of the stream, in its order.
abbrev pub mutations_of : List WalRecord → List WalMutation
mutations_of [] = []
mutations_of (mutation_record t m seq ∷ recs) = m ∷ mutations_of recs
mutations_of (advance_record a seq ∷ recs) = mutations_of recs

abbrev pub advances_of : List WalRecord → List ℕ
advances_of [] = []
advances_of (mutation_record t m seq ∷ recs) = advances_of recs
advances_of (advance_record a seq ∷ recs) = a ∷ advances_of recs

mutations_of-append :
    (xs ys : List WalRecord) → mutations_of (xs ++ ys) ≡ mutations_of xs ++ mutations_of ys
mutations_of-append [] ys = refl
mutations_of-append (mutation_record t m seq ∷ xs) ys =
    ap (λ (x : List WalMutation). m ∷ x) (mutations_of-append xs ys)
mutations_of-append (advance_record a seq ∷ xs) ys = mutations_of-append xs ys

advances_of-append :
    (xs ys : List WalRecord) → advances_of (xs ++ ys) ≡ advances_of xs ++ advances_of ys
advances_of-append [] ys = refl
advances_of-append (mutation_record t m seq ∷ xs) ys = advances_of-append xs ys
advances_of-append (advance_record a seq ∷ xs) ys =
    ap (λ (x : List ℕ). a ∷ x) (advances_of-append xs ys)

pub record IsSound (o : Replayed) : Type 0 where
  pub mutations_le : All (λ (m : WalMutation). m.counter ≤ o.lamport_high) o.mutations
  pub advances_le : All (λ (a : ℕ). a ≤ o.lamport_high) o.advances
  pub checkpoint_le : o.final_checkpt.lamport_high ≤ o.lamport_high
  pub clock_le :
      (o.final_checkpt.clock_high ≤ max_credible_clock_high)
      ⊎ (o.final_checkpt.clock_high ≤ o.lamport_high)
  pub ordered_mutations : mutations_of o.ordered ≡ o.mutations
  pub ordered_advances : advances_of o.ordered ≡ o.advances
  pub no_clock : (o.has_checkpoint ≡ true) ⊎ (o.final_checkpt.clock_high ≡ 0)
  pub legacy_is : o.legacy_checkpoint ≡ (o.has_checkpoint && not o.final_checkpt.has_fingerprint)

raise-bounds : (h c : ℕ) → (h ≤ raise h c) × (c ≤ raise h c)
unfolding raise
raise-bounds h c = ground arith

All-snoc :
    {A : Type 0} (P : A → Type 0) (xs : List A) (x : A) → All P xs → P x → All P (xs ++ x ∷ [])
All-snoc P [] x a h = (h, tt)
All-snoc P (y ∷ xs) x (k, a) h = (k, All-snoc P xs x a h)

-- The bounds stay where the mark is raised.
module _ (o : Replayed) (s : IsSound o) (c : ℕ) where
  mutations_raised : All (λ (m : WalMutation). m.counter ≤ raise o.lamport_high c) o.mutations
  mutations_raised =
      All-weaken (λ (m : WalMutation). m.counter ≤ o.lamport_high)
        (λ (m : WalMutation). m.counter ≤ raise o.lamport_high c) o.mutations
        (λ m h. omega (arith, h, raise-bounds o.lamport_high c)) s.mutations_le

  advances_raised : All (λ (a : ℕ). a ≤ raise o.lamport_high c) o.advances
  advances_raised =
      All-weaken (λ (a : ℕ). a ≤ o.lamport_high) (λ (a : ℕ). a ≤ raise o.lamport_high c) o.advances
        (λ a h. omega (arith, h, raise-bounds o.lamport_high c)) s.advances_le

  clock_raised :
      (o.final_checkpt.clock_high ≤ max_credible_clock_high)
      ⊎ (o.final_checkpt.clock_high ≤ raise o.lamport_high c)
  clock_raised = omega (arith, s.clock_le, raise-bounds o.lamport_high c)

replay_mutation-IsSound :
    (t : ℕ) (m : WalMutation) (seq : ℕ) (o : Replayed)
    → IsSound o
    → IsSound (replay_mutation t m seq o)
unfolding replay_mutation
replay_mutation-IsSound t m seq o s = record {
  mutations_le =
      All-snoc (λ (x : WalMutation). x.counter ≤ raise o.lamport_high m.counter) o.mutations m
        (mutations_raised o s m.counter) (raise-bounds o.lamport_high m.counter).1;
  advances_le = advances_raised o s m.counter;
  checkpoint_le = omega (arith, s.checkpoint_le, raise-bounds o.lamport_high m.counter);
  clock_le = clock_raised o s m.counter;
  ordered_mutations =
      mutations_of-append o.ordered (mutation_record t m seq ∷ [])
      ∙ ap (λ (x : List WalMutation). x ++ m ∷ []) s.ordered_mutations;
  ordered_advances =
      advances_of-append o.ordered (mutation_record t m seq ∷ [])
      ∙ (append-nil (advances_of o.ordered) ∙ s.ordered_advances);
  no_clock = s.no_clock;
  legacy_is = s.legacy_is;
}

replay_advance-IsSound : (a seq : ℕ) (o : Replayed) → IsSound o → IsSound (replay_advance a seq o)
unfolding replay_advance
replay_advance-IsSound a seq o s = record {
  mutations_le = mutations_raised o s a;
  advances_le =
      All-snoc (λ (x : ℕ). x ≤ raise o.lamport_high a) o.advances a (advances_raised o s a)
        (raise-bounds o.lamport_high a).1;
  checkpoint_le = omega (arith, s.checkpoint_le, raise-bounds o.lamport_high a);
  clock_le = clock_raised o s a;
  ordered_mutations =
      mutations_of-append o.ordered (advance_record a seq ∷ [])
      ∙ (append-nil (mutations_of o.ordered) ∙ s.ordered_mutations);
  ordered_advances =
      advances_of-append o.ordered (advance_record a seq ∷ [])
      ∙ ap (λ (x : List ℕ). x ++ a ∷ []) s.ordered_advances;
  no_clock = s.no_clock;
  legacy_is = s.legacy_is;
}

replay_checkpoint-IsSound :
    (c : WalCheckpoint) (seq : ℕ) (o : Replayed)
    → IsSound o
    → (c.clock_high ≤ max_credible_clock_high)
      ⊎ (c.clock_high ≤ raise o.lamport_high c.lamport_high)
    → IsSound (replay_checkpoint c seq o)
unfolding replay_checkpoint
replay_checkpoint-IsSound c seq o s h = record {
  mutations_le = mutations_raised o s c.lamport_high;
  advances_le = advances_raised o s c.lamport_high;
  checkpoint_le = (raise-bounds o.lamport_high c.lamport_high).1;
  clock_le = h;
  ordered_mutations = s.ordered_mutations;
  ordered_advances = s.ordered_advances;
  no_clock = inl refl;
  legacy_is = refl;
}

replay_checkpoint_v2-IsSound :
    (c : WalCheckpoint) (seq : ℕ) (o : Replayed)
    → IsSound o
    → IsSound (replay_checkpoint_v2 c seq o)
unfolding replay_checkpoint_v2
replay_checkpoint_v2-IsSound c seq o s =
    elim (Bool-cases (ltb max_credible_clock_high c.clock_high)) [
      | inl e ↦
          let floor = raise o.lamport_high c.lamport_high in
          rw e (
            replay_checkpoint-IsSound (record c { clock_high = floor }) seq
              (record o {
                clock_high_clamped = true;
                clock_high_raw = raise o.clock_high_raw c.clock_high;
              })
              (record {
                mutations_le = s.mutations_le;
                advances_le = s.advances_le;
                checkpoint_le = s.checkpoint_le;
                clock_le = s.clock_le;
                ordered_mutations = s.ordered_mutations;
                ordered_advances = s.ordered_advances;
                no_clock = s.no_clock;
                legacy_is = s.legacy_is;
              })
              (inr (omega arith)))
      | inr e ↦ rw e (replay_checkpoint-IsSound c seq o s (inl (ground arith)))
    ]

clock_of : Option WalCheckpoint → ℕ
clock_of none = 0
clock_of (some c) = c.clock_high

legacy_clock : (p : List ℕ) (c : WalCheckpoint) → decode_checkpoint p ≡ some c → c.clock_high ≡ 0
unfolding decode_checkpoint clock_of
legacy_clock p c h = elim (Bool-cases (ltb (length p) 40)) [
  | inl e ↦ absurd (let no = rw e at h in cc)
  | inr e ↦ sym (ap clock_of (rw e at h))
]

pub IsSound-kept : Kept IsSound
IsSound-kept = record {
  mutation = replay_mutation-IsSound;
  advance = replay_advance-IsSound;
  checkpoint = λ p c seq o e s.
      replay_checkpoint-IsSound c seq o s (inl (omega (arith, legacy_clock p c e)));
  checkpoint_v2 = replay_checkpoint_v2-IsSound;
}
