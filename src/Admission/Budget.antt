-- ===== src/Admission/Budget.antt =====
-- A peer's budget is spent by the advance of its counter, and is never given back.
use sovereign.Prelude.{
  ℕ, ◌+◌, ◌<◌, ◌≡◌, inl, inr, refl, List, [], ◌∷◌, false, none, some, ltb, ◌==◌, ◌&&◌, length,
  arith, Option-cases, Bool-cases, if◌then◌else◌,
}
use sovereign.Bytes.{All}
use sovereign.EntryMap.{same_key, same_key_refl, key_eq}
use sovereign.Float64.{Float64}
use sovereign.Admission.{
  initial_budget, keep, drop, PeerEwma, Buckets, new_peer, peer_of, put_peer, accept_peer, accept,
}

module _ (fl : Float64) where
  -- What is left of the budget and the last counter make up the initial budget.
  abbrev pub IsBalanced : PeerEwma fl → Type 0
  IsBalanced p = (p.budget + p.last_counter ≡ initial_budget) × (0 < p.budget)

  abbrev pub AllBalanced : Buckets fl → Type 0
  AllBalanced b = All (λ (e : List ℕ × PeerEwma fl). IsBalanced e.1) b

  accept_peer-IsBalanced :
      (counter : ℕ) (p : PeerEwma fl) → IsBalanced p → IsBalanced (accept_peer fl counter p).1
  unfolding accept_peer
  accept_peer-IsBalanced counter p h = ground arith

  peer_of-IsBalanced :
      (k : List ℕ) (b : Buckets fl) (p : PeerEwma fl)
      → AllBalanced b
      → peer_of fl k b ≡ some p
      → IsBalanced p
  unfolding peer_of
  peer_of-IsBalanced k [] p a e = cc
  peer_of-IsBalanced k ((j, q) ∷ rest) p a e = ground (arith, peer_of-IsBalanced k rest p)

  put_peer-IsBalanced :
      (k : List ℕ) (p : PeerEwma fl) (b : Buckets fl)
      → IsBalanced p
      → AllBalanced b
      → AllBalanced (put_peer fl k p b)
  unfolding put_peer
  put_peer-IsBalanced k p [] h a = (h, tt)
  put_peer-IsBalanced k p ((j, q) ∷ rest) h a = ground (arith, put_peer-IsBalanced k p rest)

  put_peer_other :
      (k j : List ℕ) (p : PeerEwma fl) (b : Buckets fl)
      → same_key j k ≡ false
      → peer_of fl j (put_peer fl k p b) ≡ peer_of fl j b
  unfolding put_peer peer_of
  put_peer_other k j p [] h = ground arith
  put_peer_other k j p ((i, q) ∷ rest) h =
      ground (arith, put_peer_other k j p rest h, key_eq k i, same_key_refl k)

  -- The bucket that `Accept` works on.
  abbrev found : List ℕ → Buckets fl → PeerEwma fl
  found k b = elim (peer_of fl k b) [ none ↦ new_peer fl | some p ↦ p ]

  found-IsBalanced : (k : List ℕ) (b : Buckets fl) → AllBalanced b → IsBalanced (found k b)
  found-IsBalanced k b a = elim (Option-cases (peer_of fl k b)) [
    | inl e ↦ rw (e, found) (omega arith, omega arith)
    | inr (p, e) ↦ rw (e, found) (peer_of-IsBalanced k b p a e)
  ]

  accept_peer_decision :
      (counter : ℕ) (p : PeerEwma fl)
      → IsBalanced p
      → (accept_peer fl counter p).0 ≡ (if ltb counter initial_budget then keep else drop)
  unfolding accept_peer
  accept_peer_decision counter p h = ground arith

  -- On buckets that are balanced, as the empty map is, `Accept` keeps a frame just when its key has
  -- 32 bytes and its counter is below the initial budget, however much was accepted before; the
  -- buckets stay balanced, and the bucket of any other key stays as it was.
  pub accept_lem :
      (k j : List ℕ) (counter : ℕ) (b : Buckets fl)
      → AllBalanced b
      → same_key j k ≡ false
      → ((accept fl k counter b).0
          ≡ (if (length k == 32) && ltb counter initial_budget then keep else drop))
        × AllBalanced (accept fl k counter b).1
        × (peer_of fl j (accept fl k counter b).1 ≡ peer_of fl j b)
  unfolding accept
  accept_lem k j counter b a h =
      let ok = found-IsBalanced k b a in
      let p' = (accept_peer fl counter (found k b)).1 in
      elim (Bool-cases (length k == 32)) [
        | inl e ↦ rw e (
          accept_peer_decision counter (found k b) ok,
          put_peer-IsBalanced k p' b (accept_peer-IsBalanced counter (found k b) ok) a,
          put_peer_other k j p' b h,
        )
        | inr e ↦ rw e (refl, a, refl)
      ]
