-- ===== src/Admission.antt =====
-- The rate gate of pkg/admission/ewma.go: one bucket for each peer. The sixteen locked shards are a
-- map split by a key's first byte, so that they are one association list here.
pub mod Budget
use sovereign.Prelude.{
  ℕ, ◌-◌, ◌+◌, ◌≤◌, ◌<◌, ◌≡◌, List, [], ◌∷◌, Option, none, some, ltb, leb, ◌==◌, length,
  if◌then◌else◌,
}
use sovereign.EntryMap.{same_key}
use sovereign.Float64.{Float64}

abbrev pub initial_budget : ℕ
initial_budget = 1048576

-- `FrameDecision`
pub data FrameDecision : Type 0 where
  keep : FrameDecision
  drop : FrameDecision

module _ (fl : Float64) where
  open fl use {Float, zero_float, tenth, nine_tenths, from_u64, add, mul}

  pub record PeerEwma : Type 0 where
    pub rate : Float
    pub budget : ℕ
    pub last_counter : ℕ

  abbrev pub Buckets : Type 0
  Buckets = List (List ℕ × PeerEwma)

  abbrev pub new_peer : PeerEwma
  new_peer = record { rate = zero_float; budget = initial_budget; last_counter = 0 }

  unfoldable pub peer_of : List ℕ → Buckets → Option PeerEwma
  peer_of pub_key [] = none
  peer_of pub_key ((j, p) ∷ rest) =
      let later = peer_of pub_key rest in if same_key pub_key j then some p else later

  unfoldable pub put_peer : List ℕ → PeerEwma → Buckets → Buckets
  put_peer pub_key p [] = (pub_key, p) ∷ []
  put_peer pub_key p ((j, q) ∷ rest) =
      let later = put_peer pub_key p rest in
      if same_key pub_key j then (j, p) ∷ rest else (j, q) ∷ later

  -- The part of `Accept` that works on the peer's bucket. Where the counter does not advance, the
  -- source takes the difference as 0.
  unfoldable pub accept_peer : ℕ → PeerEwma → FrameDecision × PeerEwma
  accept_peer counter p =
      let delta = if ltb p.last_counter counter then counter - p.last_counter else 0 in
      if delta == 0
      then (keep, p)
      else let p' = record p { rate = add (mul tenth p.rate) (mul nine_tenths (from_u64 delta)) } in
        if leb p.budget delta
        then (drop, p')
        else (keep, record p' { budget = p.budget - delta; last_counter = counter })

  -- `Accept`
  unfoldable pub accept : List ℕ → ℕ → Buckets → FrameDecision × Buckets
  unfolding accept_peer peer_of put_peer
  accept pub_key counter b =
      if length pub_key == 32
      then (let found : PeerEwma = elim (peer_of pub_key b) [ none ↦ new_peer | some p ↦ p ] in
          let (decision, p') = accept_peer counter found in (decision, put_peer pub_key p' b))
      else (drop, b)

  -- `Budget`
  unfoldable pub budget_of : List ℕ → Buckets → ℕ
  unfolding peer_of
  budget_of pub_key b =
      if length pub_key == 32 then elim (peer_of pub_key b) [ none ↦ 0 | some p ↦ p.budget ] else 0
