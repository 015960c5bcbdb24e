-- ===== src/Tombstones/Prune.antt =====
-- The collector prunes just what every peer has cleared, and the stable epoch goes forward.
use sovereign.Prelude.{
  tests, Bool, ℕ, ◌+◌, ◌-◌, ◌^◌, ◌≤◌, ◌<◌, ◌≡◌, ◌≢◌, refl, ◌⊎◌, inl, inr, List, [], ◌∷◌, length,
  ltb, Bool-cases, arith, if◌then◌else◌, true,
}
use sovereign.Prelude.Members.{Mem, any}
use sovereign.Bytes.{All}
use sovereign.EntryMap.{same_key}
use sovereign.Tombstones.{
  TombstoneRecord, Peer, EpochCompactor, advance_peer, advance_peer_epoch, min_loop, stable_epoch,
  sweep, prune_tombstones,
}

-- The peer has acknowledged `e` or a later epoch.
abbrev pub HasCleared : ℕ → Peer → Type 0
HasCleared e p = e ≤ p.1

-- The epochs are uint64s.
abbrev pub Fits : Peer → Type 0
Fits p = p.1 < 2 ^ 64

min_loop-le : (least : ℕ) (peers : List Peer) → min_loop least peers ≤ least
unfolding min_loop
min_loop-le least [] = omega arith
min_loop-le least ((j, e) ∷ peers) = ground (arith, min_loop-le e peers, min_loop-le least peers)

min_loop-lower : (least : ℕ) (peers : List Peer) → All (HasCleared (min_loop least peers)) peers
unfolding min_loop
min_loop-lower least [] = tt
min_loop-lower least ((j, e) ∷ peers) =
    let m = if ltb e least then e else least in
    (ground (arith, min_loop-le e peers, min_loop-le least peers), min_loop-lower m peers)

min_loop-greatest :
    (b least : ℕ) (peers : List Peer)
    → b ≤ least
    → All (HasCleared b) peers
    → b ≤ min_loop least peers
unfolding min_loop
min_loop-greatest b least [] h a = h
min_loop-greatest b least ((j, e) ∷ peers) h a =
    ground (arith, min_loop-greatest b e peers, min_loop-greatest b least peers)

All-weaken :
    (a b : ℕ) (peers : List Peer) → a ≤ b → All (HasCleared b) peers → All (HasCleared a) peers
All-weaken a b [] h c = tt
All-weaken a b (p ∷ peers) h c = (omega arith, All-weaken a b peers h c.1)

-- Some peer, and every one has cleared `e`: this is what the stable epoch means.
abbrev pub AllCleared : ℕ → List Peer → Type 0
AllCleared e peers = (peers ≢ []) × All (HasCleared e) peers

-- With a positive epoch, every peer has cleared it just when it is at most the stable epoch.
stable_epoch-cleared :
    (e : ℕ) (peers : List Peer) → 0 < e → e ≤ stable_epoch peers → AllCleared e peers
unfolding stable_epoch
stable_epoch-cleared e [] p h = absurd (omega arith)
stable_epoch-cleared e (q ∷ peers) p h =
    (λ n. cc, All-weaken e _ (q ∷ peers) h (min_loop-lower (2 ^ 64 - 1) (q ∷ peers)))

cleared-stable_epoch :
    (e : ℕ) (peers : List Peer) → AllCleared e peers → All Fits peers → e ≤ stable_epoch peers
unfolding stable_epoch
cleared-stable_epoch e [] a f = absurd (a.0 refl)
cleared-stable_epoch e (q ∷ peers) a f =
    min_loop-greatest e (2 ^ 64 - 1) (q ∷ peers) (omega (arith, a.1.0, f.0)) a.1

-- Each record is kept, or it is at or below the threshold and its entity is among the pruned.
sweep-cases :
    (m : ℕ) (ts : List TombstoneRecord) (t : TombstoneRecord)
    → Mem t ts
    → (Mem t (sweep m ts).kept × (m < t.epoch))
      ⊎ (Mem t.entity_id (sweep m ts).pruned × (t.epoch ≤ m))
unfolding sweep
sweep-cases m [] t h = absurd h
sweep-cases m (u ∷ ts) t (inl e) = ground arith
sweep-cases m (u ∷ ts) t (inr h) = ground (arith, sweep-cases m ts t h)

sweep-kept :
    (m : ℕ) (ts : List TombstoneRecord) (t : TombstoneRecord)
    → Mem t (sweep m ts).kept
    → Mem t ts × (m < t.epoch)
unfolding sweep
sweep-kept m [] t h = absurd h
sweep-kept m (u ∷ ts) t h = ground (arith, sweep-kept m ts t)

-- Where some tombstone's epoch lies the stability lag behind what every peer has cleared.
abbrev pub IsStable : EpochCompactor → TombstoneRecord → Type 0
IsStable c t = AllCleared (t.epoch + c.stability_lag) c.peer_epochs

prune-kept :
    (now : ℕ) (c : EpochCompactor) (t : TombstoneRecord)
    → Mem t (prune_tombstones now c).compactor.tombstones
    → Mem t c.tombstones × (stable_epoch c.peer_epochs < t.epoch + c.stability_lag)
unfolding prune_tombstones
prune-kept now c t h =
    ground (arith, sweep-kept (stable_epoch c.peer_epochs - c.stability_lag) c.tombstones t)

prune-dropped :
    (now : ℕ) (c : EpochCompactor) (t : TombstoneRecord)
    → Mem t c.tombstones
    → Mem t (prune_tombstones now c).compactor.tombstones
      ⊎ (Mem t.entity_id (prune_tombstones now c).pruned
          × (t.epoch + c.stability_lag ≤ stable_epoch c.peer_epochs))
unfolding prune_tombstones
prune-dropped now c t h =
    ground (arith, sweep-cases (stable_epoch c.peer_epochs - c.stability_lag) c.tombstones t)

prune-remaining :
    (now : ℕ) (c : EpochCompactor)
    → (prune_tombstones now c).remaining ≡ length (prune_tombstones now c).compactor.tombstones
unfolding prune_tombstones
prune-remaining now c = ground arith

All-of_Mem : {A : Type 0} (P : A → Type 0) (xs : List A) → ((x : A) → Mem x xs → P x) → All P xs
All-of_Mem P [] f = tt
All-of_Mem P (x ∷ xs) f = (f x (inl refl), All-of_Mem P xs (λ y m. f y (inr m)))

-- With epochs that are uint64s, `PruneTombstones` reports how many records it keeps, and it keeps
-- only records that were there, none of which lies the lag behind what all peers have cleared.
pub prune_tombstones-kept :
    (now : ℕ) (c : EpochCompactor)
    → All Fits c.peer_epochs
    → let r = prune_tombstones now c in
      (r.remaining ≡ length r.compactor.tombstones)
      × All (λ (t : TombstoneRecord). Mem t c.tombstones × (¬ IsStable c t)) r.compactor.tombstones
prune_tombstones-kept now c f = (
  prune-remaining now c,
  All-of_Mem _ (prune_tombstones now c).compactor.tombstones λ t h.
      let (was, above) = prune-kept now c t h in
      (
        was,
        λ st.
            omega
              (arith, cleared-stable_epoch (t.epoch + c.stability_lag) c.peer_epochs st f, above),
      ),
)

-- With a positive lag, each record that was there is kept by `PruneTombstones`, or some peer is
-- known, all peers have cleared its epoch by the lag, and its entity is among the pruned.
pub prune_tombstones-dropped :
    (now : ℕ) (c : EpochCompactor) (t : TombstoneRecord)
    → 0 < c.stability_lag
    → Mem t c.tombstones
    → let r = prune_tombstones now c in
      Mem t r.compactor.tombstones ⊎ (Mem t.entity_id r.pruned × IsStable c t)
prune_tombstones-dropped now c t lag h = elim (prune-dropped now c t h) [
  | inl k ↦ inl k
  | inr (p, le) ↦
      inr (p, stable_epoch-cleared (t.epoch + c.stability_lag) c.peer_epochs (omega arith) le)
]

-- The peer is in the map.
abbrev pub is_known : List ℕ → List Peer → Bool
is_known id peers = any (λ (p : Peer). same_key id p.0) peers

advance_peer-cleared :
    (e : ℕ) (id : List ℕ) (epoch : ℕ) (peers : List Peer)
    → is_known id peers ≡ true
    → All (HasCleared e) peers
    → All (HasCleared e) (advance_peer id epoch peers)
unfolding advance_peer
advance_peer-cleared e id epoch [] k a = cc
advance_peer-cleared e id epoch ((j, current) ∷ peers) k a =
    ground (arith, advance_peer-cleared e id epoch peers)

advance_peer-Fits :
    (id : List ℕ) (epoch : ℕ) (peers : List Peer)
    → epoch < 2 ^ 64
    → All Fits peers
    → All Fits (advance_peer id epoch peers)
unfolding advance_peer
advance_peer-Fits id epoch [] h f = (h, tt)
advance_peer-Fits id epoch ((j, current) ∷ peers) h f =
    ground (arith, advance_peer-Fits id epoch peers)

advance_peer-cons : (id : List ℕ) (epoch : ℕ) (peers : List Peer) → advance_peer id epoch peers ≢ []
unfolding advance_peer
advance_peer-cons id epoch [] = λ e. cc
advance_peer-cons id epoch ((j, current) ∷ peers) = ground arith

-- The report of a peer that is known, whatever epoch it names, never lowers the stable epoch.
advance_peer_epoch-stable :
    (id : List ℕ) (epoch : ℕ) (c : EpochCompactor)
    → epoch < 2 ^ 64
    → All Fits c.peer_epochs
    → is_known id c.peer_epochs ≡ true
    → stable_epoch c.peer_epochs ≤ stable_epoch (advance_peer_epoch id epoch c).peer_epochs
unfolding advance_peer_epoch
advance_peer_epoch-stable id epoch c h f k =
    let e = stable_epoch c.peer_epochs in
    elim (Bool-cases (ltb 0 e)) [
      | inl b ↦
          let (_, all) = stable_epoch-cleared e c.peer_epochs (omega tests) (omega arith) in
          cleared-stable_epoch e (advance_peer id epoch c.peer_epochs)
            (
              advance_peer-cons id epoch c.peer_epochs,
              advance_peer-cleared e id epoch c.peer_epochs k all,
            )
            (advance_peer-Fits id epoch c.peer_epochs h f)
      | inr b ↦ ground arith
    ]
