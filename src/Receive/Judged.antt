-- ===== src/Receive/Judged.antt =====
-- What the last steps of `HandleFrame` make of a receiver.
use sovereign.Prelude.{
  ℕ, ◌≡◌, ◌≢◌, refl, sym, List, [], ◌∷◌, Option, none, some, Bool, true, false, ◌≤◌, arith, not,
  ◌&&◌, ◌==◌, inl, inr, ◌⊎◌, Bool-cases, first_true, second_true, Option-cases,
}
use mathlib.Core.Path.{subst}
use sovereign.Float64.{Float64}
use sovereign.EntryMap.{EntryMap}
use sovereign.Reconstruct.{WireEvent, checked, ReconstructedEntry, reconstruct_entry}
use sovereign.Engine.Sorter.{Sorter}
use sovereign.Engine.Defs.{Engine, Outcome, done, panic}
use sovereign.Skew.{max_acceptable_dot_counter}
use sovereign.Engine.Join.{join}
use sovereign.Wire.Relay.{RelayEnvelope, envelope_version}
use sovereign.Receive.{
  crdt_delta_event_wire_version, snapshot_of, Verdict, accepted, Receiver, incoming_of,
  apply_crdt_delta_event, finish, apply_step, verify_step, cross_check_gate_fields,
  read_gate_fields,
}
use sovereign.Receive.Events.{applied, same_fields}

not-true : (b : Bool) → not b ≡ true → b ≡ false
not-true b h = ground arith

module _ (fl : Float64) (em : EntryMap) (hash : List ℕ → ℕ) (so : Sorter)
    (verify : List ℕ → List ℕ → List ℕ → Bool) (lookup : List ℕ → Option (List ℕ))
    (decode : List ℕ → Option WireEvent) (sha256 : List ℕ → List ℕ) where
  -- The event that an inner wire carries and the entry made of it, within the skew bound, joined.
  abbrev pub Joined : List ℕ → Receiver fl em hash → Engine fl em hash → Type 0
  Joined inner r e' =
      (ev : WireEvent) × (rec : ReconstructedEntry) × (decode inner ≡ some ev)
      × (ev.version ≡ crdt_delta_event_wire_version)
      × (reconstruct_entry sha256 ev ≡ checked rec)
      × (rec.entry.dot_counter ≤ max_acceptable_dot_counter fl (snapshot_of fl em hash r))
      × (join fl em hash so (some (incoming_of fl em hash rec ∷ [])) r.engine ≡ done e')

  -- What a step makes of a receiver: the shards stay and the frame is not accepted, or it is
  -- accepted and the engine is one of which `P` holds.
  abbrev pub Judged :
      (Engine fl em hash → Type 0) → Receiver fl em hash → Verdict × Receiver fl em hash → Type 0
  Judged P r o =
      ((o.0 ≢ accepted) × (o.1.engine.shards ≡ r.engine.shards)) ⊎ ((o.0 ≡ accepted) × P o.1.engine)

  Outcome-cases :
      (o : Option (Outcome (Engine fl em hash)))
      → (o ≡ none) ⊎ ((o ≡ some panic) ⊎ ((e : Engine fl em hash) × (o ≡ some (done e))))
  Outcome-cases none = inl refl
  Outcome-cases (some panic) = inr (inl refl)
  Outcome-cases (some (done e)) = inr (inr (e, refl))

  apply_step-Judged :
      (frame : List ℕ) (counter : ℕ) (origin : List ℕ) (pre : ℕ) (inner : List ℕ)
      (r : Receiver fl em hash)
      → Judged
          (Joined inner r)
          r
          (apply_step fl em hash so verify lookup decode sha256 frame counter origin pre inner r)
  unfolding apply_step finish
  apply_step-Judged frame counter origin pre inner r =
      elim (Outcome-cases
        (apply_crdt_delta_event fl em hash so verify lookup decode sha256 inner r)) [
          | inl e ↦ rw (e, apply_step) (inl (λ h. cc, refl))
          | inr (inl e) ↦ rw (e, apply_step) (inl (λ h. cc, refl))
          | inr (inr (e', e)) ↦
              rw (e, apply_step)
                (inr (refl, applied fl em hash so verify lookup decode sha256 inner r (done e') e))
        ]

  Judged-map :
      (P Q : Engine fl em hash → Type 0) (r : Receiver fl em hash)
      (o : Verdict × Receiver fl em hash)
      → ((e : Engine fl em hash) → P e → Q e)
      → Judged P r o
      → Judged Q r o
  Judged-map P Q r o f (inl same) = inl same
  Judged-map P Q r o f (inr (took, p)) = inr (took, f o.1.engine p)

  -- The step comes to another one.
  pub Judged-at :
      (P Q : Engine fl em hash → Type 0) (r : Receiver fl em hash)
      (o o' : Verdict × Receiver fl em hash)
      → o ≡ o'
      → ((e : Engine fl em hash) → P e → Q e)
      → Judged P r o'
      → Judged Q r o
  Judged-at P Q r o o' same f j = subst (Judged Q r) (sym same) (Judged-map P Q r o' f j)

  -- An entry of an origin in the directory, whose signature of the inner wire verifies, joined. Its
  -- origin and its counter are those that the gates were asked about.
  abbrev pub Signed :
      ℕ → List ℕ → RelayEnvelope → List ℕ → Receiver fl em hash → Engine fl em hash → Type 0
  Signed counter origin env inner r e' =
      (origin_pub : List ℕ) × (ev : WireEvent) × (rec : ReconstructedEntry) × (lookup origin
        ≡ some origin_pub)
      × (r.hybrid_verify ≡ false)
      × (rec.entry.origin_node_id ≡ origin)
      × (rec.entry.dot_counter ≡ counter)
      × (verify origin_pub inner env.origin_sig ≡ true)
      × (decode inner ≡ some ev)
      × (ev.version ≡ crdt_delta_event_wire_version)
      × (reconstruct_entry sha256 ev ≡ checked rec)
      × (rec.entry.dot_counter ≤ max_acceptable_dot_counter fl (snapshot_of fl em hash r))
      × (join fl em hash so (some (incoming_of fl em hash rec ∷ [])) r.engine ≡ done e')

  pub verify_step-Judged :
      (frame : List ℕ) (counter : ℕ) (origin : List ℕ) (pre : ℕ) (env : RelayEnvelope)
      (inner : List ℕ) (r : Receiver fl em hash)
      → read_gate_fields decode env ≡ some (counter, origin)
      → inner ≡ env.inner_wire
      → Judged (Signed counter origin env inner r) r (
          verify_step fl em hash so verify lookup decode sha256 frame counter origin pre env inner
            r)
  unfolding verify_step
  verify_step-Judged frame counter origin pre env inner r g w =
      elim (Option-cases (lookup origin)) [
        | inl e ↦ rw (e, verify_step) (inl (λ h. cc, refl))
        | inr (origin_pub, e) ↦
            elim (Bool-cases (not r.hybrid_verify && verify origin_pub inner env.origin_sig)) [
              | inr forged ↦ rw (e, verify_step, forged) (inl (λ h. cc, refl))
              | inl signed ↦
                  elim (Bool-cases (
                    (env.version == envelope_version)
                    && not (cross_check_gate_fields decode env inner))) [
                      | inl bad ↦ rw (e, verify_step, signed, bad) (inl (λ h. cc, refl))
                      | inr good ↦
                          Judged-at (Joined inner r) (Signed counter origin env inner r) r
                            (verify_step fl em hash so verify lookup decode sha256 frame counter
                              origin pre env inner r)
                            (apply_step fl em hash so verify lookup decode sha256 frame counter
                              origin pre inner r)
                            (rw (e, verify_step, signed, good) refl)
                            (λ e' j.
                              let (ev, rec, d, v, c, small, k) = j in
                              let (at, count) =
                                same_fields fl em hash so verify lookup decode sha256 counter origin
                                  env inner ev rec g w good d c in
                              (
                                origin_pub,
                                ev,
                                rec,
                                e,
                                not-true _ (first_true (not r.hybrid_verify) _ signed),
                                at,
                                count,
                                second_true (not r.hybrid_verify) _ signed,
                                d,
                                v,
                                c,
                                small,
                                k,
                              ))
                            (apply_step-Judged frame counter origin pre inner r)
                    ]
            ]
      ]
