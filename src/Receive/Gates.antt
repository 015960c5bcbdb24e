-- ===== src/Receive/Gates.antt =====
-- What the gates of `HandleFrame` let through.
use sovereign.Prelude.{
  ℕ, ◌≤◌, ◌≡◌, ◌≢◌, refl, true, ==_iff, arith, List, Option, some, Bool, length, ◌==◌, inl, inr,
  ◌⊎◌, Bool-cases, Option-cases,
}
use sovereign.Prelude.Int.{ℤ}
use sovereign.Float64.{Float64}
use sovereign.EntryMap.{EntryMap}
use mathlib.Core.Path.{subst}
use sovereign.Lamport.{Clock, advance_lamport_to}
use sovereign.WallClock.{int64_of, is_late_enough, admit}
use sovereign.Reconstruct.{WireEvent}
use sovereign.Engine.Sorter.{Sorter}
use sovereign.Engine.Defs.{Engine}
use sovereign.Wire.Relay.{
  RelayEnvelope, Opened, opened, hop_bound_exceeded, verify_failed, unmarshal_relay_envelope,
  open_envelope,
}
use sovereign.Receive.{
  accepted, Receiver, verify_step, open_step, clock_step, rate_step, handle_frame, read_last_hop,
  read_gate_fields,
}
use sovereign.Admission.{FrameDecision, accept, keep, drop}
use sovereign.Wire.Relay.Custody.{opened-verified}
use sovereign.Receive.Judged.{Judged, Signed, Judged-at, verify_step-Judged}

decision-cases : (d : FrameDecision) → (d ≡ drop) ⊎ (d ≡ keep)
decision-cases drop = inl refl
decision-cases keep = inr refl

module _ (fl : Float64) (em : EntryMap) (hash : List ℕ → ℕ) (so : Sorter)
    (verify : List ℕ → List ℕ → List ℕ → Bool) (lookup : List ℕ → Option (List ℕ))
    (decode : List ℕ → Option WireEvent) (sha256 : List ℕ → List ℕ) where
  -- An envelope that opens within the hop bound.
  abbrev Opens : ℕ → List ℕ → RelayEnvelope → Receiver fl em hash → Engine fl em hash → Type 0
  Opens counter origin env r e' =
      (inner : List ℕ) × (n : ℕ) × (length env.hops ≤ r.max_hops)
      × (open_envelope verify env r.max_hops ≡ opened inner n)
      × Signed fl em hash so verify lookup decode sha256 counter origin env inner r e'

  Opened-cases :
      (o : Opened)
      → (o ≡ hop_bound_exceeded)
        ⊎ (((i : ℕ) × (o ≡ verify_failed i)) ⊎ ((w : List ℕ) × (n : ℕ) × (o ≡ opened w n)))
  Opened-cases hop_bound_exceeded = inl refl
  Opened-cases (verify_failed i) = inr (inl (i, refl))
  Opened-cases (opened w n) = inr (inr (w, n, refl))

  open_step-Judged :
      (frame : List ℕ) (counter : ℕ) (origin : List ℕ) (pre : ℕ) (env : RelayEnvelope)
      (r : Receiver fl em hash)
      → read_gate_fields decode env ≡ some (counter, origin)
      → Judged fl em hash so verify lookup decode sha256
          (Opens counter origin env r)
          r
          (open_step fl em hash so verify lookup decode sha256 frame counter origin pre env r)
  unfolding open_step
  open_step-Judged frame counter origin pre env r g =
      elim (Opened-cases (open_envelope verify env r.max_hops)) [
        | inl e ↦ rw (e, open_step) (inl (λ h. cc, refl))
        | inr (inl (i, e)) ↦ rw (e, open_step) (inl (λ h. cc, refl))
        | inr (inr (w, n, e)) ↦
            Judged-at fl em hash so verify lookup decode sha256
              (Signed fl em hash so verify lookup decode sha256 counter origin env w r)
              (Opens counter origin env r) r
              (open_step fl em hash so verify lookup decode sha256 frame counter origin pre env r)
              (verify_step fl em hash so verify lookup decode sha256 frame counter origin pre env w
                r)
              (rw (e, open_step) refl)
              (λ e' s. (w, n, (opened-verified verify env r.max_hops w n e).0, e, s))
              (verify_step-Judged fl em hash so verify lookup decode sha256 frame counter origin pre
                env w r g (opened-verified verify env r.max_hops w n e).2)
      ]

  -- The receiver behind the clock gate.
  abbrev pub behind : ℕ → Receiver fl em hash → Receiver fl em hash
  behind counter r = record r {
    engine = record r.engine { clock = advance_lamport_to fl counter r.engine.clock };
  }

  -- A frame whose physical time is not too far ahead, so that the clock gate lets it through.
  abbrev Admitted :
      ℤ → ℤ → ℕ → List ℕ → RelayEnvelope → Receiver fl em hash → Engine fl em hash → Type 0
  Admitted local physical counter origin env r e' =
      (is_late_enough local physical ≡ true) × Opens counter origin env (behind counter r) e'

  gate_passes :
      (local physical : ℤ) (counter : ℕ) (c : Clock fl)
      → (admit fl local physical counter c).0 ≡ true
      → (is_late_enough local physical ≡ true)
        × ((admit fl local physical counter c).1 ≡ advance_lamport_to fl counter c)
  unfolding admit
  gate_passes local physical counter c h = ground arith

  clock_step-Judged :
      (local physical : ℤ) (frame : List ℕ) (counter : ℕ) (origin : List ℕ) (env : RelayEnvelope)
      (r : Receiver fl em hash)
      → read_gate_fields decode env ≡ some (counter, origin)
      → Judged fl em hash so verify lookup decode sha256
          (Admitted local physical counter origin env r)
          r
          (clock_step fl em hash so verify lookup decode sha256 local physical frame counter origin
            env r)
  unfolding clock_step
  clock_step-Judged local physical frame counter origin env r g =
      let c = (admit fl local physical counter r.engine.clock).1 in
      let r' = record r { engine = record r.engine { clock = c } } in
      elim (Bool-cases (admit fl local physical counter r.engine.clock).0) [
        | inr late ↦ rw late (inl (λ h. cc, refl))
        | inl ok ↦
            Judged-at fl em hash so verify lookup decode sha256 (Opens counter origin env r')
              (Admitted local physical counter origin env r) r'
              (clock_step fl em hash so verify lookup decode sha256 local physical frame counter
                origin env r)
              (open_step fl em hash so verify lookup decode sha256 frame counter origin
                r.engine.clock.lamport_counter env r')
              (rw (ok, clock_step) refl)
              (λ e' s.
                let (late, same) = gate_passes local physical counter r.engine.clock ok in
                (
                  late,
                  subst
                      (λ (k : Clock fl).
                        Opens counter origin env
                          (record r { engine = record r.engine { clock = k } }) e')
                      same s,
                ))
              (open_step-Judged frame counter origin r.engine.clock.lamport_counter env r' g)
      ]

  -- A frame with hops: its last hop's budget covers the counter, and its time is the last hop's.
  abbrev Rated :
      ℤ → List ℕ → ℕ → List ℕ → RelayEnvelope → Receiver fl em hash → Engine fl em hash → Type 0
  Rated local frame counter origin env r e' =
      (last : List ℕ × ℕ) × (read_last_hop frame (length env.hops) ≡ some last)
      × ((accept fl last.0 counter r.bucket).0 ≡ keep)
      × Admitted local (int64_of last.1) counter origin env r e'

  rate_step-Judged :
      (local : ℤ) (frame : List ℕ) (counter : ℕ) (origin : List ℕ) (env : RelayEnvelope)
      (last : List ℕ × ℕ) (r : Receiver fl em hash)
      → read_gate_fields decode env ≡ some (counter, origin)
      → read_last_hop frame (length env.hops) ≡ some last
      → Judged fl em hash so verify lookup decode sha256
          (Rated local frame counter origin env r)
          r
          (rate_step fl em hash so verify lookup decode sha256 local frame counter origin env last
            r)
  unfolding rate_step
  rate_step-Judged local frame counter origin env last r g l =
      let r' = record r { bucket = (accept fl last.0 counter r.bucket).1 } in
      elim (decision-cases (accept fl last.0 counter r.bucket).0) [
        | inl e ↦ rw (e, rate_step) (inl (λ h. cc, refl))
        | inr e ↦
            Judged-at fl em hash so verify lookup decode sha256
              (Admitted local (int64_of last.1) counter origin env r')
              (Rated local frame counter origin env r) r
              (rate_step fl em hash so verify lookup decode sha256 local frame counter origin env
                last r)
              (clock_step fl em hash so verify lookup decode sha256 local (int64_of last.1) frame
                counter origin env r')
              (rw (e, rate_step) refl) (λ e' s. (last, l, e, s))
              (clock_step-Judged local (int64_of last.1) frame counter origin env r' g)
      ]

  -- An envelope of the frame with its gate fields. A frame without hops is not rated, and its time
  -- is the receiver's own.
  abbrev pub Delivered : ℤ → ℤ → List ℕ → Receiver fl em hash → Engine fl em hash → Type 0
  Delivered now local frame r e' =
      (env : RelayEnvelope) × (counter : ℕ) × (origin : List ℕ) × (unmarshal_relay_envelope frame
        ≡ some env)
      × (read_gate_fields decode env ≡ some (counter, origin))
      × (((length env.hops ≡ 0) × Admitted local now counter origin env r e')
          ⊎ Rated local frame counter origin env r e')

  handle_parsed :
      (now local : ℤ) (frame : List ℕ) (r : Receiver fl em hash) (env : RelayEnvelope)
      → unmarshal_relay_envelope frame ≡ some env
      → Judged fl em hash so verify lookup decode sha256
          (Delivered now local frame r)
          r
          (handle_frame fl em hash so verify lookup decode sha256 now local frame r)
  unfolding handle_frame
  handle_parsed now local frame r env u =
      let all = handle_frame fl em hash so verify lookup decode sha256 now local frame r in
      elim (Bool-cases (length env.hops == 0)) [
        | inl z ↦ elim (Option-cases (read_gate_fields decode env)) [
          | inl e ↦ rw (u, handle_frame, z, e) (inl (λ h. cc, refl))
          | inr ((counter, origin), e) ↦
              Judged-at fl em hash so verify lookup decode sha256
                (Admitted local now counter origin env r) (Delivered now local frame r) r all
                (clock_step fl em hash so verify lookup decode sha256 local now frame counter origin
                  env r)
                (rw (u, handle_frame, z, e) refl)
                (λ e' s. (env, counter, origin, u, e, inl ((==_iff (length env.hops) 0).0 z, s)))
                (clock_step-Judged local now frame counter origin env r e)
        ]
        | inr z ↦ elim (Option-cases (read_last_hop frame (length env.hops))) [
          | inl e ↦ rw (u, handle_frame, z, e) (inl (λ h. cc, refl))
          | inr (last, l) ↦ elim (Option-cases (read_gate_fields decode env)) [
            | inl e ↦ rw (u, handle_frame, z, l, e) (inl (λ h. cc, refl))
            | inr ((counter, origin), e) ↦
                Judged-at fl em hash so verify lookup decode sha256
                  (Rated local frame counter origin env r) (Delivered now local frame r) r all
                  (rate_step fl em hash so verify lookup decode sha256 local frame counter origin
                    env last r)
                  (rw (u, handle_frame, z, l, e) refl) (λ e' s. (env, counter, origin, u, e, inr s))
                  (rate_step-Judged local frame counter origin env last r e l)
          ]
        ]
      ]

  -- What `HandleFrame` makes of a frame: the shards stay and the verdict is not acceptance, or the
  -- verdict is acceptance and the frame passed every gate: it unmarshals to an envelope; with hops,
  -- the rate gate keeps the last hop's key at the envelope's counter; its time (the last hop's, or
  -- the receiver's own without hops) is not too far ahead for the clock gate, which moves the
  -- engine's clock up to the counter; the envelope opens within the hop bound;
  -- verification is not hybrid, and the key that the directory has for the origin verifies the
  -- origin signature of the inner wire; that wire decodes to an event of the known version, which
  -- reconstructs to an entry of that same origin and counter, within the skew bound counted from the
  -- moved clock. The engine is then what `Join` makes of it and that entry alone.
  pub handle_frame_lem :
      (now local : ℤ) (frame : List ℕ) (r : Receiver fl em hash)
      → let o = handle_frame fl em hash so verify lookup decode sha256 now local frame r in
        ((o.0 ≢ accepted) × (o.1.engine.shards ≡ r.engine.shards))
        ⊎ ((o.0 ≡ accepted) × Delivered now local frame r o.1.engine)
  unfolding handle_frame
  handle_frame_lem now local frame r = elim (Option-cases (unmarshal_relay_envelope frame)) [
    | inl u ↦ rw (u, handle_frame) (inl (λ h. cc, refl))
    | inr (env, u) ↦ handle_parsed now local frame r env u
  ]
