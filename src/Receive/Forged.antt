-- ===== src/Receive/Forged.antt =====
-- What a frame does that nobody signed.
use sovereign.Prelude.{ℕ, ◌≡◌, refl, ap, ◌∙◌, List, [], Option, none, Bool, true, length, arith}
use Prim.Native.Nat.{max}
use sovereign.Prelude.Int.{ℤ}
use sovereign.Float64.{Float64}
use sovereign.EntryMap.{EntryMap}
use sovereign.Lamport.{Clock, advance_lamport_to}
use sovereign.WallClock.{is_late_enough, admit}
use sovereign.Reconstruct.{WireEvent}
use sovereign.Wire.Relay.{
  RelayEnvelope, marshal, new_signed_relay_envelope_v3, open_envelope, verify_loop, opened,
  envelope_version,
}
use sovereign.Wire.Relay.RoundTrip.{EnvelopeFits, unmarshal_relay_envelope-marshal}
use sovereign.Engine.Sorter.{Sorter}
use sovereign.Receive.{
  Verdict, drop_verify, Receiver, handle_frame, clock_step, open_step, verify_step,
  read_gate_fields,
}

module _ (fl : Float64) where
  lamport-advance :
      (n : ℕ) (c : Clock fl) → (advance_lamport_to fl n c).lamport_counter ≡ max n c.lamport_counter
  unfolding advance_lamport_to
  lamport-advance n c = ground arith

module _ (fl : Float64) (em : EntryMap) (hash : List ℕ → ℕ) (so : Sorter)
    (verify : List ℕ → List ℕ → List ℕ → Bool) (lookup : List ℕ → Option (List ℕ))
    (decode : List ℕ → Option WireEvent) (sha256 : List ℕ → List ℕ) where
  -- The receiver with its clock moved.
  abbrev moved : ℕ → Receiver fl em hash → Receiver fl em hash
  moved n r = record r {
    engine = record r.engine { clock = advance_lamport_to fl n r.engine.clock };
  }

  opens_empty :
      (e : RelayEnvelope) (max_hops : ℕ)
      → e.hops ≡ []
      → open_envelope verify e max_hops ≡ opened e.inner_wire (length e.hops)
  unfolding open_envelope verify_loop
  opens_empty e max_hops h = rw (h, verify_loop) (ground arith)

  unknown :
      (frame : List ℕ) (counter : ℕ) (origin : List ℕ) (pre : ℕ) (e : RelayEnvelope)
      (inner : List ℕ) (r : Receiver fl em hash)
      → lookup origin ≡ none
      → verify_step fl em hash so verify lookup decode sha256 frame counter origin pre e inner r
        ≡ (drop_verify, r)
  unfolding verify_step
  unknown frame counter origin pre e inner r l = rw (l, verify_step) refl

  opens_unknown :
      (frame : List ℕ) (counter : ℕ) (origin : List ℕ) (pre : ℕ) (e : RelayEnvelope)
      (r : Receiver fl em hash)
      → e.hops ≡ []
      → lookup origin ≡ none
      → open_step fl em hash so verify lookup decode sha256 frame counter origin pre e r
        ≡ (drop_verify, r)
  unfolding open_step
  opens_unknown frame counter origin pre e r h l =
      rw (opens_empty e r.max_hops h, open_step)
        (unknown frame counter origin pre e e.inner_wire r l)

  admitted_unknown :
      (local now : ℤ) (frame : List ℕ) (counter : ℕ) (origin : List ℕ) (e : RelayEnvelope)
      (r : Receiver fl em hash)
      → e.hops ≡ []
      → lookup origin ≡ none
      → is_late_enough local now ≡ true
      → clock_step fl em hash so verify lookup decode sha256 local now frame counter origin e r
        ≡ (drop_verify, moved counter r)
  unfolding clock_step admit
  admitted_unknown local now frame counter origin e r h l ok =
      rw ok
        (opens_unknown frame counter origin r.engine.clock.lamport_counter e (moved counter r) h l)

  -- A frame without hops whose origin is not in the directory, so that no signature of it is ever
  -- checked, is dropped; but where the receiver's two readings of the wall clock are close, it has by
  -- then moved the engine's Lamport clock to its own counter, whatever that is.
  pub handle_frame-moves_clock :
      (now local : ℤ) (inner sig : List ℕ) (counter : ℕ) (origin : List ℕ) (r : Receiver fl em hash)
      → EnvelopeFits (new_signed_relay_envelope_v3 inner sig counter origin [])
      → lookup origin ≡ none
      → is_late_enough local now ≡ true
      → let frame = marshal (new_signed_relay_envelope_v3 inner sig counter origin []) in
        let o = handle_frame fl em hash so verify lookup decode sha256 now local frame r in
        (o.0 ≡ drop_verify)
        × (o.1.engine.clock.lamport_counter ≡ max counter r.engine.clock.lamport_counter)
  unfolding handle_frame new_signed_relay_envelope_v3 read_gate_fields
  handle_frame-moves_clock now local inner sig counter origin r fits l ok =
      let e = new_signed_relay_envelope_v3 inner sig counter origin [] in
      let e' = record e { version = envelope_version } in
      let frame = marshal e in
      let same : handle_frame fl em hash so verify lookup decode sha256 now local frame r
          ≡ (drop_verify, moved counter r) =
        rw (unmarshal_relay_envelope-marshal e fits, handle_frame)
          (admitted_unknown local now frame counter origin e' r refl l ok) in
      (
        ap (λ (o : Verdict × Receiver fl em hash). o.0) same,
        ap (λ (o : Verdict × Receiver fl em hash). o.1.engine.clock.lamport_counter) same
            ∙ lamport-advance fl counter r.engine.clock,
      )
