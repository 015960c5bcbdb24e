-- ===== src/Receive/Events.antt =====
-- What it takes for `ApplyCRDTDeltaEvent` to hand an entry to `Join`.
use sovereign.Prelude.{
  ℕ, ◌≡◌, ◌≤◌, refl, sym, ap, ltb, ==_iff, first_true, second_true, ◌∙◌, List, [], ◌∷◌, Option,
  some, Bool, true, false, not, ◌&&◌, length, ◌==◌, if◌then◌else◌, inl, inr, ◌⊎◌, Bool-cases,
  Option-cases, arith,
}
use sovereign.Float64.{Float64}
use sovereign.EntryMap.{EntryMap, key_eq}
use sovereign.Reconstruct.{
  WireEvent, Checked, checked, rejected, ReconstructedEntry, and_then-checked, WireIntegrityError,
  lamport_skew_poisoning, reconstruct_entry, reconstruct_entry_with_skew_bound,
  reconstruct_entry-IsVouched,
}
use sovereign.Engine.Sorter.{Sorter}
use sovereign.Engine.Defs.{Engine, Outcome}
use sovereign.Skew.{max_acceptable_dot_counter}
use sovereign.Engine.Join.{join}
use sovereign.Wire.Relay.{RelayEnvelope, envelope_version}
use sovereign.Receive.{
  crdt_delta_event_wire_version, Receiver, snapshot_of, incoming_of, apply_crdt_delta_event,
  cross_check_gate_fields, read_gate_fields, read_gate_fields_from_capnp,
}

guarded_not :
    {A : Type 0} (b : Bool) (c : Checked A) (e : WireIntegrityError) (r : A)
    → (if b then rejected e else c) ≡ checked r
    → (b ≡ false) × (c ≡ checked r)
guarded_not true c e r h = cc
guarded_not false c e r h = (refl, h)

at_most : (a b : ℕ) → ltb a b ≡ false → b ≤ a
at_most a b h = ground arith

true_of_not : (b : Bool) → not b ≡ false → b ≡ true
true_of_not b h = ground arith

Checked-cases {ℓ} :
    {A : Type ℓ} (c : Checked A)
    → ((e : WireIntegrityError) × (c ≡ rejected e)) ⊎ ((x : A) × (c ≡ checked x))
Checked-cases (rejected e) = inl (e, refl)
Checked-cases (checked x) = inr (x, refl)

module _ (fl : Float64) (em : EntryMap) (hash : List ℕ → ℕ) (so : Sorter)
    (verify : List ℕ → List ℕ → List ℕ → Bool) (lookup : List ℕ → Option (List ℕ))
    (decode : List ℕ → Option WireEvent) (sha256 : List ℕ → List ℕ) where
  unskewed :
      (ev : WireEvent) (r : Receiver fl em hash) (rec : ReconstructedEntry)
      → reconstruct_entry_with_skew_bound sha256 fl ev (snapshot_of fl em hash r) ≡ checked rec
      → (reconstruct_entry sha256 ev ≡ checked rec)
        × (rec.entry.dot_counter ≤ max_acceptable_dot_counter fl (snapshot_of fl em hash r))
  unfolding reconstruct_entry_with_skew_bound
  unskewed ev r rec h =
      let (x, same, g) = and_then-checked (reconstruct_entry sha256 ev) _ rec h in
      let (small, last) = guarded_not _ (checked x) lamport_skew_poisoning rec g in
      let it : x ≡ rec = cc in (same ∙ last, at_most _ _ (rw it at small))

  pub applied :
      (inner : List ℕ) (r : Receiver fl em hash) (o : Outcome (Engine fl em hash))
      → apply_crdt_delta_event fl em hash so verify lookup decode sha256 inner r ≡ some o
      → (ev : WireEvent) × (rec : ReconstructedEntry) × (decode inner ≡ some ev)
        × (ev.version ≡ crdt_delta_event_wire_version)
        × (reconstruct_entry sha256 ev ≡ checked rec)
        × (rec.entry.dot_counter ≤ max_acceptable_dot_counter fl (snapshot_of fl em hash r))
        × (join fl em hash so (some (incoming_of fl em hash rec ∷ [])) r.engine ≡ o)
  unfolding apply_crdt_delta_event
  applied inner r o h = elim (Option-cases (decode inner)) [
    | inl e ↦ absurd (let n = rw (e, apply_crdt_delta_event) at h in cc)
    | inr (ev, e) ↦ elim (Bool-cases (ev.version == crdt_delta_event_wire_version)) [
      | inr v ↦ absurd (let n = rw (e, apply_crdt_delta_event, v) at h in cc)
      | inl v ↦
          elim (Checked-cases
            (reconstruct_entry_with_skew_bound sha256 fl ev (snapshot_of fl em hash r))) [
              | inl (x, c) ↦ absurd (let n = rw (e, apply_crdt_delta_event, v, c) at h in cc)
              | inr (rec, c) ↦ (
                ev,
                rec,
                e,
                (==_iff ev.version crdt_delta_event_wire_version).0 v,
                (unskewed ev r rec c).0,
                (unskewed ev r rec c).1,
                let n = rw (e, apply_crdt_delta_event, v, c) at h in cc,
              )
            ]
    ]
  ]

  gate_event :
      (inner : List ℕ) (f : ℕ × List ℕ) (ev : WireEvent)
      → read_gate_fields_from_capnp decode inner ≡ some f
      → decode inner ≡ some ev
      → (ev.origin_node_id ≡ some f.1) × (ev.dot_counter ≡ f.0)
  unfolding read_gate_fields_from_capnp
  gate_event inner f ev h d = elim (Option-cases (ev.origin_node_id)) [
    | inl e ↦ absurd (let n = rw (d, read_gate_fields_from_capnp, e) at h in cc)
    | inr (origin, e) ↦ elim (Bool-cases (length origin == 16)) [
      | inr l ↦ absurd (let n = rw (d, read_gate_fields_from_capnp, e, l) at h in cc)
      | inl l ↦ let n = rw (d, read_gate_fields_from_capnp, e, l) at h in (e ∙ cc, cc)
    ]
  ]

  cross_event :
      (env : RelayEnvelope) (inner : List ℕ) (ev : WireEvent)
      → cross_check_gate_fields decode env inner ≡ true
      → decode inner ≡ some ev
      → (ev.origin_node_id ≡ some env.origin_node_id) × (ev.dot_counter ≡ env.dot_counter)
  unfolding cross_check_gate_fields
  cross_event env inner ev h d = elim (Option-cases (read_gate_fields_from_capnp decode inner)) [
    | inl e ↦ absurd (let n = rw (e, cross_check_gate_fields) at h in cc)
    | inr (f, e) ↦
        let both = rw (e, cross_check_gate_fields) at h in
        let (at, count) = gate_event inner f ev e d in
        (
          at
              ∙ ap some
                  (key_eq env.origin_node_id f.1 (second_true (env.dot_counter == f.0) _ both)),
          count ∙ sym ((==_iff env.dot_counter f.0).0 (first_true (env.dot_counter == f.0) _ both)),
        )
  ]

  -- The entry that is joined is of the origin whose key the directory was asked for, and has the
  -- counter that the gates were asked about.
  pub same_fields :
      (counter : ℕ) (origin : List ℕ) (env : RelayEnvelope) (inner : List ℕ) (ev : WireEvent)
      (rec : ReconstructedEntry)
      → read_gate_fields decode env ≡ some (counter, origin)
      → inner ≡ env.inner_wire
      → ((env.version == envelope_version) && not (cross_check_gate_fields decode env inner))
        ≡ false
      → decode inner ≡ some ev
      → reconstruct_entry sha256 ev ≡ checked rec
      → (rec.entry.origin_node_id ≡ origin) × (rec.entry.dot_counter ≡ counter)
  unfolding read_gate_fields
  same_fields counter origin env inner ev rec g w good d c =
      let vouched = reconstruct_entry-IsVouched sha256 ev rec c in
      elim (Bool-cases (env.version == envelope_version)) [
        | inl v ↦
            let field = rw v at g in
            let crossed = cross_event env inner ev (true_of_not _ (rw v at good)) d in
            (cc (crossed.0, vouched.origin), vouched.counter ∙ cc (crossed.1))
        | inr v ↦
            let field = rw (v, ← w) at g in
            let there = gate_event inner (counter, origin) ev field d in
            (cc (there.0, vouched.origin), vouched.counter ∙ there.1)
      ]
