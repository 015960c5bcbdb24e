-- ===== src/Receive.antt =====
-- The receiver of frames: `HandleFrame` of pkg/receive/receiver.go and `ApplyCRDTDeltaEvent` of
-- pkg/sync/crdt_apply.go, over the gates that other files model. The message decoder (`decode`, whose
-- `none` is an error of `Unmarshal` or `ReadRootCRDTDeltaEvent`), SHA-256, Ed25519 and the identity
-- directory are parameters, and so are the two readings of the wall clock. Both hooks are set, and
-- their calls are listed, newest first; the reasons of the verdicts are not in the model.
pub mod Skewed
pub mod Events
pub mod Judged
pub mod Gates
pub mod Forged
use sovereign.Prelude.{
  ℕ, ◌+◌, ◌-◌, ◌*◌, List, [], ◌∷◌, Option, none, some, Bool, true, false, length, ltb, leb, ◌==◌,
  not, ◌&&◌, if◌then◌else◌,
}
use sovereign.Prelude.Int.{ℤ}
use sovereign.Bytes.{le_value}
use sovereign.Float64.{Float64}
use sovereign.Entry.{IncomingEntry}
use sovereign.EntryMap.{EntryMap, same_key}
use sovereign.Admission.{Buckets, FrameDecision, keep, drop, accept}
use sovereign.Skew.{LamportSnapshot}
use sovereign.WallClock.{int64_of, admit}
use sovereign.Reconstruct.{
  WireEvent, Checked, checked, rejected, ReconstructedEntry, reconstruct_entry_with_skew_bound,
}
use sovereign.Engine.Sorter.{Sorter}
use sovereign.Engine.Defs.{Engine, Outcome, done, panic}
use sovereign.Engine.Join.{join}
use sovereign.Wire.Fields.{slice}
use sovereign.Wire.Relay.{
  RelayEnvelope, Opened, opened, hop_bound_exceeded, verify_failed, envelope_version, hop_size,
  header_len_for_version, unmarshal_relay_envelope, open_envelope,
}

-- `Verdict`; `crashed` is the panic of a `Join` after `Close`.
pub data Verdict : Type 0 where
  accepted : Verdict
  drop_malformed : Verdict
  drop_rate : Verdict
  drop_clock : Verdict
  drop_depth : Verdict
  drop_verify : Verdict
  crashed : Verdict

abbrev pub crdt_delta_event_wire_version : ℕ
crdt_delta_event_wire_version = 1

-- `readLastHop`
unfoldable pub read_last_hop : List ℕ → ℕ → Option (List ℕ × ℕ)
read_last_hop frame hops =
    if ltb (length frame) 8
    then none
    else elim (header_len_for_version (le_value (slice 0 2 frame))) [
      | none ↦ none
      | some hdr_len ↦
          let last_base = hdr_len + le_value (slice 4 4 frame) + (hops - 1) * hop_size in
          if ltb (length frame) (last_base + hop_size)
          then none
          else some (slice last_base 32 frame, le_value (slice (last_base + 96) 8 frame))
    ]

-- `readGateFieldsFromCapnp`
unfoldable pub read_gate_fields_from_capnp :
    (List ℕ → Option WireEvent) → List ℕ → Option (ℕ × List ℕ)
read_gate_fields_from_capnp decode inner = elim (decode inner) [
  | none ↦ none
  | some ev ↦ elim (ev.origin_node_id) [
    | none ↦ none
    | some origin ↦ if length origin == 16 then some (ev.dot_counter, origin) else none
  ]
]

-- `readGateFields`
unfoldable pub read_gate_fields : (List ℕ → Option WireEvent) → RelayEnvelope → Option (ℕ × List ℕ)
unfolding read_gate_fields_from_capnp
read_gate_fields decode env =
    if env.version == envelope_version
    then some (env.dot_counter, env.origin_node_id)
    else read_gate_fields_from_capnp decode env.inner_wire

-- `crossCheckGateFields`: whether there is no error.
unfoldable pub cross_check_gate_fields : (List ℕ → Option WireEvent) → RelayEnvelope → List ℕ → Bool
unfolding read_gate_fields_from_capnp
cross_check_gate_fields decode env inner = elim (read_gate_fields_from_capnp decode inner) [
  | none ↦ false
  | some f ↦ (env.dot_counter == f.0) && same_key env.origin_node_id f.1
]

module _ (fl : Float64) (em : EntryMap) (hash : List ℕ → ℕ) where
  -- `Receiver`, with the engine's two settings of the skew bound.
  pub record Receiver : Type 0 where
    pub bucket : Buckets fl
    pub engine : Engine fl em hash
    pub max_hops : ℕ
    pub hybrid_verify : Bool
    pub skew_horizon_seconds : fl.Float
    pub skew_absolute_slack : ℕ
    pub clock_advances : List ℕ
    pub relayed : List (List ℕ × ℕ × List ℕ)

  -- `LamportSnapshot` of the engine.
  unfoldable pub snapshot_of : Receiver → LamportSnapshot fl
  snapshot_of r = record {
    lamport = r.engine.clock.lamport_counter;
    observed_inbound_rate = r.engine.clock.observed_inbound_rate;
    horizon_seconds = r.skew_horizon_seconds;
    absolute_slack = r.skew_absolute_slack;
  }

  abbrev pub incoming_of : ReconstructedEntry → IncomingEntry
  incoming_of e = record { entity_id = e.entity_id; entry = e.entry }

  module _ (so : Sorter) (verify : List ℕ → List ℕ → List ℕ → Bool)
      (lookup : List ℕ → Option (List ℕ)) (decode : List ℕ → Option WireEvent)
      (sha256 : List ℕ → List ℕ) where
    -- `ApplyCRDTDeltaEvent`: `none` is an error.
    unfoldable pub apply_crdt_delta_event : List ℕ → Receiver → Option (Outcome (Engine fl em hash))
    unfolding snapshot_of
    apply_crdt_delta_event inner r = elim (decode inner) [
      | none ↦ none
      | some ev ↦
          if ev.version == crdt_delta_event_wire_version
          then elim (reconstruct_entry_with_skew_bound sha256 fl ev (snapshot_of r)) [
            | rejected e ↦ none
            | checked rec ↦ some (join fl em hash so (some (incoming_of rec ∷ [])) r.engine)
          ]
          else none
    ]

    -- What follows the join: the hooks, with the clock at the entry of `HandleFrame`.
    unfoldable pub finish : List ℕ → ℕ → List ℕ → ℕ → Receiver → Verdict × Receiver
    finish frame counter origin pre_advance r =
        let post = r.engine.clock.lamport_counter in
        (
          accepted,
          record r {
            clock_advances =
                if ltb pre_advance post then post ∷ r.clock_advances else r.clock_advances;
            relayed = (origin, counter, frame) ∷ r.relayed;
          },
        )

    -- Step 9.
    unfoldable pub apply_step : List ℕ → ℕ → List ℕ → ℕ → List ℕ → Receiver → Verdict × Receiver
    unfolding apply_crdt_delta_event finish
    apply_step frame counter origin pre_advance inner r = elim (apply_crdt_delta_event inner r) [
      | none ↦ (drop_verify, r)
      | some panic ↦ (crashed, r)
      | some (done e) ↦ finish frame counter origin pre_advance (record r { engine = e })
    ]

    -- Steps 7 to 9. The hybrid verification has no post-quantum key, and fails.
    unfoldable pub verify_step :
        List ℕ → ℕ → List ℕ → ℕ → RelayEnvelope → List ℕ → Receiver → Verdict × Receiver
    unfolding apply_step cross_check_gate_fields
    verify_step frame counter origin pre_advance env inner r = elim (lookup origin) [
      | none ↦ (drop_verify, r)
      | some origin_pub ↦
          if not r.hybrid_verify && verify origin_pub inner env.origin_sig
          then (if (env.version == envelope_version)
                && not (cross_check_gate_fields decode env inner)
              then (drop_verify, r)
              else apply_step frame counter origin pre_advance inner r)
          else (drop_verify, r)
    ]

    -- Step 6.
    unfoldable pub open_step :
        List ℕ → ℕ → List ℕ → ℕ → RelayEnvelope → Receiver → Verdict × Receiver
    unfolding verify_step
    open_step frame counter origin pre_advance env r = elim (open_envelope verify env r.max_hops) [
      | hop_bound_exceeded ↦ (drop_depth, r)
      | verify_failed i ↦ (drop_verify, r)
      | opened inner n ↦ verify_step frame counter origin pre_advance env inner r
    ]

    -- Steps 5 to 9: the clock gate, which moves the engine's clock.
    unfoldable pub clock_step :
        ℤ → ℤ → List ℕ → ℕ → List ℕ → RelayEnvelope → Receiver → Verdict × Receiver
    unfolding open_step
    clock_step local physical frame counter origin env r =
        let pre_advance = r.engine.clock.lamport_counter in
        let a = admit fl local physical counter r.engine.clock in
        let r' = record r { engine = record r.engine { clock = a.1 } } in
        if a.0 then open_step frame counter origin pre_advance env r' else (drop_clock, r')

    -- Steps 4 to 9, on a frame with a hop.
    unfoldable pub rate_step :
        ℤ → List ℕ → ℕ → List ℕ → RelayEnvelope → List ℕ × ℕ → Receiver → Verdict × Receiver
    unfolding clock_step
    rate_step local frame counter origin env last r =
        let d = accept fl last.0 counter r.bucket in
        let r' = record r { bucket = d.1 } in
        elim d.0 [
          | drop ↦ (drop_rate, r')
          | keep ↦ clock_step local (int64_of last.1) frame counter origin env r'
        ]

    -- `HandleFrame`: the wall clock as the receiver reads it for a frame without hops, and as the
    -- clock gate reads it.
    unfoldable pub handle_frame : ℤ → ℤ → List ℕ → Receiver → Verdict × Receiver
    unfolding rate_step clock_step read_gate_fields read_last_hop
    handle_frame now local frame r = elim (unmarshal_relay_envelope frame) [
      | none ↦ (drop_malformed, r)
      | some env ↦
          if length env.hops == 0
          then elim (read_gate_fields decode env) [
            | none ↦ (drop_malformed, r)
            | some (counter, origin) ↦ clock_step local now frame counter origin env r
          ]
          else elim (read_last_hop frame (length env.hops)) [
            | none ↦ (drop_malformed, r)
            | some last ↦ elim (read_gate_fields decode env) [
              | none ↦ (drop_malformed, r)
              | some (counter, origin) ↦ rate_step local frame counter origin env last r
            ]
          ]
    ]
