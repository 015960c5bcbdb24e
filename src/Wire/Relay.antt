-- ===== src/Wire/Relay.antt =====
-- The relay envelope, pkg/attribution/envelope.go, and the hop that a relay adds when it forwards one,
-- pkg/receive/forward.go. An int64 is the number of its 64 bits. Ed25519 is a parameter: `verify` is
-- `identity.VerifyCRDTFrame` and `sign` is `ed25519.Sign`. A hop bound is a number, as every bound of
-- `MaxHopsForBudget` is.
pub mod RoundTrip
pub mod Custody
use sovereign.Prelude.{
  ℕ, zero, suc, ◌+◌, ◌-◌, ◌*◌, ◌/◌, List, [], ◌∷◌, ◌++◌, Option, none, some, Bool, length, drop,
  ltb, ◌==◌, replicate, if◌then◌else◌,
}
use sovereign.Bytes.{be_bytes, le_bytes, le_value}
use sovereign.Wire.Fields.{slice}

abbrev pub envelope_version : ℕ
envelope_version = 3

abbrev pub envelope_version_v2 : ℕ
envelope_version_v2 = 2

abbrev pub header_len : ℕ
header_len = 96

abbrev pub header_len_v2 : ℕ
header_len_v2 = 72

abbrev pub hop_size : ℕ
hop_size = 104

-- `Hop`
pub record Hop : Type 0 where
  pub relay_pub : List ℕ
  pub sig : List ℕ
  pub wall_usec : ℕ

-- `RelayEnvelope`
pub record RelayEnvelope : Type 0 where
  pub inner_wire : List ℕ
  pub origin_sig : List ℕ
  pub dot_counter : ℕ
  pub origin_node_id : List ℕ
  pub version : ℕ
  pub hops : List Hop

-- `NewSignedRelayEnvelopeV3`, which leaves the version 0.
unfoldable pub new_signed_relay_envelope_v3 :
    List ℕ → List ℕ → ℕ → List ℕ → List Hop → RelayEnvelope
new_signed_relay_envelope_v3 inner_wire origin_sig dot_counter origin_node_id hops = record {
  inner_wire = inner_wire;
  origin_sig = origin_sig;
  dot_counter = dot_counter;
  origin_node_id = origin_node_id;
  version = 0;
  hops = hops;
}

unfoldable pub marshal_hops : List Hop → List ℕ
marshal_hops [] = []
marshal_hops (h ∷ hops) = h.relay_pub ++ (h.sig ++ (le_bytes 8 h.wall_usec ++ marshal_hops hops))

-- `Marshal`
unfoldable pub marshal : RelayEnvelope → List ℕ
unfolding marshal_hops
marshal e =
    le_bytes 2 envelope_version
    ++ (le_bytes 2 (length e.hops)
        ++ (le_bytes 4 (length e.inner_wire)
            ++ (e.origin_sig
                ++ (le_bytes 8 e.dot_counter
                    ++ (e.origin_node_id ++ (e.inner_wire ++ marshal_hops e.hops))))))

-- `headerLenForVersion`
unfoldable pub header_len_for_version : ℕ → Option ℕ
header_len_for_version ver =
    if ver == envelope_version
    then some header_len
    else if ver == envelope_version_v2
    then some header_len_v2
    else none

-- The hop records, of which the wire holds enough.
unfoldable pub unmarshal_hops : ℕ → List ℕ → List Hop
unmarshal_hops zero wire = []
unmarshal_hops (suc n) wire =
    record {
      relay_pub = slice 0 32 wire;
      sig = slice 32 64 wire;
      wall_usec = le_value (slice 96 8 wire);
    }
    ∷ unmarshal_hops n (drop hop_size wire)

-- The envelope behind a header of `hdr_len` bytes; the mirror fields are only in version 3.
unfoldable pub parsed : ℕ → ℕ → List ℕ → RelayEnvelope
unfolding unmarshal_hops
parsed ver hdr_len wire =
    let n = le_value (slice 2 2 wire) in
    let inner_len = le_value (slice 4 4 wire) in
    record {
      inner_wire = slice hdr_len inner_len wire;
      origin_sig = slice 8 64 wire;
      dot_counter = if ver == envelope_version then le_value (slice 72 8 wire) else 0;
      origin_node_id = if ver == envelope_version then slice 80 16 wire else replicate 16 0;
      version = ver;
      hops = unmarshal_hops n (drop (hdr_len + inner_len) wire);
    }

-- `UnmarshalRelayEnvelope`; `none` is `ErrMalformed`.
unfoldable pub unmarshal_relay_envelope : List ℕ → Option RelayEnvelope
unfolding header_len_for_version parsed
unmarshal_relay_envelope wire =
    if ltb (length wire) 2
    then none
    else let ver = le_value (slice 0 2 wire) in
      elim (header_len_for_version ver) [
        | none ↦ none
        | some hdr_len ↦
            if ltb (length wire) hdr_len
            then none
            else let need =
                hdr_len + le_value (slice 4 4 wire) + le_value (slice 2 2 wire) * hop_size in
              if ltb (length wire) need then none else some (parsed ver hdr_len wire)
      ]

-- `MaxHopsForBudget`, of nanoseconds that are not negative; a negative budget gives 0 too.
abbrev pub verify_cost_per_hop32c : ℕ
verify_cost_per_hop32c = 60211

unfoldable pub max_hops_for_budget : ℕ → ℕ
max_hops_for_budget budget = budget / verify_cost_per_hop32c - 1

-- `SignedMaterial`
unfoldable pub signed_material : List ℕ → List ℕ → ℕ → ℕ → List ℕ
signed_material inner_wire preceding hop_index wall_usec =
    inner_wire ++ (preceding ++ (le_bytes 2 hop_index ++ le_bytes 8 wall_usec))

-- The result of `Open`: the inner wire and the number of hops, `ErrHopBoundExceeded`, or `ErrVerify`
-- at a hop.
pub data Opened : Type 0 where
  opened : List ℕ → ℕ → Opened
  hop_bound_exceeded : Opened
  verify_failed : ℕ → Opened

-- The loop of `rebuildPreceding`, from the hop `i` on.
unfoldable pub preceding_loop : List ℕ → ℕ → List ℕ → List Hop → List ℕ
preceding_loop inner_wire i preceding [] = preceding
preceding_loop inner_wire i preceding (h ∷ hops) =
    preceding_loop inner_wire (i + 1) (signed_material inner_wire preceding i h.wall_usec) hops

-- `rebuildPreceding`
unfoldable pub rebuild_preceding : List ℕ → List Hop → List ℕ
unfolding preceding_loop
rebuild_preceding inner_wire hops = preceding_loop inner_wire 0 [] hops

-- `verify pub msg sig`
module _ (verify : List ℕ → List ℕ → List ℕ → Bool) where
  -- The loop of `Open`: the first hop whose signature fails.
  unfoldable pub verify_loop : List ℕ → ℕ → List ℕ → List Hop → Option ℕ
  verify_loop inner_wire i preceding [] = none
  verify_loop inner_wire i preceding (h ∷ hops) =
      let material = signed_material inner_wire preceding i h.wall_usec in
      let rest = verify_loop inner_wire (i + 1) material hops in
      if verify h.relay_pub material h.sig then rest else some i

  -- `Open`
  unfoldable pub open_envelope : RelayEnvelope → ℕ → Opened
  unfolding verify_loop
  open_envelope e max_hops =
      if ltb max_hops (length e.hops)
      then hop_bound_exceeded
      else elim (verify_loop e.inner_wire 0 [] e.hops) [
        | none ↦ opened e.inner_wire (length e.hops)
        | some i ↦ verify_failed i
      ]

-- `sign priv msg`
module _ (sign : List ℕ → List ℕ → List ℕ) where
  -- `SignHop`
  unfoldable pub sign_hop : List ℕ → List ℕ → List ℕ → List ℕ → ℕ → ℕ → Hop
  sign_hop relay_priv relay_pub inner_wire preceding hop_index wall_usec = record {
    relay_pub = relay_pub;
    sig = sign relay_priv (signed_material inner_wire preceding hop_index wall_usec);
    wall_usec = wall_usec;
  }

  -- The envelope that `ForwardEnvelope` sends, of its arguments from `relayPriv` to `wallUSec`.
  unfoldable pub forward_envelope :
      List ℕ → List ℕ → List ℕ → List ℕ → ℕ → List ℕ → List Hop → ℕ → ℕ → RelayEnvelope
  unfolding rebuild_preceding sign_hop new_signed_relay_envelope_v3
  forward_envelope relay_priv relay_pub inner_wire origin_sig dot_counter origin_node_id
        existing_hops hop_index wall_usec =
      let preceding = rebuild_preceding inner_wire existing_hops in
      let new_hop = sign_hop relay_priv relay_pub inner_wire preceding hop_index wall_usec in
      new_signed_relay_envelope_v3 inner_wire origin_sig dot_counter origin_node_id
        (existing_hops ++ (new_hop ∷ []))

-- `LengthPrefixFrame`
unfoldable pub length_prefix_frame : List ℕ → List ℕ
length_prefix_frame envelope_bytes = be_bytes 4 (length envelope_bytes) ++ envelope_bytes
