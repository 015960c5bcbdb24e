-- ===== src/Wire/Relay/RoundTrip.antt =====
-- What is marshalled unmarshals to itself, and what is cut short is refused.
use sovereign.Prelude.{
  ℕ, ◌+◌, ◌*◌, ◌^◌, ◌<◌, ◌≤◌, ◌≡◌, refl, List, [], ◌∷◌, ◌++◌, none, some, false, length, inl, inr,
  Bool-cases, lt→ltb, take, drop, ltb, arith,
}
use sovereign.Bytes.{le_bytes, le_value, length-le_bytes as len, All}
use sovereign.Wire.Fields.{
  slice, behind, field_at, le_field_at, length-flat, slice-take, length-take_lt,
}
use sovereign.Wire.Relay.{
  Hop, RelayEnvelope, marshal, marshal_hops, unmarshal_hops, parsed, unmarshal_relay_envelope,
  header_len_for_version, envelope_version, hop_size,
}

-- What the fields of a hop and of an envelope must be to fit their places.
pub record HopFits (h : Hop) : Type 0 where
  pub pub_len : length h.relay_pub ≡ 32
  pub sig_len : length h.sig ≡ 64
  pub wall_lt : h.wall_usec < 2 ^ 64

pub record EnvelopeFits (e : RelayEnvelope) : Type 0 where
  pub hops_lt : length e.hops < 2 ^ 16
  pub inner_lt : length e.inner_wire < 2 ^ 32
  pub sig_len : length e.origin_sig ≡ 64
  pub counter_lt : e.dot_counter < 2 ^ 64
  pub id_len : length e.origin_node_id ≡ 16
  pub hops_fit : All HopFits e.hops

unmarshal-marshal_hops :
    (hops : List Hop) → All HopFits hops → unmarshal_hops (length hops) (marshal_hops hops) ≡ hops
unfolding unmarshal_hops marshal_hops
unmarshal-marshal_hops [] f = refl
unmarshal-marshal_hops (h ∷ hops) (f, fs) =
    let rest = marshal_hops hops in
    let w = le_bytes 8 h.wall_usec in
    rw
      (
        field_at [] h.relay_pub (h.sig ++ (w ++ rest)) 0 32 refl f.pub_len,
        field_at (h.relay_pub ∷ []) h.sig (w ++ rest) 32 64 (omega (arith, f.pub_len)) f.sig_len,
        le_field_at (h.relay_pub ∷ h.sig ∷ []) h.wall_usec rest 96 8
            (omega (arith, f.pub_len, f.sig_len)) f.wall_lt,
        behind (h.relay_pub ∷ h.sig ∷ w ∷ []) rest 104
            (omega (arith, f.pub_len, f.sig_len, len 8 h.wall_usec)),
        unmarshal-marshal_hops hops fs,
      )
      refl

length-marshal_hops :
    (hops : List Hop) → All HopFits hops → length (marshal_hops hops) ≡ length hops * hop_size
unfolding marshal_hops
length-marshal_hops [] f = refl
length-marshal_hops (h ∷ hops) (f, fs) = omega (
  arith,
  length-flat (h.relay_pub ∷ h.sig ∷ le_bytes 8 h.wall_usec ∷ []) (marshal_hops hops),
  f.pub_len,
  f.sig_len,
  len 8 h.wall_usec,
  length-marshal_hops hops fs,
)

module _ (e : RelayEnvelope) (f : EnvelopeFits e) where
  abbrev wire_of : List ℕ
  wire_of = marshal e

  header_slices :
      (le_value (slice 0 2 wire_of) ≡ envelope_version)
      × (le_value (slice 2 2 wire_of) ≡ length e.hops)
      × (le_value (slice 4 4 wire_of) ≡ length e.inner_wire)
      × (slice 8 64 wire_of ≡ e.origin_sig)
      × (le_value (slice 72 8 wire_of) ≡ e.dot_counter)
      × (slice 80 16 wire_of ≡ e.origin_node_id)
      × (slice 96 (length e.inner_wire) wire_of ≡ e.inner_wire)
      × (drop (96 + length e.inner_wire) wire_of ≡ marshal_hops e.hops)
      × (length wire_of ≡ 96 + length e.inner_wire + length e.hops * hop_size)
  unfolding marshal
  header_slices =
      let v = le_bytes 2 envelope_version in
      let n = le_bytes 2 (length e.hops) in
      let l = le_bytes 4 (length e.inner_wire) in
      let d = le_bytes 8 e.dot_counter in
      let hs = marshal_hops e.hops in
      let s = e.origin_sig in
      let i = e.origin_node_id in
      let w = e.inner_wire in
      let lv = len 2 envelope_version in
      let ln = len 2 (length e.hops) in
      let ll = len 4 (length e.inner_wire) in
      let ld = len 8 e.dot_counter in
      (
        le_field_at [] envelope_version (n ++ (l ++ (s ++ (d ++ (i ++ (w ++ hs)))))) 0 2 refl
            (omega arith),
        le_field_at (v ∷ []) (length e.hops) (l ++ (s ++ (d ++ (i ++ (w ++ hs))))) 2 2
            (omega (arith, lv)) f.hops_lt,
        le_field_at (v ∷ n ∷ []) (length w) (s ++ (d ++ (i ++ (w ++ hs)))) 4 4
            (omega (arith, lv, ln)) f.inner_lt,
        field_at (v ∷ n ∷ l ∷ []) s (d ++ (i ++ (w ++ hs))) 8 64 (omega (arith, lv, ln, ll))
            f.sig_len,
        le_field_at (v ∷ n ∷ l ∷ s ∷ []) e.dot_counter (i ++ (w ++ hs)) 72 8
            (omega (arith, lv, ln, ll, f.sig_len)) f.counter_lt,
        field_at (v ∷ n ∷ l ∷ s ∷ d ∷ []) i (w ++ hs) 80 16
            (omega (arith, lv, ln, ll, ld, f.sig_len)) f.id_len,
        field_at (v ∷ n ∷ l ∷ s ∷ d ∷ i ∷ []) w hs 96 (length w)
            (omega (arith, lv, ln, ll, ld, f.sig_len, f.id_len)) refl,
        behind (v ∷ n ∷ l ∷ s ∷ d ∷ i ∷ w ∷ []) hs (96 + length w)
            (omega (arith, lv, ln, ll, ld, f.sig_len, f.id_len)),
        omega (
          arith,
          length-flat (v ∷ n ∷ l ∷ s ∷ d ∷ i ∷ w ∷ []) hs,
          lv,
          ln,
          ll,
          ld,
          f.sig_len,
          f.id_len,
          length-marshal_hops e.hops f.hops_fit,
        ),
      )

  not_short : (m n : ℕ) → n ≤ m → ltb m n ≡ false
  not_short m n h = ground arith

  -- A marshalled envelope whose fields fit unmarshals to itself, marked with the current version.
  pub unmarshal_relay_envelope-marshal :
      unmarshal_relay_envelope (marshal e) ≡ some (record e { version = envelope_version })
  unfolding unmarshal_relay_envelope header_len_for_version parsed
  unmarshal_relay_envelope-marshal =
      let (ver, n, l, s, d, i, w, hs, size) = header_slices in
      rw
        (
          not_short (length wire_of) 2 (omega (arith, size)),
          ver,
          not_short (length wire_of) 96 (omega (arith, size)),
          n,
          l,
          not_short (length wire_of) (96 + length e.inner_wire + length e.hops * 104)
              (omega (arith, size)),
          s,
          d,
          i,
          w,
          hs,
          unmarshal-marshal_hops e.hops f.hops_fit,
          ver,
        )
        refl

  -- A marshalled envelope that is cut short anywhere is refused as malformed.
  pub unmarshal_relay_envelope-take :
      (k : ℕ) → k < length (marshal e) → unmarshal_relay_envelope (take k (marshal e)) ≡ none
  unfolding unmarshal_relay_envelope header_len_for_version
  unmarshal_relay_envelope-take k h =
      let (ver, n, l, _, _, _, _, _, size) = header_slices in
      let have : length (take k wire_of) ≡ k = length-take_lt k wire_of h in
      elim (Bool-cases (ltb k 2)) [
        | inl short ↦ rw (have, short) refl
        | inr two ↦
            let two' : 2 ≤ k = ground arith in
            rw (have, two, slice-take k 0 2 wire_of two', ver)
              (elim (Bool-cases (ltb k 96)) [
                | inl short ↦ rw (have, short) refl
                | inr long ↦
                    let long' : 96 ≤ k = ground arith in
                    rw
                      (
                        have,
                        long,
                        slice-take k 4 4 wire_of (omega (arith, long')),
                        slice-take k 2 2 wire_of (omega (arith, long')),
                        n,
                        l,
                        lt→ltb k (96 + length e.inner_wire + length e.hops * 104)
                            (omega (arith, size)),
                      )
                      refl
              ])
      ]
