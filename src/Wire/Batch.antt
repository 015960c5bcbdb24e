-- ===== src/Wire/Batch.antt =====
-- The batch envelope, pkg/attribution/wire_v1.go: a header of fixed size and the batch behind it.
use sovereign.Prelude.{
  ℕ, ◌^◌, ◌<◌, ◌≤◌, ◌≡◌, refl, ap, ◌∙◌, List, [], ◌∷◌, ◌++◌, Bool, true, false, length, drop, ltb,
  leb, ◌&&◌, ◌==◌, if◌then◌else◌, arith,
}
use sovereign.Bytes.{be_bytes, be_value, length-be_bytes as len}
use sovereign.Wire.Fields.{slice, is_zero, behind, field_at, be_field_at, length-flat}

abbrev pub wire_v1_magic : ℕ
wire_v1_magic = 1396851028

abbrev pub wire_v1_version : ℕ
wire_v1_version = 1

abbrev pub batch_header_len : ℕ
batch_header_len = 95

pub record BatchEnvelope : Type 0 where
  pub origin_node_id : List ℕ
  pub origin_sig : List ℕ
  pub origin_seq : ℕ
  pub batch_count : ℕ
  pub wire : List ℕ

-- The result of `UnmarshalBatchEnvelope`: the envelope, `ErrBatchMalformed` or `ErrBatchUnsigned`.
pub data Unmarshalled : Type 0 where
  ok : BatchEnvelope → Unmarshalled
  malformed : Unmarshalled
  unsigned : Unmarshalled

-- `MarshalBatchEnvelope`
unfoldable pub marshal_batch_envelope : List ℕ → List ℕ → ℕ → ℕ → List ℕ → List ℕ
marshal_batch_envelope origin_node_id origin_sig origin_seq batch_count batch_wire =
    be_bytes 4 wire_v1_magic
    ++ ((wire_v1_version ∷ [])
        ++ (be_bytes 8 origin_seq
            ++ (be_bytes 2 batch_count ++ (origin_node_id ++ (origin_sig ++ batch_wire)))))

-- `UnmarshalBatchEnvelope`
unfoldable pub unmarshal_batch_envelope : List ℕ → Unmarshalled
unmarshal_batch_envelope wire =
    if ltb (length wire) batch_header_len
    then malformed
    else if be_value (slice 0 4 wire) == wire_v1_magic
    then (if be_value (slice 4 1 wire) == wire_v1_version
        then (let sig = slice 31 64 wire in
            if is_zero sig
            then unsigned
            else ok record {
              origin_node_id = slice 15 16 wire;
              origin_sig = sig;
              origin_seq = be_value (slice 5 8 wire);
              batch_count = be_value (slice 13 2 wire);
              wire = wire;
            })
        else malformed)
    else malformed

-- `BatchWire`
unfoldable pub batch_wire : BatchEnvelope → List ℕ
batch_wire e = drop batch_header_len e.wire

abbrev pub wire_digest_magic : ℕ
wire_digest_magic = 1396986708

-- `IsBatchFrame`
unfoldable pub is_batch_frame : List ℕ → Bool
is_batch_frame frame = leb 4 (length frame) && (be_value (slice 0 4 frame) == wire_v1_magic)

-- `IsDigestFrame`
unfoldable pub is_digest_frame : List ℕ → Bool
is_digest_frame frame = leb 4 (length frame) && (be_value (slice 0 4 frame) == wire_digest_magic)

short_false : (n : ℕ) → 95 ≤ n → ltb n 95 ≡ false
short_false n h = ground arith

leb-true : (m n : ℕ) → m ≤ n → (leb m n && true) ≡ true
leb-true m n h = ground arith

and_false : (b : Bool) → (b && false) ≡ false
and_false b = ground arith

-- What the fields of an envelope must be to fit their places.
pub record FitsHeader (id sig : List ℕ) (seq count : ℕ) : Type 0 where
  pub id_len : length id ≡ 16
  pub sig_len : length sig ≡ 64
  pub seq_lt : seq < 2 ^ 64
  pub count_lt : count < 2 ^ 16

module _ (id sig : List ℕ) (seq count : ℕ) (body : List ℕ) (f : FitsHeader id sig seq count) where
  abbrev wire_of : List ℕ
  wire_of = marshal_batch_envelope id sig seq count body

  header_slices :
      (be_value (slice 0 4 wire_of) ≡ wire_v1_magic)
      × (be_value (slice 4 1 wire_of) ≡ wire_v1_version)
      × (be_value (slice 5 8 wire_of) ≡ seq)
      × (be_value (slice 13 2 wire_of) ≡ count)
      × (slice 15 16 wire_of ≡ id)
      × (slice 31 64 wire_of ≡ sig)
      × (drop 95 wire_of ≡ body)
  unfolding marshal_batch_envelope
  header_slices =
      let m = be_bytes 4 wire_v1_magic in
      let v : List ℕ = wire_v1_version ∷ [] in
      let s = be_bytes 8 seq in
      let c = be_bytes 2 count in
      let r2 = s ++ (c ++ (id ++ (sig ++ body))) in
      (
        be_field_at [] wire_v1_magic (v ++ r2) 0 4 refl (omega arith),
        ap be_value (field_at (m ∷ []) v r2 4 1 (omega (arith, len 4 wire_v1_magic)) refl)
            ∙ (unfold be_value in refl),
        be_field_at (m ∷ v ∷ []) seq (c ++ (id ++ (sig ++ body))) 5 8
            (omega (arith, len 4 wire_v1_magic)) f.seq_lt,
        be_field_at (m ∷ v ∷ s ∷ []) count (id ++ (sig ++ body)) 13 2
            (omega (arith, len 4 wire_v1_magic, len 8 seq)) f.count_lt,
        field_at (m ∷ v ∷ s ∷ c ∷ []) id (sig ++ body) 15 16
            (omega (arith, len 4 wire_v1_magic, len 8 seq, len 2 count)) f.id_len,
        field_at (m ∷ v ∷ s ∷ c ∷ id ∷ []) sig body 31 64
            (omega (arith, len 4 wire_v1_magic, len 8 seq, len 2 count, f.id_len)) f.sig_len,
        behind (m ∷ v ∷ s ∷ c ∷ id ∷ sig ∷ []) body 95
            (omega (arith, len 4 wire_v1_magic, len 8 seq, len 2 count, f.id_len, f.sig_len)),
      )

  long_enough : 95 ≤ length wire_of
  unfolding marshal_batch_envelope
  long_enough =
      let m = be_bytes 4 wire_v1_magic in
      let v : List ℕ = wire_v1_version ∷ [] in
      omega (
        arith,
        length-flat (m ∷ v ∷ be_bytes 8 seq ∷ be_bytes 2 count ∷ id ∷ sig ∷ []) body,
        len 4 wire_v1_magic,
        len 8 seq,
        len 2 count,
        f.id_len,
        f.sig_len,
      )

  -- What is marshalled from fields that fit unmarshals to those fields, with the batch verbatim
  -- behind them, where the signature is not all zero, and else is refused as unsigned; and the
  -- dispatch takes it for a batch frame and not for a digest frame.
  pub unmarshal-marshal :
      let w = marshal_batch_envelope id sig seq count body in
      let e : BatchEnvelope = record {
        origin_node_id = id;
        origin_sig = sig;
        origin_seq = seq;
        batch_count = count;
        wire = w;
      } in
      (unmarshal_batch_envelope w ≡ (if is_zero sig then unsigned else ok e))
      × (batch_wire e ≡ body)
      × (is_batch_frame w ≡ true)
      × (is_digest_frame w ≡ false)
  unfolding unmarshal_batch_envelope batch_wire is_batch_frame is_digest_frame
  unmarshal-marshal =
      let (a, b, c, d, x, y, z) = header_slices in
      (
        rw (short_false (length wire_of) long_enough, a, b, c, d, x, y) refl,
        z,
        rw (a) (leb-true 4 (length wire_of) (omega (arith, long_enough))),
        rw (a) (and_false (leb 4 (length wire_of))),
      )
