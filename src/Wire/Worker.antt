-- ===== src/Wire/Worker.antt =====
-- The payloads of the supervisor and its workers, internal/chaos/codec.go.
use sovereign.Prelude.{
  ℕ, ◌^◌, ◌<◌, ◌≡◌, refl, List, [], ◌∷◌, ◌++◌, Option, none, some, length, ◌==◌, if◌then◌else◌,
  arith,
}
use sovereign.Bytes.{be_bytes, be_value, length-be_bytes as len}
use sovereign.Wire.Fields.{slice, field_at, be_field_at, length-flat}

pub record Hello : Type 0 where
  pub node_id : List ℕ
  pub lamport : ℕ
  pub root : List ℕ

-- `EncodeHello`, and `EncodeAckOK` with the counter for the clock
unfoldable pub encode_hello : Hello → List ℕ
encode_hello h = h.node_id ++ (be_bytes 8 h.lamport ++ (h.root ++ []))

-- `DecodeHello` and `DecodeAckOK`
unfoldable pub decode_hello : List ℕ → Option Hello
decode_hello p =
    if length p == 56
    then some
        record { node_id = slice 0 16 p; lamport = be_value (slice 16 8 p); root = slice 24 32 p }
    else none

-- A node id has 16 bytes, a root 32, and the clock is a uint64.
record HelloFits (h : Hello) : Type 0 where
  id_len : length h.node_id ≡ 16
  lamport_lt : h.lamport < 2 ^ 64
  root_len : length h.root ≡ 32

-- A hello that is encoded decodes to itself.
decode-encode_hello : (h : Hello) → HelloFits h → decode_hello (encode_hello h) ≡ some h
unfolding decode_hello encode_hello
decode-encode_hello h f =
    let id = h.node_id in
    let l = be_bytes 8 h.lamport in
    let size : length (encode_hello h) ≡ 56 =
      omega (arith, length-flat (id ∷ l ∷ h.root ∷ []) [], f.id_len, len 8 h.lamport, f.root_len) in
    rw
      (
        size,
        field_at [] id (l ++ (h.root ++ [])) 0 16 refl f.id_len,
        be_field_at (id ∷ []) h.lamport (h.root ++ []) 16 8 (omega (arith, f.id_len)) f.lamport_lt,
        field_at (id ∷ l ∷ []) h.root [] 24 32 (omega (arith, f.id_len, len 8 h.lamport))
            f.root_len,
      )
      refl
