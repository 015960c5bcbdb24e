-- ===== src/Wal/Frames.antt =====
-- A frame that an append writes is opened by the replay.
use sovereign.Prelude.{
  ℕ, ◌+◌, ◌^◌, ◌<◌, ◌≡◌, refl, ◌-◌, List, [], ◌∷◌, ◌++◌, true, false, some, length, length-append,
  ltb, ◌==◌, arith,
}
use sovereign.Bytes.{be_bytes, length-be_bytes as len, be_value-be_bytes}
use sovereign.Wire.Fields.{field_at, be_field_at, behind}
use sovereign.Wal.Decode.{unwrap_checksummed}

ends_in_4 : (n : ℕ) → n + 1 + 4 - 4 ≡ n + 1
ends_in_4 n = omega arith

not_too_short : (n : ℕ) → ltb (n + 1 + 4) 5 ≡ false
not_too_short n = ground arith

fits : (n : ℕ) → (n == n) ≡ true
fits n = ground arith

-- A frame that was written is opened.
pub unwrap-framed :
    (crc32c : List ℕ → ℕ) (inner_type : ℕ) (inner : List ℕ)
    → inner_type < 256
    → crc32c (be_bytes 1 inner_type ++ inner) < 2 ^ 32
    → let body = be_bytes 1 inner_type ++ inner in
      unwrap_checksummed crc32c (body ++ be_bytes 4 (crc32c body)) ≡ some (inner_type, inner)
unfolding unwrap_checksummed
unwrap-framed crc32c t inner small crc_lt =
    let b = be_bytes 1 t in
    let body = b ++ inner in
    let sum = be_bytes 4 (crc32c body) in
    let wide : length body ≡ length inner + 1 = omega (arith, length-append b inner, len 1 t) in
    let size : length (body ++ sum) ≡ length inner + 1 + 4 =
      omega (arith, length-append body sum, wide, len 4 (crc32c body)) in
    rw
      (
        size,
        not_too_short (length inner),
        ends_in_4 (length inner),
        field_at [] body sum 0 (length inner + 1) refl wide,
        behind (body ∷ []) sum (length inner + 1) (omega (arith, wide)),
        be_value-be_bytes 4 (crc32c body) crc_lt,
        fits (crc32c body),
        be_field_at [] t inner 0 1 refl small,
        behind (b ∷ []) inner 1 (omega (arith, len 1 t)),
      )
      refl
