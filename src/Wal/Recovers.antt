-- ===== src/Wal/Recovers.antt =====
-- A log that is cut anywhere is replayed and opened as the entries that are whole in it.
use sovereign.Prelude.{
  ℕ, suc, ◌+◌, ◌-◌, ◌^◌, ◌<◌, ◌≤◌, ◌≡◌, refl, sym, ap, ◌∙◌, List, ◌++◌, some, true, false, length,
  length-take, take, ltb, arith,
}
use mathlib.Core.List.{append-nil}
use sovereign.Bytes.{All, All-take, be_bytes, be_value}
use sovereign.Wire.Fields.{take-append}
use sovereign.Wal.Replay.{nothing_replayed, replayed, in_sequence, replay_loop, replay_wal}
use sovereign.Wal.Open.{wal_header, verify_header, scan_loop, scan_records, open_wal}
use sovereign.Wal.Ops.{WalOp, put_advance, op_bytes, log_bytes, absorb_all, OpFits, HasWidth32}
use sovereign.Wal.Whole.{replay_loop-log, scan_loop-log}
use sovereign.Wal.Cut.{Cut, cut, pos_op, take-append_ge}

not_short : (n : ℕ) → ltb (suc (suc (suc (suc (suc (suc (suc (suc n)))))))) 8 ≡ false
not_short n = ground arith

pub replay_wal-header :
    (crc32c : List ℕ → ℕ) (body : List ℕ)
    → replay_wal crc32c (wal_header ++ body)
      ≡ replay_loop crc32c (suc (length (wal_header ++ body))) nothing_replayed 0 body
unfolding replay_wal wal_header be_bytes be_value
replay_wal-header crc32c body = rw (not_short (length body)) refl

verify-header : (body : List ℕ) → verify_header (wal_header ++ body) ≡ true
unfolding verify_header wal_header be_bytes be_value
verify-header body = rw (not_short (length body)) refl

header_take :
    (n : ℕ) (body : List ℕ) → 8 ≤ n → take n (wal_header ++ body) ≡ wal_header ++ take (n - 8) body
unfolding wal_header be_bytes
header_take n body h = take-append_ge n wal_header body h

kept_only :
    (body kept rest : List ℕ)
    → body ≡ kept ++ rest
    → take (8 + length kept) (wal_header ++ body) ≡ wal_header ++ kept
kept_only body kept rest apart =
    header_take (8 + length kept) body (omega arith)
    ∙ ap (λ (t : List ℕ). wal_header ++ t)
        (ap (λ (m : ℕ). take m body) (omega arith)
          ∙ (ap (take (length kept)) apart ∙ take-append kept rest))

open_wal-scanned :
    (body kept rest : List ℕ) (next_seq count : ℕ)
    → scan_records (wal_header ++ body)
      ≡ some (record { next_seq = next_seq; count = count; last_good = 8 + length kept })
    → body ≡ kept ++ rest
    → open_wal (wal_header ++ body)
      ≡ some (record { file = wal_header ++ kept; next_seq = next_seq })
unfolding open_wal wal_header be_bytes
open_wal-scanned body kept rest next_seq count found apart =
    rw (verify-header body, found)
      (ap (λ (t : List ℕ). some (record { file = t; next_seq = next_seq }))
        (kept_only body kept rest apart))

scan_records-header :
    (body : List ℕ)
    → scan_records (wal_header ++ body)
      ≡ scan_loop
          (suc (length (wal_header ++ body)))
          (record { next_seq = 0; count = 0; last_good = 8 })
          body
unfolding scan_records wal_header be_bytes
scan_records-header body = refl

pub length-header : (body : List ℕ) → length (wal_header ++ body) ≡ 8 + length body
unfolding wal_header be_bytes
length-header body = omega arith

length-taken : (k : ℕ) (ops : List WalOp) → k ≤ length ops → length (take k ops) ≡ k
length-taken k ops h = omega (arith, length-take k ops)

torn_body : (List ℕ → ℕ) → List WalOp → WalOp → ℕ → List ℕ
torn_body crc32c ops last n = log_bytes crc32c 0 ops ++ take n (op_bytes crc32c (length ops) last)

module _ (crc32c : List ℕ → ℕ) (ops : List WalOp) (last : WalOp) (n : ℕ) (wide : HasWidth32 crc32c)
    (a : All OpFits ops) (l : OpFits last) (lt : n < length (op_bytes crc32c (length ops) last))
    (few : length ops < 2 ^ 64) where
  body : List ℕ
  body = torn_body crc32c ops last n

  replay_wal-torn :
      replay_wal crc32c (wal_header ++ body) ≡ replayed (absorb_all 0 ops nothing_replayed)
  unfolding body torn_body in_sequence
  replay_wal-torn =
      replay_wal-header crc32c body
      ∙ replay_loop-log crc32c ops last n (suc (length (wal_header ++ body))) (length ops) 0 0
          nothing_replayed wide a l lt (omega arith) few refl (omega (arith, length-header body))

  open_wal-torn :
      open_wal (wal_header ++ body)
      ≡ some (record { file = wal_header ++ log_bytes crc32c 0 ops; next_seq = length ops })
  unfolding body torn_body
  open_wal-torn =
      open_wal-scanned body (log_bytes crc32c 0 ops) (take n (op_bytes crc32c (length ops) last))
        (length ops) (0 + length ops)
        (scan_records-header body
          ∙ scan_loop-log crc32c ops last n (suc (length (wal_header ++ body))) (length ops) 0 0 8 a
              l lt (omega arith) few (omega (arith, length-header body)))
        refl

-- A log that is written and not cut is replayed as its entries.
pub replay_wal-log :
    (crc32c : List ℕ → ℕ) (ops : List WalOp)
    → HasWidth32 crc32c
    → All OpFits ops
    → length ops < 2 ^ 64
    → replay_wal crc32c (wal_header ++ log_bytes crc32c 0 ops)
      ≡ replayed (absorb_all 0 ops nothing_replayed)
unfolding torn_body body
replay_wal-log crc32c ops wide a few =
    ap (λ (t : List ℕ). replay_wal crc32c (wal_header ++ t))
      (sym (append-nil (log_bytes crc32c 0 ops)))
    ∙ replay_wal-torn crc32c ops (put_advance 0) 0 wide a (omega arith)
        (pos_op crc32c (length ops) (put_advance 0) (omega arith)) few

torn_at :
    (crc32c : List ℕ → ℕ) (ops : List WalOp) (n j : ℕ)
    → 8 ≤ n
    → (c : Cut crc32c 0 ops (n - 8) j)
    → (c.part < length (op_bytes crc32c (length (take c.kept ops)) c.last))
      × (take n (wal_header ++ log_bytes crc32c 0 ops)
          ≡ wal_header ++ torn_body crc32c (take c.kept ops) c.last c.part)
unfolding torn_body
torn_at crc32c ops n j h c =
    let at : 0 + c.kept ≡ length (take c.kept ops) =
      omega (arith, length-taken c.kept ops c.kept_le) in
    (
      rw (← at) c.part_lt,
      header_take n (log_bytes crc32c 0 ops) h
          ∙ ap (λ (t : List ℕ). wal_header ++ t) (rw (← at) c.same),
    )

-- A log that was written and is then cut at any byte behind its header, with the first `j` of its
-- entries whole before the cut, is replayed as its first `k` entries for a `k` that is no less than `j`,
-- and opened as the file of just these entries, with `k` the next number; where the checksum has
-- 32 bits, the entries' fields have their sizes and their payloads are not too long, and there are
-- fewer than 2^64 of them.
pub log_recovers :
    (crc32c : List ℕ → ℕ) (ops : List WalOp) (n j : ℕ)
    → HasWidth32 crc32c
    → All OpFits ops
    → length ops < 2 ^ 64
    → j ≤ length ops
    → 8 + length (log_bytes crc32c 0 (take j ops)) ≤ n
    → (k : ℕ) × (j ≤ k)
      × (k ≤ length ops)
      × (replay_wal crc32c (take n (wal_header ++ log_bytes crc32c 0 ops))
          ≡ replayed (absorb_all 0 (take k ops) nothing_replayed))
      × (open_wal (take n (wal_header ++ log_bytes crc32c 0 ops))
          ≡ some (record { file = wal_header ++ log_bytes crc32c 0 (take k ops); next_seq = k }))
unfolding torn_body body
log_recovers crc32c ops n j wide a few j_le h =
    let c = cut crc32c 0 ops (n - 8) j a j_le (omega (arith, h)) in
    let (lt, same) = torn_at crc32c ops n j (omega (arith, h)) c in
    let size = length-taken c.kept ops c.kept_le in
    let a' = All-take OpFits c.kept ops a in
    let few' : length (take c.kept ops) < 2 ^ 64 = omega (arith, size, c.kept_le, few) in
    (
      c.kept,
      c.at_least,
      c.kept_le,
      ap (replay_wal crc32c) same
          ∙ replay_wal-torn crc32c (take c.kept ops) c.last c.part wide a' c.last_fits lt few',
      ap open_wal same
          ∙ (open_wal-torn crc32c (take c.kept ops) c.last c.part wide a' c.last_fits lt few'
              ∙ ap
                  (λ (m : ℕ). some (record {
                    file = wal_header ++ log_bytes crc32c 0 (take c.kept ops);
                    next_seq = m;
                  }))
                  size),
    )
