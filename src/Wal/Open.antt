-- ===== src/Wal/Open.antt =====
-- `OpenWAL` of internal/chaos/wal.go and the scan it cuts a torn end off with. The calls of the file
-- system succeed, reading up to the end of the file.
use sovereign.Prelude.{
  ℕ, zero, suc, ◌+◌, ◌%◌, ◌^◌, List, [], ◌∷◌, ◌++◌, Option, none, some, Bool, not, ◌&&◌, true,
  false, length, take, drop, ltb, ◌==◌, if◌then◌else◌,
}
use sovereign.Bytes.{be_bytes, be_value}
use sovereign.Wire.Fields.{slice}
use sovereign.Wal.{wal_magic, wal_version}
use sovereign.Wal.Append.{Wal}
use sovereign.Wal.Replay.{seq_of, payload_len_of, behind_record}

-- `writeHeader`
unfoldable pub wal_header : List ℕ
wal_header = be_bytes 4 wal_magic ++ (be_bytes 2 wal_version ++ (0 ∷ 0 ∷ []))

-- `verifyHeader`
unfoldable pub verify_header : List ℕ → Bool
verify_header file =
    not (ltb (length file) 8)
    && (be_value (slice 0 4 file) == wal_magic)
    && (be_value (slice 4 2 file) == wal_version)

pub record Scan : Type 0 where
  pub next_seq : ℕ
  pub count : ℕ
  pub last_good : ℕ

-- A complete record moves the end of what is good behind it.
unfoldable pub scan_record : List ℕ → Scan → Scan
scan_record bytes s = record {
  next_seq = if ltb (seq_of bytes) s.next_seq then s.next_seq else (seq_of bytes + 1) % 2 ^ 64;
  count = s.count + 1;
  last_good = s.last_good + (13 + payload_len_of bytes);
}

-- A header and the payload it tells of are there.
unfoldable pub is_complete : List ℕ → Bool
is_complete bytes =
    if ltb (length bytes) 13 then false else not (ltb (length bytes) (13 + payload_len_of bytes))

-- The loop of `scanRecords` on fuel, `none` when that runs out
unfoldable pub scan_loop : ℕ → Scan → List ℕ → Option Scan
scan_loop zero s bytes = none
scan_loop (suc f) s bytes = elim (is_complete bytes) [
  | false ↦ some s
  | true ↦ scan_loop f (scan_record bytes s) (behind_record bytes)
]

-- `scanRecords`
unfoldable pub scan_records : List ℕ → Option Scan
scan_records file =
    scan_loop (suc (length file)) (record { next_seq = 0; count = 0; last_good = 8 }) (drop 8 file)

-- `OpenWAL` on what the file holds, nothing for a file that was just made
unfoldable pub open_wal : List ℕ → Option Wal
open_wal [] = some (record { file = wal_header; next_seq = 0 })
open_wal (b ∷ bytes) =
    let file = b ∷ bytes in
    if not (verify_header file) then none else elim (scan_records file) [
      | none ↦ none
      | some s ↦ some (record { file = take s.last_good file; next_seq = s.next_seq })
    ]
