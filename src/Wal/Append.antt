-- ===== src/Wal/Append.antt =====
-- The appends to the log, internal/chaos/wal.go. The open file stands at its end, where records are
-- written; how much of a record a write brings into the file, and whether the sync that follows
-- succeeds, are inputs.
use sovereign.Prelude.{
  ℕ, ◌+◌, ◌%◌, ◌^◌, List, [], ◌∷◌, ◌++◌, Bool, true, false, take, if◌then◌else◌,
}
use sovereign.Wal.{WalMutation, WalCheckpoint, validate_v2}
use sovereign.Wal.Encode.{
  encode_mutation_v2_checksummed, encode_checkpoint_checksummed, encode_clock_advance_checksummed,
}

-- `WAL`: what the file holds, and the number that the next record gets.
pub record Wal : Type 0 where
  pub file : List ℕ
  pub next_seq : ℕ

-- All the bytes, or so many of them and an error.
pub data Write : Type 0 where
  whole : Write
  short : ℕ → Write

pub data Append : Type 0 where
  appended rejected write_failed sync_failed : Append

-- What `AppendMutations` returns: (-1, nil), (i, err) and (-1, err).
pub data AppendBatch : Type 0 where
  batch_appended : AppendBatch
  batch_failed_at : ℕ → AppendBatch
  batch_sync_failed : AppendBatch

-- The bytes of one record are written; the number is used up once all of them are in the file.
unfoldable pub write_record : List ℕ → Write → Wal → Wal
write_record rec whole w = record { file = w.file ++ rec; next_seq = (w.next_seq + 1) % 2 ^ 64 }
write_record rec (short n) w = record w { file = w.file ++ take n rec }

-- The end of the three appends of one record: the write and the sync.
unfoldable pub write_and_sync : List ℕ → Write → Bool → Wal → Append × Wal
write_and_sync rec whole synced w =
    (if synced then appended else sync_failed, write_record rec whole w)
write_and_sync rec (short n) synced w = (write_failed, write_record rec (short n) w)

-- `AppendMutation`
unfoldable pub append_mutation : (List ℕ → ℕ) → WalMutation → Write → Bool → Wal → Append × Wal
append_mutation crc32c m r synced w =
    if validate_v2 m
    then write_and_sync (encode_mutation_v2_checksummed crc32c w.next_seq m) r synced w
    else (rejected, w)

-- The loop of `AppendMutations` from the mutation of index i on, each with what its write does.
unfoldable pub append_mutations_from :
    (List ℕ → ℕ) → ℕ → List (WalMutation × Write) → Bool → Wal → AppendBatch × Wal
append_mutations_from crc32c i [] synced w =
    (if synced then batch_appended else batch_sync_failed, w)
append_mutations_from crc32c i ((m, r) ∷ ms) synced w = elim (validate_v2 m) [
  | false ↦ (batch_failed_at i, w)
  | true ↦
      let w' = write_record (encode_mutation_v2_checksummed crc32c w.next_seq m) r w in
      elim r [
        | whole ↦ append_mutations_from crc32c (i + 1) ms synced w'
        | short n ↦ (batch_failed_at i, w')
      ]
]

-- `AppendMutations`
unfoldable pub append_mutations :
    (List ℕ → ℕ) → List (WalMutation × Write) → Bool → Wal → AppendBatch × Wal
append_mutations crc32c ms = append_mutations_from crc32c 0 ms

-- `AppendCheckpoint`
unfoldable pub append_checkpoint : (List ℕ → ℕ) → WalCheckpoint → Write → Bool → Wal → Append × Wal
append_checkpoint crc32c c r synced w =
    write_and_sync (encode_checkpoint_checksummed crc32c w.next_seq c) r synced w

-- `AppendClockAdvance`
unfoldable pub append_clock_advance : (List ℕ → ℕ) → ℕ → Write → Bool → Wal → Append × Wal
append_clock_advance crc32c advanced_to r synced w =
    write_and_sync (encode_clock_advance_checksummed crc32c w.next_seq advanced_to) r synced w
