-- ===== src/Wal/Encode.antt =====
-- The records that appends write, internal/chaos/wal.go. The checksum is CRC-32C of the standard
-- library, a parameter.
use sovereign.Prelude.{ℕ, List, [], ◌++◌, length, if◌then◌else◌}
use sovereign.Bytes.{be_bytes}
use sovereign.Wal.{WalMutation, WalCheckpoint}
use sovereign.Wire.Submit.{encode_crdt_entry}

abbrev pub wal_rec_mutation : ℕ
wal_rec_mutation = 1

abbrev pub wal_rec_checkpoint : ℕ
wal_rec_checkpoint = 2

abbrev pub wal_rec_clock_advance : ℕ
wal_rec_clock_advance = 3

abbrev pub wal_rec_mutation_v2 : ℕ
wal_rec_mutation_v2 = 4

abbrev pub wal_rec_checkpoint_v2 : ℕ
wal_rec_checkpoint_v2 = 5

abbrev pub wal_rec_checksummed : ℕ
wal_rec_checksummed = 6

-- The sequence number, the type and the length of the payload, in front of it.
unfoldable pub record_bytes : ℕ → ℕ → List ℕ → List ℕ
record_bytes seq rec_type payload =
    be_bytes 8 seq ++ (be_bytes 1 rec_type ++ (be_bytes 4 (length payload) ++ payload))

-- `frameChecksummed`
unfoldable pub frame_checksummed : (List ℕ → ℕ) → ℕ → ℕ → List ℕ → List ℕ
frame_checksummed crc32c seq inner_type inner =
    let body = be_bytes 1 inner_type ++ inner in
    record_bytes seq wal_rec_checksummed (body ++ be_bytes 4 (crc32c body))

-- `putMutationV2Payload`
unfoldable pub put_mutation_v2_payload : WalMutation → List ℕ
put_mutation_v2_payload m =
    be_bytes 4 (length m.entity_id)
    ++ (m.entity_id ++ (m.node_id ++ (be_bytes 8 m.counter ++ (encode_crdt_entry m.full ++ []))))

-- `putCheckpointV2Payload`
unfoldable pub put_checkpoint_v2_payload : WalCheckpoint → List ℕ
put_checkpoint_v2_payload c =
    c.merkle_root
    ++ (be_bytes 8 c.lamport_high
        ++ (be_bytes 8 c.cut_seq
            ++ (be_bytes 8 c.clock_high ++ (if c.has_fingerprint then c.fingerprint else []))))

-- `putClockAdvancePayload`
unfoldable pub put_clock_advance_payload : ℕ → List ℕ
put_clock_advance_payload advanced_to = be_bytes 8 advanced_to

-- `encodeMutationV2Checksummed`
unfoldable pub encode_mutation_v2_checksummed : (List ℕ → ℕ) → ℕ → WalMutation → List ℕ
encode_mutation_v2_checksummed crc32c seq m =
    frame_checksummed crc32c seq wal_rec_mutation_v2 (put_mutation_v2_payload m)

-- `encodeCheckpointChecksummed`
unfoldable pub encode_checkpoint_checksummed : (List ℕ → ℕ) → ℕ → WalCheckpoint → List ℕ
encode_checkpoint_checksummed crc32c seq c =
    if c.has_cut_seq
    then frame_checksummed crc32c seq wal_rec_checkpoint_v2 (put_checkpoint_v2_payload c)
    else frame_checksummed crc32c seq wal_rec_checkpoint
        (c.merkle_root ++ be_bytes 8 c.lamport_high)

-- `encodeClockAdvanceChecksummed`
unfoldable pub encode_clock_advance_checksummed : (List ℕ → ℕ) → ℕ → ℕ → List ℕ
encode_clock_advance_checksummed crc32c seq advanced_to =
    frame_checksummed crc32c seq wal_rec_clock_advance (put_clock_advance_payload advanced_to)
