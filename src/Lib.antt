-- ===== src/Lib.antt =====
-- Sovereign: a replicated store of bitemporal entries. A node keeps a sharded delta-CRDT of entries,
-- each marked by a causal dot (a node id and a Lamport counter); deltas from other nodes are joined
-- into it behind gates on rate and clock skew, and old rows and tombstones are compacted away.
--
-- Which file models which part:
-- - Entry: CausalDot and CRDTEntry of pkg/sync/hamt.go, with the orders of pkg/sync/crdt.go.
-- - Merge: the two-pointer merge of Join and mergeExistingDot, and insertionSortLastEntry.
-- - Lamport: NextDot, AdvanceLamportTo, recoverLamport, persistLamport, Close (pkg/sync/crdt.go).
-- - Trie: the nodes, Get, Set, Delete and ForEach of a shard's trie (pkg/sync/hamt.go), and that they
--   fill EntryMap, the interface by which the engine uses it.
-- - Engine: NewDeltaCRDTEngine, InsertLocal, Join, SetShardCount (pkg/sync/crdt.go) and PointGet
--   (pkg/sync/point_get.go), over Merge, Lamport and EntryMap; Engine/Runs has the runs of an engine
--   as a step relation.
-- - Skew: MaxAcceptableDotCounter (pkg/sync/crdt_reconstruct_skew.go).
-- - Reconstruct: ReconstructEntry (pkg/sync/crdt_reconstruct.go) and ReconstructEntryWithSkewBound.
-- - WallClock: the wall-time cap, Admit (pkg/clock/admission.go).
-- - Receive: HandleFrame (pkg/receive/receiver.go) and ApplyCRDTDeltaEvent (pkg/sync/crdt_apply.go),
--   which put Admission, WallClock, Wire/Relay, Reconstruct and Engine behind each other.
-- - Admission: PeerBucket (pkg/admission/ewma.go).
-- - Tombstones: EpochCompactor (internal/database/compactor.go).
-- - Dominance: DominancePrune and the horizon (internal/database/l1_compactor.go).
-- - Wire: the batch envelope (pkg/attribution/wire_v1.go), the relay envelope with its chain of
--   signatures (pkg/attribution/envelope.go, pkg/receive/forward.go), the reassembly of frames from a
--   stream (FrameReader of pkg/receive/receiver.go) the worker payloads (internal/chaos/codec.go)
--   and their frames on a pipe (internal/chaos/protocol.go).
-- - Wal: the write-ahead log (internal/chaos/wal.go): its records, the appends, OpenWAL and ReplayWAL;
--   Wal/Ops has the log as a list of entries, and Wal/Reach the states that appends and crashes lead to.
-- - Recovery: RecoverEngineWithSnapshot (pkg/durability/recovery.go), as the calls on the engine that
--   follow from what Wal replays and from the image that the store answers with.
-- - Prelude, Bytes and Float64: shared helpers; Tests: concrete instances and runs.
--
-- Strings and byte arrays are lists of bytes, and a uint64 is a number with its wrap-around written
-- out. Loops are structural recursion: the trie's is on its nodes, its collisions on the levels that
-- are left, and `fill` on the reads to come. Only the two loops over the records of a log run on fuel,
-- one more than the bytes of the file, of which each record takes some. float64, the hashes, SHA-256,
-- CRC-32C, the signature check of pkg/identity, the answers of its directory and the message decoder
-- are parameters, and so is slices.SortFunc, of which Engine/Sorter asks that it permutes a delta's
-- entries into ascending order, not in which order it leaves equal ones. Operations run one at a time: a compare-and-swap succeeds at its first attempt, and
-- a lock or an atomic is a field. Memory reclamation, pools and gauges hold no value that an operation
-- reads and are left out. Not modelled: the batch and hybrid paths of the receiver, digests and their
-- set reconciliation, Merkle roots and state fingerprints, the snapshot images' bytes, the mesh, the
-- network and the query path.
pub mod Prelude
pub mod Entry
pub mod Merge
pub mod Bytes
pub mod Float64
pub mod Lamport
pub mod EntryMap
pub mod Engine
pub mod Tombstones
pub mod Dominance
pub mod Wal
pub mod Wire
pub mod Admission
pub mod Recovery
pub mod Skew
pub mod WallClock
pub mod Receive
pub mod Reconstruct
pub mod Trie
pub mod Tests
