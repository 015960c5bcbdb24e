-- ===== src/Engine.antt =====
-- The sharded delta-CRDT engine of pkg/sync/crdt.go, run by one goroutine at a time.
pub mod Defs
pub mod Sorter
pub mod Join
pub mod Incoming
pub mod Picks
pub mod Blocks
pub mod Shards
pub mod Merging
pub mod JoinShards
pub mod Rounds
pub mod Valid
pub mod JoinLaws
pub mod Insert
pub mod Start
pub mod Routed
pub mod Reshard
pub mod ShardCount
pub mod Runs
pub mod Convergence
