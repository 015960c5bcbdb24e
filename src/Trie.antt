-- ===== src/Trie.antt =====
-- The persistent hash trie of pkg/sync/hamt.go, which holds the entries of a shard.
pub mod Defs
pub mod Bits
pub mod Valid
pub mod Leaves
pub mod Children
pub mod Collision
pub mod GetSet
pub mod Pairs
pub mod Keeps
pub mod Invariant
pub mod Visits
pub mod ForEach
pub mod Fills
pub mod Delete
