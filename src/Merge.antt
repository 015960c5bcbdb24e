-- ===== src/Merge.antt =====
-- The entries of one entity: the merge of pkg/sync/crdt.go and what it guarantees.
pub mod Defs
pub mod Find
pub mod Sorted
pub mod Semilattice
pub mod Insertion
pub mod Count
