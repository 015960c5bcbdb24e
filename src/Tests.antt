-- ===== src/Tests.antt =====
-- Concrete instances of the parameters, and the theorems at concrete inputs.
mod Sorting
mod Models
mod MergeTests
mod EngineTests
mod ClockTests
mod CompactionTests
mod WireTests
mod TrieTests
mod RelayTests
mod WalTests
mod RecoveryTests
mod ReceiveTests
