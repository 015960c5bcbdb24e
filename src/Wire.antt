-- ===== src/Wire.antt =====
-- The framings of the wire: fields of fixed width, read at fixed offsets.
pub mod Fields
pub mod Batch
pub mod Worker
pub mod Relay
pub mod Stream
pub mod Submit
pub mod Pipe
