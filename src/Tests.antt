-- ===== src/Tests.antt =====
-- The tests of the library: its theorems on concrete inputs.
pub mod Graphs
pub mod Hashes
pub mod Keys
pub mod Maps
pub mod Retries
pub mod Sets
pub mod Traversals
pub mod Streams
