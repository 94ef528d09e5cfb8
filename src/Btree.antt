-- ===== src/Btree.antt =====
-- src/btree.rs: the copy-on-write B-tree in which everything persistent is stored.
pub mod Key
pub mod Node
pub mod Codec
pub mod Cache
pub mod Search
pub mod Map
pub mod Lookup
pub mod Insert
pub mod Delete
pub mod Tree
pub mod Refinement
pub mod Store
pub mod Tests
