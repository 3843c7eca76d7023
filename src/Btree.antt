-- ===== src/Btree.antt =====
-- btree.go: its nodes and operations, what the transactions ask of it, and the limits of its keys
-- and values.
pub mod Iter
pub mod Limit
pub mod Node
pub mod Ops
pub mod Pages
pub mod Search
pub mod Sorted
pub mod Split
pub mod Tree
