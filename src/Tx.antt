-- ===== src/Tx.antt =====
-- transaction.go: reads, writes, commits and conflicts of optimistic transactions.
pub mod Ranges
pub mod Sort
pub mod State
pub mod Ops
pub mod Conflict
pub mod Finalize
pub mod Combined
pub mod Commit
pub mod History
