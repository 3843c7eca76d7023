-- ===== src/Examples.antt =====
-- The theorems at concrete inputs, by component.
mod Rows
mod Schemas
mod Sessions
mod Nodes
mod Store
mod Transactions
mod Combined
mod Queries
