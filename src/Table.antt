-- ===== src/Table.antt =====
-- table.go: cells, rows and the order-preserving encoding of keys.
pub mod Value
pub mod Escape
pub mod Encode
pub mod Result
pub mod Schema
pub mod Rows
