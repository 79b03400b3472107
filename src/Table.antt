-- ===== src/Table.antt =====
-- The hash table of table-4.3.0/table.c.
pub mod Hash
pub mod Memory
pub mod State
pub mod Entry
pub mod Adjust
pub mod Insert
pub mod Retrieve
pub mod Linear
pub mod Create
pub mod Buckets
pub mod Valid
pub mod Delete
mod Tests
