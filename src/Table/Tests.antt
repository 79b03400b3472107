-- ===== src/Table/Tests.antt =====
-- Concrete tables: the theorems at concrete inputs, and runs of the functions.
mod Data
mod Runs
mod Examples
