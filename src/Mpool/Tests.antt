-- ===== src/Mpool/Tests.antt =====
-- Concrete pools, the theorems at them, and runs.
mod Data
mod Examples
mod Runs
