-- ===== src/Skip/Tests.antt =====
-- Concrete skip lists, the theorems at them, and runs.
mod Data
mod Examples
mod Runs
