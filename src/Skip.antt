-- ===== src/Skip.antt =====
-- The skip lists of skiplist/.
pub mod State
pub mod Search
pub mod Items
pub mod Order
pub mod Valid
pub mod Retrieve
pub mod Height
pub mod Links
pub mod Insert
pub mod Delete
pub mod Create
mod Tests
