-- ===== src/Store.antt =====
-- backend/src/home_compass/store: the entities, the rules on them, and the repositories over SQLite.
pub mod Json
pub mod Models
pub mod Action
pub mod Validation
pub mod Drafts
pub mod Approvals
pub mod Versions
pub mod Audit
pub mod Reach
pub mod Inserts
