-- ===== src/Approval.antt =====
-- The review workflow of backend/src/home_compass/main.py: a draft is approved or rejected, one at a
-- time or several at once.
pub mod Payload
pub mod Decide
pub mod Batch
pub mod Endpoints
