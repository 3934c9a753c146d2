-- ===== src/Auth.antt =====
-- backend/src/home_compass/auth.py: the permission matrix and the sessions, and the gate that
-- backend/src/home_compass/main.py builds on them.
pub mod Sessions
pub mod Login
pub mod Permissions
pub mod Seeds
pub mod Gate
