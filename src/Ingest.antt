-- ===== src/Ingest.antt =====
-- backend/src/home_compass/ingest/: the machine check of what a language model has extracted.
pub mod Quotes
pub mod Verify
pub mod Attempts
pub mod Extraction
pub mod Market
