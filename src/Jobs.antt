-- ===== src/Jobs.antt =====
-- The jobs of the daemon (jobs.go).
pub mod Gate
pub mod Deletion
pub mod Pairing
