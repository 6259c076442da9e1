-- ===== src/Store.antt =====
-- The data store (internal/store/store.go, internal/store/casefs.go).
pub mod Data
pub mod Names
pub mod Records
pub mod View
pub mod Commits
pub mod Repos
pub mod Files
pub mod Tags
pub mod Walk
pub mod Invariant
pub mod RoundTrip
pub mod Appends
pub mod Steps
pub mod Finishing
pub mod Conflicts
