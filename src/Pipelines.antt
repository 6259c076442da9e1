-- ===== src/Pipelines.antt =====
-- Pipelines (pipeline.go, and the types of client.go).
pub mod Inputs
pub mod Derive
pub mod Spelling
pub mod Validate
pub mod Consumes
pub mod Customization
pub mod Declared
pub mod Spec
pub mod Records
pub mod Applying
