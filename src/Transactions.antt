-- ===== src/Transactions.antt =====
-- Transactions of pipelines (transaction.go).
pub mod Topo
pub mod Check
pub mod Finish
