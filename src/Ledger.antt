-- ===== src/Ledger.antt =====
-- The Ledger's local contracts, src/modules/ledger.
pub mod Authority
pub mod Contract
mod Examples
