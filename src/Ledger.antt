-- ===== src/Ledger.antt =====
-- internal/ledger: the single write path to the money tables, and the reconciliation.
pub mod Posting
pub mod Operations
pub mod Retry
pub mod Reconcile
pub mod Effects
pub mod Books
pub mod History
