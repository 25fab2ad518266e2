-- ===== src/Sql.antt =====
-- The SQL statements that the service sends, as actions on the store.
pub mod Fetch
pub mod Balances
pub mod Holds
pub mod Journal
