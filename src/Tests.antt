-- ===== src/Tests.antt =====
-- Runs of the code on concrete inputs, and the theorems applied to them.
pub mod Seed
pub mod Funds
pub mod Ledger
pub mod Operations
pub mod Requests
pub mod Replies
pub mod Frames
pub mod Records
pub mod Events
pub mod Api
pub mod Gate
pub mod Relay
pub mod Settings
pub mod Sweep
pub mod Service
pub mod Once
pub mod Boot
pub mod Closed
pub mod Drift
