-- ===== src/Journal.antt =====
-- rpc-src/journal.ts, the durable transaction journal.
pub mod State
pub mod Equality
pub mod Validation
pub mod Plan
pub mod Attempts
pub mod Records
pub mod Operations
pub mod Moves
pub mod Calls
pub mod Building
pub mod Requests
pub mod Nonces
pub mod Lifecycle
pub mod Durable
pub mod Examples
