-- ===== src/Queue.antt =====
-- rpc-src/transaction-queue.ts, the nonce-ordered admission queue: its state, its operations, and
-- what holds of every run.
pub mod State
pub mod Admission
pub mod Pump
pub mod World
pub mod Ledger
pub mod Invariant
pub mod Runs
pub mod Hashes
pub mod Promises
pub mod Progress
mod Examples
