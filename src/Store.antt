-- ===== src/Store.antt =====
-- rpc-src/store.ts, the durable JSON store.
pub mod State
pub mod Files
pub mod Transactions
pub mod Crashes
pub mod Refinement
pub mod Naming
pub mod Reading
pub mod Examples
