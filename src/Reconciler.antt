-- ===== src/Reconciler.antt =====
-- rpc-src/create-reconciler.ts: the reconciler of the contracts that a transaction creates.
pub mod State
pub mod Checks
pub mod Derive
pub mod Prepare
pub mod Receipt
pub mod ReceiptEquality
pub mod Reconcile
pub mod Counting
pub mod Reserving
pub mod Preparing
pub mod Settling
pub mod Slots
pub mod Examples
pub mod SettlingExamples
