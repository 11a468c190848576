-- ===== src/Receipts.antt =====
-- rpc-src/receipts.ts: the translation of native receipts.
pub mod Numbers
pub mod Creations
pub mod RoundTrip
pub mod Price
pub mod Classification
pub mod Examples
