-- ===== src/AddressMap.antt =====
-- rpc-src/address-map.ts, the durable predicted-to-actual address map.
pub mod State
pub mod Equality
pub mod Mappings
pub mod Bijection
pub mod Acceptance
pub mod Storing
pub mod Resolve
pub mod Metadata
pub mod Snapshots
pub mod Descriptors
pub mod Baselines
pub mod Captures
pub mod CaptureReads
pub mod Floors
pub mod Examples
