-- ===== src/Checks.antt =====
-- The theorems about the code, applied to concrete inputs.
pub mod Regions
pub mod Codec
pub mod Bits
pub mod Downloads
pub mod Receipts
pub mod Packets
pub mod Peers
pub mod Search
pub mod Frames
pub mod Connections
pub mod Saved
pub mod Transfers
pub mod Sessions
pub mod Servers
pub mod Rates
