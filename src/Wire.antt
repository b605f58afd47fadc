-- ===== src/Wire.antt =====
-- The wire protocol (packages/protocol/src).
pub mod Bytes
pub mod Utf8
pub mod Messages
pub mod Server
pub mod Client
pub mod Reasons
pub mod Uplink
pub mod Downlink
pub mod Malformed
mod Tests
