-- ===== src/Streaming.antt =====
-- Flow control of binary streams (packages/protocol/src/server/stream.ts and
-- packages/transports/src/neemata/ws).
pub mod Pump
pub mod Index
pub mod Uploads
pub mod Downloads
pub mod Responses
pub mod Window
