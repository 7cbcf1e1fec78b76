-- ===== src/Hyperliquid.antt =====
-- pkg/hyperliquid: the perpetuals connector.
pub mod Channels
pub mod Subscription
pub mod Key
pub mod Registry
pub mod Payloads
pub mod Frames
mod Tests
