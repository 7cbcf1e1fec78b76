-- ===== src/Websocket.antt =====
-- pkg/websocket: the reconnecting WebSocket base.
pub mod Options
pub mod Backoff
pub mod Base
mod Tests
