-- ===== src/Binance.antt =====
-- pkg/binance: the locally maintained order book, the streams and the messages.
pub mod Levels
pub mod Book
pub mod Streams
pub mod Messages
mod Tests
