-- ===== src/Polymarket.antt =====
-- pkg/polymarket: the market, user and RTDS channels, the discovery of series, markets and prices,
-- and the orders of the live connector.
pub mod Market
pub mod Series
pub mod Rtds
pub mod Clob
pub mod Executor
pub mod User
pub mod Gamma
pub mod CryptoPrice
pub mod Chain
pub mod Relayer
pub mod Positions
