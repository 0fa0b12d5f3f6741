-- ===== src/Signals.antt =====
-- VWAPSignalEngine and EMASignalEngine of include/orderbook/market_data.hpp and src/market_data.cpp.
-- An `__int128` is an integer, and Signals/Average shows that the sums stay in its range.
pub mod Average
pub mod Vwap
pub mod Ema
pub mod Crossings
mod Tests
