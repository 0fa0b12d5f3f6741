-- ===== src/Book.antt =====
-- class OrderBook of include/orderbook/orderbook.hpp and src/orderbook.cpp.
pub mod State
pub mod Levels
pub mod Matching
pub mod Fill
pub mod Rounds
pub mod Priority
pub mod Orders
pub mod Best
pub mod Invariant
pub mod Requeue
pub mod Enqueue
pub mod Dequeue
pub mod Dismiss
pub mod Side
pub mod Create
pub mod Rows
pub mod RowsLeft
pub mod Resting
pub mod Leaving
pub mod Cancelled
pub mod Refused
pub mod Moved
pub mod Accepted
pub mod Depth
mod Tests
mod Examples
mod Samples
