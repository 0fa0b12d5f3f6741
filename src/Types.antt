-- ===== src/Types.antt =====
-- include/orderbook/types.hpp: the fundamental types. A `Price` is an integer (`int64_t`); a
-- `Quantity`, an `OrderId` and a `Timestamp` are numbers below 2^32 or 2^64.
use l3_lock_free_orderbook_e.Prelude.{ℕ, Bool, ◌&&◌, ltb, ◌==◌, not}
use l3_lock_free_orderbook_e.Prelude.Int.{ℤ, min_i64}

abbrev pub Price : Type 0
Price = ℤ

abbrev pub Quantity : Type 0
Quantity = ℕ

abbrev pub OrderId : Type 0
OrderId = ℕ

abbrev pub Timestamp : Type 0
Timestamp = ℕ

abbrev pub invalid_price : Price
invalid_price = min_i64

abbrev pub invalid_order_id : OrderId
invalid_order_id = 0

pub data Side : Type 0 where
  buy sell : Side

abbrev pub opposite : Side → Side
opposite buy = sell
opposite sell = buy

pub data OrderType : Type 0 where
  limit market cancel modify : OrderType

pub record MarketDataMessage : Type 0 where
  pub timestamp_ns : Timestamp
  pub order_id : OrderId
  pub price : Price
  pub quantity : Quantity
  pub side : Side
  pub type : OrderType

unfoldable pub is_valid : MarketDataMessage → Bool
is_valid m = not (m.order_id == invalid_order_id) && ltb 0 m.quantity

pub record TradeReport : Type 0 where
  pub timestamp_ns : Timestamp
  pub price : Price
  pub quantity : Quantity
  pub aggressor_side : Side
