-- ===== src/Market.antt =====
-- MarketDataSimulator of include/orderbook/market_data.hpp and src/market_data.cpp. The generator and
-- its distributions are parameters, the type `G` of their states and a draw from each; so are the
-- conversions of the library from strings to numbers. Signed overflow is undefined behaviour, a fault.
use l3_lock_free_orderbook_e.Prelude.{
  ℕ, zero, suc, ◌+◌, ◌==◌, leb, ltb, not, Bool, true, false, if◌then◌else◌, List, [], ◌∷◌, ◌++◌,
  Run, ok, fault, length, get_elem?, Option, none, some, ◌>>=◌,
}
use l3_lock_free_orderbook_e.Prelude.Int.{ℤ, pos, ◌+ℤ◌, ltb_ℤ, fits_i64}
use l3_lock_free_orderbook_e.Prelude.Word.{add64, u64}
use l3_lock_free_orderbook_e.Types.{
  Price, Quantity, OrderId, Timestamp, Side, buy, sell, OrderType, limit, market, cancel, modify,
  MarketDataMessage,
}
use l3_lock_free_orderbook_e.Double.{Double, number}
pub mod Csv
pub mod Messages
pub mod Lines
mod Tests

pub record Config (W : Type 0) : Type 0 where
  pub start_price : Price
  pub volatility : W
  pub arrival_rate : W
  pub cancel_rate : W
  pub modify_rate : W
  pub max_order_size : Quantity
  pub seed : ℕ

-- `rng_` and the distributions over it.
pub record Random (W G : Type 0) : Type 0 where
  pub start : Config W → G
  pub price_dist : G → W × G
  pub arrival_dist : G → W × G
  pub size_dist : G → Quantity × G
  pub type_dist : G → W × G

pub record MarketDataSimulator (W G : Type 0) : Type 0 where
  pub cfg : Config W
  pub generator : G
  pub current_price : Price
  pub next_order_id : OrderId
  pub next_timestamp : Timestamp
  pub replay_buffer : List MarketDataMessage
  pub replay_index : ℕ

-- `MarketDataMessage{}`
abbrev pub no_message : MarketDataMessage
no_message = record {
  timestamp_ns = 0;
  order_id = 0;
  price = pos 0;
  quantity = 0;
  side = buy;
  type = limit;
}

module _ {W G : Type 0} where
  unfoldable pub has_replay_data : MarketDataSimulator W G → Bool
  has_replay_data s = not (length s.replay_buffer == 0)

  -- What is left of `next_replay_message` when the place in the buffer has been read.
  abbrev replay :
      Option MarketDataMessage
      → MarketDataSimulator W G
      → MarketDataMessage × MarketDataSimulator W G
  replay (some m) s = (m, record s { replay_index = s.replay_index + 1 })
  replay none s = (no_message, s)

  unfoldable pub next_replay_message :
      MarketDataSimulator W G → MarketDataMessage × MarketDataSimulator W G
  next_replay_message s = replay (get_elem? s.replay_buffer s.replay_index) s

module _ {W G : Type 0} ⦃d : Double W⦄ (r : Random W G) where
  unfoldable pub new : Config W → MarketDataSimulator W G
  new cfg = record {
    cfg = cfg;
    generator = r.start cfg;
    current_price = cfg.start_price;
    next_order_id = 1;
    next_timestamp = 0;
    replay_buffer = [];
    replay_index = 0;
  }

  unfoldable pub random_order_type : Config W → G → OrderType × G
  random_order_type cfg g =
      let (x, g) = r.type_dist g in
      (
        if d.less x cfg.cancel_rate
            then cancel
            else (if d.less x (d.plus cfg.cancel_rate cfg.modify_rate) then modify else limit),
        g,
      )

  unfoldable pub random_side : G → Side × G
  random_side g = let (x, g) = r.type_dist g in (if d.less x d.half then buy else sell, g)

  -- The next price of the random walk.
  unfoldable pub walk : Price → (delta : W) → Run Price
  walk current delta =
      let p = current +ℤ d.to_int delta in
      if fits_i64 p then ok (if ltb_ℤ p (pos 1) then pos 1 else p) else fault

  -- next_timestamp_ += arrival * 1e9 / rate
  unfoldable pub later : Config W → (arrival : W) → Timestamp → Timestamp
  later cfg arrival now =
      add64 now (d.to_u64 (d.over (d.times arrival (number 1000000000)) cfg.arrival_rate))

  unfoldable pub next_message :
      MarketDataSimulator W G → Run (MarketDataMessage × MarketDataSimulator W G)
  next_message s = do
    let (arrival, g) = r.arrival_dist s.generator
    let (side, g) = random_side g
    let (delta, g) = r.price_dist g
    price ← walk s.current_price delta
    let (quantity, g) = r.size_dist g
    let (type, g) = random_order_type s.cfg g
    ok (
      record {
        timestamp_ns = s.next_timestamp;
        order_id = s.next_order_id;
        price = price;
        quantity = quantity;
        side = side;
        type = type;
      },
      record s {
        generator = g;
        current_price = price;
        next_order_id = add64 s.next_order_id 1;
        next_timestamp = later s.cfg arrival s.next_timestamp;
      },
    )

  unfoldable pub generate_batch :
      ℕ → MarketDataSimulator W G → Run (List MarketDataMessage × MarketDataSimulator W G)
  generate_batch zero s = ok ([], s)
  generate_batch (suc n) s = do
    (m, s) ← next_message s
    (ms, s) ← generate_batch n s
    ok (m ∷ ms, s)
