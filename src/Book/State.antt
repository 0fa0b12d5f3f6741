-- ===== src/Book/State.antt =====
-- The members of `OrderBook`, and actions on them. The sizes of the pools and of the order map, which
-- the class fixes, are parameters. `ticks` counts the readings of the time stamp counter, and `trades`
-- is the vector of reports that the caller passes by reference.
use l3_lock_free_orderbook_e.Prelude.{ℕ, Bool, none, Run, ok, Ptr, List, []}
use l3_lock_free_orderbook_e.Prelude.Int.{ltb_ℤ}
use l3_lock_free_orderbook_e.Types.{Price, TradeReport, invalid_price}
use l3_lock_free_orderbook_e.Arena
use l3_lock_free_orderbook_e.Arena.{LinearArena}
use l3_lock_free_orderbook_e.Pool
use l3_lock_free_orderbook_e.Pool.{ObjectPool, Slot, load, store}
use l3_lock_free_orderbook_e.HashMap
use l3_lock_free_orderbook_e.HashMap.{FlatHashMap}
use l3_lock_free_orderbook_e.Tree.Memory
use l3_lock_free_orderbook_e.Tree.Memory.{IntrusiveRbTree}
use l3_lock_free_orderbook_e.Level.{Order, PriceLevel}

abbrev pub max_orders : ℕ
max_orders = 1000000

abbrev pub max_price_levels : ℕ
max_price_levels = 100000

abbrev pub order_map_size : ℕ
order_map_size = 1048576

pub record OrderBook : Type 0 where
  pub bid_tree : IntrusiveRbTree
  pub ask_tree : IntrusiveRbTree
  pub order_map : FlatHashMap Ptr
  pub order_pool : ObjectPool Order
  pub level_pool : ObjectPool PriceLevel
  pub arena : LinearArena
  pub ticks : ℕ
  pub trades : List TradeReport

unfoldable pub new : (orders levels : ℕ) → OrderBook
new orders levels = record {
  bid_tree = Memory.new;
  ask_tree = Memory.new;
  order_map = HashMap.new none;
  order_pool = Pool.new orders;
  level_pool = Pool.new levels;
  arena = Arena.new 0 67108864;
  ticks = 0;
  trades = [];
}

abbrev pub B : Type 0 → Type 0
B A = OrderBook → Run (A × OrderBook)

abbrev pub pure : {A : Type 0} → A → B A
pure a b = ok (a, b)

abbrev pub and_then : {A C : Type 0} → Run (A × OrderBook) → (A → B C) → Run (C × OrderBook)
and_then (ok r) f = f r.0 r.1
and_then Run.fault f = Run.fault
and_then Run.out_of_fuel f = Run.out_of_fuel

infixl 5 ◌>>=◌ ◌>>◌
abbrev pub ◌>>=◌ : {A C : Type 0} → B A → (A → B C) → B C
◌>>=◌ m f b = and_then (m b) f

abbrev pub ◌>>◌ : {C : Type 0} → B (Unit {0}) → B C → B C
m >> k = m >>= λ _. k

abbrev pub map_ok : {A C : Type 0} → (A → C) → Run A → Run C
map_ok f (ok a) = ok (f a)
map_ok f Run.fault = Run.fault
map_ok f Run.out_of_fuel = Run.out_of_fuel

-- An action of one member.
abbrev pub on_bids : {A : Type 0} → Memory.M A → B A
on_bids m b = map_ok (λ (a, t). (a, record b { bid_tree = t })) (m b.bid_tree)

abbrev pub on_asks : {A : Type 0} → Memory.M A → B A
on_asks m b = map_ok (λ (a, t). (a, record b { ask_tree = t })) (m b.ask_tree)

abbrev pub on_orders : {A : Type 0} → (ObjectPool Order → Run (A × ObjectPool Order)) → B A
on_orders m b = map_ok (λ (a, p). (a, record b { order_pool = p })) (m b.order_pool)

abbrev pub on_levels :
    {A : Type 0} → (ObjectPool PriceLevel → Run (A × ObjectPool PriceLevel)) → B A
on_levels m b = map_ok (λ (a, p). (a, record b { level_pool = p })) (m b.level_pool)

abbrev pub acquire_order : Order → B Ptr
acquire_order x = on_orders (Pool.acquire x)

abbrev pub release_order : Ptr → B (Unit {0})
release_order p = on_orders λ o. map_ok (λ o'. (tt, o')) (Pool.release p o)

abbrev pub acquire_level : PriceLevel → B Ptr
acquire_level x = on_levels (Pool.acquire x)

abbrev pub release_level : Ptr → B (Unit {0})
release_level p = on_levels λ o. map_ok (λ o'. (tt, o')) (Pool.release p o)

abbrev pub get_order : Ptr → B Order
get_order p b = map_ok (λ x. (x, b)) (load p b.order_pool)

abbrev pub put_order : Ptr → Order → B (Unit {0})
put_order p x b = map_ok (λ o. (tt, record b { order_pool = o })) (store p x b.order_pool)

abbrev pub get_level : Ptr → B PriceLevel
get_level p b = map_ok (λ l. (l, b)) (load p b.level_pool)

abbrev pub put_level : Ptr → PriceLevel → B (Unit {0})
put_level p l b = map_ok (λ o. (tt, record b { level_pool = o })) (store p l b.level_pool)

-- `PriceLevelKey`: the price of the level in a slot. The trees hold live levels alone, so the price
-- of a slot with no level is never asked for.
unfoldable pub level_price : ObjectPool PriceLevel → ℕ → Price
level_price p i = elim (p.storage i) [ Slot.live l ↦ l.price | _ ↦ invalid_price ]

-- `BidCompare` and `AskCompare`
abbrev pub bid_compare : Price → Price → Bool
bid_compare a b = ltb_ℤ b a

abbrev pub ask_compare : Price → Price → Bool
ask_compare a b = ltb_ℤ a b
