-- ===== src/Book/Levels.antt =====
-- The best levels of `OrderBook`, `find_or_create_level` and `remove_level`.
use l3_lock_free_orderbook_e.Prelude.{ℕ, none, some, Ptr, Bool}
use l3_lock_free_orderbook_e.Types.{Price, Quantity, Side, buy, sell, invalid_price}
use l3_lock_free_orderbook_e.Pool.{acquire, release, load}
use l3_lock_free_orderbook_e.Tree.Walk
use l3_lock_free_orderbook_e.Tree.Insert
use l3_lock_free_orderbook_e.Tree.Remove
use l3_lock_free_orderbook_e.Level.{new_level}
use l3_lock_free_orderbook_e.Book.State.{
  B, pure, ◌>>=◌, ◌>>◌, on_bids, on_asks, acquire_level, release_level, get_level, level_price,
  bid_compare, ask_compare,
}

-- Both trees keep the best price first.
unfoldable pub get_best_ask_level : B Ptr
unfolding Walk.minimum
get_best_ask_level = on_asks Walk.minimum

unfoldable pub get_best_bid_level : B Ptr
unfolding Walk.minimum
get_best_bid_level = on_bids Walk.minimum

-- `level ? level->price : INVALID_PRICE`
unfoldable pub price_of : Ptr → B Price
unfolding load
price_of none = pure invalid_price
price_of (some p) = do l ← get_level (some p); pure l.price

quantity_of : Ptr → B Quantity
unfolding load
quantity_of none = pure 0
quantity_of (some p) = do l ← get_level (some p); pure l.total_quantity

unfoldable pub best_bid : B Price
unfolding get_best_bid_level price_of
best_bid = do p ← get_best_bid_level; price_of p

unfoldable pub best_ask : B Price
unfolding get_best_ask_level price_of
best_ask = do p ← get_best_ask_level; price_of p

unfoldable pub best_bid_qty : B Quantity
unfolding get_best_bid_level quantity_of
best_bid_qty = do p ← get_best_bid_level; quantity_of p

unfoldable pub best_ask_qty : B Quantity
unfolding get_best_ask_level quantity_of
best_ask_qty = do p ← get_best_ask_level; quantity_of p

-- The level of a price in the tree of its side.
unfoldable pub find_level : Price → Side → B Ptr
unfolding Walk.find_node level_price
find_level price buy b = on_bids (Walk.find_node (level_price b.level_pool) bid_compare price) b
find_level price sell b = on_asks (Walk.find_node (level_price b.level_pool) ask_compare price) b

unfoldable pub insert_level : ℕ → Side → B Bool
unfolding Insert.insert level_price
insert_level p buy b = on_bids (Insert.insert (level_price b.level_pool) bid_compare p) b
insert_level p sell b = on_asks (Insert.insert (level_price b.level_pool) ask_compare p) b

unfoldable pub find_or_create_level : Price → Side → B Ptr
unfolding find_level insert_level acquire new_level
find_or_create_level price side = do
  existing ← find_level price side
  elim existing [
    | some p ↦ pure (some p)
    | none ↦ do
      level ← acquire_level (new_level price side)
      elim level [ none ↦ pure none | some p ↦ do inserted ← insert_level p side; pure (some p) ]
  ]

unfoldable pub remove_from_tree : ℕ → Side → B (Unit {0})
unfolding Remove.remove
remove_from_tree p buy = on_bids (Remove.remove p)
remove_from_tree p sell = on_asks (Remove.remove p)

unfoldable pub remove_level : ℕ → Side → B (Unit {0})
unfolding remove_from_tree release
remove_level p side = do remove_from_tree p side; release_level (some p)
