-- ===== src/Book/Depth.antt =====
-- `mid_price`, `spread`, the counts, `get_bids` and `get_asks`. Signed overflow is undefined
-- behaviour, a fault.
use l3_lock_free_orderbook_e.Prelude.{
  ℕ, zero, suc, Bool, ◌||◌, none, some, Ptr, ok, fault, if◌then◌else◌, List, [], ◌∷◌,
}
use l3_lock_free_orderbook_e.Prelude.Int.{ℤ, ◌+ℤ◌, ◌-ℤ◌, eqb_ℤ, div_ℤ, fits_i64}
use l3_lock_free_orderbook_e.Types.{Price, invalid_price}
use l3_lock_free_orderbook_e.Pool.{load}
use l3_lock_free_orderbook_e.Tree.Walk
use l3_lock_free_orderbook_e.Level.{PriceLevel}
use l3_lock_free_orderbook_e.Book.State.{OrderBook, B, pure, ◌>>=◌, on_bids, on_asks, get_level}
use l3_lock_free_orderbook_e.Book.Levels.{
  get_best_bid_level, get_best_ask_level, best_bid, best_ask,
}

-- The result of a signed operation.
abbrev pub checked : ℤ → B Price
checked a b = if fits_i64 a then ok (a, b) else fault

either_invalid : Price → Price → Bool
either_invalid bid ask = eqb_ℤ bid invalid_price || eqb_ℤ ask invalid_price

unfoldable pub mid_price : B Price
unfolding best_bid best_ask either_invalid ◌+ℤ◌
mid_price = do
  bid ← best_bid
  ask ← best_ask
  if either_invalid bid ask
      then pure invalid_price
      else (do sum ← checked (bid +ℤ ask); pure (div_ℤ sum 2))

unfoldable pub spread : B Price
unfolding best_bid best_ask either_invalid ◌-ℤ◌
spread = do
  bid ← best_bid
  ask ← best_ask
  if either_invalid bid ask then pure invalid_price else checked (ask -ℤ bid)

unfoldable pub order_count : OrderBook → ℕ
order_count b = b.order_map.size

unfoldable pub bid_level_count : OrderBook → ℕ
bid_level_count b = b.bid_tree.size

unfoldable pub ask_level_count : OrderBook → ℕ
ask_level_count b = b.ask_tree.size

-- The loop of `get_bids`, with the places left in `out`.
bids_from : ℕ → Ptr → B (List PriceLevel)
unfolding load Walk.predecessor
bids_from n none = pure []
bids_from zero (some p) = pure []
bids_from (suc n) (some p) = do
  l ← get_level (some p)
  next ← on_bids (Walk.predecessor (some p))
  rest ← bids_from n next
  pure (l ∷ rest)

unfoldable pub get_bids : ℕ → B (List PriceLevel)
unfolding get_best_bid_level bids_from
get_bids n = do best ← get_best_bid_level; bids_from n best

asks_from : ℕ → Ptr → B (List PriceLevel)
unfolding load Walk.successor
asks_from n none = pure []
asks_from zero (some p) = pure []
asks_from (suc n) (some p) = do
  l ← get_level (some p)
  next ← on_asks (Walk.successor (some p))
  rest ← asks_from n next
  pure (l ∷ rest)

unfoldable pub get_asks : ℕ → B (List PriceLevel)
unfolding get_best_ask_level asks_from
get_asks n = do best ← get_best_ask_level; asks_from n best
