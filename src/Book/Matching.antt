-- ===== src/Book/Matching.antt =====
-- `match_buy_order` and `match_sell_order`. What the time stamp counter reads the n-th time is a
-- parameter, `rdtsc n`. The two functions differ in the tree, the test of the price and the side of
-- the reports; the inner loop, which they share here, is given the side.
use l3_lock_free_orderbook_e.Prelude.{
  ℕ, zero, suc, ◌+◌, ◌++◌, ◌==◌, ltb, min, none, some, Ptr, Run, ok, if◌then◌else◌, [], ◌∷◌,
}
use l3_lock_free_orderbook_e.Prelude.Int.{ltb_ℤ}
use l3_lock_free_orderbook_e.Prelude.Word.{sub32}
use l3_lock_free_orderbook_e.Types.{Price, Quantity, Timestamp, Side, buy, sell}
use l3_lock_free_orderbook_e.Pool.{load}
use l3_lock_free_orderbook_e.HashMap
use l3_lock_free_orderbook_e.Level
use l3_lock_free_orderbook_e.Level.{Order, PriceLevel, is_empty}
use l3_lock_free_orderbook_e.Book.State.{
  B, pure, ◌>>=◌, ◌>>◌, on_orders, release_order, get_order, put_order, get_level, put_level,
}
use l3_lock_free_orderbook_e.Book.Levels.{get_best_ask_level, get_best_bid_level, remove_level}

-- `level->remove_order(order)`
unfoldable pub unlink_order : (level : ℕ) → (order : ℕ) → B (Unit {0})
unlink_order p order = do
  l ← get_level (some p)
  l ← on_orders (Level.remove_order l (some order))
  put_level (some p) l

module _ (order_map_size : ℕ) where
  -- `order_map_.remove(id)`
  abbrev pub forget : ℕ → B (Unit {0})
  forget id b = ok (tt, record b { order_map = (HashMap.remove order_map_size id b.order_map).1 })

  module _ (rdtsc : ℕ → Timestamp) where
    -- A report at the end of `trades`.
    abbrev pub report : Price → Quantity → Side → B (Unit {0})
    report p q s b = ok (
      tt,
      record b {
        ticks = b.ticks + 1;
        trades =
            b.trades
            ++ record { timestamp_ns = rdtsc b.ticks; price = p; quantity = q; aggressor_side = s }
              ∷ [];
      },
    )

    -- One round of the inner loop, for the incoming `order` and the order `resting` of `level`. The
    -- result is the next resting order.
    unfoldable pub match_round : Side → (order level resting : ℕ) → B Ptr
    match_round side order level resting = do
      x ← get_order (some order)
      r ← get_order (some resting)
      let match_qty = min x.quantity r.quantity
      report r.price match_qty side
      put_order (some order) (record x { quantity = sub32 x.quantity match_qty })
      put_order (some resting) (record r { quantity = sub32 r.quantity match_qty })
      l ← get_level (some level)
      put_level (some level) (record l { total_quantity = sub32 l.total_quantity match_qty })
      r ← get_order (some resting)
      if r.quantity == 0
          then (do
            unlink_order level resting
            forget r.id
            release_order (some resting)
            pure r.next_at_price)
          else pure r.next_at_price

    -- `while (resting != nullptr && order->quantity > 0)`
    unfoldable pub match_level : ℕ → Side → (order level : ℕ) → Ptr → B (Unit {0})
    match_level zero side order level resting = λ b. Run.out_of_fuel
    match_level (suc f) side order level none = pure tt
    match_level (suc f) side order level (some resting) = do
      x ← get_order (some order)
      if ltb 0 x.quantity
          then (do next ← match_round side order level resting; match_level f side order level next)
          else pure tt

    -- The body of the outer loop once a level is found to match: its orders in turn, and the removal
    -- of the level if none is left. The fuel is one more than the orders that the level counts.
    unfoldable pub sweep_level : Side → Side → (order level : ℕ) → B (Unit {0})
    unfolding match_level remove_level is_empty
    sweep_level side resting_side order level = do
      l ← get_level (some level)
      match_level (l.order_count + 1) side order level l.head_order
      l ← get_level (some level)
      if is_empty l then remove_level level resting_side else pure tt

    match_buy_loop : ℕ → ℕ → B (Unit {0})
    unfolding get_best_ask_level sweep_level
    match_buy_loop zero order = λ b. Run.out_of_fuel
    match_buy_loop (suc f) order = do
      x ← get_order (some order)
      if ltb 0 x.quantity
          then (do
            best ← get_best_ask_level
            elim best [
              | none ↦ pure tt
              | some level ↦ do
                l ← get_level (some level)
                if ltb_ℤ x.price l.price
                    then pure tt
                    else (do sweep_level buy sell order level; match_buy_loop f order)
            ])
          else pure tt

    match_sell_loop : ℕ → ℕ → B (Unit {0})
    unfolding get_best_bid_level sweep_level
    match_sell_loop zero order = λ b. Run.out_of_fuel
    match_sell_loop (suc f) order = do
      x ← get_order (some order)
      if ltb 0 x.quantity
          then (do
            best ← get_best_bid_level
            elim best [
              | none ↦ pure tt
              | some level ↦ do
                l ← get_level (some level)
                if ltb_ℤ l.price x.price
                    then pure tt
                    else (do sweep_level sell buy order level; match_sell_loop f order)
            ])
          else pure tt

    -- Each round but the last removes a level, so the tree's size is a bound on the rounds.
    unfoldable pub match_buy_order : ℕ → B (Unit {0})
    unfolding match_buy_loop
    match_buy_order order b = match_buy_loop (b.ask_tree.size + 1) order b

    unfoldable pub match_sell_order : ℕ → B (Unit {0})
    unfolding match_sell_loop
    match_sell_order order b = match_sell_loop (b.bid_tree.size + 1) order b

    match_by_side : Side → ℕ → B (Unit {0})
    unfolding match_buy_order match_sell_order
    match_by_side buy order = match_buy_order order
    match_by_side sell order = match_sell_order order

    unfoldable pub match_order : ℕ → B (Unit {0})
    unfolding match_by_side load
    match_order order = do x ← get_order (some order); match_by_side x.side order
