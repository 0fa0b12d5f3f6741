-- ===== src/Book/Tests.antt =====
-- `OrderBook` with room for sixteen orders and eight levels: the program's demonstration, and runs
-- in which the components let each other down.
use l3_lock_free_orderbook_e.Prelude.{ℕ, Bool, ◌≡◌, refl, List, [], ◌∷◌, Run, ok, map}
use l3_lock_free_orderbook_e.Prelude.Int.{pos}
use l3_lock_free_orderbook_e.Types.{Price, Quantity, Side, buy, sell}
use l3_lock_free_orderbook_e.HashMap
use l3_lock_free_orderbook_e.Pool
use l3_lock_free_orderbook_e.Level.{PriceLevel}
use l3_lock_free_orderbook_e.Book.State.{OrderBook, B, new, pure, ◌>>=◌, ◌>>◌}
use l3_lock_free_orderbook_e.Book.Levels.{best_bid, best_ask, best_bid_qty}
use l3_lock_free_orderbook_e.Book.Orders.{add_order, cancel_order, modify_order, clear}
use l3_lock_free_orderbook_e.Tree.Machine.{machine}
use l3_lock_free_orderbook_e.Level.{remove_order}
use l3_lock_free_orderbook_e.Book.Matching.{match_round}
use l3_lock_free_orderbook_e.Book.Depth.{mid_price, spread, get_bids, get_asks, order_count}

program : Unit {0}
unfolding machine HashMap.new Pool.new HashMap.hash new add_order cancel_order modify_order clear
    mid_price spread get_bids get_asks best_bid best_ask best_bid_qty order_count
program = tt

abbrev add : ℕ → Side → ℕ → Quantity → B Bool
add id side price qty = add_order 16 (λ n. n) id side (pos price) qty 0

abbrev add_ : ℕ → Side → ℕ → Quantity → B (Unit {0})
add_ id side price qty = add id side price qty >>= λ _. pure tt

abbrev result : {A : Type 0} → Run (A × OrderBook) → Run A
result (ok (a, s)) = ok a
result Run.fault = Run.fault
result Run.out_of_fuel = Run.out_of_fuel

abbrev run : {A : Type 0} → B A → Run A
run m = result (m (new 16 8))

-- Price, quantity and orders of a level.
abbrev row : PriceLevel → Price × Quantity × ℕ
row l = (l.price, l.total_quantity, l.order_count)

abbrev executions : B (List (Price × Quantity))
executions b = ok (map (λ t. (t.price, t.quantity)) b.trades, b)

-- The six orders of `demo_order_book`.
abbrev demo : B (Unit {0})
demo = do
  add_ 1 buy 10000 100
  add_ 2 buy 9995 200
  add_ 3 buy 9990 150
  add_ 4 sell 10005 75
  add_ 5 sell 10010 120
  add_ 6 sell 10015 90

demo_depth :
    run {A = List (Price × Quantity × ℕ) × List (Price × Quantity × ℕ) × Price} (do
      demo
      bids ← get_bids 10
      asks ← get_asks 10
      s ← spread
      pure (map row bids, map row asks, s))
    ≡ ok (
      (pos 10000, 100, 1) ∷ [],
      (pos 10005, 75, 1) ∷ (pos 10010, 120, 1) ∷ (pos 10015, 90, 1) ∷ [],
      pos 5,
    )
unfolding program
demo_depth = refl

demo_match :
    run {A = List (Price × Quantity) × Price × Quantity × Price} (do
      demo
      add_ 7 buy 10010 200
      t ← executions
      b ← best_bid
      q ← best_bid_qty
      a ← best_ask
      pure (t, b, q, a))
    ≡ ok ((pos 10005, 75) ∷ (pos 10010, 120) ∷ [], pos 10010, 5, pos 10015)
unfolding program match_round remove_order
demo_match = refl
