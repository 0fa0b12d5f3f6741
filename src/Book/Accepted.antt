-- ===== src/Book/Accepted.antt =====
-- The whole of `add_order`, for an order that does not cross the book.
use l3_lock_free_orderbook_e.Prelude.{
  ℕ, ◌+◌, ◌<◌, ◌^◌, ◌≡◌, refl, sym, ap, ◌∙◌, Bool, true, false, not, ◌&&◌, none, some, List, [],
  ◌∷◌, ok, arith, mem, ==_iff, length, Ptr,
}
use l3_lock_free_orderbook_e.Prelude.Int.{leb_ℤ, eqb_ℤ}
use l3_lock_free_orderbook_e.Types.{
  Price, Quantity, Timestamp, Side, buy, sell, opposite, invalid_price,
}
use l3_lock_free_orderbook_e.Pool.FreeList.{view}
use l3_lock_free_orderbook_e.Pool.Access.{load-view}
use l3_lock_free_orderbook_e.HashMap
use l3_lock_free_orderbook_e.Pool.Init.{below, new-IsValid}
use l3_lock_free_orderbook_e.Tree.Memory
use l3_lock_free_orderbook_e.Tree.Sorted.{IsTree}
use mathlib.Core.Bool.{false≢true}
use l3_lock_free_orderbook_e.Book.State
use l3_lock_free_orderbook_e.Tree.Memory.{IntrusiveRbTree}
use l3_lock_free_orderbook_e.Tree.Shape
use l3_lock_free_orderbook_e.Tree.Shape.{Shape}
use l3_lock_free_orderbook_e.Tree.Lookup.{find_node-Looked, minimum-maximum, head?, Looked}
use l3_lock_free_orderbook_e.Level.{Order, new_order}
use l3_lock_free_orderbook_e.Level.Links.{Entry}
use l3_lock_free_orderbook_e.Book.State.{OrderBook, level_price}
use l3_lock_free_orderbook_e.Book.Levels.{
  get_best_bid_level, get_best_ask_level, price_of, best_bid, best_ask, find_level,
}
use l3_lock_free_orderbook_e.Book.Orders.{crosses, rest_order, add_order}
use l3_lock_free_orderbook_e.Book.Invariant.{
  compare_of, tree_of, IsBook, HasQueue, level_price-view, ltb_ℤ-IsStrictOrder,
}
use l3_lock_free_orderbook_e.Book.Side.{find_level-run}
use l3_lock_free_orderbook_e.Book.Rows.{Row, rows}
use l3_lock_free_orderbook_e.Book.Resting.{side_rows, acquire_order-IsBook, Rested, joined, created}

abbrev pub best_of : List Row → Price
best_of [] = invalid_price
best_of (r ∷ rs) = r.0

-- An order of the price meets the best price of the other side.
abbrev pub meets : Side → Price → Price → Bool
meets buy price best = leb_ℤ best price && not (eqb_ℤ best invalid_price)
meets sell price best = leb_ℤ price best && not (eqb_ℤ best invalid_price)

module _ {oc lc : ℕ} {b : OrderBook} {shape : Side → Shape} {queue : ℕ → List Entry}
    (g : IsBook oc lc b shape queue) where
  price_of-best :
      (d : Side) (xs : List ℕ)
      → ((i : ℕ) → mem i xs ≡ true → HasQueue b.level_pool b.order_pool d i (queue i))
      → price_of (head? xs) b ≡ ok (best_of (rows (level_price b.level_pool) queue xs), b)
  unfolding price_of
  price_of-best d [] q = refl
  price_of-best d (x ∷ xs) q =
      let h = q x (ground (arith, ==_iff x x)) in
      simp (load-view b.level_pool x h.live)
        (ap (λ k. ok (k, b)) (sym (level_price-view b.level_pool x h.live)))

  best_bid-run : best_bid b ≡ ok (best_of (side_rows b shape queue buy), b)
  unfolding best_bid get_best_bid_level
  best_bid-run =
      simp (minimum-maximum b.bid_tree (shape buy) (g.tree buy)).0
        (price_of-best buy (Shape.slots (shape buy)) (g.queues buy))

  best_ask-run : best_ask b ≡ ok (best_of (side_rows b shape queue sell), b)
  unfolding best_ask get_best_ask_level
  best_ask-run =
      simp (minimum-maximum b.ask_tree (shape sell) (g.tree sell)).0
        (price_of-best sell (Shape.slots (shape sell)) (g.queues sell))

  -- The test for an order that crosses the book.
  pub crosses-run :
      (d : Side) (price : Price)
      → crosses d price b ≡ ok (meets d price (best_of (side_rows b shape queue (opposite d))), b)
  unfolding crosses
  crosses-run buy price = rw best_ask-run refl
  crosses-run sell price = rw best_bid-run refl

  -- An order in the pool that is in no queue comes to rest.
  rest_order-Rested :
      (order_map_size : ℕ) (rdtsc : ℕ → Timestamp) (d : Side) (id p : ℕ) (x : Order) (lv : ℕ)
      (ys : List ℕ)
      → view b.order_pool p ≡ some x
      → x.price_level ≡ none
      → g.free_levels ≡ lv ∷ ys
      → length (Shape.slots (shape d)) + 1 < 2 ^ 64
      → (after : OrderBook) × (rest_order order_map_size rdtsc id d p b ≡ ok (true, after))
        × Rested order_map_size id oc lc d x p b shape queue after
  rest_order-Rested order_map_size rdtsc d id p x lv ys at loose free room =
      let key = level_price b.level_pool in
      let (q, run, looked) =
        find_node-Looked key (compare_of d) x.price (ltb_ℤ-IsStrictOrder d) (tree_of d b) (shape d)
          (g.tree d) (g.sorted d) in
      by_level q (find_level-run d x.price b run) looked
    where
      by_level :
          (q : Ptr)
          → find_level x.price d b ≡ ok (q, b)
          → Looked (level_price b.level_pool) (compare_of d) x.price (Shape.slots (shape d)) q
          → (after : OrderBook) × (rest_order order_map_size rdtsc id d p b ≡ ok (true, after))
            × Rested order_map_size id oc lc d x p b shape queue after
      by_level none run absent =
          created order_map_size rdtsc d id p x g at loose lv ys free absent run room
      by_level (some q) run found = joined order_map_size rdtsc d id p x g at loose q run found

-- In a book that keeps its invariant, with a free slot for an order and one for a level, and fewer
-- than 2^64 - 1 levels of the side: `add_order` of an id that the map does not find, at a price that
-- does not meet the best price of the other side, returns true. The book then keeps its invariant; on
-- the order's side the order has joined the end of the queue of its price, in a new row at its place
-- if the price had none; the rows of the other side and the trades are as before, and the map is that
-- with the id.
pub add_order-Rested :
    (order_map_size : ℕ) (rdtsc : ℕ → Timestamp) {oc lc : ℕ} {b : OrderBook} {shape : Side → Shape}
    {queue : ℕ → List Entry} (g : IsBook oc lc b shape queue) (d : Side) (id : ℕ) (price : Price)
    (qty : Quantity) (ts : Timestamp) (p lv : ℕ) (xs ys : List ℕ)
    → HashMap.find order_map_size id b.order_map ≡ none
    → g.free_orders ≡ p ∷ xs
    → g.free_levels ≡ lv ∷ ys
    → length (Shape.slots (shape d)) + 1 < 2 ^ 64
    → meets d price (best_of (side_rows b shape queue (opposite d))) ≡ false
    → (after : OrderBook) × (add_order order_map_size rdtsc id d price qty ts b ≡ ok (true, after))
      × Rested order_map_size id oc lc d (new_order id d price qty ts) p b shape queue after
unfolding add_order new_order
add_order-Rested order_map_size rdtsc {b} {shape} {queue} g d id price qty ts p lv xs ys unknown
      free_order free_level room apart =
    let x = new_order id d price qty ts in
    let (o, got, at, _, (h, same)) = acquire_order-IsBook x p xs g free_order in
    let (after, run, r) =
      rest_order-Rested h order_map_size rdtsc d id p x lv ys at refl (same ∙ free_level) room in
    (
      after,
      rw (unknown, got, crosses-run h d price, apart) run,
      record {
        shape' = r.shape';
        queue' = r.queue';
        book = r.book;
        here = r.here;
        order_map = r.order_map;
        trades = r.trades;
        other = r.other;
      },
    )

-- The book as it is constructed keeps the invariant, with all slots free.
new-IsBook :
    (oc lc : ℕ)
    → oc < 2 ^ 64
    → lc < 2 ^ 64
    → IsBook oc lc (State.new oc lc) (λ d. Shape.leaf) (λ i. [])
unfolding State.new
new-IsBook oc lc ho hl = record {
  tree = elim [ buy ↦ empty-IsTree | sell ↦ empty-IsTree ];
  sorted = λ d. tt;
  queues = λ d i m. absurd (false≢true m);
  free_orders = below oc [];
  free_levels = below lc [];
  orders = new-IsValid oc ho;
  levels = new-IsValid lc hl;
}
  where
    empty-IsTree : IsTree Memory.new Shape.leaf
    empty-IsTree = record {
      focus = record { here = tt; around = tt; root = refl; once = λ i. omega arith };
      black_root = tt;
      size = refl;
    }
