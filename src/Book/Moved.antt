-- ===== src/Book/Moved.antt =====
-- The whole of `modify_order`, where the order is cancelled and a new one with its id comes to rest.
use l3_lock_free_orderbook_e.Prelude.{
  ℕ, ◌+◌, ◌<◌, ◌^◌, ◌≡◌, refl, ap, ◌∙◌, true, false, none, some, List, [], ◌∷◌, ◌++◌, ok, arith,
  mem, length,
}
use l3_lock_free_orderbook_e.Types.{Price, Quantity, Timestamp, Side, opposite}
use l3_lock_free_orderbook_e.Pool.{ObjectPool}
use l3_lock_free_orderbook_e.Pool.FreeList.{view, IsValid}
use l3_lock_free_orderbook_e.Pool.Access.{load-view}
use l3_lock_free_orderbook_e.HashMap
use l3_lock_free_orderbook_e.HashMap.Laws.{find-remove_self}
use l3_lock_free_orderbook_e.Tree.Shape
use l3_lock_free_orderbook_e.Tree.Shape.{Shape}
use l3_lock_free_orderbook_e.Tree.Balance.{IsRedBlack}
use l3_lock_free_orderbook_e.Level.{Order, new_order}
use l3_lock_free_orderbook_e.Level.Links.{Entry}
use l3_lock_free_orderbook_e.Book.State.{OrderBook, level_price}
use l3_lock_free_orderbook_e.Book.Orders.{add_order, cancel_order, modify_order}
use l3_lock_free_orderbook_e.Book.Invariant.{IsBook, compare_of}
use l3_lock_free_orderbook_e.Book.Rows.{join_row}
use l3_lock_free_orderbook_e.Book.RowsLeft.{leave_row}
use l3_lock_free_orderbook_e.Book.Resting.{side_rows}
use l3_lock_free_orderbook_e.Book.Accepted.{best_of, meets, add_order-Rested}
use l3_lock_free_orderbook_e.Book.Cancelled.{cancel_order-Left}
use l3_lock_free_orderbook_e.Book.Leaving.{stands}

-- A pool that has a free slot has one on its free list.
module _ {ℓ} {T : Type ℓ} {cap : ℕ} {p : ObjectPool T} where
  free_of_available :
      (xs : List ℕ) → IsValid cap p xs → 0 < p.available → (x : ℕ) × (ys : List ℕ) × (xs ≡ x ∷ ys)
  free_of_available [] v h = absurd (omega (arith, v.counted))
  free_of_available (x ∷ xs) v h = (x, xs, refl)

  free_of_view :
      (i : ℕ) (xs : List ℕ)
      → IsValid cap p xs
      → i < cap
      → view p i ≡ none
      → (x : ℕ) × (ys : List ℕ) × (xs ≡ x ∷ ys)
  free_of_view i [] v h e = absurd (v.others i refl h e)
  free_of_view i (x ∷ xs) v h e = (x, xs, refl)

-- `modify_order` put together from its two parts.
modify_order-run :
    (order_map_size : ℕ) (rdtsc : ℕ → Timestamp) (b : OrderBook) {b₁ after : OrderBook} (id : ℕ)
    {p : ℕ} {x : Order} {d : Side} (price : Price) (qty : Quantity) (ts : Timestamp)
    → HashMap.find order_map_size id b.order_map ≡ some (some p)
    → view b.order_pool p ≡ some x
    → x.side ≡ d
    → cancel_order order_map_size id b ≡ ok (true, b₁)
    → add_order order_map_size rdtsc id d price qty ts b₁ ≡ ok (true, after)
    → modify_order order_map_size rdtsc id price qty ts b ≡ ok (true, after)
unfolding modify_order
modify_order-run order_map_size rdtsc b {b₁} id {p} price qty ts found at side run added =
    rw (found, load-view b.order_pool p at, run)
      (ap (λ s. add_order order_map_size rdtsc id s price qty ts b₁) side ∙ added)

-- What is left of the order `e` of the level in `lv` when it has moved: `after` has the rows of `b`
-- without it, and the new order in the slot `p` at the end of the queue of its price.
pub record Moved (d : Side) (lv : ℕ) (e : Entry) (x : Order) (oc lc : ℕ) (b : OrderBook)
    (shape : Side → Shape) (queue : ℕ → List Entry) (after : OrderBook) : Type 0 where
  pub slot : ℕ
  pub shape' : Side → Shape
  pub queue' : ℕ → List Entry
  pub book : IsBook oc lc after shape' queue'
  pub here :
      side_rows after shape' queue' d
      ≡ join_row
          (compare_of d)
          x.price
          (record { slot = slot; order = x })
          (leave_row
            (compare_of d)
            (level_price b.level_pool lv)
            e.slot
            (side_rows b shape queue d))
  pub other : side_rows after shape' queue' (opposite d) ≡ side_rows b shape queue (opposite d)
  pub trades : after.trades ≡ b.trades

-- Under the conditions of `cancel_order-Left`, with a free slot for a level and fewer than 2^64 - 1
-- levels of the side: `modify_order` to a price that does not meet the best price of the other side
-- returns true. The book keeps its invariant; the order has left its queue, and a new order with its
-- id and side stands at the end of the queue of the new price, also where the price is the old one;
-- the other rows and the trades are as before.
pub modify_order-Moved :
    (order_map_size : ℕ) (rdtsc : ℕ → Timestamp) {oc lc : ℕ} {b : OrderBook} {shape : Side → Shape}
    {queue : ℕ → List Entry} (g : IsBook oc lc b shape queue) (d : Side) (id lv : ℕ)
    (ds : List Entry) (e : Entry) (es : List Entry) (price : Price) (qty : Quantity)
    (ts : Timestamp)
    → HashMap.find order_map_size id b.order_map ≡ some (some e.slot)
    → mem lv (Shape.slots (shape d)) ≡ true
    → queue lv ≡ ds ++ e ∷ es
    → e.order.side ≡ d
    → e.order.quantity < 2 ^ 32
    → e.slot < oc
    → lv < lc
    → IsRedBlack (shape d)
    → length (Shape.slots (shape d)) + 1 < 2 ^ 64
    → 0 < b.level_pool.available
    → meets d price (best_of (side_rows b shape queue (opposite d))) ≡ false
    → (after : OrderBook) × (modify_order order_map_size rdtsc id price qty ts b ≡ ok (true, after))
      × Moved d lv e (new_order id d price qty ts) oc lc b shape queue after
unfolding new_order
modify_order-Moved order_map_size rdtsc {b} {shape} {queue} g d id lv ds e es price qty ts found
      member split side small slot_fits fits balanced room spare apart =
    let (b₁, run, left, gone, map) =
      cancel_order-Left order_map_size g d id lv ds e es found member split side small slot_fits
        fits balanced (omega arith) in
    let (p, xs, free) = free_of_view e.slot left.book.free_orders left.book.orders slot_fits gone in
    let (l, ys, free_level) =
      free_of_available left.book.free_levels left.book.levels (omega (arith, left.more_levels)) in
    let unknown =
      ap (HashMap.find order_map_size id) map
      ∙ (find-remove_self order_map_size id b.order_map).1 in
    let (after, added, r) =
      add_order-Rested order_map_size rdtsc left.book d id price qty ts p l xs ys unknown free
        free_level (omega (arith, left.fewer))
        (ap (λ rs. meets d price (best_of rs)) left.other ∙ apart) in
    (
      after,
      modify_order-run order_map_size rdtsc b id price qty ts found
          (stands order_map_size g d lv member ds e es split) side run added,
      record {
        slot = p;
        shape' = r.shape';
        queue' = r.queue';
        book = r.book;
        here =
            r.here
            ∙ ap
                (join_row (compare_of d) price
                  (record { slot = p; order = new_order id d price qty ts }))
                left.here;
        other = r.other ∙ left.other;
        trades = r.trades ∙ left.trades;
      },
    )
