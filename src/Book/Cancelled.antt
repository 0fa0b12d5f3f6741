-- ===== src/Book/Cancelled.antt =====
-- The whole of `cancel_order`, for an order that rests in the book.
use l3_lock_free_orderbook_e.Prelude.{
  ℕ, ◌<◌, ◌^◌, ◌≡◌, refl, ap, true, none, some, List, ◌∷◌, ◌++◌, ok, mem, length,
}
use l3_lock_free_orderbook_e.Types.{Side}
use l3_lock_free_orderbook_e.Pool.FreeList.{view}
use l3_lock_free_orderbook_e.Pool.Access.{load-view}
use l3_lock_free_orderbook_e.HashMap
use l3_lock_free_orderbook_e.Tree.Shape
use l3_lock_free_orderbook_e.Tree.Shape.{Shape}
use l3_lock_free_orderbook_e.Tree.Balance.{IsRedBlack}
use l3_lock_free_orderbook_e.Level.Links.{Entry}
use l3_lock_free_orderbook_e.Book.State.{OrderBook}
use l3_lock_free_orderbook_e.Book.Orders.{cancel_order, cancel_found}
use l3_lock_free_orderbook_e.Book.Invariant.{IsBook, IsBook-order_map}
use l3_lock_free_orderbook_e.Book.Dismiss.{release_order-IsBook}
use l3_lock_free_orderbook_e.Book.Leaving.{Left, stands, leave_level-Left}

-- Where an order of a book rests in the queue of a level of its side, with slots in the pools, a
-- quantity below 2^32 and a red-black tree of fewer than 2^64 levels, and the map leads from the id to
-- the order: `cancel_order` returns true. The book then keeps its invariant; on the order's side the
-- order has left its queue, and the row is gone if it was the last; the other orders of the row keep
-- their order, and the other rows and the trades are as before. The order's slot is free, and the map
-- is that without the id.
pub cancel_order-Left :
    (order_map_size : ℕ) {oc lc : ℕ} {b : OrderBook} {shape : Side → Shape} {queue : ℕ → List Entry}
    (g : IsBook oc lc b shape queue) (d : Side) (id lv : ℕ) (ds : List Entry) (e : Entry)
    (es : List Entry)
    → HashMap.find order_map_size id b.order_map ≡ some (some e.slot)
    → mem lv (Shape.slots (shape d)) ≡ true
    → queue lv ≡ ds ++ e ∷ es
    → e.order.side ≡ d
    → e.order.quantity < 2 ^ 32
    → e.slot < oc
    → lv < lc
    → IsRedBlack (shape d)
    → length (Shape.slots (shape d)) < 2 ^ 64
    → (after : OrderBook) × (cancel_order order_map_size id b ≡ ok (true, after))
      × Left d lv e oc lc b shape queue after
      × (view after.order_pool e.slot ≡ none)
      × (after.order_map ≡ (HashMap.remove order_map_size id b.order_map).1)
unfolding cancel_order cancel_found
cancel_order-Left order_map_size {b} {shape} {queue} g d id lv ds e es found member split side small
      slot_fits fits balanced room =
    let (b₁, run, left, at, same) =
      leave_level-Left order_map_size g d lv member ds e es split small balanced room fits in
    let m = (HashMap.remove order_map_size id b₁.order_map).1 in
    let (o, freed, gone, _, h) =
      release_order-IsBook e.slot (IsBook-order_map m left.book) at refl slot_fits in
    (
      record b₁ { order_map = m; order_pool = o },
      rw
          (
            found,
            load-view b.order_pool e.slot (stands order_map_size g d lv member ds e es split),
            side,
            run,
            freed,
          )
          refl,
      record {
        shape' = left.shape';
        queue' = left.queue';
        book = h;
        here = left.here;
        other = left.other;
        trades = left.trades;
        more_levels = left.more_levels;
        fewer = left.fewer;
      },
      gone,
      ap (λ n. (HashMap.remove order_map_size id n).1) same,
    )
