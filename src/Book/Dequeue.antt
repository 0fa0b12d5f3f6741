-- ===== src/Book/Dequeue.antt =====
-- An order leaves the queue of its level (`level->remove_order(order)`).
use l3_lock_free_orderbook_e.Prelude.{ℕ, ◌<◌, ◌^◌, ◌≡◌, refl, sym, ◌∙◌, some, List, ◌∷◌, ◌++◌}
use l3_lock_free_orderbook_e.Types.{Side}
use l3_lock_free_orderbook_e.Pool.FreeList.{view}
use l3_lock_free_orderbook_e.Pool.Access.{
  written, load-view, store-view, view-written_self, view-written_ne, written-IsValid,
}
use l3_lock_free_orderbook_e.Level.Links.{Entry}
use l3_lock_free_orderbook_e.Book.State.{OrderBook}
use l3_lock_free_orderbook_e.Book.Invariant.{one_level, HasQueue, level_price-view}
use l3_lock_free_orderbook_e.Book.Requeue.{Requeued}
use l3_lock_free_orderbook_e.Book.Matching.{unlink_order}
use l3_lock_free_orderbook_e.Level.{detached}
use l3_lock_free_orderbook_e.Level.Removal.{remove_order-Removed}

-- The order, once it has left, points to no level.
pub unlink_order-Requeued :
    (d : Side) (b : OrderBook) (lv : ℕ) (ds : List Entry) (x : Entry) (es : List Entry)
    → HasQueue b.level_pool b.order_pool d lv (ds ++ x ∷ es)
    → x.order.quantity < 2 ^ 32
    → (w : Requeued (unlink_order lv x.slot) b lv x.slot (ds ++ x ∷ es) (ds ++ es)) × (view
          w.order_pool x.slot
        ≡ some (detached x.order))
unfolding unlink_order
unlink_order-Requeued d b lv ds x es q small =
    let (l', o', run, a) = remove_order-Removed lv ds x es q.queue small in
    (
      record {
        order_pool = o';
        level_pool = written b.level_pool lv l';
        run = rw (load-view b.level_pool lv q.live, run, store-view b.level_pool lv l' q.live) refl;
        queue = λ e r. record {
          level = l';
          live = view-written_self b.level_pool lv l';
          at_side = a.level.1 ∙ one_level q r ∙ r.at_side;
          queue = a.queue;
        };
        price =
            level_price-view (written b.level_pool lv l') lv (view-written_self b.level_pool lv l')
            ∙ a.level.0
            ∙ sym (level_price-view b.level_pool lv q.live);
        other_levels = λ i ne. view-written_ne b.level_pool lv l' i ne;
        other_orders = λ k m ne. a.frame k m;
        orders = a.valid;
        levels = λ cap free v. written-IsValid b.level_pool lv l' q.live v;
      },
      a.self,
    )
