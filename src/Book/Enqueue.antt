-- ===== src/Book/Enqueue.antt =====
-- An order joins the queue of a level that is in the book (`level->add_order(order)`).
use l3_lock_free_orderbook_e.Prelude.{
  ℕ, ◌≡◌, refl, sym, ◌∙◌, false, some, List, [], ◌∷◌, ◌++◌, mem, none, update, true,
}
use l3_lock_free_orderbook_e.Types.{Side}
use l3_lock_free_orderbook_e.Pool.FreeList.{view}
use l3_lock_free_orderbook_e.Pool.Access.{
  written, load-view, store-view, view-written_self, view-written_ne, written-IsValid,
}
use l3_lock_free_orderbook_e.Tree.Shape
use l3_lock_free_orderbook_e.Tree.Shape.{Shape}
use l3_lock_free_orderbook_e.Level.{Order}
use l3_lock_free_orderbook_e.Level.Links.{Entry, slots}
use l3_lock_free_orderbook_e.Level.Append.{add_order-Added}
use l3_lock_free_orderbook_e.Book.State.{OrderBook}
use l3_lock_free_orderbook_e.Book.Orders.{enqueue_order}
use l3_lock_free_orderbook_e.Book.Invariant.{
  one_level, HasQueue, IsBook, not_mem_of_level, level_price-view,
}
use l3_lock_free_orderbook_e.Book.Requeue.{Requeued, requeue-IsBook}

pub enqueue_order-Requeued :
    (d : Side) (b : OrderBook) (lv p : ℕ) (x : Order) (es : List Entry)
    → HasQueue b.level_pool b.order_pool d lv es
    → view b.order_pool p ≡ some x
    → mem p (slots es) ≡ false
    → Requeued (enqueue_order lv p) b lv p es (es ++ record { slot = p; order = x } ∷ [])
unfolding enqueue_order
enqueue_order-Requeued d b lv p x es q at out =
    let (l', o', run, a) = add_order-Added lv es p x q.queue at out in
    record {
      order_pool = o';
      level_pool = written b.level_pool lv l';
      run = rw (load-view b.level_pool lv q.live, run, store-view b.level_pool lv l' q.live) refl;
      queue = λ e r. record {
        level = l';
        live = view-written_self b.level_pool lv l';
        at_side = a.level.1 ∙ one_level q r ∙ r.at_side;
        queue = a.queue;
      };
      price =
          level_price-view (written b.level_pool lv l') lv (view-written_self b.level_pool lv l')
          ∙ a.level.0
          ∙ sym (level_price-view b.level_pool lv q.live);
      other_levels = λ i ne. view-written_ne b.level_pool lv l' i ne;
      other_orders = a.frame;
      orders = a.valid;
      levels = λ cap free v. written-IsValid b.level_pool lv l' q.live v;
    }

-- In a book, an order that is in no queue joins that of a level of one of the trees: the book keeps
-- its invariant, and nothing but that queue changes.
pub enqueue_order-IsBook :
    {oc lc : ℕ} {b : OrderBook} {shape : Side → Shape} {queue : ℕ → List Entry} (d : Side)
    (lv p : ℕ) (x : Order)
    → IsBook oc lc b shape queue
    → mem lv (Shape.slots (shape d)) ≡ true
    → view b.order_pool p ≡ some x
    → x.price_level ≡ none
    → (w : Requeued
        (enqueue_order lv p)
        b
        lv
        p
        (queue lv)
        (queue lv ++ record { slot = p; order = x } ∷ []))
      × IsBook oc lc
          (record b { order_pool = w.order_pool; level_pool = w.level_pool })
          shape
          (update queue lv (queue lv ++ record { slot = p; order = x } ∷ []))
enqueue_order-IsBook {b} {shape} {queue} d lv p x g m at loose =
    let apart : (e : Side) (i : ℕ)
        → mem i (Shape.slots (shape e)) ≡ true
        → mem p (slots (queue i)) ≡ false =
      λ e i n. not_mem_of_level p at (λ h. absurd (cc)) (g.queues e i n) in
    let w = enqueue_order-Requeued d b lv p x (queue lv) (g.queues d lv m) at (apart d lv m) in
    (w, requeue-IsBook d g m (λ e i n h. apart e i n) w)
