-- ===== src/Book/Requeue.antt =====
-- A queue of a level in the book changes by one order, on its way in or out, and how it does.
use l3_lock_free_orderbook_e.Prelude.{
  ℕ, ◌≡◌, sym, ap, ◌∙◌, false, List, ok, mem, ◌==◌, update, ==_comm, ne_of_mem, subst, inl, inr,
  Bool-cases, ==_iff, true,
}
use l3_lock_free_orderbook_e.Types.{Side}
use l3_lock_free_orderbook_e.Pool.{ObjectPool}
use l3_lock_free_orderbook_e.Pool.FreeList.{view, IsValid}
use l3_lock_free_orderbook_e.Tree.Shape
use l3_lock_free_orderbook_e.Tree.Shape.{Shape}
use l3_lock_free_orderbook_e.Level.{Order, PriceLevel}
use l3_lock_free_orderbook_e.Level.Links.{Entry, slots}
use l3_lock_free_orderbook_e.Book.State.{B, OrderBook, level_price}
use l3_lock_free_orderbook_e.Book.Invariant.{
  level_price-same, queues_apart, HasQueue, IsBook, HasQueue-frame, IsSorted-frame, compare_of,
}

-- The two pools after an action that puts the order in the slot `p` into the queue `es` of the level in
-- `lv`, or takes it out.
pub record Requeued (act : B (Unit {0})) (b : OrderBook) (lv p : ℕ) (es es' : List Entry)
    : Type 0 where
  pub order_pool : ObjectPool Order
  pub level_pool : ObjectPool PriceLevel
  pub run : act b ≡ ok (tt, record b { order_pool = order_pool; level_pool = level_pool })
  pub queue :
      (d : Side)
      → HasQueue b.level_pool b.order_pool d lv es
      → HasQueue level_pool order_pool d lv es'
  pub price : level_price level_pool lv ≡ level_price b.level_pool lv
  pub other_levels : (i : ℕ) → (lv == i) ≡ false → view level_pool i ≡ view b.level_pool i
  pub other_orders :
      (k : ℕ)
      → mem k (slots es) ≡ false
      → (p == k) ≡ false
      → view order_pool k ≡ view b.order_pool k
  pub orders :
      (cap : ℕ) (free : List ℕ) → IsValid cap b.order_pool free → IsValid cap order_pool free
  pub levels :
      (cap : ℕ) (free : List ℕ) → IsValid cap b.level_pool free → IsValid cap level_pool free

-- No price changes.
pub kept_price :
    {act : B (Unit {0})} {b : OrderBook} {lv p : ℕ} {es es' : List Entry}
    (w : Requeued act b lv p es es') {e : Side} {i : ℕ} {fs : List Entry}
    → HasQueue b.level_pool b.order_pool e i fs
    → level_price w.level_pool i ≡ level_price b.level_pool i
kept_price {b} {lv} w {i} q = elim (Bool-cases (lv == i)) [
  | inl h ↦ simp (sym ((==_iff lv i).0 h)) w.price
  | inr h ↦ level_price-same b.level_pool w.level_pool i (w.other_levels i h) q.live
]

-- Where the order is in no other queue, the book keeps its invariant.
pub requeue-IsBook :
    {act : B (Unit {0})} {oc lc : ℕ} {b : OrderBook} {shape : Side → Shape} {queue : ℕ → List Entry}
    (d : Side) {lv p : ℕ} {es' : List Entry}
    → IsBook oc lc b shape queue
    → mem lv (Shape.slots (shape d)) ≡ true
    → ((e : Side) (i : ℕ)
        → mem i (Shape.slots (shape e)) ≡ true
        → (lv == i) ≡ false
        → mem p (slots (queue i)) ≡ false)
    → (w : Requeued act b lv p (queue lv) es')
    → IsBook oc lc
        (record b { order_pool = w.order_pool; level_pool = w.level_pool })
        shape
        (update queue lv es')
requeue-IsBook {shape} {queue} d {lv} {p} {es'} g m apart w = record {
  tree = g.tree;
  sorted = λ e.
      IsSorted-frame (compare_of e) (Shape.slots (shape e)) (λ i n. kept_price w (g.queues e i n))
        (g.sorted e);
  queues = λ e i n. elim (Bool-cases (lv == i)) [
    | inl h ↦
        let here : lv ≡ i = (==_iff lv i).0 h in
        rw h (
          subst (λ j. HasQueue w.level_pool w.order_pool e j es') here
            (w.queue e (g.queues e lv (ap (λ j. mem j (Shape.slots (shape e))) here ∙ n))))
    | inr h ↦ rw h (
        HasQueue-frame (w.other_levels i h)
          (λ k n'.
            w.other_orders k (queues_apart k (g.queues e i n) (g.queues d lv m) h n')
              (==_comm p k ∙ ne_of_mem k p (slots (queue i)) n' (apart e i n h)))
          (g.queues e i n))
  ];
  free_orders = g.free_orders;
  free_levels = g.free_levels;
  orders = w.orders _ g.free_orders g.orders;
  levels = w.levels _ g.free_levels g.levels;
}
