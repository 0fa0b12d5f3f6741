-- ===== src/Book/Resting.antt =====
-- `add_order` of an order that does not cross the book, up to its place in the queue of its price.
use l3_lock_free_orderbook_e.Prelude.{
  ℕ, ◌+◌, ◌<◌, ◌^◌, ◌≡◌, refl, ap, ◌∙◌, subst, true, none, some, List, [], ◌∷◌, ◌++◌, ok, arith,
  mem, update, Bool-cases, inl, inr, ==_iff, ◌==◌, length,
}
use l3_lock_free_orderbook_e.Types.{Price, Side, Timestamp, opposite}
use l3_lock_free_orderbook_e.Pool.{ObjectPool}
use l3_lock_free_orderbook_e.Pool.FreeList.{view, IsValid, acquire-cons}
use l3_lock_free_orderbook_e.Pool.Access.{load-view}
use l3_lock_free_orderbook_e.HashMap
use l3_lock_free_orderbook_e.Tree.Shape
use l3_lock_free_orderbook_e.Tree.Shape.{Shape}
use l3_lock_free_orderbook_e.Tree.Order.{Found}
use l3_lock_free_orderbook_e.Level.{Order}
use l3_lock_free_orderbook_e.Level.Links.{Entry}
use l3_lock_free_orderbook_e.Book.State.{OrderBook, level_price, acquire_order}
use l3_lock_free_orderbook_e.Book.Levels.{find_level, find_or_create_level}
use l3_lock_free_orderbook_e.Book.Orders.{rest_order}
use l3_lock_free_orderbook_e.Book.Invariant.{
  IsBook-order_map, sides_apart, compare_of, IsBook, HasQueue-frame, ne_of_free,
  ltb_ℤ-IsStrictOrder,
}
use l3_lock_free_orderbook_e.Book.Side.{at_side, at_side_self, at_side-opposite, mem-insert_by}
use l3_lock_free_orderbook_e.Book.Requeue.{kept_price}
use l3_lock_free_orderbook_e.Book.Enqueue.{enqueue_order-IsBook}
use l3_lock_free_orderbook_e.Book.Create.{HasNoLevel, find_or_create_level-Created}
use l3_lock_free_orderbook_e.Book.Rows.{
  rows-frame, rows, join_row, rows-created, rows-joined, compare_of-connex,
}

-- An order is constructed in a free slot: it is in no queue yet.
pub acquire_order-IsBook :
    {oc lc : ℕ} {b : OrderBook} {shape : Side → Shape} {queue : ℕ → List Entry} (x : Order) (p : ℕ)
    (xs : List ℕ) (g : IsBook oc lc b shape queue)
    → g.free_orders ≡ p ∷ xs
    → (o : ObjectPool Order) × (acquire_order x b ≡ ok (some p, record b { order_pool = o }))
      × (view o p ≡ some x)
      × (o.available + 1 ≡ b.order_pool.available)
      × ((h : IsBook oc lc (record b { order_pool = o }) shape queue) × (h.free_levels
            ≡ g.free_levels))
acquire_order-IsBook {oc} {b} x p xs g free =
    let (o, run, a) = acquire-cons x (subst (IsValid oc b.order_pool) free g.orders) in
    (
      o,
      rw run refl,
      a.view p ∙ ground (arith, ==_iff p p),
      omega (arith, a.valid.counted, g.orders.counted, ap length free),
      (
        record {
          tree = g.tree;
          sorted = g.sorted;
          queues = λ d i m.
              let q = g.queues d i m in
              HasQueue-frame refl (λ k n. a.view k ∙ rw (ne_of_free p k a.was_free q n) refl) q;
          free_orders = xs;
          free_levels = g.free_levels;
          orders = a.valid;
          levels = g.levels;
        },
        refl,
      ),
    )

-- The rows of a side.
abbrev pub side_rows :
    OrderBook → (Side → Shape) → (ℕ → List Entry) → Side → List (Price × List Entry)
side_rows b shape queue d = rows (level_price b.level_pool) queue (Shape.slots (shape d))

-- The order `x` in the slot `p` rests in the book, at the end of the queue of its price.
pub record Rested (order_map_size id oc lc : ℕ) (d : Side) (x : Order) (p : ℕ) (b : OrderBook)
    (shape : Side → Shape) (queue : ℕ → List Entry) (after : OrderBook) : Type 0 where
  pub shape' : Side → Shape
  pub queue' : ℕ → List Entry
  pub book : IsBook oc lc after shape' queue'
  pub here :
      side_rows after shape' queue' d
      ≡ join_row (compare_of d) x.price (record { slot = p; order = x }) (side_rows b shape queue d)
  pub order_map : after.order_map ≡ (HashMap.insert order_map_size id (some p) b.order_map).1
  pub trades : after.trades ≡ b.trades
  pub other : side_rows after shape' queue' (opposite d) ≡ side_rows b shape queue (opposite d)

-- A new queue that gets its first entry.
update-twice :
    (e : Entry) (queue : ℕ → List Entry) (lv i : ℕ)
    → update (update queue lv []) lv (update queue lv [] lv ++ e ∷ []) i
      ≡ update queue lv (e ∷ []) i
update-twice e queue lv i = elim (Bool-cases (lv == i)) [
  | inl h ↦ rw (h, (==_iff lv lv).1 refl) refl
  | inr h ↦ rw h refl
]

module _ (order_map_size : ℕ) (rdtsc : ℕ → Timestamp) {oc lc : ℕ} (d : Side) (id : ℕ) (p : ℕ)
    (x : Order) {b : OrderBook} {shape : Side → Shape} {queue : ℕ → List Entry}
    (g : IsBook oc lc b shape queue) (at : view b.order_pool p ≡ some x)
    (loose : x.price_level ≡ none) where
  -- The book when the id has been put into the map.
  abbrev remembered : OrderBook → OrderBook
  remembered c = record c { order_map = (HashMap.insert order_map_size id (some p) c.order_map).1 }

  abbrev entry : Entry
  entry = record { slot = p; order = x }

  -- The price has a level.
  pub joined :
      (lv : ℕ)
      → find_level x.price d b ≡ ok (some lv, b)
      → Found (level_price b.level_pool) (compare_of d) x.price (Shape.slots (shape d)) lv
      → (after : OrderBook) × (rest_order order_map_size rdtsc id d p b ≡ ok (true, after))
        × Rested order_map_size id oc lc d x p b shape queue after
  unfolding rest_order find_or_create_level
  joined lv found f =
      let (w, h) = enqueue_order-IsBook d lv p x g f.member at loose in
      let key = level_price b.level_pool in
      let at_price : key lv ≡ x.price =
        compare_of-connex d (key lv) x.price f.not_behind f.not_before in
      (
        remembered (record b { order_pool = w.order_pool; level_pool = w.level_pool }),
        rw (load-view b.order_pool p at, found, w.run) refl,
        record {
          shape' = shape;
          queue' = update queue lv (queue lv ++ entry ∷ []);
          book = IsBook-order_map (HashMap.insert order_map_size id (some p) b.order_map).1 h;
          here =
              rows-joined key (level_price w.level_pool) (compare_of d) queue lv entry
                (ltb_ℤ-IsStrictOrder d) (Shape.slots (shape d)) (g.sorted d) f.member
                (λ i m. kept_price w (g.queues d i m))
              ∙ ap (λ k. join_row (compare_of d) k entry (side_rows b shape queue d)) at_price;
          order_map = refl;
          trades = refl;
          other =
              rows-frame key (level_price w.level_pool) queue
                (update queue lv (queue lv ++ entry ∷ [])) (Shape.slots (shape (opposite d)))
                (λ i m. kept_price w (g.queues (opposite d) i m))
                (λ i m. rw (sides_apart d lv i g f.member m) refl);
        },
      )

  -- The price has none.
  pub created :
      (lv : ℕ) (xs : List ℕ)
      → g.free_levels ≡ lv ∷ xs
      → HasNoLevel d x.price b (shape d)
      → find_level x.price d b ≡ ok (none, b)
      → length (Shape.slots (shape d)) + 1 < 2 ^ 64
      → (after : OrderBook) × (rest_order order_map_size rdtsc id d p b ≡ ok (true, after))
        × Rested order_map_size id oc lc d x p b shape queue after
  unfolding rest_order
  created lv xs free absent missed room =
      let c = find_or_create_level-Created d x.price g lv xs free absent missed room in
      let f = at_side d c.here shape in
      let q₁ = update queue lv [] in
      let member : mem lv (Shape.slots (f d)) ≡ true =
        ap (λ s. mem lv (Shape.slots s)) (at_side_self d c.here shape)
        ∙ ap (mem lv) c.order
        ∙ mem-insert_by (level_price c.after.level_pool) (compare_of d) x.price lv lv
            (Shape.slots (shape d))
        ∙ ground (arith, ==_iff lv lv) in
      let (w, h) =
        enqueue_order-IsBook d lv p x c.book member (ap (λ o. view o p) c.same_orders ∙ at) loose in
      let key = level_price b.level_pool in
      let key₁ = level_price c.after.level_pool in
      let key₂ = level_price w.level_pool in
      let queue' = update q₁ lv (q₁ lv ++ entry ∷ []) in
      (
        remembered (record c.after { order_pool = w.order_pool; level_pool = w.level_pool }),
        rw (load-view b.order_pool p at, c.run, w.run) refl,
        record {
          shape' = f;
          queue' = queue';
          book = IsBook-order_map (HashMap.insert order_map_size id (some p) c.after.order_map).1 h;
          here =
              rows-frame key₁ key₂ (update queue lv (entry ∷ [])) queue' (Shape.slots (f d))
                (λ i m. kept_price w (c.book.queues d i m)) (λ i m. update-twice entry queue lv i)
              ∙ ap (rows key₁ (update queue lv (entry ∷ [])))
                  (ap Shape.slots (at_side_self d c.here shape) ∙ c.order)
              ∙ rows-created key key₁ (compare_of d) queue lv entry x.price (Shape.slots (shape d))
                  c.price_here absent (c.kept_price d) c.out;
          order_map = ap (λ m. (HashMap.insert order_map_size id (some p) m).1) c.same_map;
          trades = c.same_trades;
          other =
              ap (λ s. rows key₂ queue' (Shape.slots s)) (at_side-opposite d c.here shape)
              ∙ rows-frame key key₂ queue queue' (Shape.slots (shape (opposite d)))
                  (λ i m.
                    kept_price w (
                      c.book.queues (opposite d) i
                        (ap (λ s. mem i (Shape.slots s)) (at_side-opposite d c.here shape) ∙ m))
                    ∙ c.kept_price (opposite d) i m)
                  (λ i m. rw (c.apart (opposite d) i m) refl);
        },
      )
