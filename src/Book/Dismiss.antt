-- ===== src/Book/Dismiss.antt =====
-- A level with an empty queue leaves the book (`remove_level`), and an order in no queue its pool.
use l3_lock_free_orderbook_e.Prelude.{
  ℕ, ◌<◌, ◌≤◌, ◌^◌, ◌+◌, ◌≡◌, refl, sym, ap, ◌∙◌, subst, true, false, none, some, List, ◌∷◌, ok,
  arith, mem, erase, mem-erase, ==_iff, ==_comm, ◌==◌, length, ne_of_mem,
}
use l3_lock_free_orderbook_e.Types.{Side, opposite}
use l3_lock_free_orderbook_e.Pool.{ObjectPool}
use l3_lock_free_orderbook_e.Pool.FreeList.{view, release-live, Released}
use l3_lock_free_orderbook_e.Tree.Shape.{Shape, slots}
use l3_lock_free_orderbook_e.Tree.Order.{IsSorted}
use l3_lock_free_orderbook_e.Tree.Balance.{IsRedBlack}
use l3_lock_free_orderbook_e.Tree.Removed.{remove-Removed}
use l3_lock_free_orderbook_e.Tree.SortedErase.{
  mem-times, mem_of_erase, IsSorted-erase, IsSorted-Distinct,
}
use l3_lock_free_orderbook_e.Level.{Order, PriceLevel}
use l3_lock_free_orderbook_e.Level.Links
use l3_lock_free_orderbook_e.Level.Links.{Entry}
use l3_lock_free_orderbook_e.Book.State.{OrderBook, level_price, release_order}
use l3_lock_free_orderbook_e.Book.Levels.{remove_level}
use l3_lock_free_orderbook_e.Book.Invariant.{
  compare_of, tree_of, HasQueue, IsBook, HasQueue-frame, level_price-same, IsSorted-frame,
  ltb_ℤ-IsStrictOrder, sides_apart, not_mem_of_level,
}
use l3_lock_free_orderbook_e.Book.Side.{
  with_tree, at_side, at_side-both, with_tree-IsTree, remove_from_tree-run,
}

-- The level in the slot `lv` is gone.
pub record Dismissed (oc lc : ℕ) (d : Side) (lv : ℕ) (b : OrderBook) (shape : Side → Shape)
    (queue : ℕ → List Entry) : Type 0 where
  pub after : OrderBook
  pub here : Shape
  pub run : remove_level lv d b ≡ ok (tt, after)
  pub book : IsBook oc lc after (at_side d here shape) queue
  pub order : slots here ≡ erase lv (slots (shape d))
  pub kept_price :
      (e : Side) (i : ℕ)
      → mem i (slots (at_side d here shape e)) ≡ true
      → level_price after.level_pool i ≡ level_price b.level_pool i
  pub same_orders : after.order_pool ≡ b.order_pool
  pub same_map : after.order_map ≡ b.order_map
  pub same_trades : after.trades ≡ b.trades
  pub more_levels : b.level_pool.available ≤ after.level_pool.available

module _ {oc lc : ℕ} (d : Side) (lv : ℕ) {b : OrderBook} {shape : Side → Shape}
    {queue : ℕ → List Entry} (g : IsBook oc lc b shape queue)
    (member : mem lv (slots (shape d)) ≡ true) (p : ObjectPool PriceLevel)
    (r : Released lc b.level_pool lv g.free_levels p) where
  stays :
      (e : Side) (i : ℕ)
      → mem i (slots (shape e)) ≡ true
      → (lv == i) ≡ false
      → (view p i ≡ view b.level_pool i)
        × (level_price p i ≡ level_price b.level_pool i)
        × HasQueue p b.order_pool e i (queue i)
  stays e i m ne =
      let same : view p i ≡ view b.level_pool i = r.view i ∙ rw ne refl in
      let q = g.queues e i m in
      (same, level_price-same b.level_pool p i same q.live, HasQueue-frame same (λ k n. refl) q)

  erased : (i : ℕ) → mem i (erase lv (slots (shape d))) ≡ true → (lv == i) ≡ false
  erased i m =
      ==_comm lv i
      ∙ ground (
        arith,
        m,
        mem-erase i lv (slots (shape d)) (
            IsSorted-Distinct (level_price b.level_pool) (compare_of d) (ltb_ℤ-IsStrictOrder d)
              (slots (shape d)) (g.sorted d)),
      )

  -- What holds of every level that stays.
  each_left :
      (P : Side → ℕ → Type 0) (here : Shape)
      → slots here ≡ erase lv (slots (shape d))
      → ((e : Side) (i : ℕ) → mem i (slots (shape e)) ≡ true → (lv == i) ≡ false → P e i)
      → (e : Side) (i : ℕ) → mem i (slots (at_side d here shape e)) ≡ true
      → P e i
  each_left P here order f =
      at_side-both (λ e s. (i : ℕ) → mem i (slots s) ≡ true → P e i) d here shape
        (λ i m.
          let m' : mem i (erase lv (slots (shape d))) ≡ true = ap (mem i) (sym order) ∙ m in
          f d i (mem_of_erase i lv (slots (shape d)) m') (erased i m'))
        (λ i m. f (opposite d) i m (sides_apart d lv i g member m))

  dismissed-IsSorted :
      (here : Shape)
      → slots here ≡ erase lv (slots (shape d))
      → (e : Side) → IsSorted (level_price p) (compare_of e) (slots (at_side d here shape e))
  dismissed-IsSorted here order =
      at_side-both (λ e s. IsSorted (level_price p) (compare_of e) (slots s)) d here shape
        (subst (IsSorted (level_price p) (compare_of d)) (sym order) (
          IsSorted-frame (compare_of d) (erase lv (slots (shape d)))
            (λ i m. (stays d i (mem_of_erase i lv (slots (shape d)) m) (erased i m)).1)
            (IsSorted-erase (level_price b.level_pool) (compare_of d) lv (slots (shape d))
              (g.sorted d))))
        (IsSorted-frame (compare_of (opposite d)) (slots (shape (opposite d)))
          (λ i m. (stays (opposite d) i m (sides_apart d lv i g member m)).1)
          (g.sorted (opposite d)))

-- A level in a red-black tree is removed.
pub remove_level-Dismissed :
    {oc lc : ℕ} (d : Side) (lv : ℕ) {b : OrderBook} {shape : Side → Shape} {queue : ℕ → List Entry}
    → IsBook oc lc b shape queue
    → mem lv (slots (shape d)) ≡ true
    → IsRedBlack (shape d)
    → length (slots (shape d)) < 2 ^ 64
    → lv < lc
    → Dismissed oc lc d lv b shape queue
unfolding remove_level
remove_level-Dismissed d lv {b} {shape} {queue} g m balanced room fits =
    let q = g.queues d lv m in
    let w =
      remove-Removed lv (tree_of d b) (shape d) (g.tree d) balanced (mem-times lv (shape d) m)
        room in
    let (p, freed, r) = release-live lv q.level g.levels fits q.live in
    let order = w.order in
    record {
      after = record (with_tree d w.after b) { level_pool = p };
      here = w.shape;
      run = rw (remove_from_tree-run d lv b w.run, freed) refl;
      book = record {
        tree = with_tree-IsTree d w.after w.shape b shape w.tree g.tree;
        sorted = dismissed-IsSorted d lv g m p r w.shape order;
        queues =
            each_left d lv g m p r (λ e i. HasQueue p b.order_pool e i (queue i)) w.shape order
              (λ e i n ne. (stays d lv g m p r e i n ne).2);
        free_orders = g.free_orders;
        free_levels = lv ∷ g.free_levels;
        orders = g.orders;
        levels = r.valid;
      };
      order = order;
      kept_price =
          each_left d lv g m p r (λ e i. level_price p i ≡ level_price b.level_pool i) w.shape order
            (λ e i n ne. (stays d lv g m p r e i n ne).1);
      same_orders = refl;
      same_map = refl;
      same_trades = refl;
      more_levels = omega (arith, r.valid.counted, g.levels.counted);
    }

-- An order that points to no level goes back to the pool.
pub release_order-IsBook :
    {oc lc : ℕ} {b : OrderBook} {shape : Side → Shape} {queue : ℕ → List Entry} (p : ℕ) {x : Order}
    → IsBook oc lc b shape queue
    → view b.order_pool p ≡ some x
    → x.price_level ≡ none
    → p < oc
    → (o : ObjectPool Order) × (release_order (some p) b ≡ ok (tt, record b { order_pool = o }))
      × (view o p ≡ none)
      × (o.available ≡ b.order_pool.available + 1)
      × IsBook oc lc (record b { order_pool = o }) shape queue
release_order-IsBook {queue} p {x} g at loose fits =
    let (o, run, r) = release-live p x g.orders fits at in
    (
      o,
      rw run refl,
      r.view p ∙ ground (arith, ==_iff p p),
      omega (arith, r.valid.counted, g.orders.counted),
      record {
        tree = g.tree;
        sorted = g.sorted;
        queues = λ d i m.
            let q = g.queues d i m in
            HasQueue-frame refl
              (λ k n.
                r.view k
                ∙ rw
                    (==_comm p k
                      ∙ ne_of_mem k p (Links.slots (queue i)) n
                          (not_mem_of_level p at (λ h. absurd cc) q))
                    refl)
              q;
        free_orders = p ∷ g.free_orders;
        free_levels = g.free_levels;
        orders = r.valid;
        levels = g.levels;
      },
    )
