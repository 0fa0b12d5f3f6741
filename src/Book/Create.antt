-- ===== src/Book/Create.antt =====
-- `find_or_create_level`: the level of a price is found, or a new one is put into its tree.
use l3_lock_free_orderbook_e.Prelude.{
  ℕ, ◌+◌, ◌<◌, ◌^◌, ◌≡◌, refl, sym, ap, ◌∙◌, subst, true, false, none, some, List, [], ◌∷◌, ok,
  arith, mem, update, Bool-cases, inl, inr, ==_iff, ◌==◌, length,
}
use l3_lock_free_orderbook_e.Types.{Price, Side}
use l3_lock_free_orderbook_e.Pool.{ObjectPool}
use l3_lock_free_orderbook_e.Pool.FreeList.{view, acquire-cons, Acquired, IsValid}
use l3_lock_free_orderbook_e.Tree.Shape.{Shape, slots}
use l3_lock_free_orderbook_e.Tree.Order.{IsSorted, insert_by, IsAbsent}
use l3_lock_free_orderbook_e.Tree.Sorted.{Inserted, insert-Inserted}
use l3_lock_free_orderbook_e.Level.{PriceLevel, new_level}
use l3_lock_free_orderbook_e.Level.Links.{Entry}
use l3_lock_free_orderbook_e.Book.State.{OrderBook, level_price}
use l3_lock_free_orderbook_e.Book.Levels.{find_level, find_or_create_level}
use l3_lock_free_orderbook_e.Book.Invariant.{
  compare_of, tree_of, HasQueue, IsBook, HasQueue-frame, level_price-view, level_price-same,
  IsSorted-frame, ltb_ℤ-IsStrictOrder,
}
use l3_lock_free_orderbook_e.Book.Side.{
  with_tree, at_side, at_side-all, with_tree-IsTree, insert_level-run, times-mem, mem-insert_by,
  IsAbsent-of_mem,
}

-- A new level of the price in the slot `lv` has been put into the tree, with an empty queue.
pub record Created (oc lc : ℕ) (d : Side) (price : Price) (lv : ℕ) (b : OrderBook)
    (shape : Side → Shape) (queue : ℕ → List Entry) : Type 0 where
  pub after : OrderBook
  pub here : Shape
  pub run : find_or_create_level price d b ≡ ok (some lv, after)
  pub book : IsBook oc lc after (at_side d here shape) (update queue lv [])
  pub order :
      slots here
      ≡ insert_by (level_price after.level_pool) (compare_of d) price lv (slots (shape d))
  pub price_here : level_price after.level_pool lv ≡ price
  pub kept_price :
      (e : Side) (i : ℕ)
      → mem i (slots (shape e)) ≡ true
      → level_price after.level_pool i ≡ level_price b.level_pool i
  pub apart : (e : Side) (i : ℕ) → mem i (slots (shape e)) ≡ true → (lv == i) ≡ false
  pub out : mem lv (slots (shape d)) ≡ false
  pub same_orders : after.order_pool ≡ b.order_pool
  pub same_trades : after.trades ≡ b.trades
  pub same_map : after.order_map ≡ b.order_map

-- No level has the price.
abbrev pub HasNoLevel : Side → Price → OrderBook → Shape → Type 0
HasNoLevel d price b s = IsAbsent (level_price b.level_pool) (compare_of d) price (slots s)

module _ {oc lc : ℕ} (d : Side) (price : Price) {b : OrderBook} {shape : Side → Shape}
    {queue : ℕ → List Entry} (g : IsBook oc lc b shape queue) where
  module _ (lv : ℕ) (p : ObjectPool PriceLevel) (xs : List ℕ)
      (a : Acquired lc b.level_pool (new_level price d) lv xs p) where
    -- The slot that has been acquired is that of no level in the book.
    new_slot : (e : Side) (i : ℕ) → mem i (slots (shape e)) ≡ true → (lv == i) ≡ false
    new_slot e i m = elim (Bool-cases (lv == i)) [
      | inl h ↦
          let q = g.queues e i m in
          let c : none ≡ some q.level =
            sym a.was_free ∙ ap (view b.level_pool) ((==_iff lv i).0 h) ∙ q.live in
          absurd cc
      | inr h ↦ h
    ]

    others : (e : Side) (i : ℕ) → mem i (slots (shape e)) ≡ true → view p i ≡ view b.level_pool i
    others e i m = a.view i ∙ rw (new_slot e i m) refl

    same_prices :
        (e : Side) (i : ℕ)
        → mem i (slots (shape e)) ≡ true
        → level_price p i ≡ level_price b.level_pool i
    same_prices e i m = level_price-same b.level_pool p i (others e i m) (g.queues e i m).live

    new_live : view p lv ≡ some (new_level price d)
    new_live = a.view lv ∙ ground (arith, ==_iff lv lv)

    new_price : level_price p lv ≡ price
    unfolding new_level
    new_price = level_price-view p lv new_live

    new_queue : HasQueue p b.order_pool d lv []
    unfolding new_level
    new_queue = record {
      level = new_level price d;
      live = new_live;
      at_side = refl;
      queue = record {
        linked = tt;
        head = refl;
        tail = refl;
        distinct = tt;
        total_quantity = refl;
        order_count = refl;
      };
    }

    queues-at :
        (e : Side) (i : ℕ)
        → mem i (slots (shape e)) ≡ true
        → HasQueue p b.order_pool e i (update queue lv [] i)
    queues-at e i m =
        rw (new_slot e i m) (HasQueue-frame (others e i m) (λ k n. refl) (g.queues e i m))

    queues-here :
        (s' : Shape)
        → slots s'
          ≡ insert_by (level_price p) (compare_of d) (level_price p lv) lv (slots (shape d))
        → (i : ℕ) → mem i (slots s') ≡ true
        → HasQueue p b.order_pool d i (update queue lv [] i)
    queues-here s' order i m = elim (Bool-cases (lv == i)) [
      | inl h ↦ rw h (subst (λ j. HasQueue p b.order_pool d j []) ((==_iff lv i).0 h) new_queue)
      | inr h ↦ queues-at d i (
          ground (
            arith,
            h,
            ap (mem i) order,
            mem-insert_by (level_price p) (compare_of d) (level_price p lv) i lv (slots (shape d)),
            m,
          ))
    ]

    new_out : mem lv (slots (shape d)) ≡ false
    new_out = elim (Bool-cases (mem lv (slots (shape d)))) [
      | inl m ↦ absurd (ground (arith, new_slot d lv m, ==_iff lv lv))
      | inr m ↦ m
    ]

    inserted :
        HasNoLevel d price b (shape d)
        → length (slots (shape d)) + 1 < 2 ^ 64
        → Inserted (level_price p) (compare_of d) lv (tree_of d b) (shape d)
    inserted absent room =
        elim (insert-Inserted (level_price p) (compare_of d) (ltb_ℤ-IsStrictOrder d) lv
          (tree_of d b) (shape d) (g.tree d)
          (IsSorted-frame (compare_of d) (slots (shape d)) (same_prices d) (g.sorted d))
          (times-mem lv (shape d) new_out) room) [
            | inl r ↦ r
            | inr r ↦
                let f = r.1.1 in
                let apart =
                  IsAbsent-of_mem (level_price b.level_pool) (compare_of d) price r.1.0
                    (slots (shape d)) absent f.member in
                let same = same_prices d r.1.0 f.member in
                let q = r.1.0 in
                let less = compare_of d in
                let nb : less price (level_price b.level_pool q) ≡ false =
                  ap (λ k. less k (level_price b.level_pool q)) (sym new_price)
                  ∙ ap (less (level_price p lv)) (sym same)
                  ∙ f.not_before in
                let nh : less (level_price b.level_pool q) price ≡ false =
                  ap (less (level_price b.level_pool q)) (sym new_price)
                  ∙ ap (λ k. less k (level_price p lv)) (sym same)
                  ∙ f.not_behind in
                absurd (ground (arith, apart, nb, nh))
          ]

  -- No level has the price: with a free slot for it, `find_or_create_level` makes one.
  pub find_or_create_level-Created :
      (lv : ℕ) (xs : List ℕ)
      → g.free_levels ≡ lv ∷ xs
      → HasNoLevel d price b (shape d)
      → find_level price d b ≡ ok (none, b)
      → length (slots (shape d)) + 1 < 2 ^ 64
      → Created oc lc d price lv b shape queue
  unfolding find_or_create_level
  find_or_create_level-Created lv xs free absent missed room =
      let (p, got, a) =
        acquire-cons (new_level price d) (subst (IsValid lc b.level_pool) free g.levels) in
      let w = inserted lv p xs a absent room in
      let b₁ = record b { level_pool = p } in
      let order = w.order in
      record {
        after = with_tree d w.after b₁;
        here = w.shape;
        run = rw (missed, got, insert_level-run d lv b₁ w.run) refl;
        book = record {
          tree = with_tree-IsTree d w.after w.shape b₁ shape w.tree g.tree;
          sorted =
              at_side-all (λ e s. IsSorted (level_price p) (compare_of e) (slots s)) d w.shape shape
                w.sorted
                (λ e.
                  IsSorted-frame (compare_of e) (slots (shape e)) (same_prices lv p xs a e)
                    (g.sorted e));
          queues =
              at_side-all
                (λ e s.
                  (i : ℕ)
                  → mem i (slots s) ≡ true
                  → HasQueue p b.order_pool e i (update queue lv [] i))
                d w.shape shape (queues-here lv p xs a w.shape w.order) (queues-at lv p xs a);
          free_orders = g.free_orders;
          free_levels = xs;
          orders = g.orders;
          levels = a.valid;
        };
        order =
            w.order
            ∙ ap (λ k. insert_by (level_price p) (compare_of d) k lv (slots (shape d)))
                (new_price lv p xs a);
        price_here = new_price lv p xs a;
        kept_price = same_prices lv p xs a;
        apart = new_slot lv p xs a;
        out = new_out lv p xs a;
        same_orders = refl;
        same_map = refl;
        same_trades = refl;
      }
