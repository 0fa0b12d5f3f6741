-- ===== src/Book/Fill.antt =====
-- Matching at one price level: the orders of the queue are filled from the first on.
use l3_lock_free_orderbook_e.Prelude.{
  ℕ, ◌+◌, ◌-◌, ◌^◌, ◌<◌, ◌≤◌, ◌≡◌, ◌∙◌, ap, refl, subst, false, none, some, List, [], ◌∷◌, ◌++◌,
  arith, mem, min, ◌==◌, ==_comm, ne_of_mem, if◌then◌else◌,
}
use l3_lock_free_orderbook_e.Prelude.Word.{sub32}
use l3_lock_free_orderbook_e.Types.{Timestamp, Side, TradeReport}
use l3_lock_free_orderbook_e.Pool.FreeList.{view, IsValid}
use l3_lock_free_orderbook_e.Pool.Access.{
  written, written-IsValid, load-view, store-view, view-written_self, view-written_ne,
}
use l3_lock_free_orderbook_e.Level.{Order, PriceLevel}
use l3_lock_free_orderbook_e.Level.Links.{Entry, slots, head_slot, place, IsQueue}
use l3_lock_free_orderbook_e.Level.Reweigh.{lower, lower-IsQueue, sub32-le}
use l3_lock_free_orderbook_e.Book.State.{OrderBook, pure, ◌>>◌, release_order, map_ok}
use l3_lock_free_orderbook_e.Book.Matching.{unlink_order, forget, match_round}

-- The quantities are words, and the slots are those of the pool.
abbrev pub Fit : ℕ → List Entry → Type 0
Fit cap [] = Unit
Fit cap (e ∷ es) = (e.order.quantity < 2 ^ 32) × (e.slot < cap) × Fit cap es

-- The incoming order `x`, in the slot `p` with the quantity `n` left, against the level `l` in the slot
-- `lv`, which holds the queue `es`.
pub record Matching (cap p lv : ℕ) (x : Order) (b : OrderBook) (n : ℕ) (l : PriceLevel)
    (es : List Entry) : Type 0 where
  pub order : view b.order_pool p ≡ some (record x { quantity = n })
  pub level : view b.level_pool lv ≡ some l
  pub queue : IsQueue lv l (view b.order_pool) es
  pub outside : mem p (slots es) ≡ false
  pub word : n < 2 ^ 32
  pub fits : Fit cap es
  pub free : List ℕ
  pub valid : IsValid cap b.order_pool free

abbrev pub report_of : Timestamp → Entry → ℕ → Side → TradeReport
report_of t e m side = record {
  timestamp_ns = t;
  price = e.order.price;
  quantity = m;
  aggressor_side = side;
}

-- The book `b'` after `m` has been traded with the first order `e` of the queue, before that may leave.
pub record Traded (cap p lv : ℕ) (x : Order) (b : OrderBook) (n : ℕ) (l : PriceLevel) (e : Entry)
    (es : List Entry) (m : ℕ) (free : List ℕ) (report : TradeReport) (b' : OrderBook) : Type 0 where
  pub order : view b'.order_pool p ≡ some (record x { quantity = n - m })
  pub level : view b'.level_pool lv ≡ some (record l { total_quantity = sub32 l.total_quantity m })
  pub queue :
      IsQueue lv
        (record l { total_quantity = sub32 l.total_quantity m })
        (view b'.order_pool)
        (lower e m ∷ es)
  pub valid : IsValid cap b'.order_pool free
  pub trades : b'.trades ≡ b.trades ++ report ∷ []
  pub ticks : b'.ticks ≡ b.ticks + 1
  pub trees : (b'.bid_tree ≡ b.bid_tree) × (b'.ask_tree ≡ b.ask_tree)

module _ (order_map_size : ℕ) (rdtsc : ℕ → Timestamp) where
  -- The book when `m` has been traded with the first order of the queue, before that order may leave.
  abbrev traded :
      (side : Side) (p lv : ℕ) (x : Order) (n m : ℕ) (l : PriceLevel) (e : Entry) (es : List Entry)
      → OrderBook
      → OrderBook
  traded side p lv x n m l e es b = record b {
    order_pool =
        written (written b.order_pool p (record x { quantity = sub32 n m })) e.slot
          (place (record e.order { quantity = sub32 e.order.quantity m }) lv none (head_slot es));
    level_pool = written b.level_pool lv (record l { total_quantity = sub32 l.total_quantity m });
    ticks = b.ticks + 1;
    trades = b.trades ++ report_of (rdtsc b.ticks) e m side ∷ [];
  }

  module _ (side : Side) {cap p lv : ℕ} {x : Order} {b : OrderBook} {n : ℕ} {l : PriceLevel}
      (e : Entry) (es : List Entry) (g : Matching cap p lv x b n l (e ∷ es)) where
    apart : (p == e.slot) ≡ false
    apart = ==_comm p e.slot ∙ ground (arith, g.outside)

    -- A round up to its test whether the resting order is filled.
    match_round-traded :
        let m = min n e.order.quantity in
        let b' = traded side p lv x n m l e es b in
        match_round order_map_size rdtsc side p lv e.slot b
        ≡ (if sub32 e.order.quantity m == 0
              then (do
                unlink_order lv e.slot
                forget order_map_size e.order.id
                release_order (some e.slot)
                pure (head_slot es))
              else pure (head_slot es))
            b'
    unfolding match_round
    match_round-traded =
        let m = min n e.order.quantity in
        let o₁ = written b.order_pool p (record x { quantity = sub32 n m }) in
        let r =
          place (record e.order { quantity = sub32 e.order.quantity m }) lv none (head_slot es) in
        let here₁ : view o₁ e.slot ≡ some (place e.order lv none (head_slot es)) =
          view-written_ne b.order_pool p _ e.slot apart ∙ g.queue.linked.0 in
        rw
          (
            load-view b.order_pool p g.order,
            load-view b.order_pool e.slot g.queue.linked.0,
            store-view b.order_pool p (record x { quantity = sub32 n m }) g.order,
            store-view o₁ e.slot r here₁,
            load-view b.level_pool lv g.level,
            store-view b.level_pool lv (record l { total_quantity = sub32 l.total_quantity m })
                g.level,
            load-view (written o₁ e.slot r) e.slot (view-written_self o₁ e.slot r),
            map_ok,
          )
          refl

    module _ (m : ℕ) (le_left : m ≤ n) (le_here : m ≤ e.order.quantity) where
      after : OrderBook
      after = traded side p lv x n m l e es b

      after-order : view after.order_pool p ≡ some (record x { quantity = n - m })
      unfolding after
      after-order =
          view-written_ne (written b.order_pool p (record x { quantity = sub32 n m })) e.slot _ p
            (==_comm e.slot p ∙ apart)
          ∙ view-written_self b.order_pool p _
          ∙ ap (λ k. some (record x { quantity = k })) (sub32-le n m le_left g.word)

      after-others :
          (i : ℕ)
          → (p == i) ≡ false
          → (e.slot == i) ≡ false
          → view after.order_pool i ≡ view b.order_pool i
      unfolding after
      after-others i h k =
          view-written_ne (written b.order_pool p (record x { quantity = sub32 n m })) e.slot _ i k
          ∙ view-written_ne b.order_pool p _ i h

      after-level :
          view after.level_pool lv ≡ some (record l { total_quantity = sub32 l.total_quantity m })
      unfolding after
      after-level = view-written_self b.level_pool lv _

      after-queue :
          IsQueue lv
            (record l { total_quantity = sub32 l.total_quantity m })
            (view after.order_pool)
            (lower e m ∷ es)
      unfolding after
      after-queue =
          lower-IsQueue lv (view b.order_pool) (view after.order_pool) e es m g.queue le_here
            g.fits.0
            (view-written_self (written b.order_pool p (record x { quantity = sub32 n m })) e.slot _
              ∙ ap (λ k. some (place (record e.order { quantity = k }) lv none (head_slot es)))
                  (sub32-le e.order.quantity m le_here g.fits.0))
            (λ i h.
              after-others i (==_comm p i ∙ ne_of_mem i p (slots es) h (ground (arith, g.outside)))
                (==_comm e.slot i ∙ ne_of_mem i e.slot (slots es) h g.queue.distinct.0))

      after-IsValid : IsValid cap after.order_pool g.free
      unfolding after
      after-IsValid =
          written-IsValid (written b.order_pool p (record x { quantity = sub32 n m })) e.slot _
            (view-written_ne b.order_pool p _ e.slot apart ∙ g.queue.linked.0)
            (written-IsValid b.order_pool p _ g.order g.valid)

    -- A round up to its test whether the resting order is filled.
    pub match_round-Traded :
        (m : ℕ)
        → min n e.order.quantity ≡ m
        → (b' : OrderBook) × (match_round order_map_size rdtsc side p lv e.slot b
            ≡ (if sub32 e.order.quantity m == 0
                  then (do
                    unlink_order lv e.slot
                    forget order_map_size e.order.id
                    release_order (some e.slot)
                    pure (head_slot es))
                  else pure (head_slot es))
                b')
          × Traded cap p lv x b n l e es m g.free (report_of (rdtsc b.ticks) e m side) b'
    unfolding after
    match_round-Traded m eq =
        let le_left : m ≤ n = omega arith in
        let le_here : m ≤ e.order.quantity = omega arith in
        (
          after m le_left le_here,
          subst
              (λ k.
                match_round order_map_size rdtsc side p lv e.slot b
                ≡ (if sub32 e.order.quantity k == 0
                      then (do
                        unlink_order lv e.slot
                        forget order_map_size e.order.id
                        release_order (some e.slot)
                        pure (head_slot es))
                      else pure (head_slot es))
                    (traded side p lv x n k l e es b))
              eq match_round-traded,
          record {
            order = after-order m le_left le_here;
            level = after-level m le_left le_here;
            queue = after-queue m le_left le_here;
            valid = after-IsValid m le_left le_here;
            trades = refl;
            ticks = refl;
            trees = (refl, refl);
          },
        )
