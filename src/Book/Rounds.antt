-- ===== src/Book/Rounds.antt =====
-- One round of the matching loop at a price level, for the order at the head of the queue.
use l3_lock_free_orderbook_e.Prelude.{
  ℕ, ◌+◌, ◌-◌, ◌<◌, ◌≤◌, ◌≡◌, ◌∙◌, ap, refl, true, false, some, List, [], ◌∷◌, ◌++◌, Ptr, ok, arith,
  ◌==◌, ==_comm, ne_of_mem,
}
use l3_lock_free_orderbook_e.Prelude.Word.{sub32}
use l3_lock_free_orderbook_e.Types.{Timestamp, Side, TradeReport}
use l3_lock_free_orderbook_e.Pool.{release}
use l3_lock_free_orderbook_e.Pool.FreeList.{view, release-live}
use l3_lock_free_orderbook_e.Pool.Access.{written, load-view, store-view, view-written_self}
use l3_lock_free_orderbook_e.HashMap
use l3_lock_free_orderbook_e.Level
use l3_lock_free_orderbook_e.Level.{Order, PriceLevel, Orders, detached}
use l3_lock_free_orderbook_e.Level.Links.{Entry, slots, head_slot, IsQueue-frame}
use l3_lock_free_orderbook_e.Level.Removal.{remove_order-Removed}
use l3_lock_free_orderbook_e.Level.Reweigh.{lower, sub32-le}
use l3_lock_free_orderbook_e.Book.State.{OrderBook, pure, ◌>>◌, release_order}
use l3_lock_free_orderbook_e.Book.Matching.{unlink_order, forget, match_round}
use l3_lock_free_orderbook_e.Book.Fill.{Matching, report_of, match_round-Traded}

-- What a round leaves behind, with `n` left of the incoming order and the queue `es`.
pub record Rounded (cap p lv : ℕ) (x : Order) (b : OrderBook) (l : PriceLevel) (n : ℕ)
    (es : List Entry) (report : TradeReport) (b' : OrderBook) : Type 0 where
  pub level : PriceLevel
  pub matching : Matching cap p lv x b' n level es
  pub same_level : (level.price ≡ l.price) × (level.side ≡ l.side)
  pub trades : b'.trades ≡ b.trades ++ report ∷ []
  pub ticks : b'.ticks ≡ b.ticks + 1
  pub trees : (b'.bid_tree ≡ b.bid_tree) × (b'.ask_tree ≡ b.ask_tree)

-- The filled order in the slot `s` leaves.
leave_run :
    (order_map_size lv s : ℕ) (id : ℕ) (next : Ptr) (b : OrderBook) {l l' : PriceLevel}
    {o o' : Orders}
    → view b.level_pool lv ≡ some l
    → Level.remove_order l (some s) b.order_pool ≡ ok (l', o)
    → release (some s) o ≡ ok o'
    → (do unlink_order lv s; forget order_map_size id; release_order (some s); pure next) b
      ≡ ok (
        next,
        record b {
          order_map = (HashMap.remove order_map_size id b.order_map).1;
          order_pool = o';
          level_pool = written b.level_pool lv l';
        },
      )
unfolding unlink_order
leave_run order_map_size lv s id next b {l' = l'} at cut freed =
    rw (load-view b.level_pool lv at, cut, store-view b.level_pool lv l' at, freed) refl

module _ (order_map_size : ℕ) (rdtsc : ℕ → Timestamp) (side : Side) {cap p lv : ℕ} {x : Order}
    {b : OrderBook} {n : ℕ} {l : PriceLevel} (e : Entry) (es : List Entry)
    (g : Matching cap p lv x b n l (e ∷ es)) where
  -- The first order of the queue is larger than what is left of the incoming one, which is filled.
  pub match_round-Lowered :
      n < e.order.quantity
      → (b' : OrderBook) × (match_round order_map_size rdtsc side p lv e.slot b
          ≡ ok (head_slot es, b'))
        × Rounded cap p lv x b l 0 (lower e n ∷ es) (report_of (rdtsc b.ticks) e n side) b'
  match_round-Lowered h =
      let (b', run, t) = match_round-Traded order_map_size rdtsc side e es g n (omega arith) in
      let left : (sub32 e.order.quantity n == 0) ≡ false =
        ground (arith, sub32-le e.order.quantity n (omega arith) g.fits.0) in
      (
        b',
        run ∙ rw left refl,
        record {
          level = record l { total_quantity = sub32 l.total_quantity n };
          matching = record {
            order = t.order ∙ ap (λ k. some (record x { quantity = k })) (omega arith);
            level = t.level;
            queue = t.queue;
            outside = g.outside;
            word = omega arith;
            fits = (omega (arith, g.fits.0), g.fits.1, g.fits.2);
            free = g.free;
            valid = t.valid;
          };
          same_level = (refl, refl);
          trades = t.trades;
          ticks = t.ticks;
          trees = t.trees;
        },
      )

  -- The first order of the queue is filled: it leaves the queue, the map and the pool.
  pub match_round-Filled :
      e.order.quantity ≤ n
      → (b' : OrderBook) × (match_round order_map_size rdtsc side p lv e.slot b
          ≡ ok (head_slot es, b'))
        × Rounded cap p lv x b l
            (n - e.order.quantity)
            es
            (report_of (rdtsc b.ticks) e e.order.quantity side)
            b'
  match_round-Filled h =
      let m = e.order.quantity in
      let (b₂, run, t) = match_round-Traded order_map_size rdtsc side e es g m (omega arith) in
      let done : (sub32 m m == 0) ≡ true = ground (arith, sub32-le m m (omega arith) g.fits.0) in
      let (l', o, cut, r) =
        remove_order-Removed lv [] (lower e m) es t.queue (omega (arith, g.fits.0)) in
      let (o', freed, f) = release-live e.slot _ (r.valid cap g.free t.valid) g.fits.1 r.self in
      let out : (p == e.slot) ≡ false = ==_comm p e.slot ∙ ground (arith, g.outside) in
      let kept : (i : ℕ) → (e.slot == i) ≡ false → view o' i ≡ view o i =
        λ i ne. f.view i ∙ rw ne refl in
      (
        record b₂ {
          order_map = (HashMap.remove order_map_size e.order.id b₂.order_map).1;
          order_pool = o';
          level_pool = written b₂.level_pool lv l';
        },
        run
            ∙ rw done
                (leave_run order_map_size lv e.slot e.order.id (head_slot es) b₂ t.level cut freed),
        record {
          level = l';
          matching = record {
            order = kept p (==_comm e.slot p ∙ out) ∙ r.frame p g.outside ∙ t.order;
            level = view-written_self b₂.level_pool lv l';
            queue =
                IsQueue-frame lv (view o) (view o') es
                  (λ i mi.
                    kept i (==_comm e.slot i ∙ ne_of_mem i e.slot (slots es) mi g.queue.distinct.0))
                  r.queue;
            outside = ground (arith, g.outside);
            word = omega (arith, g.word);
            fits = g.fits.2;
            free = e.slot ∷ g.free;
            valid = f.valid;
          };
          same_level = r.level;
          trades = t.trades;
          ticks = t.ticks;
          trees = t.trees;
        },
      )
