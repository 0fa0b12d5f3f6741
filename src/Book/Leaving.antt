-- ===== src/Book/Leaving.antt =====
-- The first half of `cancel_order`: an order that rests in the book leaves its level.
use l3_lock_free_orderbook_e.Prelude.{
  ℕ, ◌<◌, ◌≤◌, ◌^◌, ◌≡◌, refl, sym, ap, ◌∙◌, subst, true, false, not, none, some, List, [], ◌∷◌,
  ◌++◌, ok, arith, mem, erase, update, ==_iff, ==_comm, ◌==◌, length, is_some, Ptr, Distinct,
}
use l3_lock_free_orderbook_e.Types.{Side, opposite}
use l3_lock_free_orderbook_e.Pool.FreeList.{view}
use l3_lock_free_orderbook_e.Pool.Access.{load-view}
use l3_lock_free_orderbook_e.Tree.Shape
use l3_lock_free_orderbook_e.Tree.Shape.{Shape}
use l3_lock_free_orderbook_e.Tree.SortedErase.{mem_of_erase, length-erase_le}
use l3_lock_free_orderbook_e.Tree.Balance.{IsRedBlack}
use l3_lock_free_orderbook_e.Level.{Order, PriceLevel, detached, is_empty}
use l3_lock_free_orderbook_e.Level.Links.{Entry, slots, head_slot, last_slot, place, middle_out}
use l3_lock_free_orderbook_e.Level.Removal.{Linked-drop}
use l3_lock_free_orderbook_e.Book.State.{OrderBook, level_price}
use l3_lock_free_orderbook_e.Book.Matching.{unlink_order}
use l3_lock_free_orderbook_e.Book.Orders.{leave_level}
use l3_lock_free_orderbook_e.Book.Invariant.{
  compare_of, HasQueue, IsBook, not_mem_of_level, ltb_ℤ-IsStrictOrder, sides_apart,
}
use l3_lock_free_orderbook_e.Book.Side.{at_side, at_side_self, at_side-opposite}
use l3_lock_free_orderbook_e.Book.Requeue.{Requeued, requeue-IsBook, kept_price}
use l3_lock_free_orderbook_e.Book.Dequeue.{unlink_order-Requeued}
use l3_lock_free_orderbook_e.Book.Dismiss.{remove_level-Dismissed}
use l3_lock_free_orderbook_e.Book.Rows.{rows, rows-frame}
use l3_lock_free_orderbook_e.Book.RowsLeft.{
  drop_slot, drop_slot-middle, leave_row, rows-shorter, rows-erased,
}
use l3_lock_free_orderbook_e.Book.Resting.{side_rows}

-- The entry `e` of the level in `lv` has left its queue, and the level the tree if it was the last.
pub record Left (d : Side) (lv : ℕ) (e : Entry) (oc lc : ℕ) (b : OrderBook) (shape : Side → Shape)
    (queue : ℕ → List Entry) (after : OrderBook) : Type 0 where
  pub shape' : Side → Shape
  pub queue' : ℕ → List Entry
  pub book : IsBook oc lc after shape' queue'
  pub here :
      side_rows after shape' queue' d
      ≡ leave_row (compare_of d) (level_price b.level_pool lv) e.slot (side_rows b shape queue d)
  pub other : side_rows after shape' queue' (opposite d) ≡ side_rows b shape queue (opposite d)
  pub trades : after.trades ≡ b.trades
  pub more_levels : b.level_pool.available ≤ after.level_pool.available
  pub fewer : length (Shape.slots (shape' d)) ≤ length (Shape.slots (shape d))

module _ (order_map_size : ℕ) {oc lc : ℕ} {b : OrderBook} {shape : Side → Shape}
    {queue : ℕ → List Entry} (g : IsBook oc lc b shape queue) (d : Side) (lv : ℕ)
    (member : mem lv (Shape.slots (shape d)) ≡ true) (ds : List Entry) (e : Entry) (es : List Entry)
    (split : queue lv ≡ ds ++ e ∷ es) where
  abbrev resting : Order
  resting = place e.order lv (last_slot none ds) (head_slot es)

  here-split : HasQueue b.level_pool b.order_pool d lv (ds ++ e ∷ es)
  here-split = subst (HasQueue b.level_pool b.order_pool d lv) split (g.queues d lv member)

  pub stands : view b.order_pool e.slot ≡ some resting
  stands = (Linked-drop lv (view b.order_pool) none ds (e ∷ es) here-split.queue.linked).0

  -- The order does not stand in another queue.
  elsewhere :
      (f : Side) (i : ℕ)
      → mem i (Shape.slots (shape f)) ≡ true
      → (lv == i) ≡ false
      → mem e.slot (slots (queue i)) ≡ false
  elsewhere f i m ne =
      not_mem_of_level e.slot stands (λ h. absurd (ground (arith, h, ==_iff lv i))) (g.queues f i m)

  dropped : drop_slot e.slot (queue lv) ≡ ds ++ es
  dropped =
      ap (drop_slot e.slot) split ∙ drop_slot-middle ds e es (out ds here-split.queue.distinct)
    where
      out : (cs : List Entry) → Distinct (slots (cs ++ e ∷ es)) → mem e.slot (slots cs) ≡ false
      out [] h = refl
      out (c ∷ cs) h =
          ground (arith, middle_out c.slot cs e es h.0, out cs h.1, ==_comm e.slot c.slot)

  unlinked :
      (rest : List Entry)
      → ds ++ es ≡ rest
      → e.order.quantity < 2 ^ 32
      → (w : Requeued (unlink_order lv e.slot) b lv e.slot (queue lv) rest) × (view w.order_pool
            e.slot
          ≡ some (detached e.order))
  unlinked rest eq small =
      subst
        (λ gs.
          (w : Requeued (unlink_order lv e.slot) b lv e.slot (queue lv) gs) × (view w.order_pool
              e.slot
            ≡ some (detached e.order)))
        eq
        (subst
          (λ fs.
            (w : Requeued (unlink_order lv e.slot) b lv e.slot fs (ds ++ es)) × (view w.order_pool
                e.slot
              ≡ some (detached e.order)))
          (sym split) (unlink_order-Requeued d b lv ds e es here-split small))

  -- The book behind `level->remove_order(order)` and, where that was the last, `remove_level`.
  abbrev LeavesLevel : Type 0
  LeavesLevel =
      (after : OrderBook) × (leave_level order_map_size (some lv) e.slot d b ≡ ok (tt, after))
      × Left d lv e oc lc b shape queue after
      × (view after.order_pool e.slot ≡ some (detached e.order))
      × (after.order_map ≡ b.order_map)

  is_empty-head : (l : PriceLevel) {h : Ptr} → l.head_order ≡ h → is_empty l ≡ not (is_some h)
  unfolding is_empty
  is_empty-head l h = ap (λ p. not (is_some p)) h

  same_levels :
      {rest : List Entry} (w : Requeued (unlink_order lv e.slot) b lv e.slot (queue lv) rest)
      → w.level_pool.available ≡ b.level_pool.available
  same_levels w = (w.levels lc g.free_levels g.levels).counted ∙ sym g.levels.counted

  level_stays :
      (f : Entry) (fs : List Entry) → ds ++ es ≡ f ∷ fs → e.order.quantity < 2 ^ 32 → LeavesLevel
  unfolding leave_level
  level_stays f fs eq small =
      let (w, free) = unlinked (f ∷ fs) eq small in
      let q = w.queue d (g.queues d lv member) in
      let key = level_price b.level_pool in
      let queue' = update queue lv (f ∷ fs) in
      (
        record b { order_pool = w.order_pool; level_pool = w.level_pool },
        rw (w.run, load-view w.level_pool lv q.live, is_empty-head q.level q.queue.head) refl,
        record {
          shape' = shape;
          queue' = queue';
          book = requeue-IsBook d g member elsewhere w;
          here =
              rows-shorter key (level_price w.level_pool) (compare_of d) (ltb_ℤ-IsStrictOrder d)
                queue lv e.slot f fs (Shape.slots (shape d)) (dropped ∙ eq) (g.sorted d) member
                (λ i m. kept_price w (g.queues d i m));
          other =
              rows-frame key (level_price w.level_pool) queue queue'
                (Shape.slots (shape (opposite d))) (λ i m. kept_price w (g.queues (opposite d) i m))
                (λ i m. rw (sides_apart d lv i g member m) refl);
          trades = refl;
          more_levels = omega (arith, same_levels w);
          fewer = omega arith;
        },
        free,
        refl,
      )

  level_goes :
      ds ++ es ≡ []
      → e.order.quantity < 2 ^ 32
      → IsRedBlack (shape d)
      → length (Shape.slots (shape d)) < 2 ^ 64
      → lv < lc
      → LeavesLevel
  unfolding leave_level
  level_goes eq small balanced room fits =
      let (w, free) = unlinked [] eq small in
      let q = w.queue d (g.queues d lv member) in
      let m =
        remove_level-Dismissed d lv (requeue-IsBook d g member elsewhere w) member balanced room
          fits in
      let key = level_price b.level_pool in
      let key' = level_price m.after.level_pool in
      let queue' = update queue lv [] in
      let f = at_side d m.here shape in
      let slots_here : Shape.slots (f d) ≡ erase lv (Shape.slots (shape d)) =
        ap Shape.slots (at_side_self d m.here shape) ∙ m.order in
      let slots_other : Shape.slots (f (opposite d)) ≡ Shape.slots (shape (opposite d)) =
        ap Shape.slots (at_side-opposite d m.here shape) in
      (
        m.after,
        rw (w.run, load-view w.level_pool lv q.live, is_empty-head q.level q.queue.head, m.run)
            refl,
        record {
          shape' = f;
          queue' = queue';
          book = m.book;
          here =
              ap (rows key' queue') slots_here
              ∙ rows-erased key key' (compare_of d) (ltb_ℤ-IsStrictOrder d) queue lv e.slot
                  (Shape.slots (shape d)) (dropped ∙ eq) (g.sorted d) member
                  (λ i n.
                    m.kept_price d i (ap (mem i) slots_here ∙ n)
                    ∙ kept_price w (g.queues d i (mem_of_erase i lv (Shape.slots (shape d)) n)));
          other =
              ap (rows key' queue') slots_other
              ∙ rows-frame key key' queue queue' (Shape.slots (shape (opposite d)))
                  (λ i n.
                    m.kept_price (opposite d) i (ap (mem i) slots_other ∙ n)
                    ∙ kept_price w (g.queues (opposite d) i n))
                  (λ i n. rw (sides_apart d lv i g member n) refl);
          trades = m.same_trades;
          more_levels = omega (arith, same_levels w, m.more_levels);
          fewer = omega (arith, ap length slots_here, length-erase_le lv (Shape.slots (shape d)));
        },
        ap (λ o. view o e.slot) m.same_orders ∙ free,
        m.same_map,
      )

  pub leave_level-Left :
      e.order.quantity < 2 ^ 32
      → IsRedBlack (shape d)
      → length (Shape.slots (shape d)) < 2 ^ 64
      → lv < lc
      → LeavesLevel
  leave_level-Left small balanced room fits = by_rest (ds ++ es) refl
    where
      by_rest : (rest : List Entry) → ds ++ es ≡ rest → LeavesLevel
      by_rest [] eq = level_goes eq small balanced room fits
      by_rest (f ∷ fs) eq = level_stays f fs eq small
