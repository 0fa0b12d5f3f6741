-- ===== src/Book/Refused.antt =====
-- The orders that `add_order` refuses.
use l3_lock_free_orderbook_e.Prelude.{
  ℕ, ◌≡◌, refl, ap, ◌∙◌, subst, false, none, some, List, [], ◌∷◌, ok, Ptr, arith, ==_iff, mem,
}
use l3_lock_free_orderbook_e.Types.{Price, Quantity, Timestamp, Side, opposite}
use l3_lock_free_orderbook_e.Pool.FreeList.{IsValid, acquire-nil}
use l3_lock_free_orderbook_e.Pool.Access.{load-view}
use l3_lock_free_orderbook_e.HashMap
use l3_lock_free_orderbook_e.Tree.Shape
use l3_lock_free_orderbook_e.Tree.Shape.{Shape}
use l3_lock_free_orderbook_e.Tree.Lookup.{find_node-Looked, Looked}
use l3_lock_free_orderbook_e.Level.{new_order, new_level}
use l3_lock_free_orderbook_e.Level.Links.{Entry}
use l3_lock_free_orderbook_e.Book.State.{OrderBook, level_price}
use l3_lock_free_orderbook_e.Book.Levels.{find_or_create_level}
use l3_lock_free_orderbook_e.Book.Orders.{rest_order, add_order}
use l3_lock_free_orderbook_e.Book.Invariant.{IsBook, compare_of, tree_of, ltb_ℤ-IsStrictOrder}
use l3_lock_free_orderbook_e.Book.Side.{find_level-run, IsAbsent-of_mem}
use l3_lock_free_orderbook_e.Book.Create.{HasNoLevel}
use l3_lock_free_orderbook_e.Book.Dismiss.{release_order-IsBook}
use l3_lock_free_orderbook_e.Book.Resting.{side_rows, acquire_order-IsBook}
use l3_lock_free_orderbook_e.Book.Accepted.{best_of, meets, crosses-run}

module _ (order_map_size : ℕ) {oc lc : ℕ} {b : OrderBook} {shape : Side → Shape}
    {queue : ℕ → List Entry} (g : IsBook oc lc b shape queue) (d : Side) (id : ℕ)
    (price : Price) where
  -- The id is known; or all slots for orders are taken; or the order would come to rest at a price
  -- with no level, and all slots for levels are taken.
  pub data IsRefused : Type 0 where
    known : (p : Ptr) → HashMap.find order_map_size id b.order_map ≡ some p → IsRefused
    no_order : HashMap.find order_map_size id b.order_map ≡ none → g.free_orders ≡ [] → IsRefused
    no_level :
        (p : ℕ) (xs : List ℕ)
        → HashMap.find order_map_size id b.order_map ≡ none
        → g.free_orders ≡ p ∷ xs
        → g.free_levels ≡ []
        → meets d price (best_of (side_rows b shape queue (opposite d))) ≡ false
        → HasNoLevel d price b (shape d)
        → IsRefused

  -- With no slot for a level, `find_or_create_level` of a new price returns the null pointer.
  find_or_create_level-none :
      g.free_levels ≡ []
      → HasNoLevel d price b (shape d)
      → find_or_create_level price d b ≡ ok (none, b)
  unfolding find_or_create_level
  find_or_create_level-none used_up absent =
      let key = level_price b.level_pool in
      let (q, run, looked) =
        find_node-Looked key (compare_of d) price (ltb_ℤ-IsStrictOrder d) (tree_of d b) (shape d)
          (g.tree d) (g.sorted d) in
      let got =
        acquire-nil (new_level price d) (subst (IsValid lc b.level_pool) used_up g.levels) in
      rw (find_level-run d price b run ∙ ap (λ r. ok (r, b)) (nothing q looked), got) refl
    where
      nothing :
          (q : Ptr)
          → Looked (level_price b.level_pool) (compare_of d) price (Shape.slots (shape d)) q
          → q ≡ none
      nothing none l = refl
      nothing (some q) f =
          let apart =
            IsAbsent-of_mem (level_price b.level_pool) (compare_of d) price q
              (Shape.slots (shape d)) absent f.member in
          absurd (ground (arith, apart, f.not_before, f.not_behind))

-- In a book that keeps its invariant: if the map finds the id, or no slot is free for an order, or the
-- order does not meet the best price of the other side, its price has no level and no slot is free for
-- one, then `add_order` runs without a fault and returns false; the book keeps its invariant with the
-- same rows on both sides, the same map, the same trades and as many free slots for orders.
pub add_order-IsRefused :
    (order_map_size : ℕ) (rdtsc : ℕ → Timestamp) {oc lc : ℕ} {b : OrderBook} {shape : Side → Shape}
    {queue : ℕ → List Entry} (g : IsBook oc lc b shape queue) (d : Side) (id : ℕ) (price : Price)
    (qty : Quantity) (ts : Timestamp)
    → IsRefused order_map_size g d id price
    → (after : OrderBook) × (add_order order_map_size rdtsc id d price qty ts b ≡ ok (false, after))
      × IsBook oc lc after shape queue
      × ((e : Side) → side_rows after shape queue e ≡ side_rows b shape queue e)
      × (after.order_map ≡ b.order_map)
      × (after.trades ≡ b.trades)
      × (after.order_pool.available ≡ b.order_pool.available)
unfolding add_order rest_order new_order
add_order-IsRefused order_map_size rdtsc {b} g d id price qty ts (IsRefused.known p found) =
    (b, rw found refl, g, λ e. refl, refl, refl, refl)
add_order-IsRefused order_map_size rdtsc {oc} {b} g d id price qty ts
      (IsRefused.no_order unknown used_up) =
    let got =
      acquire-nil (new_order id d price qty ts)
        (subst (IsValid oc b.order_pool) used_up g.orders) in
    (b, rw (unknown, got) refl, g, λ e. refl, refl, refl, refl)
add_order-IsRefused order_map_size rdtsc {b} g d id price qty ts
      (IsRefused.no_level p xs unknown free used_up apart absent) =
    let x = new_order id d price qty ts in
    let (o, got, at, taken, (h, same)) = acquire_order-IsBook x p xs g free in
    let fits = g.orders.inside p (ap (mem p) free ∙ ground (arith, ==_iff p p)) in
    let (o₂, freed, gone, given, k) = release_order-IsBook p h at refl fits in
    (
      record b { order_pool = o₂ },
      rw
          (
            unknown,
            got,
            crosses-run h d price,
            apart,
            load-view o p at,
            find_or_create_level-none order_map_size h d id price (same ∙ used_up) absent,
            freed,
          )
          refl,
      k,
      λ e. refl,
      refl,
      refl,
      given ∙ taken,
    )
