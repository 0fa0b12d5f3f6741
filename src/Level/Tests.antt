-- ===== src/Level/Tests.antt =====
-- The theorems about the queue of a price level at three orders.
use l3_lock_free_orderbook_e.Prelude.{ℕ, ◌+◌, ◌∙◌, ◌≡◌, refl, none, some, [], ◌∷◌, ok, arith}
use l3_lock_free_orderbook_e.Prelude.Int.{ℤ}
use l3_lock_free_orderbook_e.Types.{Price, Side}
use l3_lock_free_orderbook_e.Pool.{live}
use l3_lock_free_orderbook_e.Pool.FreeList.{view}
use l3_lock_free_orderbook_e.Level.{
  Order, PriceLevel, Orders, new_order, new_level, add_order, remove_order,
}
use l3_lock_free_orderbook_e.Level.Links.{Entry, IsQueue}
use l3_lock_free_orderbook_e.Level.Append.{Added, add_order-Added}
use l3_lock_free_orderbook_e.Level.Removal.{Removed, remove_order-Removed}

abbrev ticks : Price
ticks = ℤ.pos 100

abbrev order_of : ℕ → ℕ → Order
order_of oid q = new_order oid Side.buy (ticks) q 0

-- Every slot holds the order of its number, with ten more as its quantity.
abbrev orders : Orders
orders = record { storage = λ i. live (order_of i (i + 10)); free_list = none; available = 0 }

abbrev entry : ℕ → Entry
entry i = record { slot = i; order = order_of i (i + 10) }

empty-IsQueue : IsQueue 7 (new_level (ticks) Side.buy) (view orders) []
unfolding new_level
empty-IsQueue = record {
  linked = tt;
  head = refl;
  tail = refl;
  distinct = tt;
  total_quantity = refl;
  order_count = refl;
}

orders-view : (i : ℕ) → view orders i ≡ some (order_of i (i + 10))
unfolding view
orders-view i = refl

-- The orders 1 and 2 join the empty level at the address 7, one after the other.
first :
    (l' : PriceLevel) × (o' : Orders) × (add_order 7 (new_level ticks Side.buy) (some 1) orders
      ≡ ok (l', o'))
    × Added 7 (new_level ticks Side.buy) orders [] 1 (order_of 1 11) l' o'
first = add_order-Added 7 [] 1 (order_of 1 11) empty-IsQueue (orders-view 1) refl

second :
    (l' : PriceLevel) × (o' : Orders) × (add_order 7 first.0 (some 2) first.1 ≡ ok (l', o'))
    × Added 7 first.0 first.1 (entry 1 ∷ []) 2 (order_of 2 12) l' o'
second =
    add_order-Added 7 (entry 1 ∷ []) 2 (order_of 2 12) first.3.queue
      (first.3.frame 2 refl refl ∙ orders-view 2) refl

still_3 : view second.1 3 ≡ some (order_of 3 13)
still_3 = second.3.frame 3 refl refl ∙ first.3.frame 3 refl refl ∙ orders-view 3

add_order-Added_example :
    (l' : PriceLevel) × (o' : Orders) × (add_order 7 second.0 (some 3) second.1 ≡ ok (l', o'))
    × Added 7 second.0 second.1 (entry 1 ∷ entry 2 ∷ []) 3 (order_of 3 13) l' o'
add_order-Added_example =
    add_order-Added 7 (entry 1 ∷ entry 2 ∷ []) 3 (order_of 3 13) second.3.queue still_3 refl

third :
    (l' : PriceLevel) × (o' : Orders) × (add_order 7 second.0 (some 3) second.1 ≡ ok (l', o'))
    × Added 7 second.0 second.1 (entry 1 ∷ entry 2 ∷ []) 3 (order_of 3 13) l' o'
third = add_order-Added 7 (entry 1 ∷ entry 2 ∷ []) 3 (order_of 3 13) second.3.queue still_3 refl

-- The second of three orders leaves.
remove_order-Removed_example :
    (l' : PriceLevel) × (o' : Orders) × (remove_order third.0 (some 2) third.1 ≡ ok (l', o'))
    × Removed 7 third.0 third.1 (entry 1 ∷ []) (entry 2) (entry 3 ∷ []) l' o'
unfolding new_order
remove_order-Removed_example =
    remove_order-Removed 7 (entry 1 ∷ []) (entry 2) (entry 3 ∷ []) third.3.queue (omega arith)
