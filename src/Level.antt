-- ===== src/Level.antt =====
-- struct Order and struct PriceLevel of include/orderbook/orderbook.hpp: the queue of orders at one
-- price, linked through the orders themselves. The orders live in the slots of the order pool, and an
-- `Order*` or `PriceLevel*` is the number of a slot. The `tree_node` of a level is the node of that
-- number in its tree (Tree/Memory); that of an order is not used by the program.
pub mod Links
pub mod Append
pub mod Unlink
pub mod Patch
pub mod Removal
pub mod Reweigh
mod Tests
use l3_lock_free_orderbook_e.Prelude.{
  ℕ, Bool, Option, none, some, Run, ok, ◌>>=◌, Ptr, is_some, not,
}
use l3_lock_free_orderbook_e.Prelude.Word.{add32, sub32}
use l3_lock_free_orderbook_e.Types.{Price, Quantity, OrderId, Timestamp, Side}
use l3_lock_free_orderbook_e.Pool.{ObjectPool, load, store}

pub record Order : Type 0 where
  pub price : Price
  pub quantity : Quantity
  pub initial_quantity : Quantity
  pub id : OrderId
  pub side : Side
  pub timestamp_ns : Timestamp
  pub next_at_price : Ptr
  pub prev_at_price : Ptr
  pub price_level : Ptr

unfoldable pub new_order : OrderId → Side → Price → Quantity → Timestamp → Order
new_order oid s p q ts = record {
  price = p;
  quantity = q;
  initial_quantity = q;
  id = oid;
  side = s;
  timestamp_ns = ts;
  next_at_price = none;
  prev_at_price = none;
  price_level = none;
}

pub record PriceLevel : Type 0 where
  pub price : Price
  pub total_quantity : Quantity
  pub order_count : ℕ
  pub side : Side
  pub head_order : Ptr
  pub tail_order : Ptr

unfoldable pub new_level : Price → Side → PriceLevel
new_level p s = record {
  price = p;
  total_quantity = 0;
  order_count = 0;
  side = s;
  head_order = none;
  tail_order = none;
}

-- The orders of the pool, as the methods of a level read and write them.
abbrev pub Orders : Type 0
Orders = ObjectPool Order

-- A write of members of `*p`.
unfoldable pub modify_order : Ptr → (Order → Order) → Orders → Run Orders
modify_order p f o = do x ← load p o; store p (f x) o

-- `this` is the level's own address.
unfoldable pub add_order :
    (this : ℕ) → PriceLevel → (order : Ptr) → Orders → Run (PriceLevel × Orders)
unfolding modify_order
add_order this l order o = do
  o ←
      modify_order order
        (λ x. record x {
          next_at_price = none;
          prev_at_price = l.tail_order;
          price_level = some this;
        })
        o
  (l, o) ← elim l.tail_order [
    | some t ↦ do o ← modify_order (some t) (λ y. record y { next_at_price = order }) o; ok (l, o)
    | none ↦ ok (record l { head_order = order }, o)
  ]
  x ← load order o
  ok (
    record l {
      tail_order = order;
      total_quantity = add32 l.total_quantity x.quantity;
      order_count = add32 l.order_count 1;
    },
    o,
  )

-- The order before learns of the order behind; if there is none before, the level does.
unfoldable pub relink_prev : PriceLevel → (prev next : Ptr) → Orders → Run (PriceLevel × Orders)
unfolding modify_order
relink_prev l none next o = ok (record l { head_order = next }, o)
relink_prev l (some p) next o = do
  o ← modify_order (some p) (λ y. record y { next_at_price = next }) o
  ok (l, o)

-- The order behind learns of the order before; if there is none behind, the level does.
unfoldable pub relink_next : PriceLevel → (prev next : Ptr) → Orders → Run (PriceLevel × Orders)
unfolding modify_order
relink_next l prev none o = ok (record l { tail_order = prev }, o)
relink_next l prev (some n) o = do
  o ← modify_order (some n) (λ y. record y { prev_at_price = prev }) o
  ok (l, o)

abbrev pub detached : Order → Order
detached x = record x { next_at_price = none; prev_at_price = none; price_level = none }

unfoldable pub remove_order : PriceLevel → (order : Ptr) → Orders → Run (PriceLevel × Orders)
unfolding relink_prev relink_next
remove_order l order o = do
  x ← load order o
  (l, o) ← relink_prev l x.prev_at_price x.next_at_price o
  x ← load order o
  (l, o) ← relink_next l x.prev_at_price x.next_at_price o
  x ← load order o
  o ← modify_order order detached o
  ok (
    record l {
      total_quantity = sub32 l.total_quantity x.quantity;
      order_count = sub32 l.order_count 1;
    },
    o,
  )

unfoldable pub is_empty : PriceLevel → Bool
is_empty l = not (is_some l.head_order)
