-- ===== src/Level/Reweigh.antt =====
-- The queue of a price level when the quantity of its first order is lowered.
use l3_lock_free_orderbook_e.Prelude.{
  ℕ, ◌+◌, ◌-◌, ◌^◌, ◌<◌, ◌≤◌, ◌≡◌, ◌∙◌, ap, Option, none, some, List, ◌∷◌, arith, mem, true,
}
use l3_lock_free_orderbook_e.Prelude.Word.{u32, sub32}
use l3_lock_free_orderbook_e.Level.{Order, PriceLevel}
use l3_lock_free_orderbook_e.Level.Links.{
  Entry, slots, head_slot, place, total, IsQueue, Linked-frame,
}

-- The entry with `m` less.
abbrev pub lower : Entry → ℕ → Entry
lower e m = record e { order = record e.order { quantity = e.order.quantity - m } }

pub sub32-le : (a b : ℕ) → b ≤ a → a < 2 ^ 32 → sub32 a b ≡ a - b
sub32-le a b h k = omega arith

sub32-total : (a m t : ℕ) → m ≤ a → a < 2 ^ 32 → sub32 (u32 (a + t)) m ≡ u32 (a - m + t)
sub32-total a m t h k = omega arith

module _ (this : ℕ) {l : PriceLevel} (v v' : ℕ → Option Order) (e : Entry) (es : List Entry)
    (m : ℕ) where
  pub lower-IsQueue :
      IsQueue this l v (e ∷ es)
      → m ≤ e.order.quantity
      → e.order.quantity < 2 ^ 32
      → v' e.slot ≡ some (place (lower e m).order this none (head_slot es))
      → ((i : ℕ) → mem i (slots es) ≡ true → v' i ≡ v i)
      → IsQueue this (record l { total_quantity = sub32 l.total_quantity m }) v' (lower e m ∷ es)
  lower-IsQueue q le small at same = record {
    linked = (at, Linked-frame this v v' (some e.slot) es same q.linked.1);
    head = q.head;
    tail = q.tail;
    distinct = q.distinct;
    total_quantity =
        ap (λ t. sub32 t m) q.total_quantity ∙ sub32-total e.order.quantity m (total es) le small;
    order_count = q.order_count;
  }
