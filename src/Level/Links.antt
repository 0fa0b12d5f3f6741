-- ===== src/Level/Links.antt =====
-- The queue of a price level: what the links between the orders have to be, ds a list of entries,
-- each the slot of an order with the order.

use l3_lock_free_orderbook_e.Prelude.{
  ℕ, ◌+◌, ◌≡◌, refl, sym, ap, inl, inr, Bool-cases, ◌∙◌, same, true, false, ◌||◌, Option, none,
  some, List, [], ◌∷◌, ◌++◌, length, mem, Distinct, Ptr, arith, ◌==◌, ==_iff, ==_comm, ne_of_mem,
  if◌then◌else◌,
}
use l3_lock_free_orderbook_e.Prelude.Word.{u32}
use l3_lock_free_orderbook_e.Level.{Order, PriceLevel}

pub record Entry : Type 0 where
  pub slot : ℕ
  pub order : Order

abbrev pub slots : List Entry → List ℕ
slots [] = []
slots (e ∷ es) = e.slot ∷ slots es

abbrev pub head_slot : List Entry → Ptr
head_slot [] = none
head_slot (e ∷ es) = some e.slot

-- The slot of the last entry, or `prev` if there is none.
abbrev pub last_slot : Ptr → List Entry → Ptr
last_slot prev [] = prev
last_slot prev (e ∷ es) = last_slot (some e.slot) es

-- The order with its three pointers set.
abbrev pub place : Order → (level : ℕ) → (prev next : Ptr) → Order
place x level prev next = record x {
  next_at_price = next;
  prev_at_price = prev;
  price_level = some level;
}

-- The sum of the quantities, unbounded.
abbrev pub total : List Entry → ℕ
total [] = 0
total (e ∷ es) = e.order.quantity + total es

module _ (this : ℕ) where
  -- `v` holds the entries, each linked to its neighbours; the first is linked back to `prev`.
  abbrev pub Linked : (ℕ → Option Order) → Ptr → List Entry → Type 0
  Linked v prev [] = Unit
  Linked v prev (e ∷ es) =
      (v e.slot ≡ some (place e.order this prev (head_slot es))) × Linked v (some e.slot) es

  -- The level `l` at the address `this` holds the queue `es`.
  pub record IsQueue (l : PriceLevel) (v : ℕ → Option Order) (es : List Entry) : Type 0 where
    pub linked : Linked v none es
    pub head : l.head_order ≡ head_slot es
    pub tail : l.tail_order ≡ last_slot none es
    pub distinct : Distinct (slots es)
    pub total_quantity : l.total_quantity ≡ u32 (total es)
    pub order_count : l.order_count ≡ u32 (length es)

  -- The links of a segment are read from its own slots alone.
  pub Linked-frame :
      (v v' : ℕ → Option Order) (prev : Ptr) (es : List Entry)
      → ((i : ℕ) → mem i (slots es) ≡ true → v' i ≡ v i)
      → Linked v prev es
      → Linked v' prev es
  Linked-frame v v' prev [] same l = tt
  Linked-frame v v' prev (e ∷ es) same l = (
    same e.slot (ground (arith, ==_iff e.slot e.slot)) ∙ l.0,
    Linked-frame v v' (some e.slot) es (λ i m. same i (ground arith)) l.1,
  )

-- What a change of two neighbours does: `pv` is linked forward to `nx`, and `nx` back to `pv`.
abbrev pub relink : (pv nx : Ptr) → ℕ → Order → Order
relink pv nx i x =
    let y = if same pv (some i) then record x { next_at_price = nx } else x in
    if same nx (some i) then record y { prev_at_price = pv } else y

abbrev pub NotIn : Ptr → List ℕ → Type 0
NotIn none xs = Unit
NotIn (some i) xs = mem i xs ≡ false

-- The last slot of a queue is none that the queue does not hold.
pub last_slot-ne :
    (d : ℕ) (es : List Entry) (i : ℕ)
    → ((d == i) || mem i (slots es)) ≡ false
    → same (last_slot (some d) es) (some i) ≡ false
last_slot-ne d [] i h = ground arith
last_slot-ne d (e ∷ es) i h = last_slot-ne e.slot es i (ground arith)

pub mem-snoc :
    (i : ℕ) (es : List Entry) (e : Entry)
    → mem i (slots (es ++ e ∷ [])) ≡ (mem i (slots es) || (e.slot == i))
mem-snoc i [] e = ground arith
mem-snoc i (d ∷ es) e = ground (arith, mem-snoc i es e)

pub Distinct-snoc :
    (es : List Entry) (e : Entry)
    → Distinct (slots es)
    → mem e.slot (slots es) ≡ false
    → Distinct (slots (es ++ e ∷ []))
Distinct-snoc [] e d h = (refl, tt)
Distinct-snoc (c ∷ es) e d h = (
  ground (arith, mem-snoc c.slot es e, ==_iff c.slot e.slot, ==_iff e.slot c.slot),
  Distinct-snoc es e d.1 (ground arith),
)

pub slots-append : (ds es : List Entry) → slots (ds ++ es) ≡ slots ds ++ slots es
slots-append [] es = refl
slots-append (d ∷ ds) es = ap (λ r. d.slot ∷ r) (slots-append ds es)

pub mem-append : (i : ℕ) (xs ys : List ℕ) → mem i (xs ++ ys) ≡ (mem i xs || mem i ys)
mem-append i [] ys = refl
mem-append i (x ∷ xs) ys = ground (arith, mem-append i xs ys)

pub total-append : (ds es : List Entry) → total (ds ++ es) ≡ total ds + total es
total-append [] es = omega arith
total-append (d ∷ ds) es = omega (arith, total-append ds es)

pub last_slot-append :
    (prev : Ptr) (ds : List Entry) (e : Entry) → last_slot prev (ds ++ e ∷ []) ≡ some e.slot
last_slot-append prev [] e = refl
last_slot-append prev (d ∷ ds) e = last_slot-append (some d.slot) ds e

pub mem-middle :
    (i : ℕ) (ds : List Entry) (e : Entry) (es : List Entry)
    → mem i (slots (ds ++ e ∷ es)) ≡ (mem i (slots ds) || ((e.slot == i) || mem i (slots es)))
mem-middle i [] e es = refl
mem-middle i (d ∷ ds) e es = ground (arith, mem-middle i ds e es)

pub head_slot-ne :
    (es : List Entry) (i : ℕ) → mem i (slots es) ≡ false → same (head_slot es) (some i) ≡ false
head_slot-ne [] i h = refl
head_slot-ne (e ∷ es) i h = ground arith

pub NotIn-same :
    (q : Ptr) (xs : List ℕ) (i : ℕ) → NotIn q xs → mem i xs ≡ true → same q (some i) ≡ false
NotIn-same none xs i h m = refl
NotIn-same (some a) xs i h m = ==_comm a i ∙ ne_of_mem i a xs m h

pub relink_id :
    (pv nx : Ptr) (i : ℕ) (y : Order)
    → same pv (some i) ≡ false
    → same nx (some i) ≡ false
    → relink pv nx i y ≡ y
relink_id pv nx i y a b = rw (a, b)

pub relink_back :
    (pv nx : Ptr) (i : ℕ) (y : Order)
    → same pv (some i) ≡ false
    → same nx (some i) ≡ true
    → relink pv nx i y ≡ record y { prev_at_price = pv }
relink_back pv nx i y a b = rw (a, b)

pub relink_forward :
    (pv nx : Ptr) (i : ℕ) (y : Order)
    → same pv (some i) ≡ true
    → same nx (some i) ≡ false
    → relink pv nx i y ≡ record y { next_at_price = nx }
relink_forward pv nx i y a b = rw (a, b)

pub ==_refl : (i : ℕ) → (i == i) ≡ true
==_refl i = ground arith

-- Where an entry stands behind others, none of these has its slot.
pub middle_out :
    (c : ℕ) (ds : List Entry) (e : Entry) (es : List Entry)
    → mem c (slots (ds ++ e ∷ es)) ≡ false
    → (mem c (slots ds) ≡ false) × ((e.slot == c) ≡ false) × (mem c (slots es) ≡ false)
middle_out c ds e es h = ground (arith, mem-middle c ds e es)

pub IsQueue-frame :
    (this : ℕ) {l : PriceLevel} (v v' : ℕ → Option Order) (es : List Entry)
    → ((i : ℕ) → mem i (slots es) ≡ true → v' i ≡ v i)
    → IsQueue this l v es
    → IsQueue this l v' es
IsQueue-frame this v v' es same q = record {
  linked = Linked-frame this v v' none es same q.linked;
  head = q.head;
  tail = q.tail;
  distinct = q.distinct;
  total_quantity = q.total_quantity;
  order_count = q.order_count;
}

-- An order of a queue points to its level.
pub Linked-price_level :
    (this : ℕ) (v : ℕ → Option Order) (prev : Ptr) (es : List Entry) (i : ℕ)
    → Linked this v prev es
    → mem i (slots es) ≡ true
    → (y : Order) × (v i ≡ some y) × (y.price_level ≡ some this)
Linked-price_level this v prev [] i l m = cc
Linked-price_level this v prev (e ∷ es) i l m = elim (Bool-cases (e.slot == i)) [
  | inl h ↦ (_, ap v (sym ((==_iff e.slot i).0 h)) ∙ l.0, refl)
  | inr h ↦ Linked-price_level this v (some e.slot) es i l.1 (ground (arith, h))
]
