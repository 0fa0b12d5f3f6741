-- ===== src/Level/Removal.antt =====
-- `PriceLevel::remove_order` takes any order out of the queue and keeps the others linked.
use l3_lock_free_orderbook_e.Prelude.{
  ℕ, ◌^◌, ◌<◌, ◌≡◌, refl, sym, ap, ◌∙◌, false, Option, none, some, List, [], ◌∷◌, ◌++◌, ok, length,
  length-append, mem, Distinct, Ptr, same, arith, ==_comm,
}
use l3_lock_free_orderbook_e.Prelude.Word.{u32, sub32}
use l3_lock_free_orderbook_e.Pool.FreeList.{view, IsValid}
use l3_lock_free_orderbook_e.Level.{Order, PriceLevel, Orders, detached, remove_order}
use l3_lock_free_orderbook_e.Level.Links.{
  Entry, slots, head_slot, last_slot, place, total, Linked, IsQueue, relink, relink_id, middle_out,
  mem-append, slots-append, head_slot-ne, last_slot-ne, total-append,
}
use l3_lock_free_orderbook_e.Level.Unlink.{Linked-erase}
use l3_lock_free_orderbook_e.Level.Patch.{IsLive, revise, revise_id, shrunk, Cut, remove_order-Cut}

head_slot-out :
    (ds : List Entry) (e : Entry) (es : List Entry)
    → Distinct (slots (ds ++ e ∷ es))
    → same (head_slot es) (some e.slot) ≡ false
head_slot-out [] e es d = head_slot-ne es e.slot d.0
head_slot-out (c ∷ ds) e es d = head_slot-out ds e es d.1

last_slot-out :
    (q : Ptr) (ds : List Entry) (e : Entry) (es : List Entry)
    → same q (some e.slot) ≡ false
    → Distinct (slots (ds ++ e ∷ es))
    → same (last_slot q ds) (some e.slot) ≡ false
last_slot-out q [] e es h d = h
last_slot-out q (c ∷ ds) e es h d =
    last_slot-out (some c.slot) ds e es (==_comm c.slot e.slot ∙ (middle_out c.slot ds e es d.0).1)
      d.1

-- The tail without the entry `e`, which is not the last.
last_slot-drop :
    (q : Ptr) (ds : List Entry) (e f : Entry) (es : List Entry)
    → last_slot q (ds ++ f ∷ es) ≡ last_slot q (ds ++ e ∷ f ∷ es)
last_slot-drop q [] e f es = refl
last_slot-drop q (c ∷ ds) e f es = last_slot-drop (some c.slot) ds e f es

last_slot-end : (q : Ptr) (ds : List Entry) → last_slot q (ds ++ []) ≡ last_slot q ds
last_slot-end q [] = refl
last_slot-end q (c ∷ ds) = last_slot-end (some c.slot) ds

last_slot-some : (d : ℕ) (ds : List Entry) → (t : ℕ) × (last_slot (some d) ds ≡ some t)
last_slot-some d [] = (d, refl)
last_slot-some d (c ∷ ds) = last_slot-some c.slot ds

Distinct-erase :
    (ds : List Entry) (e : Entry) (es : List Entry)
    → Distinct (slots (ds ++ e ∷ es))
    → Distinct (slots (ds ++ es))
Distinct-erase [] e es d = d.1
Distinct-erase (c ∷ ds) e es d =
    let (a, b, n) = middle_out c.slot ds e es d.0 in
    (
      rw (slots-append ds es, mem-append c.slot (slots ds) (slots es), a) n,
      Distinct-erase ds e es d.1,
    )

module _ (this : ℕ) (v : ℕ → Option Order) where
  pub Linked-drop :
      (q : Ptr) (ds es : List Entry)
      → Linked this v q (ds ++ es)
      → Linked this v (last_slot q ds) es
  Linked-drop q [] es l = l
  Linked-drop q (c ∷ ds) es l = Linked-drop (some c.slot) ds es l.1

  last_slot-IsLive :
      (q : Ptr) (ds es : List Entry)
      → IsLive v q
      → Linked this v q (ds ++ es)
      → IsLive v (last_slot q ds)
  last_slot-IsLive q [] es h l = h
  last_slot-IsLive q (c ∷ ds) es h l = last_slot-IsLive (some c.slot) ds es (_, l.0) l.1

  head_slot-IsLive : (q : Ptr) (es : List Entry) → Linked this v q es → IsLive v (head_slot es)
  head_slot-IsLive q [] l = tt
  head_slot-IsLive q (e ∷ es) l = (_, l.0)

total-erase :
    (ds : List Entry) (e : Entry) (es : List Entry)
    → e.order.quantity < 2 ^ 32
    → sub32 (u32 (total (ds ++ e ∷ es))) e.order.quantity ≡ u32 (total (ds ++ es))
total-erase ds e es h = omega (arith, total-append ds (e ∷ es), total-append ds es)

length-erase :
    (ds : List Entry) (e : Entry) (es : List Entry)
    → sub32 (u32 (length (ds ++ e ∷ es))) 1 ≡ u32 (length (ds ++ es))
length-erase ds e es = omega (arith, length-append ds (e ∷ es), length-append ds es)

module _ (this : ℕ) where
  -- What `remove_order` of the entry `e` between `ds` and `es` leaves behind.
  pub record Removed (l : PriceLevel) (o : Orders) (ds : List Entry) (e : Entry) (es : List Entry)
      (l' : PriceLevel) (o' : Orders) : Type 0 where
    pub queue : IsQueue this l' (view o') (ds ++ es)
    pub self : view o' e.slot ≡ some (detached e.order)
    pub frame : (i : ℕ) → mem i (slots (ds ++ e ∷ es)) ≡ false → view o' i ≡ view o i
    pub level : (l'.price ≡ l.price) × (l'.side ≡ l.side)
    pub valid : (cap : ℕ) (free : List ℕ) → IsValid cap o free → IsValid cap o' free

  abbrev placed : List Entry → Entry → List Entry → Order
  placed ds e es = place e.order this (last_slot none ds) (head_slot es)

  shrunk-head :
      (l : PriceLevel) (ds : List Entry) (e : Entry) (es : List Entry)
      → l.head_order ≡ head_slot (ds ++ e ∷ es)
      → (shrunk l (placed ds e es)).head_order ≡ head_slot (ds ++ es)
  shrunk-head l [] e es h = refl
  shrunk-head l (c ∷ ds) e es h = rw (last_slot-some c.slot ds).1 h

  shrunk-tail :
      (l : PriceLevel) (ds : List Entry) (e : Entry) (es : List Entry)
      → l.tail_order ≡ last_slot none (ds ++ e ∷ es)
      → (shrunk l (placed ds e es)).tail_order ≡ last_slot none (ds ++ es)
  shrunk-tail l ds e [] h = sym (last_slot-end none ds)
  shrunk-tail l ds e (f ∷ es) h = h ∙ sym (last_slot-drop none ds e f es)

  last_slot-away :
      (ds : List Entry) (i : ℕ)
      → mem i (slots ds) ≡ false
      → same (last_slot none ds) (some i) ≡ false
  last_slot-away [] i h = refl
  last_slot-away (c ∷ ds) i h = last_slot-ne c.slot ds i h

  module _ {l : PriceLevel} {o : Orders} (ds : List Entry) (e : Entry) (es : List Entry)
      (q : IsQueue this l (view o) (ds ++ e ∷ es)) (small : e.order.quantity < 2 ^ 32) where
    Cut-Removed :
        (o' : Orders)
        → Cut o e.slot (placed ds e es) o'
        → Removed l o ds e es (shrunk l (placed ds e es)) o'
    Cut-Removed o' c = record {
      queue = record {
        linked =
            Linked-erase this (view o) (view o') none ds e es
              (λ i y ne h.
                c.others i ne ∙ ap (revise (relink (last_slot none ds) (head_slot es) i)) h)
              q.distinct tt q.linked;
        head = shrunk-head l ds e es q.head;
        tail = shrunk-tail l ds e es q.tail;
        distinct = Distinct-erase ds e es q.distinct;
        total_quantity = rw q.total_quantity (total-erase ds e es small);
        order_count = rw q.order_count (length-erase ds e es);
      };
      self = c.self;
      frame = λ i m.
          let (a, b, n) = middle_out i ds e es m in
          c.others i b
          ∙ revise_id (relink (last_slot none ds) (head_slot es) i) (view o i) (λ y.
            relink_id (last_slot none ds) (head_slot es) i y (last_slot-away ds i a)
              (head_slot-ne es i n));
      level = (refl, refl);
      valid = c.valid;
    }

    -- `remove_order` of any order of the queue, of a quantity below 2^32, takes it out: the orders before
    -- and behind it become neighbours, with the level's total quantity and count kept, its own three
    -- pointers are null, and no order outside the queue changes.
    pub remove_order-Removed :
        (l' : PriceLevel) × (o' : Orders) × (remove_order l (some e.slot) o ≡ ok (l', o'))
        × Removed l o ds e es l' o'
    remove_order-Removed =
        let here = Linked-drop this (view o) none ds (e ∷ es) q.linked in
        let (o', run, c) =
          remove_order-Cut l o e.slot (placed ds e es) here.0
            (last_slot-IsLive this (view o) none ds (e ∷ es) tt q.linked)
            (head_slot-IsLive this (view o) (some e.slot) es here.1)
            (last_slot-out none ds e es refl q.distinct) (head_slot-out ds e es q.distinct) in
        (_, o', run, Cut-Removed o' c)
