-- ===== src/Level/Append.antt =====
-- `PriceLevel::add_order` puts the order at the end of the queue.
use l3_lock_free_orderbook_e.Prelude.{
  ℕ, ◌≡◌, refl, sym, ◌∙◌, true, false, Option, none, some, List, [], ◌∷◌, ◌++◌, ok, length-append,
  mem, Distinct, Ptr, same, arith, ◌==◌, ==_iff, ==_comm, ne_of_mem,
}
use l3_lock_free_orderbook_e.Prelude.Word.{add32}
use l3_lock_free_orderbook_e.Pool.FreeList.{view, IsValid}
use l3_lock_free_orderbook_e.Pool.Access.{
  written, written-IsValid, load-view, store-view, view-written, view-written_self, view-written_ne,
}
use l3_lock_free_orderbook_e.Level.{Order, PriceLevel, Orders, modify_order, add_order}
use l3_lock_free_orderbook_e.Level.Links.{
  Entry, slots, head_slot, last_slot, place, Linked, IsQueue, total-append, last_slot-append,
  last_slot-ne, Distinct-snoc,
}

pub modify_order-view :
    (i : ℕ) (f : Order → Order) (o : Orders) {x : Order}
    → view o i ≡ some x
    → modify_order (some i) f o ≡ ok (written o i (f x))
unfolding modify_order
modify_order-view i f o e = rw (load-view o i e) (store-view o i _ e)

-- The level after `add_order`, with the head that it then has.
abbrev grown : PriceLevel → ℕ → Order → Ptr → PriceLevel
grown l p x h = record l {
  head_order = h;
  tail_order = some p;
  total_quantity = add32 l.total_quantity x.quantity;
  order_count = add32 l.order_count 1;
}

module _ (this : ℕ) where
  -- The queue with an entry more, if `v'` holds the new order and the old last one points to it.
  Linked-snoc :
      (v v' : ℕ → Option Order) (prev : Ptr) (es : List Entry) (p : ℕ) (x : Order)
      → Linked this v prev es
      → v' p ≡ some (place x this (last_slot prev es) none)
      → ((i : ℕ) → mem i (slots es) ≡ true → same (last_slot prev es) (some i) ≡ false → v' i ≡ v i)
      → ((i : ℕ) (y : Order)
          → mem i (slots es) ≡ true
          → same (last_slot prev es) (some i) ≡ true
          → v i ≡ some y
          → v' i ≡ some (record y { next_at_price = some p }))
      → Distinct (slots es)
      → Linked this v' prev (es ++ record { slot = p; order = x } ∷ [])
  Linked-snoc v v' prev [] p x l new same_else patched d = (new, tt)
  Linked-snoc v v' prev (e ∷ []) p x l new same_else patched d = (
    patched e.slot _ (ground (arith, ==_iff e.slot e.slot)) (ground (arith, ==_iff e.slot e.slot))
        l.0,
    (new, tt),
  )
  Linked-snoc v v' prev (e ∷ f ∷ es) p x l new same_else patched d = (
    same_else e.slot (ground (arith, ==_iff e.slot e.slot)) (last_slot-ne f.slot es e.slot d.0)
        ∙ l.0,
    Linked-snoc v v' (some e.slot) (f ∷ es) p x l.1 new (λ i m. same_else i (ground arith))
        (λ i y m. patched i y (ground arith)) d.1,
  )

  last-view :
      (v : ℕ → Option Order) (prev : Ptr) (e : Entry) (es : List Entry)
      → Linked this v prev (e ∷ es)
      → (t : ℕ) × (y : Order) × (last_slot prev (e ∷ es) ≡ some t)
        × (v t ≡ some y)
        × (mem t (slots (e ∷ es)) ≡ true)
  last-view v prev e [] l = (e.slot, _, refl, l.0, ground (arith, ==_iff e.slot e.slot))
  last-view v prev e (f ∷ es) l =
      let (t, y, a, b, c) = last-view v (some e.slot) f es l.1 in (t, y, a, b, ground arith)

  -- What `add_order` of the order `x` in the slot `p` leaves behind.
  pub record Added (l : PriceLevel) (o : Orders) (es : List Entry) (p : ℕ) (x : Order)
      (l' : PriceLevel) (o' : Orders) : Type 0 where
    pub queue : IsQueue this l' (view o') (es ++ record { slot = p; order = x } ∷ [])
    pub frame : (i : ℕ) → mem i (slots es) ≡ false → (p == i) ≡ false → view o' i ≡ view o i
    pub level : (l'.price ≡ l.price) × (l'.side ≡ l.side)
    pub valid : (cap : ℕ) (free : List ℕ) → IsValid cap o free → IsValid cap o' free

  module _ {l : PriceLevel} (v : ℕ → Option Order) {es : List Entry} (p : ℕ) (x : Order)
      (q : IsQueue this l v es) (out : mem p (slots es) ≡ false) where
    grown-IsQueue :
        (h : Ptr) (v' : ℕ → Option Order)
        → h ≡ head_slot (es ++ record { slot = p; order = x } ∷ [])
        → Linked this v' none (es ++ record { slot = p; order = x } ∷ [])
        → IsQueue this (grown l p x h) v' (es ++ record { slot = p; order = x } ∷ [])
    grown-IsQueue h v' e l' = record {
      linked = l';
      head = e;
      tail = sym (last_slot-append none es (record { slot = p; order = x }));
      distinct = Distinct-snoc es _ q.distinct out;
      total_quantity =
          omega (arith, q.total_quantity, total-append es (record { slot = p; order = x } ∷ []));
      order_count =
          omega (arith, q.order_count, length-append es (record { slot = p; order = x } ∷ []));
    }

  module _ (l : PriceLevel) (o : Orders) (p : ℕ) {x : Order} (new : view o p ≡ some x) where
    add_order-run_nil :
        l.tail_order ≡ none
        → add_order this l (some p) o
          ≡ ok (grown l p x (some p), written o p (place x this none none))
    unfolding add_order
    add_order-run_nil e = rw (
      load-view o p new,
      store-view o p (place x this l.tail_order none) new,
      e,
      e,
      load-view (written o p (place x this none none)) p (view-written_self o p _),
    )

    add_order-run_cons :
        (t : ℕ) {y : Order}
        → l.tail_order ≡ some t
        → (p == t) ≡ false
        → view o t ≡ some y
        → add_order this l (some p) o
          ≡ ok (
            grown l p x l.head_order,
            written
                (written o p (place x this (some t) none))
                t
                (record y { next_at_price = some p }),
          )
    unfolding add_order
    add_order-run_cons t {y} e ne old =
        let o₁ = written o p (place x this (some t) none) in
        let kept : view o₁ t ≡ some y = view-written_ne o p _ t ne ∙ old in
        rw (
          load-view o p new,
          store-view o p (place x this l.tail_order none) new,
          e,
          e,
          modify_order-view t (λ z. record z { next_at_price = some p }) o₁ kept,
          load-view (written o₁ t (record y { next_at_price = some p })) p
              (view-written_ne o₁ t _ p (==_comm t p ∙ ne) ∙ view-written_self o p _),
        )

  Added-nil :
      {l : PriceLevel} {o : Orders} (p : ℕ) (x : Order)
      → IsQueue this l (view o) []
      → view o p ≡ some x
      → Added l o [] p x (grown l p x (some p)) (written o p (place x this none none))
  Added-nil {l} {o} p x q new = record {
    queue = grown-IsQueue (view o) p x q refl (some p) _ refl (view-written_self o p _, tt);
    frame = λ i m ne. view-written_ne o p _ i ne;
    level = (refl, refl);
    valid = λ cap free v. written-IsValid o p _ new v;
  }

  view-next :
      (o o₁ : Orders) (t i p : ℕ) (y z : Order)
      → (t == i) ≡ true
      → view o t ≡ some y
      → view o i ≡ some z
      → view (written o₁ t (record y { next_at_price = some p })) i
        ≡ some (record z { next_at_price = some p })
  view-next o o₁ t i p y z h a b =
      ground (arith, ==_iff t i, view-written o₁ t (record y { next_at_price = some p }) i)

  Added-cons :
      {l : PriceLevel} {o : Orders} (e : Entry) (es : List Entry) (p : ℕ) (x : Order) (t : ℕ)
      {y : Order}
      → IsQueue this l (view o) (e ∷ es)
      → view o p ≡ some x
      → mem p (slots (e ∷ es)) ≡ false
      → last_slot none (e ∷ es) ≡ some t
      → view o t ≡ some y
      → mem t (slots (e ∷ es)) ≡ true
      → (p == t) ≡ false
      → Added l o (e ∷ es) p x (grown l p x l.head_order) (
          written
            (written o p (place x this (some t) none))
            t
            (record y { next_at_price = some p }))
  Added-cons {l} {o} e es p x t {y} q new out last old m ne =
      let o₁ = written o p (place x this (some t) none) in
      let o₂ = written o₁ t (record y { next_at_price = some p }) in
      let kept : view o₁ t ≡ some y = view-written_ne o p _ t ne ∙ old in
      let ne' : (t == p) ≡ false = ==_comm t p ∙ ne in
      record {
        queue = grown-IsQueue (view o) p x q out l.head_order (view o₂) q.head (
            Linked-snoc (view o) (view o₂) none (e ∷ es) p x q.linked
              (rw last (view-written_ne o₁ t _ p ne' ∙ view-written_self o p _))
              (λ i mi h.
                view-written_ne o₁ t _ i (rw last at h)
                ∙ view-written_ne o p _ i (==_comm p i ∙ ne_of_mem i p (slots (e ∷ es)) mi out))
              (λ i z mi h vi. view-next o o₁ t i p y z (rw last at h) old vi) q.distinct);
        frame = λ i mi h.
            view-written_ne o₁ t _ i (ne_of_mem t i (slots (e ∷ es)) m mi)
            ∙ view-written_ne o p _ i h;
        level = (refl, refl);
        valid = λ cap free v. written-IsValid o₁ t _ kept (written-IsValid o p _ new v);
      }

  -- `add_order` puts a live order that is not in the queue at its end, with the level's total quantity
  -- and count kept; no other order changes.
  pub add_order-Added :
      {l : PriceLevel} {o : Orders} (es : List Entry) (p : ℕ) (x : Order)
      → IsQueue this l (view o) es
      → view o p ≡ some x
      → mem p (slots es) ≡ false
      → (l' : PriceLevel) × (o' : Orders) × (add_order this l (some p) o ≡ ok (l', o'))
        × Added l o es p x l' o'
  add_order-Added {l} {o} [] p x q new out =
      (_, _, add_order-run_nil l o p new q.tail, Added-nil p x q new)
  add_order-Added {l} {o} (e ∷ es) p x q new out =
      let (t, y, last, old, m) = last-view (view o) none e es q.linked in
      let ne : (p == t) ≡ false = ==_comm p t ∙ ne_of_mem t p (slots (e ∷ es)) m out in
      (
        _,
        _,
        add_order-run_cons l o p new t (q.tail ∙ last) ne old,
        Added-cons e es p x t q new out last old m ne,
      )
