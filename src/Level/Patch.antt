-- ===== src/Level/Patch.antt =====
-- The run of `PriceLevel::remove_order` on the pool of orders.
use l3_lock_free_orderbook_e.Prelude.{
  ℕ, ◌≡◌, refl, ap, ◌∙◌, false, Option, none, some, List, ok, Ptr, same, ◌==◌, ==_iff,
  if◌then◌else◌, sym, Bool-cases, inl, inr,
}
use l3_lock_free_orderbook_e.Prelude.Word.{sub32}
use l3_lock_free_orderbook_e.Pool.FreeList.{view, IsValid}
use l3_lock_free_orderbook_e.Pool.Access.{
  written, written-IsValid, load-view, store-view, view-written, view-written_self, view-written_ne,
}
use l3_lock_free_orderbook_e.Level.{
  Order, PriceLevel, Orders, relink_prev, relink_next, detached, remove_order,
}
use l3_lock_free_orderbook_e.Level.Links.{relink, ==_refl}
use l3_lock_free_orderbook_e.Level.Append.{modify_order-view}

-- Null, or a pointer to a live order.
abbrev pub IsLive : (ℕ → Option Order) → Ptr → Type 0
IsLive v none = Unit
IsLive v (some i) = (y : Order) × (v i ≡ some y)

abbrev pub revise : (Order → Order) → Option Order → Option Order
revise f none = none
revise f (some y) = some (f y)

-- Every live order has been changed by `f`.
pub record Patched (f : ℕ → Order → Order) (o o' : Orders) : Type 0 where
  pub view : (i : ℕ) → view o' i ≡ revise (f i) (view o i)
  pub valid : (cap : ℕ) (free : List ℕ) → IsValid cap o free → IsValid cap o' free

-- The order that `p` points to is changed by `f`.
abbrev pub at : Ptr → (Order → Order) → ℕ → Order → Order
at p f i y = if same p (some i) then f y else y

pub revise_id : (f : Order → Order) (x : Option Order) → ((y : Order) → f y ≡ y) → revise f x ≡ x
revise_id f none h = refl
revise_id f (some y) h = ap some (h y)

written-view :
    (o : Orders) (p : ℕ) (f : Order → Order) {x : Order} (i : ℕ)
    → view o p ≡ some x
    → view (written o p (f x)) i ≡ revise (at (some p) f i) (view o i)
written-view o p f {x} i e = elim (Bool-cases (p == i)) [
  | inl h ↦ rw (view-written o p (f x) i, h, ← (==_iff p i).0 h, e, ==_refl p) refl
  | inr h ↦ rw (view-written o p (f x) i, h) (sym (revise_id _ (view o i) (λ y. rw h refl)))
]

written-Patched :
    (o : Orders) (p : ℕ) (f : Order → Order) {x : Order}
    → view o p ≡ some x
    → Patched (at (some p) f) o (written o p (f x))
written-Patched o p f {x} e = record {
  view = λ i. written-view o p f i e;
  valid = λ cap free v. written-IsValid o p (f x) e v;
}

abbrev pub headed : PriceLevel → Ptr → Ptr → PriceLevel
headed l prev next = record l { head_order = elim prev [ none ↦ next | some p ↦ l.head_order ] }

abbrev pub tailed : PriceLevel → Ptr → Ptr → PriceLevel
tailed l prev next = record l { tail_order = elim next [ none ↦ prev | some n ↦ l.tail_order ] }

relink_prev-Patched :
    (l : PriceLevel) (prev next : Ptr) (o : Orders)
    → IsLive (view o) prev
    → (o' : Orders) × (relink_prev l prev next o ≡ ok (headed l prev next, o'))
      × Patched (at prev (λ y. record y { next_at_price = next })) o o'
unfolding relink_prev
relink_prev-Patched l none next o h = (
  o,
  refl,
  record { view = λ i. sym (revise_id _ (view o i) (λ y. refl)); valid = λ cap free v. v },
)
relink_prev-Patched l (some p) next o h = (
  _,
  rw (modify_order-view p (λ y. record y { next_at_price = next }) o h.1) refl,
  written-Patched o p _ h.1,
)

relink_next-Patched :
    (l : PriceLevel) (prev next : Ptr) (o : Orders)
    → IsLive (view o) next
    → (o' : Orders) × (relink_next l prev next o ≡ ok (tailed l prev next, o'))
      × Patched (at next (λ y. record y { prev_at_price = prev })) o o'
unfolding relink_next
relink_next-Patched l prev none o h = (
  o,
  refl,
  record { view = λ i. sym (revise_id _ (view o i) (λ y. refl)); valid = λ cap free v. v },
)
relink_next-Patched l prev (some n) o h = (
  _,
  rw (modify_order-view n (λ y. record y { prev_at_price = prev }) o h.1) refl,
  written-Patched o n _ h.1,
)

revise-revise :
    (f g : Order → Order) (x : Option Order) → revise g (revise f x) ≡ revise (λ y. g (f y)) x
revise-revise f g none = refl
revise-revise f g (some y) = refl

Patched-trans :
    (f g : ℕ → Order → Order) (o o₁ o₂ : Orders)
    → Patched f o o₁
    → Patched g o₁ o₂
    → Patched (λ i y. g i (f i y)) o o₂
Patched-trans f g o o₁ o₂ a b = record {
  view = λ i. b.view i ∙ ap (revise (g i)) (a.view i) ∙ revise-revise (f i) (g i) (view o i);
  valid = λ cap free v. b.valid cap free (a.valid cap free v);
}

-- The other end is still live once the first has been changed.
IsLive-Patched :
    (f : ℕ → Order → Order) (o o' : Orders) (p : Ptr)
    → Patched f o o'
    → IsLive (view o) p
    → IsLive (view o') p
IsLive-Patched f o o' none a h = tt
IsLive-Patched f o o' (some i) a h = (_, a.view i ∙ ap (revise (f i)) h.1)

-- The level after `remove_order` of an order `x`.
abbrev pub shrunk : PriceLevel → Order → PriceLevel
shrunk l x = record l {
  total_quantity = sub32 l.total_quantity x.quantity;
  order_count = sub32 l.order_count 1;
  head_order = elim x.prev_at_price [ none ↦ x.next_at_price | some p ↦ l.head_order ];
  tail_order = elim x.next_at_price [ none ↦ x.prev_at_price | some n ↦ l.tail_order ];
}

-- The neighbours of the order `x` in the slot `p` are relinked, and the order is detached.
pub record Cut (o : Orders) (p : ℕ) (x : Order) (o' : Orders) : Type 0 where
  pub self : view o' p ≡ some (detached x)
  pub others :
      (i : ℕ)
      → (p == i) ≡ false
      → view o' i ≡ revise (relink x.prev_at_price x.next_at_price i) (view o i)
  pub valid : (cap : ℕ) (free : List ℕ) → IsValid cap o free → IsValid cap o' free

module _ (l : PriceLevel) (o : Orders) (p : ℕ) (x : Order) (here : view o p ≡ some x)
    (prev_live : IsLive (view o) x.prev_at_price) (next_live : IsLive (view o) x.next_at_price)
    (prev_ne : same x.prev_at_price (some p) ≡ false)
    (next_ne : same x.next_at_price (some p) ≡ false) where
  pub remove_order-Cut :
      (o' : Orders) × (remove_order l (some p) o ≡ ok (shrunk l x, o')) × Cut o p x o'
  unfolding remove_order
  remove_order-Cut =
      let prev = x.prev_at_price in
      let next = x.next_at_price in
      let (o₁, run₁, a) = relink_prev-Patched l prev next o prev_live in
      let here₁ : view o₁ p ≡ some x =
        a.view p
        ∙ ap (revise (at prev (λ y. record y { next_at_price = next }) p)) here
        ∙ rw prev_ne refl in
      let (o₂, run₂, b) =
        relink_next-Patched (headed l prev next) prev next o₁
          (IsLive-Patched _ o o₁ next a next_live) in
      let here₂ : view o₂ p ≡ some x =
        b.view p
        ∙ ap (revise (at next (λ y. record y { prev_at_price = prev }) p)) here₁
        ∙ rw next_ne refl in
      let c = Patched-trans _ _ o o₁ o₂ a b in
      (
        written o₂ p (detached x),
        rw
            (
              load-view o p here,
              run₁,
              load-view o₁ p here₁,
              run₂,
              load-view o₂ p here₂,
              store-view o₂ p (detached x) here₂,
            )
            refl,
        record {
          self = view-written_self o₂ p (detached x);
          others = λ i ne. view-written_ne o₂ p _ i ne ∙ c.view i;
          valid = λ cap free v. written-IsValid o₂ p _ here₂ (c.valid cap free v);
        },
      )
