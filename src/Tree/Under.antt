-- ===== src/Tree/Under.antt =====
-- Places in a subtree as places in the whole tree.
use l3_lock_free_orderbook_e.Prelude.{
  ℕ, ◌<◌, ◌≡◌, refl, sym, ap, ◌∙◌, arith, ◌==◌, Bool-cases, inl, inr, ==_iff,
}
use l3_lock_free_orderbook_e.Tree.Memory.{Color, IntrusiveRbTree}
use l3_lock_free_orderbook_e.Tree.Shape.{
  Shape, leaf, branch, Context, top, in_left, in_right, plug, times,
}
use l3_lock_free_orderbook_e.Tree.Cells.{Focus}
use l3_lock_free_orderbook_e.Tree.Paint.{up_left, up_right, down_left, down_right}
use l3_lock_free_orderbook_e.Tree.Balance.{IsRedBlack}

-- A place `j` in the subtree at `k`.
abbrev pub under : Context → Context → Context
under top k = k
under (in_left p c r j) k = in_left p c r (under j k)
under (in_right l p c j) k = in_right l p c (under j k)

pub plug-under : (s : Shape) (j k : Context) → plug s (under j k) ≡ plug (plug s j) k
plug-under s top k = refl
plug-under s (in_left p c r j) k = plug-under (branch s p c r) j k
plug-under s (in_right l p c j) k = plug-under (branch l p c s) j k

pub Focus-down :
    {t : IntrusiveRbTree} (s : Shape) (j k : Context) → Focus t (plug s j) k → Focus t s (under j k)
Focus-down s top k g = g
Focus-down s (in_left p c r j) k g = down_left (Focus-down (branch s p c r) j k g)
Focus-down s (in_right l p c j) k g = down_right (Focus-down (branch l p c s) j k g)

pub Focus-up :
    {t : IntrusiveRbTree} (s : Shape) (j k : Context) → Focus t s (under j k) → Focus t (plug s j) k
Focus-up s top k g = g
Focus-up s (in_left p c r j) k g = Focus-up (branch s p c r) j k (up_left g)
Focus-up s (in_right l p c j) k g = Focus-up (branch l p c s) j k (up_right g)

pub IsRedBlack-part : (s : Shape) (k : Context) → IsRedBlack (plug s k) → IsRedBlack s
IsRedBlack-part s top h = h
IsRedBlack-part s (in_left p c r k) h = (IsRedBlack-part (branch s p c r) k h).0.0
IsRedBlack-part s (in_right l p c k) h = (IsRedBlack-part (branch l p c s) k h).0.1

-- Where the slot `v` stands in a tree.
pub record PlaceOf (v : ℕ) (s : Shape) : Type 0 where
  pub left : Shape
  pub color : Color
  pub right : Shape
  pub around : Context
  pub whole : plug (branch left v color right) around ≡ s

place_in : (v : ℕ) {s s' : Shape} (k : Context) → plug s k ≡ s' → PlaceOf v s → PlaceOf v s'
place_in v k e w = record {
  left = w.left;
  color = w.color;
  right = w.right;
  around = under w.around k;
  whole = plug-under (branch w.left v w.color w.right) w.around k ∙ ap (λ x. plug x k) w.whole ∙ e;
}

pub place_of : (v : ℕ) (s : Shape) → 0 < times v s → PlaceOf v s
place_of v leaf h = absurd (omega arith)
place_of v (branch l p c r) h = elim (Bool-cases (p == v)) [
  | inl e ↦ record {
    left = l;
    color = c;
    right = r;
    around = top;
    whole = ap (λ i. branch l i c r) (sym ((==_iff p v).0 e));
  }
  | inr e ↦ elim (Bool-cases (0 == times v l)) [
    | inl a ↦ place_in v (in_right l p c top) refl (place_of v r (ground (arith, e, a)))
    | inr a ↦ place_in v (in_left p c r top) refl (place_of v l (ground (arith, a)))
  ]
]
