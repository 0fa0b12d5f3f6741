-- ===== src/Tree/Round.antt =====
-- What a round of `insert_fixup` does to the tree.

use l3_lock_free_orderbook_e.Prelude.{ℕ, ◌+◌, ◌≤◌, ◌≡◌, refl, List}
use l3_lock_free_orderbook_e.Tree.Memory.{Color, red, black, IntrusiveRbTree}
use l3_lock_free_orderbook_e.Tree.Shape.{
  Shape, branch, Context, top, in_left, in_right, slots, fill, depth,
}
use l3_lock_free_orderbook_e.Tree.Cells.{Focus}
use l3_lock_free_orderbook_e.Tree.Balance.{Blushing}

-- The color of the whole tree's root, where that of the subtree is `c`.
abbrev pub color_above : Color → Context → Color
color_above c top = c
color_above c (in_left p d r k) = color_above d k
color_above c (in_right l p d k) = color_above d k

-- The root of the whole tree is black, unless it is the subtree's.
abbrev pub BlackAbove : Context → Type 0
BlackAbove top = Unit
BlackAbove (in_left p c r k) = color_above c k ≡ black
BlackAbove (in_right l p c k) = color_above c k ≡ black

pub black_above : (c : Color) (k : Context) → color_above c k ≡ black → BlackAbove k
black_above c top h = tt
black_above c (in_left p d r k) h = h
black_above c (in_right l p d k) h = h

pub still_black : (c : Color) (k : Context) → color_above c k ≡ black → color_above black k ≡ black
still_black c top h = refl
still_black c (in_left p d r k) h = h
still_black c (in_right l p d k) h = h

-- A round has moved on to the red node `z`, at most as deep as the parent was; the slots of the whole
-- tree stand in the order that they had. If `In` was true of the family of the node before, its new
-- place is one for a red node.
pub record Risen (In : Type 0) (k : Context) (xs : List ℕ) (t t' : IntrusiveRbTree) (z : ℕ)
    : Type 0 where
  pub left : Shape
  pub right : Shape
  pub place : Context
  pub focus : Focus t' (branch left z red right) place
  pub order : fill place (slots (branch left z red right)) ≡ fill k xs
  pub above : BlackAbove place
  pub shallower : depth place ≤ 1 + depth k
  pub size : t'.size ≡ t.size
  pub balanced : In → Blushing left right place

pub Risen-after :
    {In Out : Type 0} {k : Context} {xs : List ℕ} {t t' : IntrusiveRbTree} {z : ℕ}
    → (Out → In)
    → Risen In k xs t t' z
    → Risen Out k xs t t' z
Risen-after f r = record {
  left = r.left;
  right = r.right;
  place = r.place;
  focus = r.focus;
  order = r.order;
  above = r.above;
  shallower = r.shallower;
  size = r.size;
  balanced = λ b. r.balanced (f b);
}
