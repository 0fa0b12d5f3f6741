-- ===== src/Tree/Balance.antt =====
-- Red-black trees: no red node has a red child, and all ways down pass as many black nodes.
use l3_lock_free_orderbook_e.Prelude.{
  ℕ, suc, ◌+◌, ◌≡◌, ◌&&◌, refl, sym, ◌∙◌, subst, Bool, false, arith,
}
use l3_lock_free_orderbook_e.Tree.Memory.{Color, red, black, is_red_color}
use l3_lock_free_orderbook_e.Tree.Shape.{Shape, leaf, branch, Context, top, in_left, in_right, plug}
use l3_lock_free_orderbook_e.Tree.Paint.{red_root}

abbrev pub weight : Color → ℕ
weight red = 0
weight black = 1

-- The number of black nodes on the way down to a leaf, the left way.
abbrev pub black_height : Shape → ℕ
black_height leaf = 0
black_height (branch l p c r) = black_height l + weight c

-- A red node has children that are not red.
abbrev pub BlackChildren : Color → Shape → Shape → Type 0
BlackChildren red l r = (red_root l ≡ false) × (red_root r ≡ false)
BlackChildren black l r = Unit

abbrev pub IsRedBlack : Shape → Type 0
IsRedBlack leaf = Unit
IsRedBlack (branch l p c r) =
    (IsRedBlack l × IsRedBlack r) × (black_height l ≡ black_height r) × BlackChildren c l r

abbrev pub red_parent : Context → Bool
red_parent top = false
red_parent (in_left p c r k) = is_red_color c
red_parent (in_right l p c k) = is_red_color c

-- A red node around a place, with the other child `s`.
abbrev pub BlackBeside : Color → Shape → Context → Type 0
BlackBeside red s k = (red_root s ≡ false) × (red_parent k ≡ false)
BlackBeside black s k = Unit

-- What is around a place is red-black, for a subtree of the black height `n` with a root of any color.
abbrev pub RedBlackAround : ℕ → Context → Type 0
RedBlackAround n top = Unit
RedBlackAround n (in_left p c r k) =
    (IsRedBlack r × (n ≡ black_height r)) × BlackBeside c r k × RedBlackAround (n + weight c) k
RedBlackAround n (in_right l p c k) =
    (IsRedBlack l × (n ≡ black_height l)) × BlackBeside c l k × RedBlackAround (n + weight c) k

-- A place for a red node with the children `l` and `r`: all is red-black but that the parent may be red.
pub record Blushing (l r : Shape) (k : Context) : Type 0 where
  pub left : IsRedBlack l
  pub right : IsRedBlack r
  pub even : black_height l ≡ black_height r
  pub left_black : red_root l ≡ false
  pub right_black : red_root r ≡ false
  pub around : RedBlackAround (black_height l) k

-- The family of a red node with a red parent: the parent's children `l` and `r`, of which `s` is not
-- red, and the uncle `y`, below a grandparent at `k`.
pub record Family (l r s y : Shape) (k : Context) : Type 0 where
  pub left : IsRedBlack l
  pub right : IsRedBlack r
  pub uncle : IsRedBlack y
  pub even : black_height l ≡ black_height r
  pub uncle_even : black_height l ≡ black_height y
  pub sibling_black : red_root s ≡ false
  pub around : RedBlackAround (suc (black_height l)) k

pub black_weight : (c : Color) → is_red_color c ≡ false → weight c ≡ 1
black_weight red h = cc
black_weight black h = refl

-- What becomes of a family in a round: the red node moves up to the grandparent,
module _ {l r s y : Shape} {k : Context} where
  pub Family-flip : Family l r s y k → Family r l s y k
  Family-flip f = record {
    left = f.right;
    right = f.left;
    uncle = f.uncle;
    even = sym f.even;
    uncle_even = sym f.even ∙ f.uncle_even;
    sibling_black = f.sibling_black;
    around = subst (λ n. RedBlackAround (suc n) k) f.even f.around;
  }

pub recolored_left :
    {l r s yl yr : Shape} {k : Context} {p y : ℕ}
    → Family l r s (branch yl y red yr) k
    → Blushing (branch l p black r) (branch yl y black yr) k
recolored_left {l} {k} f = record {
  left = ((f.left, f.right), f.even, tt);
  right = (f.uncle.0, f.uncle.1, tt);
  even = omega (arith, f.uncle_even);
  left_black = refl;
  right_black = refl;
  around = subst (λ n. RedBlackAround n k) (omega arith) f.around;
}

pub recolored_right :
    {l r s yl yr : Shape} {k : Context} {p y : ℕ}
    → Family l r s (branch yl y red yr) k
    → Blushing (branch yl y black yr) (branch l p black r) k
recolored_right {l} {yl} {k} f = record {
  left = (f.uncle.0, f.uncle.1, tt);
  right = ((f.left, f.right), f.even, tt);
  even = omega (arith, f.uncle_even);
  left_black = refl;
  right_black = refl;
  around = subst (λ n. RedBlackAround n k) (omega (arith, f.uncle_even)) f.around;
}

-- or the grandparent sinks below the parent, or below the red node itself.
module _ {zl zr s y : Shape} {k : Context} {z g : ℕ} (f : Family (branch zl z red zr) s s y k)
    (uncle_black : red_root y ≡ false) where
  pub sunk_left-outer : {p : ℕ} → Blushing zl zr (in_left p black (branch s g red y) k)
  sunk_left-outer = record {
    left = f.left.0.0;
    right = f.left.0.1;
    even = f.left.1;
    left_black = f.left.2.0;
    right_black = f.left.2.1;
    around = (
      (
        ((f.right, f.uncle), omega (arith, f.even, f.uncle_even), (f.sibling_black, uncle_black)),
        omega (arith, f.even),
      ),
      tt,
      subst (λ n. RedBlackAround n k) (omega arith) f.around,
    );
  }

  pub sunk_right-outer : {p : ℕ} → Blushing zl zr (in_right (branch y g red s) p black k)
  sunk_right-outer = record {
    left = f.left.0.0;
    right = f.left.0.1;
    even = f.left.1;
    left_black = f.left.2.0;
    right_black = f.left.2.1;
    around = (
      (
        ((f.uncle, f.right), omega (arith, f.even, f.uncle_even), (uncle_black, f.sibling_black)),
        omega (arith, f.uncle_even),
      ),
      tt,
      subst (λ n. RedBlackAround n k) (omega arith) f.around,
    );
  }

  pub sunk_left-inner : Blushing s zl (in_left z black (branch zr g red y) k)
  sunk_left-inner = record {
    left = f.right;
    right = f.left.0.0;
    even = omega (arith, f.even);
    left_black = f.sibling_black;
    right_black = f.left.2.0;
    around = (
      (
        ((f.left.0.1, f.uncle), omega (arith, f.left.1, f.uncle_even), (f.left.2.1, uncle_black)),
        omega (arith, f.even, f.left.1),
      ),
      tt,
      subst (λ n. RedBlackAround n k) (omega (arith, f.even)) f.around,
    );
  }

  pub sunk_right-inner : Blushing zr s (in_right (branch y g red zl) z black k)
  sunk_right-inner = record {
    left = f.left.0.1;
    right = f.right;
    even = omega (arith, f.even, f.left.1);
    left_black = f.left.2.1;
    right_black = f.sibling_black;
    around = (
      (
        ((f.uncle, f.left.0.0), omega (arith, f.uncle_even), (uncle_black, f.left.2.0)),
        omega (arith, f.left.1, f.uncle_even),
      ),
      tt,
      subst (λ n. RedBlackAround n k) (omega (arith, f.left.1)) f.around,
    );
  }

-- The whole tree, when the red node does not stand below a red parent.
pub IsRedBlack-plug :
    (s : Shape) (k : Context)
    → IsRedBlack s
    → RedBlackAround (black_height s) k
    → (red_root s && red_parent k) ≡ false
    → IsRedBlack (plug s k)
IsRedBlack-plug s top h a e = h
IsRedBlack-plug s (in_left p red r k) h a e =
    IsRedBlack-plug (branch s p red r) k ((h, a.0.0), a.0.1, (ground (arith, e), a.1.0)) a.2 a.1.1
IsRedBlack-plug s (in_left p black r k) h a e =
    IsRedBlack-plug (branch s p black r) k ((h, a.0.0), a.0.1, tt) a.2 refl
IsRedBlack-plug s (in_right l p red k) h a e =
    IsRedBlack-plug (branch l p red s) k ((a.0.0, h), sym a.0.1, (a.1.0, ground (arith, e)))
      (subst (λ n. RedBlackAround n k) (omega (arith, a.0.1)) a.2) a.1.1
IsRedBlack-plug s (in_right l p black k) h a e =
    IsRedBlack-plug (branch l p black s) k ((a.0.0, h), sym a.0.1, tt)
      (subst (λ n. RedBlackAround n k) (omega (arith, a.0.1)) a.2) refl
