-- ===== src/Tree/Family.antt =====
-- The four places of a red node below a red parent, as families.
use l3_lock_free_orderbook_e.Prelude.{ℕ, ◌+◌, ◌≡◌, subst, false, arith}
use l3_lock_free_orderbook_e.Tree.Memory.{Color, red, is_red_color}
use l3_lock_free_orderbook_e.Tree.Shape.{Shape, branch, Context, in_left, in_right}
use l3_lock_free_orderbook_e.Tree.Paint.{red_root}
use l3_lock_free_orderbook_e.Tree.Balance.{
  IsRedBlack, black_height, weight, black_weight, RedBlackAround, Blushing, Family,
}

-- The four places of a red node below a red parent.
module _ {zl zr s y : Shape} {z : ℕ} {k : Context} where
  family :
      (c : Color)
      → IsRedBlack zl
      → IsRedBlack zr
      → black_height zl ≡ black_height zr
      → (red_root zl ≡ false) × (red_root zr ≡ false)
      → IsRedBlack s × (black_height zl ≡ black_height s)
      → (red_root s ≡ false) × (is_red_color c ≡ false)
      → IsRedBlack y × (black_height zl + 0 ≡ black_height y)
      → RedBlackAround (black_height zl + 0 + weight c) k
      → Family (branch zl z red zr) s s y k
  family c a b even blacks side beside other rest = record {
    left = ((a, b), even, blacks);
    right = side.0;
    uncle = other.0;
    even = omega (arith, side.1);
    uncle_even = other.1;
    sibling_black = beside.0;
    around = subst (λ n. RedBlackAround n k) (omega (arith, black_weight c beside.1)) rest;
  }

  pub Family-ll :
      {p q : ℕ} {c : Color}
      → Blushing zl zr (in_left p red s (in_left q c y k))
      → Family (branch zl z red zr) s s y k
  Family-ll {c = c} b =
      family c b.left b.right b.even (b.left_black, b.right_black) b.around.0 b.around.1
        b.around.2.0 b.around.2.2

  pub Family-lr :
      {p q : ℕ} {c : Color}
      → Blushing zl zr (in_left p red s (in_right y q c k))
      → Family (branch zl z red zr) s s y k
  Family-lr {c = c} b =
      family c b.left b.right b.even (b.left_black, b.right_black) b.around.0 b.around.1
        b.around.2.0 b.around.2.2

  pub Family-rl :
      {p q : ℕ} {c : Color}
      → Blushing zl zr (in_right s p red (in_left q c y k))
      → Family (branch zl z red zr) s s y k
  Family-rl {c = c} b =
      family c b.left b.right b.even (b.left_black, b.right_black) b.around.0 b.around.1
        b.around.2.0 b.around.2.2

  pub Family-rr :
      {p q : ℕ} {c : Color}
      → Blushing zl zr (in_right s p red (in_right y q c k))
      → Family (branch zl z red zr) s s y k
  Family-rr {c = c} b =
      family c b.left b.right b.even (b.left_black, b.right_black) b.around.0 b.around.1
        b.around.2.0 b.around.2.2
