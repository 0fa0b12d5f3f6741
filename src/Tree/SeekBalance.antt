-- ===== src/Tree/SeekBalance.antt =====
-- The place that `seek` finds in a red-black tree is one for a red leaf.
use l3_lock_free_orderbook_e.Prelude.{
  ℕ, ◌+◌, ◌≡◌, sym, subst, Bool, false, ◌&&◌, some, arith, Bool-cases, inl, inr,
}
use l3_lock_free_orderbook_e.Tree.Memory.{Color, red, black, is_red_color}
use l3_lock_free_orderbook_e.Tree.Shape.{Shape, leaf, branch, Context, in_left, in_right}
use l3_lock_free_orderbook_e.Tree.Paint.{red_root}
use l3_lock_free_orderbook_e.Tree.Balance.{IsRedBlack, RedBlackAround, black_height, red_parent}
use l3_lock_free_orderbook_e.Tree.Order.{seek}

beside_left :
    (l : Shape) (p : ℕ) (d : Color) (r : Shape) (c : Context)
    → IsRedBlack (branch l p d r)
    → RedBlackAround (black_height (branch l p d r)) c
    → (red_root (branch l p d r) && red_parent c) ≡ false
    → RedBlackAround (black_height l) (in_left p d r c) × ((red_root l && is_red_color d) ≡ false)
beside_left l p red r c h a b =
    (((h.0.1, h.1), (h.2.1, ground (arith, b)), a), ground (arith, h.2.0))
beside_left l p black r c h a b = (((h.0.1, h.1), tt, a), ground arith)

beside_right :
    (l : Shape) (p : ℕ) (d : Color) (r : Shape) (c : Context)
    → IsRedBlack (branch l p d r)
    → RedBlackAround (black_height (branch l p d r)) c
    → (red_root (branch l p d r) && red_parent c) ≡ false
    → RedBlackAround (black_height r) (in_right l p d c) × ((red_root r && is_red_color d) ≡ false)
beside_right l p red r c h a b = (
  ((h.0.0, sym h.1), (h.2.0, ground (arith, b)), subst (λ n. RedBlackAround (n + 0) c) h.1 a),
  ground (arith, h.2.1),
)
beside_right l p black r c h a b =
    (((h.0.0, sym h.1), tt, subst (λ n. RedBlackAround (n + 1) c) h.1 a), ground arith)

module _ {ℓ} {K : Type ℓ} (key : ℕ → K) (less : K → K → Bool) (k : K) where
  pub seek-RedBlackAround :
      (s : Shape) (c c' : Context)
      → seek key less k s c ≡ some c'
      → IsRedBlack s
      → RedBlackAround (black_height s) c
      → (red_root s && red_parent c) ≡ false
      → RedBlackAround 0 c'
  unfolding seek
  seek-RedBlackAround leaf c c' e h a b = let same : c ≡ c' = cc in subst (RedBlackAround 0) same a
  seek-RedBlackAround (branch l p d r) c c' e h a b = elim (Bool-cases (less k (key p))) [
    | inl x ↦
        let (around, blacks) = beside_left l p d r c h a b in
        seek-RedBlackAround l (in_left p d r c) c' (rw x at e) h.0.0 around blacks
    | inr x ↦ elim (Bool-cases (less (key p) k)) [
      | inl y ↦
          let (around, blacks) = beside_right l p d r c h a b in
          seek-RedBlackAround r (in_right l p d c) c' (rw (x, y) at e) h.0.1 around blacks
      | inr y ↦ absurd (ground (arith, e, x, y))
    ]
  ]
