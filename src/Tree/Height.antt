-- ===== src/Tree/Height.antt =====
-- The height of a red-black tree.
use Prim.Native.Nat.{max}
use native.Mathlib.Nat.{pow-suc}
use l3_lock_free_orderbook_e.Prelude.{
  ℕ, ◌+◌, ◌*◌, ◌^◌, ◌≤◌, ◌≡◌, ap, ◌∙◌, sym, subst, false, if◌then◌else◌, ◌∷◌, arith, length,
  length-append,
}
use l3_lock_free_orderbook_e.Tree.Memory.{red, black}
use l3_lock_free_orderbook_e.Tree.Shape.{Shape, leaf, branch, slots}
use l3_lock_free_orderbook_e.Tree.Paint.{red_root}
use l3_lock_free_orderbook_e.Tree.Balance.{IsRedBlack, black_height}

-- The number of nodes on the longest way down.
abbrev pub height : Shape → ℕ
height leaf = 0
height (branch l p c r) = 1 + max (height l) (height r)

abbrev blush : Shape → ℕ
blush s = if red_root s then 1 else 0

height-blush : (s : Shape) → IsRedBlack s → height s ≤ 2 * black_height s + blush s
height-blush leaf h = omega arith
height-blush (branch l p red r) h =
    ground (arith, height-blush l h.0.0, height-blush r h.0.1, h.1, h.2.0, h.2.1)
height-blush (branch l p black r) h =
    ground (arith, height-blush l h.0.0, height-blush r h.0.1, h.1)

pub height-black_height :
    (s : Shape) → red_root s ≡ false → IsRedBlack s → height s ≤ 2 * black_height s
height-black_height s e h = ground (arith, height-blush s h, e)

pub black_height-slots : (s : Shape) → IsRedBlack s → 2 ^ black_height s ≤ length (slots s) + 1
black_height-slots leaf h = omega arith
black_height-slots (branch l p red r) h =
    let same : 2 ^ (black_height l + 0) ≡ 2 ^ black_height l = ap (λ n. 2 ^ n) (omega arith) in
    omega (arith, same, black_height-slots l h.0.0, length-append (slots l) (p ∷ slots r))
black_height-slots (branch l p black r) h =
    let other : 2 ^ black_height l ≤ length (slots r) + 1 =
      subst (λ n. 2 ^ n ≤ length (slots r) + 1) (sym h.1) (black_height-slots r h.0.1) in
    let twice : 2 ^ (black_height l + 1) ≡ 2 ^ black_height l * 2 =
      ap (λ n. 2 ^ n) (omega arith) ∙ pow-suc 2 (black_height l) in
    omega (arith, twice, black_height-slots l h.0.0, other, length-append (slots l) (p ∷ slots r))

-- A red-black tree, and no way down it is longer than twice the logarithm of its size.
pub record IsShallow (s : Shape) : Type 0 where
  pub red_black : IsRedBlack s
  pub height_le : height s ≤ 2 * black_height s
  pub size_le : 2 ^ black_height s ≤ length (slots s) + 1
