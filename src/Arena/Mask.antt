-- ===== src/Arena/Mask.antt =====
-- The mask `x & ~m` of `LinearArena::allocate` as arithmetic. The native operation stands for a
-- recursion on the binary digits, with fuel for at least the first number; the facts here are by
-- induction on the fuel.
use Prim.Native.Nat.{min, digits, bit_and, bit_and-bitwise}
use native.Mathlib.Nat.{pow-suc, one-le-pow, div-add-mod, mod-lt}
use l3_lock_free_orderbook_e.Prelude.{
  ℕ, zero, suc, ◌+◌, ◌-◌, ◌*◌, ◌/◌, ◌%◌, ◌^◌, ◌≤◌, ◌<◌, ◌≡◌, refl, ap, arith,
}
use l3_lock_free_orderbook_e.Prelude.Word.{not64}

abbrev common : (fuel x mask : ℕ) → ℕ
common fuel x mask = digits (λ _. 0) min fuel x mask

common-le : (fuel x mask : ℕ) → common fuel x mask ≤ mask
common-le zero x mask = omega arith
common-le (suc fuel) zero mask = omega arith
common-le (suc fuel) (suc x) mask = omega (arith, common-le fuel (suc x / 2) (mask / 2))

-- A mask of `w` digits and its complement share out the digits of `x`.
common-split :
    (fuel w x mask : ℕ)
    → x ≤ fuel
    → x < 2 ^ w
    → mask < 2 ^ w
    → common fuel x mask + common fuel x (2 ^ w - 1 - mask) ≡ x
common-split zero w zero mask enough fits room = refl
common-split zero w (suc x) mask enough fits room = absurd (omega arith)
common-split (suc fuel) w zero mask enough fits room = refl
common-split (suc fuel) zero (suc x) mask enough fits room = absurd (omega arith)
common-split (suc fuel) (suc w) (suc x) mask enough fits room =
    let two = pow-suc 2 w in
    let half : (2 ^ suc w - 1 - mask) / 2 ≡ 2 ^ w - 1 - mask / 2 = omega arith in
    let rest =
      common-split fuel w (suc x / 2) (mask / 2) (omega arith) (omega arith) (omega arith) in
    let upper = ap (common fuel (suc x / 2)) half in omega (arith, rest, upper)

-- `k` ones leave the remainder of `x` by `2 ^ k`.
common-ones :
    (fuel k q r x : ℕ) → x ≤ fuel → x ≡ q * 2 ^ k + r → r < 2 ^ k → common fuel x (2 ^ k - 1) ≡ r
common-ones fuel zero q r x enough e room = omega (arith, common-le fuel x (2 ^ 0 - 1))
common-ones zero (suc k) q r x enough e room = omega arith
common-ones (suc fuel) (suc k) q r zero enough e room = omega arith
common-ones (suc fuel) (suc k) q r (suc x) enough e room =
    let two = pow-suc 2 k in
    let some = one-le-pow k 2 in
    let double : q * 2 ^ suc k ≡ 2 * (q * 2 ^ k) = omega (arith, ap (λ t. q * t) two) in
    let half : (2 ^ suc k - 1) / 2 ≡ 2 ^ k - 1 = omega arith in
    let upper = ap (common fuel (suc x / 2)) half in
    omega (
      arith,
      upper,
      common-ones fuel k q (r / 2) (suc x / 2) (omega arith) (omega arith) (omega arith),
    )

pub masked_bounds :
    (x mask : ℕ)
    → x < 2 ^ 64
    → mask < 2 ^ 64
    → (bit_and x (not64 mask) ≤ x) × (x ≤ bit_and x (not64 mask) + mask)
masked_bounds x mask fits room =
    let kept = bit_and-bitwise x (not64 mask) in
    let split = common-split x 64 x mask (omega arith) fits room in
    let dropped = common-le x x mask in (omega arith, omega arith)

pub masked-low :
    (x k : ℕ) → x < 2 ^ 64 → 2 ^ k < 2 ^ 64 → bit_and x (not64 (2 ^ k - 1)) ≡ x - x % 2 ^ k
masked-low x k fits room =
    let some : 0 < 2 ^ k = omega (arith, one-le-pow k 2) in
    let parts : x ≡ x / 2 ^ k * 2 ^ k + x % 2 ^ k = ground (arith, div-add-mod x (2 ^ k)) in
    let below = mod-lt x some in
    let low = common-ones x k (x / 2 ^ k) (x % 2 ^ k) x (omega arith) parts below in
    let split = common-split x 64 x (2 ^ k - 1) (omega arith) fits (omega arith) in
    omega (arith, bit_and-bitwise x (not64 (2 ^ k - 1)))
