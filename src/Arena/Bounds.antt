-- ===== src/Arena/Bounds.antt =====
-- Where the blocks of `LinearArena::allocate` lie.
use native.Mathlib.Nat.{one-le-pow, div-add-mod, mul-mod_right, mod-lt}
use native.Mathlib.Decide.{dec_le}
use l3_lock_free_orderbook_e.Prelude.{
  ℕ, ◌+◌, ◌-◌, ◌*◌, ◌/◌, ◌%◌, ◌^◌, ◌≤◌, ◌<◌, ◌≡◌, sym, ap, arith,
}
use l3_lock_free_orderbook_e.Prelude.Word.{add64, sub64}
use l3_lock_free_orderbook_e.Arena.{LinearArena, align_offset}
use l3_lock_free_orderbook_e.Arena.Mask.{masked_bounds, masked-low}

-- The used part lies in the block, which lies in the address space.
pub record IsValid (a : LinearArena) : Type 0 where
  pub used_le : a.offset ≤ a.capacity
  pub addressable : a.memory + a.capacity < 2 ^ 64

-- A request for which no `size_t` sum of `allocate` wraps.
abbrev pub IsSmall : LinearArena → ℕ × ℕ → Type 0
IsSmall a (size, alignment) = (0 < alignment) × (a.capacity + alignment + size < 2 ^ 64)

abbrev pub IsMultiple : ℕ → ℕ → Type 0
IsMultiple d n = n % d ≡ 0

abbrev pub IsPowerOfTwo : ℕ → Type 0
IsPowerOfTwo d = (k : ℕ) × (d ≡ 2 ^ k)

-- The mask never takes the offset down, and never moves it by an alignment or more.
pub align_offset_bounds :
    (o d : ℕ) → 0 < d → o + d < 2 ^ 64 → (o ≤ align_offset o d) × (align_offset o d < o + d)
unfolding align_offset
align_offset_bounds o d h k =
    let sum : sub64 (add64 o d) 1 ≡ o + d - 1 = omega arith in
    let ones : sub64 d 1 ≡ d - 1 = omega arith in
    let (above, below) = masked_bounds (o + d - 1) (d - 1) (omega arith) (omega arith) in
    rw (sum, ones) (omega arith, omega arith)

-- For a power of two, the mask takes away the remainder.
align_offset-div :
    (o d : ℕ) → IsPowerOfTwo d → o + d < 2 ^ 64 → align_offset o d ≡ d * ((o + d - 1) / d)
unfolding align_offset
align_offset-div o d (k, e) h =
    let some = one-le-pow k 2 in
    let sum : sub64 (add64 o d) 1 ≡ o + d - 1 = omega arith in
    let ones : sub64 d 1 ≡ 2 ^ k - 1 = omega arith in
    let mask = masked-low (o + d - 1) k (omega arith) (omega arith) in
    let same : (o + d - 1) % 2 ^ k ≡ (o + d - 1) % d = ap (λ x. (o + d - 1) % x) (sym e) in
    rw (sum, ones) (omega (arith, mask, same, div-add-mod (o + d - 1) d))

pub align_offset-IsMultiple :
    (o d : ℕ) → IsPowerOfTwo d → o + d < 2 ^ 64 → IsMultiple d (align_offset o d)
align_offset-IsMultiple o d two h = rw (align_offset-div o d two h) (mul-mod_right d _)

-- A multiple below the next one is at most this one.
mul-le_of_lt : (d m n : ℕ) → d * m < d * n + d → d * m ≤ d * n
mul-le_of_lt d m n h = elim (dec_le m n) [
  | yes p ↦ grind arith
  | no p ↦ let q : n + 1 ≤ m = omega arith in absurd (grind arith)
]

-- The aligned offset is the least multiple of the alignment from the offset on.
pub align_offset-le :
    (o d q : ℕ) → IsPowerOfTwo d → o + d < 2 ^ 64 → o ≤ q → IsMultiple d q → align_offset o d ≤ q
align_offset-le o d q two h le m =
    let some : 0 < d = omega (arith, two.1, one-le-pow two.0 2) in
    let f = div-add-mod q d in
    let g = div-add-mod (o + d - 1) d in
    let below = mod-lt (o + d - 1) some in
    rw (align_offset-div o d two h)
      (omega (arith, mul-le_of_lt d ((o + d - 1) / d) (q / d) (omega arith)))
