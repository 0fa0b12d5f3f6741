-- ===== src/Prelude/Lists.antt =====
-- Lists measured by native numbers, under the library's names, and arrays as functions.
use Prim.Native.Nat.{ℕ, zero, suc, ◌+◌, ◌≤◌, ◌<◌}
use mathlib.Core.Path.{◌≡◌, refl, sym, ◌∙◌}
use mathlib.Core.Bool.{Bool, true, false, not, ◌&&◌, ◌||◌, false≢true}
use mathlib.Core.Logic.{inl, inr}
use mathlib.Core.List.{List, [], ◌∷◌, ◌++◌}
use mathlib.Core.Option.{Option, none, some}
use native.Mathlib.Omega.{arith}
use l3_lock_free_orderbook_e.Prelude.Tests.{◌==◌, Bool-cases, ==_iff, if◌then◌else◌}

module _ {ℓ} {A : Type ℓ} where
  abbrev pub length : List A → ℕ
  length [] = 0
  length (x ∷ xs) = suc (length xs)

  pub length-append : (xs ys : List A) → length (xs ++ ys) ≡ length xs + length ys
  length-append [] ys = omega arith
  length-append (x ∷ xs) ys = omega (arith, length-append xs ys)

  abbrev pub take : ℕ → List A → List A
  take zero xs = []
  take (suc n) [] = []
  take (suc n) (x ∷ xs) = x ∷ take n xs

  abbrev pub get_elem? : List A → ℕ → Option A
  get_elem? [] n = none
  get_elem? (x ∷ xs) zero = some x
  get_elem? (x ∷ xs) (suc n) = get_elem? xs n

  -- a write to one place of an array
  abbrev pub update : (ℕ → A) → ℕ → A → ℕ → A
  update f i v j = if i == j then v else f j

abbrev pub mem : ℕ → List ℕ → Bool
mem a [] = false
mem a (x ∷ xs) = (x == a) || mem a xs

abbrev pub head_of : List ℕ → Option ℕ
head_of [] = none
head_of (x ∷ xs) = some x

-- The numbers of the list differ.
abbrev pub Distinct : List ℕ → Type 0
Distinct [] = Unit
Distinct (x ∷ xs) = (mem x xs ≡ false) × Distinct xs

pub ne_of_mem : (a b : ℕ) (xs : List ℕ) → mem a xs ≡ true → mem b xs ≡ false → (a == b) ≡ false
ne_of_mem a b xs h k = elim (Bool-cases (a == b)) [
  | inl e ↦ absurd (false≢true (sym k ∙ rw (← (==_iff a b).0 e) h))
  | inr e ↦ e
]

-- the list without the first `a`
abbrev pub erase : ℕ → List ℕ → List ℕ
erase a [] = []
erase a (x ∷ xs) = if x == a then xs else x ∷ erase a xs

length-erase-le : (a : ℕ) (xs : List ℕ) → length xs ≤ suc (length (erase a xs))
length-erase-le a [] = omega arith
length-erase-le a (x ∷ xs) = ground (arith, length-erase-le a xs)

pub mem-erase :
    (i a : ℕ) (xs : List ℕ) → Distinct xs → mem i (erase a xs) ≡ (mem i xs && not (i == a))
mem-erase i a [] d = refl
mem-erase i a (x ∷ xs) d = ground (arith, mem-erase i a xs d.1, ==_iff x i, ==_iff x a, ==_iff i a)

pub Distinct-erase : (a : ℕ) (xs : List ℕ) → Distinct xs → Distinct (erase a xs)
Distinct-erase a [] d = tt
Distinct-erase a (x ∷ xs) d = ground (arith, mem-erase x a xs d.1, Distinct-erase a xs d.1)

-- Distinct numbers below `n` are at most `n`.
pub length-le_of_Distinct :
    (n : ℕ) (xs : List ℕ) → Distinct xs → ((i : ℕ) → mem i xs ≡ true → i < n) → length xs ≤ n
length-le_of_Distinct zero [] d h = omega arith
length-le_of_Distinct zero (x ∷ xs) d h = absurd (omega (arith, h x (ground arith)))
length-le_of_Distinct (suc n) xs d h = omega (
  arith,
  length-erase-le n xs,
  length-le_of_Distinct n (erase n xs) (Distinct-erase n xs d)
      (λ i m. ground (arith, h i, mem-erase i n xs d)),
)
