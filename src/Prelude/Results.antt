-- ===== src/Prelude/Results.antt =====
-- The result of code that may run into undefined behaviour, such as a read through a null pointer,
-- or whose loop may outlive the fuel that the model gives it.
use Prim.Native.Nat.{ℕ}
use mathlib.Core.Bool.{Bool, true, false}
use mathlib.Core.Option.{Option, none, some}
use l3_lock_free_orderbook_e.Prelude.Tests.{◌==◌}

pub data Run {ℓ} (A : Type ℓ) : Type ℓ where
  ok : A → Run A
  fault : Run A
  out_of_fuel : Run A

infixl 5 ◌>>=◌ ◌>>◌
abbrev pub ◌>>=◌ {ℓ κ} : {A : Type ℓ} {B : Type κ} → Run A → (A → Run B) → Run B
ok a >>= f = f a
fault >>= f = fault
out_of_fuel >>= f = out_of_fuel

abbrev pub ◌>>◌ {ℓ κ} : {A : Type ℓ} {B : Type κ} → Run A → Run B → Run B
m >> k = m >>= λ _. k

-- The code ends without a fault, with a result of which `P` holds.
abbrev pub Returns {ℓ} : {A : Type ℓ} → (A → Type 0) → Run A → Type 0
Returns P (ok a) = P a
Returns P fault = ⊥
Returns P out_of_fuel = ⊥

-- What is returned meets what follows from what it meets.
pub Returns-map {ℓ} :
    {A : Type ℓ} {P Q : A → Type 0} (run : Run A)
    → ((a : A) → P a → Q a)
    → Returns P run
    → Returns Q run
Returns-map (ok a) f h = f a h
Returns-map fault f h = h
Returns-map out_of_fuel f h = h

-- The code returns a result of which `P` holds, or it runs into a fault, and `F` holds.
abbrev pub ReturnsOr {ℓ} : {A : Type ℓ} → Type 0 → (A → Type 0) → Run A → Type 0
ReturnsOr F P (ok a) = P a
ReturnsOr F P fault = F
ReturnsOr F P out_of_fuel = ⊥

-- Pointers are numbers of slots; `none` is the null pointer.
abbrev pub Ptr : Type 0
Ptr = Option ℕ

abbrev pub same : Ptr → Ptr → Bool
same none none = true
same (some a) (some b) = a == b
same _ _ = false
