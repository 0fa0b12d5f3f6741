-- ===== src/Double.antt =====
-- What the engines and the backtester do with a `double`: the arithmetic is a parameter, of which a
-- theorem takes the laws of order that it needs.
use l3_lock_free_orderbook_e.Prelude.{ℕ, ◌≡◌, Bool, true, false, arith}
use l3_lock_free_orderbook_e.Prelude.Int.{ℤ, pos, ◌+ℤ◌, ◌-ℤ◌, ◌*ℤ◌, div_ℤ, ltb_ℤ, pos_part}

-- `of_int` and `to_int` convert from and to `int64_t`, `to_u64` to `uint64_t`; `half` is 0.5.
pub record Double {ℓ} (W : Type ℓ) : Type ℓ where
  pub of_int : ℤ → W
  pub to_int : W → ℤ
  pub to_u64 : W → ℕ
  pub half : W
  pub plus : W → W → W
  pub minus : W → W → W
  pub times : W → W → W
  pub over : W → W → W
  pub less : W → W → Bool

module _ {ℓ} {W : Type ℓ} ⦃d : Double W⦄ where
  abbrev pub nought : W
  nought = d.of_int (pos 0)

  abbrev pub number : ℕ → W
  number n = d.of_int (pos n)

  abbrev pub neg : W → W
  neg x = d.minus nought x

-- The order of the values other than NaN.
pub record IsOrdered {ℓ} {W : Type ℓ} (d : Double W) (IsNumber : W → Type ℓ) : Type ℓ where
  pub less_asym : (x y : W) → IsNumber x → IsNumber y → d.less x y ≡ true → d.less y x ≡ false
  pub less_irrefl : (x : W) → IsNumber x → d.less x x ≡ false
  pub less_trans :
      (x y z : W)
      → IsNumber x
      → IsNumber y
      → IsNumber z
      → d.less y x ≡ false
      → d.less z y ≡ false
      → d.less z x ≡ false

-- Whole numbers in the place of doubles, for tests.
abbrev pub integers : Double ℤ
integers = record {
  of_int = λ a. a;
  to_int = λ a. a;
  to_u64 = pos_part;
  half = pos 0;
  plus = ◌+ℤ◌;
  minus = ◌-ℤ◌;
  times = ◌*ℤ◌;
  over = λ a b. div_ℤ a (pos_part b);
  less = ltb_ℤ;
}

pub integers-IsOrdered : IsOrdered integers (λ _. Unit)
integers-IsOrdered = record {
  less_asym = λ x y _ _ h. ground (arith, h);
  less_irrefl = λ x _. ground arith;
  less_trans = λ x y z _ _ _ h i. ground (arith, h, i);
}
