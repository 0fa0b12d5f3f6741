-- ===== src/Signals/Average.antt =====
-- The average that a VWAPSignalEngine gives lies between the lowest and the highest price, and its sums
-- stay in the range of their types.
use native.Mathlib.Nat.{
  mul-le-mul_right, lt_of_mul-lt-mul_right, le_of_mul-le-mul_right, div-add-mod, mod-lt,
}
use l3_lock_free_orderbook_e.Prelude.{
  ℕ, suc, ◌+◌, ◌-◌, ◌*◌, ◌/◌, ◌^◌, ◌≤◌, ◌<◌, ◌≡◌, ◌==◌, ltb, refl, sym, subst, true, false, List,
  [], ◌∷◌, Run, ok, ◌>>=◌, Returns, Returns-map, arith,
}
use l3_lock_free_orderbook_e.Prelude.Signed.{fits_i128}
use l3_lock_free_orderbook_e.Prelude.Int.{
  ℤ, pos, negsuc, pos_part, neg_part, ◌+ℤ◌, ◌*ℤ◌, ◌≤ℤ◌, div_ℤ, wrap_i64, fits_i64,
}
use l3_lock_free_orderbook_e.Prelude.Word.{u32}
use l3_lock_free_orderbook_e.Types.{Price, Quantity}
use l3_lock_free_orderbook_e.Signals.Vwap.{VwapSignalEngine, new, on_trade, vwap, total_volume}

-- lo * q ≤ v ≤ hi * q
record Within (lo hi v : ℤ) (q : ℕ) : Type 0 where
  low : pos_part lo * q + neg_part v ≤ pos_part v + neg_part lo * q
  high : pos_part v + neg_part hi * q ≤ pos_part hi * q + neg_part v

add-parts :
    (a b : ℤ)
    → pos_part (a +ℤ b) + (neg_part a + neg_part b) ≡ neg_part (a +ℤ b) + (pos_part a + pos_part b)
unfolding ◌+ℤ◌
add-parts a b = ground arith

mul-parts :
    (a : ℤ) (n : ℕ)
    → pos_part (a *ℤ pos n) + neg_part a * n ≡ neg_part (a *ℤ pos n) + pos_part a * n
unfolding ◌*ℤ◌
mul-parts a n = ground arith

Within-add :
    (lo hi v p : ℤ) (q n : ℕ)
    → Within lo hi v q
    → lo ≤ℤ p
    → p ≤ℤ hi
    → Within lo hi (v +ℤ p *ℤ pos n) (q + n)
Within-add lo hi v p q n w l h =
    let sum = add-parts v (p *ℤ pos n) in
    let product = mul-parts p n in
    record {
      low = omega (arith, w.low, sum, product, mul-le-mul_right n l);
      high = omega (arith, w.high, sum, product, mul-le-mul_right n h);
    }

-- Bounds of a quotient, from those of the number divided.
div-above : (a b n q : ℕ) → 0 < q → a * q ≤ n + b * q → a ≤ n / q + b
div-above a b n q some h =
    let close : a * q < (n / q + b + 1) * q = omega (arith, h, div-add-mod n q, mod-lt n some) in
    omega (arith, lt_of_mul-lt-mul_right q close)

div-below : (a b n q : ℕ) → 0 < q → n + b * q ≤ a * q → n / q + b ≤ a
div-below a b n q some h =
    let inside : (n / q + b) * q ≤ a * q = omega (arith, h, div-add-mod n q) in
    le_of_mul-le-mul_right inside some

Within-div :
    (lo hi v : ℤ) (q : ℕ) → 0 < q → Within lo hi v q → (lo ≤ℤ div_ℤ v q) × (div_ℤ v q ≤ℤ hi)
Within-div lo hi (pos n) q some w = (
  omega (arith, div-above (pos_part lo) (neg_part lo) n q some (omega (arith, w.low))),
  omega (arith, div-below (pos_part hi) (neg_part hi) n q some (omega (arith, w.high))),
)
Within-div lo hi (negsuc n) q some w =
    let under = div-below (neg_part lo) (pos_part lo) (suc n) q some (omega (arith, w.low)) in
    let over = div-above (neg_part hi) (pos_part hi) (suc n) q some (omega (arith, w.high)) in
    (ground (arith, under), ground (arith, over))

pub wrap_i64-fits : (a : ℤ) → fits_i64 a ≡ true → wrap_i64 a ≡ a
wrap_i64-fits (pos n) h = ground (arith, h)
wrap_i64-fits (negsuc n) h = ground (arith, h)

fits-between :
    (lo a hi : ℤ) → lo ≤ℤ a → a ≤ℤ hi → fits_i64 lo ≡ true → fits_i64 hi ≡ true → fits_i64 a ≡ true
fits-between lo a hi l h = ground (arith, l, h)

-- The prices of the trades are between `lo` and `hi`.
abbrev pub PricesWithin : (lo hi : Price) → List (Price × Quantity) → Type 0
PricesWithin lo hi [] = Unit
PricesWithin lo hi (x ∷ xs) = ((lo ≤ℤ x.0) × (x.0 ≤ℤ hi)) × PricesWithin lo hi xs

abbrev pub volume : List (Price × Quantity) → ℕ
volume [] = 0
volume (x ∷ xs) = x.1 + volume xs

unfoldable pub on_trades : List (Price × Quantity) → VwapSignalEngine → Run VwapSignalEngine
on_trades [] e = ok e
on_trades (x ∷ xs) e = on_trade x.0 x.1 e >>= λ e'. on_trades xs e'

-- Between prices of 64 bits, the sum for fewer than 2^64 shares is in the range of `__int128`.
Within-fits :
    (lo hi v : ℤ) (q : ℕ)
    → Within lo hi v q
    → fits_i64 lo ≡ true
    → fits_i64 hi ≡ true
    → q < 2 ^ 64
    → fits_i128 v ≡ true
Within-fits lo hi v q w l h room =
    let least : neg_part lo ≤ 2 ^ 63 = ground (arith, l) in
    let most : pos_part hi ≤ 2 ^ 63 - 1 = ground (arith, h) in
    let under = mul-le-mul_right q least in
    let over = mul-le-mul_right q most in ground (arith, under, over, w.low, w.high)

on_trade-ok :
    (p : Price) (n : Quantity) (e : VwapSignalEngine)
    → fits_i128 (e.cumulative_pv +ℤ p *ℤ pos n) ≡ true
    → e.cumulative_qty + n < 2 ^ 64
    → on_trade p n e
      ≡ ok (record {
        cumulative_pv = e.cumulative_pv +ℤ p *ℤ pos n;
        cumulative_qty = e.cumulative_qty + n;
        total_qty = u32 (e.total_qty + n);
      })
unfolding on_trade
on_trade-ok p n e fits room =
    let small : ltb (e.cumulative_qty + n) (2 ^ 127) ≡ true = ground arith in
    simp (fits, small) refl

-- What the engine holds after the trades of a volume `n`, at prices between `lo` and `hi`.
abbrev Summed : (lo hi : Price) (q t n : ℕ) → VwapSignalEngine → Type 0
Summed lo hi q t n e =
    Within lo hi e.cumulative_pv e.cumulative_qty
    × (e.cumulative_qty ≡ q + n)
    × (u32 e.total_qty ≡ u32 (t + n))

on_trades-Within :
    (lo hi : Price) (xs : List (Price × Quantity)) (e : VwapSignalEngine)
    → fits_i64 lo ≡ true
    → fits_i64 hi ≡ true
    → PricesWithin lo hi xs
    → Within lo hi e.cumulative_pv e.cumulative_qty
    → e.cumulative_qty + volume xs < 2 ^ 64
    → Returns (Summed lo hi e.cumulative_qty e.total_qty (volume xs)) (on_trades xs e)
unfolding on_trades
on_trades-Within lo hi [] e l h p w room = (w, omega arith, omega arith)
on_trades-Within lo hi (x ∷ xs) e l h p w room =
    let w' = Within-add lo hi e.cumulative_pv x.0 e.cumulative_qty x.1 w p.0.0 p.0.1 in
    let fits = Within-fits lo hi _ _ w' l h (omega arith) in
    let rest =
      on_trades-Within lo hi xs
        (record {
          cumulative_pv = e.cumulative_pv +ℤ x.0 *ℤ pos x.1;
          cumulative_qty = e.cumulative_qty + x.1;
          total_qty = u32 (e.total_qty + x.1);
        })
        l h p.1 w' (omega arith) in
    rw (on_trade-ok x.0 x.1 e fits (omega arith)) (
      Returns-map {P = Summed lo hi (e.cumulative_qty + x.1) (u32 (e.total_qty + x.1)) (volume xs)}
        _ (λ e' (t, q, v). (t, omega (arith, q), omega (arith, v))) rest)

vwap-div :
    (e : VwapSignalEngine) (q : ℕ)
    → e.cumulative_qty ≡ q
    → 0 < q
    → fits_i64 (div_ℤ e.cumulative_pv q) ≡ true
    → vwap e ≡ div_ℤ e.cumulative_pv q
unfolding vwap
vwap-div e q same some fits =
    let positive : (q == 0) ≡ false = ground arith in
    simp (same, positive) (wrap_i64-fits (div_ℤ e.cumulative_pv q) fits)

-- For trades at prices between `lo` and `hi`, both of 64 bits, and of 1 to 2^64 - 1 shares in all, there
-- is no overflow, the vwap lies between `lo` and `hi`, and its conversion to a price loses nothing;
-- `total_volume` is the sum of the quantities modulo 2^32.
pub vwap-between :
    (lo hi : Price) (xs : List (Price × Quantity))
    → PricesWithin lo hi xs
    → fits_i64 lo ≡ true
    → fits_i64 hi ≡ true
    → 0 < volume xs
    → volume xs < 2 ^ 64
    → Returns
        (λ e.
          (lo ≤ℤ vwap e)
          × (vwap e ≤ℤ hi)
          × (vwap e ≡ div_ℤ e.cumulative_pv (volume xs))
          × (u32 (total_volume e) ≡ u32 (volume xs)))
        (on_trades xs new)
vwap-between lo hi xs p l h some room =
    Returns-map {P = Summed lo hi 0 0 (volume xs)} _
      (λ e (w, q, v).
        let all : e.cumulative_qty ≡ volume xs = omega (arith, q) in
        let (above, below) =
          Within-div lo hi e.cumulative_pv (volume xs) some
            (subst (Within lo hi e.cumulative_pv) all w) in
        let exact =
          vwap-div e (volume xs) all some
            (fits-between lo (div_ℤ e.cumulative_pv (volume xs)) hi above below l h) in
        (
          subst (λ a. lo ≤ℤ a) (sym exact) above,
          subst (λ a. a ≤ℤ hi) (sym exact) below,
          exact,
          omega (arith, v),
        ))
      (on_trades-Within lo hi xs new l h p (record { low = omega arith; high = omega arith })
        (omega arith))
