-- ===== src/Backtest/Percentiles.antt =====
-- The percentiles of a list of latencies that is sorted.
use l3_lock_free_orderbook_e.Prelude.{
  ℕ, zero, suc, ◌*◌, ◌^◌, ◌≤◌, ◌<◌, ◌≡◌, refl, List, [], ◌∷◌, ok, length, arith,
}
use l3_lock_free_orderbook_e.Backtest.{at, back, rank, Percentile, percentiles}

abbrev pub IsAscending : List ℕ → Type 0
IsAscending [] = Unit
IsAscending (x ∷ []) = Unit
IsAscending (x ∷ y ∷ xs) = (x ≤ y) × IsAscending (y ∷ xs)

abbrev pub AtMost : ℕ → List ℕ → Type 0
AtMost z [] = Unit
AtMost z (x ∷ xs) = (x ≤ z) × AtMost z xs

tail-IsAscending : (x : ℕ) (xs : List ℕ) → IsAscending (x ∷ xs) → IsAscending xs
tail-IsAscending x [] h = tt
tail-IsAscending x (y ∷ xs) h = h.1

at-above :
    (x : ℕ) (xs : List ℕ) (j : ℕ)
    → IsAscending (x ∷ xs)
    → j < length (x ∷ xs)
    → (b : ℕ) × (at (x ∷ xs) j ≡ ok b) × (x ≤ b)
at-above x xs zero h n = (x, refl, omega arith)
at-above x [] (suc j) h n = absurd (omega (arith, n))
at-above x (y ∷ xs) (suc j) h n =
    let (b, run, le) = at-above y xs j h.1 (omega (arith, n)) in (b, run, omega (arith, h.0, le))

at-at :
    (xs : List ℕ) (i j : ℕ)
    → IsAscending xs
    → i ≤ j
    → j < length xs
    → (a b : ℕ) × (at xs i ≡ ok a) × (at xs j ≡ ok b) × (a ≤ b)
at-at [] i j h le n = absurd (omega (arith, n))
at-at (x ∷ xs) zero j h le n = let (b, run, above) = at-above x xs j h n in (x, b, refl, run, above)
at-at (x ∷ xs) (suc i) zero h le n = absurd (omega (arith, le))
at-at (x ∷ xs) (suc i) (suc j) h le n =
    at-at xs i j (tail-IsAscending x xs h) (omega (arith, le)) (omega (arith, n))

back-at :
    (x : ℕ) (xs : List ℕ)
    → IsAscending (x ∷ xs)
    → (z : ℕ) × (back (x ∷ xs) ≡ ok z) × (at (x ∷ xs) (length xs) ≡ ok z) × AtMost z (x ∷ xs)
back-at x [] h = (x, refl, refl, (omega arith, tt))
back-at x (y ∷ xs) h =
    let (z, run, place, most) = back-at y xs h.1 in
    (z, run, place, (omega (arith, h.0, most.0), most))

ranks :
    (n : ℕ)
    → suc n * 999 < 2 ^ 64
    → (rank (suc n) 50 100 ≤ rank (suc n) 99 100)
      × (rank (suc n) 99 100 ≤ rank (suc n) 999 1000)
      × (rank (suc n) 999 1000 ≤ n)
ranks n small = (omega (arith, small), omega (arith, small), omega (arith, small))

-- The percentiles of a list are in order, and all of it is at most `max`.
pub record IsOrderedPercentile (xs : List ℕ) (p : Percentile) : Type 0 where
  pub p50_le : p.p50 ≤ p.p99
  pub p99_le : p.p99 ≤ p.p999
  pub p999_le : p.p999 ≤ p.max
  pub max_bounds : AtMost p.max xs

-- The percentiles of latencies that are sorted, at least one and fewer than 2^64 / 999, are read within
-- the list, and are in order; the maximum is at least every latency.
pub percentiles-IsOrderedPercentile :
    (x : ℕ) (xs : List ℕ)
    → IsAscending (x ∷ xs)
    → length (x ∷ xs) * 999 < 2 ^ 64
    → (p : Percentile) × (percentiles (x ∷ xs) ≡ ok p) × IsOrderedPercentile (x ∷ xs) p
unfolding percentiles
percentiles-IsOrderedPercentile x xs h small =
    let n = length xs in
    let (low, middle, high) = ranks n small in
    let (a, b, run_a, run_b, ab) =
      at-at (x ∷ xs) (rank (suc n) 50 100) (rank (suc n) 99 100) h low
        (omega (arith, middle, high)) in
    let (b', c, run_b', run_c, bc) =
      at-at (x ∷ xs) (rank (suc n) 99 100) (rank (suc n) 999 1000) h middle (omega (arith, high)) in
    let (c', z, run_c', run_z, cz) =
      at-at (x ∷ xs) (rank (suc n) 999 1000) n h high (omega arith) in
    let (z', run_back, place, most) = back-at x xs h in
    let same_b : b' ≡ b = cc in
    let same_c : c' ≡ c = cc in
    let same_z : z ≡ z' = cc in
    (
      record { p50 = a; p99 = b; p999 = c; max = z' },
      rw (run_a, run_b, run_c, run_back) refl,
      record {
        p50_le = ab;
        p99_le = omega (arith, bc, same_b);
        p999_le = omega (arith, cz, same_c, same_z);
        max_bounds = most;
      },
    )
