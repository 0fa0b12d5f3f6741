-- ===== src/Signals/Crossings.antt =====
-- The signals of an EMASignalEngine over a series of prices.
use l3_lock_free_orderbook_e.Prelude.{
  ◌≡◌, refl, sym, ◌∙◌, true, List, [], ◌∷◌, Bool-cases, inl, inr, arith, ◌&&◌,
}
use l3_lock_free_orderbook_e.Types.{Price}
use l3_lock_free_orderbook_e.Prelude.Int.{◌-ℤ◌}
use l3_lock_free_orderbook_e.Double.{Double, neg}
use l3_lock_free_orderbook_e.Signals.Ema.{
  Signal, hold, buy, sell, differ, Config, EmaSignalEngine, average, crossing, remember, on_price,
}

-- The last signal of a series to buy or sell, after one that was `last`.
abbrev pub last_of : Signal → List Signal → Signal
last_of last [] = last
last_of last (hold ∷ xs) = last_of last xs
last_of last (buy ∷ xs) = last_of buy xs
last_of last (sell ∷ xs) = last_of sell xs

-- After the signal `last`, no signal to buy or sell is repeated before one to the contrary.
abbrev pub Alternates : Signal → List Signal → Type 0
Alternates last [] = Unit
Alternates last (hold ∷ xs) = Alternates last xs
Alternates last (buy ∷ xs) = (differ last buy ≡ true) × Alternates buy xs
Alternates last (sell ∷ xs) = (differ last sell ≡ true) × Alternates sell xs

last_of-remember :
    (s last : Signal) (ss : List Signal) → last_of last (s ∷ ss) ≡ last_of (remember s last) ss
unfolding remember
last_of-remember hold last ss = refl
last_of-remember buy last ss = refl
last_of-remember sell last ss = refl

module _ {W : Type 0} ⦃d : Double W⦄ where
  -- The signals for a series of prices.
  unfoldable pub on_prices : List Price → EmaSignalEngine W → List Signal × EmaSignalEngine W
  on_prices [] e = ([], e)
  on_prices (p ∷ ps) e = let (s, e) = on_price p e in let (ss, e) = on_prices ps e in (s ∷ ss, e)

  -- A signal that a crossing gives is new.
  crossing-Alternates :
      (cfg : Config W) (last : Signal) (diff : Price) (ss : List Signal)
      → Alternates (remember (crossing cfg last diff) last) ss
      → Alternates last (crossing cfg last diff ∷ ss)
  unfolding crossing remember
  crossing-Alternates cfg last diff ss h =
      elim (Bool-cases (d.less cfg.threshold (d.of_int diff) && differ last buy)) [
        | inl a ↦ rw a (ground (arith, a), rw a at h)
        | inr a ↦
            elim (Bool-cases (d.less (d.of_int diff) (neg cfg.threshold) && differ last sell)) [
              | inl b ↦ rw (a, b) (ground (arith, b), rw (a, b) at h)
              | inr b ↦ rw (a, b) (rw (a, b) at h)
            ]
      ]

  on_price-Alternates :
      (p : Price) (e : EmaSignalEngine W) (ss : List Signal)
      → Alternates (on_price p e).1.last_signal ss
      → Alternates e.last_signal ((on_price p e).0 ∷ ss)
        × (last_of e.last_signal ((on_price p e).0 ∷ ss) ≡ last_of (on_price p e).1.last_signal ss)
  unfolding on_price
  on_price-Alternates p e ss h = elim (Bool-cases e.initialized) [
    | inl a ↦
        let diff = average e.fast_alpha p e.fast_ema -ℤ average e.slow_alpha p e.slow_ema in
        simp a (
          crossing-Alternates e.cfg e.last_signal diff ss (simp a at h),
          last_of-remember (crossing e.cfg e.last_signal diff) e.last_signal ss,
        )
    | inr a ↦ simp a (simp a at h, refl)
  ]

  -- Whatever the arithmetic of doubles: the signals for any series of prices alternate, a Buy never
  -- follows a Buy nor a Sell a Sell but for signals to hold, counted from `last_signal_`; and
  -- `last_signal_` is then the last of them that is not to hold.
  pub on_prices-Alternates :
      (ps : List Price) (e : EmaSignalEngine W)
      → Alternates e.last_signal (on_prices ps e).0
        × ((on_prices ps e).1.last_signal ≡ last_of e.last_signal (on_prices ps e).0)
  unfolding on_prices
  on_prices-Alternates [] e = (tt, refl)
  on_prices-Alternates (p ∷ ps) e =
      let (rest, end) = on_prices-Alternates ps (on_price p e).1 in
      let (all, last) = on_price-Alternates p e (on_prices ps (on_price p e).1).0 rest in
      (all, end ∙ sym last)
