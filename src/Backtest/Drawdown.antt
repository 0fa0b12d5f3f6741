-- ===== src/Backtest/Drawdown.antt =====
-- The peak and the drawdown of a Backtester over a series of equities.
use l3_lock_free_orderbook_e.Prelude.{
  ◌≡◌, refl, sym, ap, ◌∙◌, subst, false, Bool-cases, inl, inr, List, [], ◌∷◌,
}
use l3_lock_free_orderbook_e.Double.{Double, IsOrdered}
use l3_lock_free_orderbook_e.Backtest.{Backtester, raise_peak, deepen, update_drawdown}

module _ {W : Type 0} ⦃d : Double W⦄ where
  unfoldable pub update_drawdowns : List W → Backtester W → Backtester W
  update_drawdowns [] t = t
  update_drawdowns (e ∷ es) t = update_drawdowns es (update_drawdown e t)

  -- How far `e` is below the peak, when it has been counted.
  abbrev pub fall : W → Backtester W → W
  fall e t = d.minus (raise_peak e t).peak_equity e

  module _ (IsNumber : W → Type 0) where
    -- No equity, and no difference that is taken, is NaN.
    abbrev pub Numbers : List W → Backtester W → Type 0
    Numbers [] t = Unit
    Numbers (e ∷ es) t = (IsNumber e × IsNumber (fall e t)) × Numbers es (update_drawdown e t)

  -- `peak` and `drawdown` are at least every equity of the series, and at least each fall.
  abbrev pub Covered : (peak drawdown : W) → List W → Backtester W → Type 0
  Covered peak drawdown [] t = Unit
  Covered peak drawdown (e ∷ es) t =
      ((d.less peak e ≡ false) × (d.less drawdown (fall e t) ≡ false))
      × Covered peak drawdown es (update_drawdown e t)

module _ {W : Type 0} ⦃d : Double W⦄ (IsNumber : W → Type 0) (o : IsOrdered d IsNumber) where
  raise_peak-peak :
      (e : W) (t : Backtester W)
      → IsNumber t.peak_equity
      → IsNumber e
      → IsNumber (raise_peak e t).peak_equity
        × (d.less (raise_peak e t).peak_equity t.peak_equity ≡ false)
        × (d.less (raise_peak e t).peak_equity e ≡ false)
        × ((raise_peak e t).current_drawdown ≡ t.current_drawdown)
  unfolding raise_peak
  raise_peak-peak e t np ne = elim (Bool-cases (d.less t.peak_equity e)) [
    | inl a ↦ simp a (ne, o.less_asym t.peak_equity e np ne a, o.less_irrefl e ne, refl)
    | inr a ↦ simp a (np, o.less_irrefl t.peak_equity np, refl, refl)
  ]

  deepen-drawdown :
      (x : W) (t : Backtester W)
      → IsNumber t.current_drawdown
      → IsNumber x
      → IsNumber (deepen x t).current_drawdown
        × (d.less (deepen x t).current_drawdown t.current_drawdown ≡ false)
        × (d.less (deepen x t).current_drawdown x ≡ false)
        × ((deepen x t).peak_equity ≡ t.peak_equity)
  unfolding deepen
  deepen-drawdown x t nd nx = elim (Bool-cases (d.less t.current_drawdown x)) [
    | inl a ↦ simp a (nx, o.less_asym t.current_drawdown x nd nx a, o.less_irrefl x nx, refl)
    | inr a ↦ simp a (nd, o.less_irrefl t.current_drawdown nd, refl, refl)
  ]

  -- The peak and the drawdown of `t'`, numbers, are at least those of `t`.
  record Grown (t t' : Backtester W) : Type 0 where
    peak : IsNumber t'.peak_equity
    drawdown : IsNumber t'.current_drawdown
    peak_le : d.less t'.peak_equity t.peak_equity ≡ false
    drawdown_le : d.less t'.current_drawdown t.current_drawdown ≡ false

  update_drawdown-Grown :
      (e : W) (t : Backtester W)
      → IsNumber t.peak_equity
      → IsNumber t.current_drawdown
      → IsNumber e
      → IsNumber (fall e t)
      → Grown t (update_drawdown e t)
        × (d.less (update_drawdown e t).peak_equity e ≡ false)
        × (d.less (update_drawdown e t).current_drawdown (fall e t) ≡ false)
  unfolding update_drawdown
  update_drawdown-Grown e t np nd ne nf =
      let (p, p_le, p_e, same) = raise_peak-peak e t np ne in
      let (x, x_le, x_f, peak) =
        deepen-drawdown (fall e t) (raise_peak e t) (subst IsNumber (sym same) nd) nf in
      (
        record {
          peak = subst IsNumber (sym peak) p;
          drawdown = x;
          peak_le = ap (λ y. d.less y t.peak_equity) peak ∙ p_le;
          drawdown_le = ap (d.less (update_drawdown e t).current_drawdown) (sym same) ∙ x_le;
        },
        ap (λ y. d.less y e) peak ∙ p_e,
        x_f,
      )

  update_drawdowns-Grown :
      (es : List W) (t : Backtester W)
      → IsNumber t.peak_equity
      → IsNumber t.current_drawdown
      → Numbers IsNumber es t
      → Grown t (update_drawdowns es t)
        × Covered (update_drawdowns es t).peak_equity (update_drawdowns es t).current_drawdown es t
  unfolding update_drawdowns
  update_drawdowns-Grown [] t np nd h = (
    record {
      peak = np;
      drawdown = nd;
      peak_le = o.less_irrefl t.peak_equity np;
      drawdown_le = o.less_irrefl t.current_drawdown nd;
    },
    tt,
  )
  update_drawdowns-Grown (e ∷ es) t np nd h =
      let t₁ = update_drawdown e t in
      let t' = update_drawdowns es t₁ in
      let (g, p_e, x_f) = update_drawdown-Grown e t np nd h.0.0 h.0.1 in
      let (g', covered) = update_drawdowns-Grown es t₁ g.peak g.drawdown h.1 in
      let above = λ (x : W) (n : IsNumber x) (le : d.less t₁.peak_equity x ≡ false).
        o.less_trans x t₁.peak_equity t'.peak_equity n g.peak g'.peak le g'.peak_le in
      let deeper = λ (x : W) (n : IsNumber x) (le : d.less t₁.current_drawdown x ≡ false).
        o.less_trans x t₁.current_drawdown t'.current_drawdown n g.drawdown g'.drawdown le
          g'.drawdown_le in
      (
        record {
          peak = g'.peak;
          drawdown = g'.drawdown;
          peak_le = above t.peak_equity np g.peak_le;
          drawdown_le = deeper t.current_drawdown nd g.drawdown_le;
        },
        ((above e h.0.0 p_e, deeper (fall e t) h.0.1 x_f), covered),
      )

  -- Where doubles other than NaN are ordered, and none of the equities of a series nor of their falls
  -- below the peak is NaN, nor the peak and drawdown before: afterwards the peak is at least every equity, and the drawdown at least
  -- every fall below the peak of its time.
  pub update_drawdowns-Covered :
      (es : List W) (t : Backtester W)
      → IsNumber t.peak_equity
      → IsNumber t.current_drawdown
      → Numbers IsNumber es t
      → Covered (update_drawdowns es t).peak_equity (update_drawdowns es t).current_drawdown es t
  update_drawdowns-Covered es t np nd h = (update_drawdowns-Grown es t np nd h).1
