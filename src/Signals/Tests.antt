-- ===== src/Signals/Tests.antt =====
-- The engines on a few prices, with whole numbers for doubles.
use l3_lock_free_orderbook_e.Prelude.{
  ◌-◌, ◌^◌, ◌≡◌, refl, true, List, [], ◌∷◌, Run, ok, Returns, arith,
}
use l3_lock_free_orderbook_e.Prelude.Word.{u32}
use l3_lock_free_orderbook_e.Prelude.Int.{ℤ, pos, negsuc, ◌+ℤ◌, ◌-ℤ◌, ◌*ℤ◌, ◌≤ℤ◌, div_ℤ}
use l3_lock_free_orderbook_e.Types.{Price, Quantity}
use l3_lock_free_orderbook_e.Double.{integers}
use l3_lock_free_orderbook_e.Signals.Vwap
use l3_lock_free_orderbook_e.Signals.Vwap.{VwapSignalEngine, vwap, total_volume, on_trade}
use l3_lock_free_orderbook_e.Signals.Average.{on_trades, vwap-between}
use l3_lock_free_orderbook_e.Signals.Ema.{
  hold, buy, sell, EmaSignalEngine, on_price, average, crossing, remember,
}
use l3_lock_free_orderbook_e.Signals.Crossings.{
  Alternates, last_of, on_prices, on_prices-Alternates,
}

abbrev trades : List (Price × Quantity)
trades = (pos 10000, 100) ∷ (pos 10010, 50) ∷ (pos 9990, 25) ∷ []

abbrev traded : VwapSignalEngine
traded = record { cumulative_pv = pos 1750250; cumulative_qty = 175; total_qty = 175 }

on_trades_run : on_trades trades Vwap.new ≡ ok traded
unfolding on_trades on_trade ◌+ℤ◌ ◌*ℤ◌
on_trades_run = refl

vwap_run : vwap traded ≡ pos 10001
unfolding vwap
vwap_run = refl

-- The sum of products leaves the range of `__int128`.
overflow_run :
    on_trade
      (pos (2 ^ 63 - 1))
      4
      (record { cumulative_pv = pos (2 ^ 127 - 1); cumulative_qty = 2 ^ 64; total_qty = 0 })
    ≡ Run.fault
unfolding on_trade ◌+ℤ◌ ◌*ℤ◌
overflow_run = refl

vwap-between_example :
    Returns
      (λ e.
        (pos 9990 ≤ℤ vwap e)
        × (vwap e ≤ℤ pos 10010)
        × (vwap e ≡ div_ℤ e.cumulative_pv 175)
        × (u32 (total_volume e) ≡ 175))
      (on_trades trades Vwap.new)
vwap-between_example =
    vwap-between (pos 9990) (pos 10010) trades
      ((omega arith, omega arith), ((omega arith, omega arith), ((omega arith, omega arith), tt)))
      refl refl (omega arith) (omega arith)

-- The fast average is the last price, and the slow one the mean of it and what it was.
abbrev engine : EmaSignalEngine ℤ
engine = record {
  cfg = record { fast_period = 1; slow_period = 3; threshold = pos 2 };
  fast_ema = pos 0;
  slow_ema = pos 0;
  last_signal = hold;
  initialized = true;
  fast_alpha = pos 1;
  slow_alpha = pos 0;
}

abbrev prices : List Price
prices = pos 100 ∷ pos 105 ∷ pos 1 ∷ negsuc 99 ∷ negsuc 104 ∷ pos 50 ∷ []

signals_run :
    (on_prices ⦃d = integers⦄ prices engine).0 ≡ buy ∷ hold ∷ hold ∷ sell ∷ hold ∷ buy ∷ []
unfolding on_prices on_price average crossing remember ◌+ℤ◌ ◌-ℤ◌ ◌*ℤ◌
signals_run = refl

on_prices-Alternates_example :
    Alternates hold (on_prices ⦃d = integers⦄ prices engine).0
    × ((on_prices ⦃d = integers⦄ prices engine).1.last_signal
        ≡ last_of hold (on_prices ⦃d = integers⦄ prices engine).0)
on_prices-Alternates_example = on_prices-Alternates ⦃d = integers⦄ prices engine
