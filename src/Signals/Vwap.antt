-- ===== src/Signals/Vwap.antt =====
-- VWAPSignalEngine: the average price of the trades, weighted by their quantities. The two sums are of
-- `__int128`, and an overflow of either is a fault; a product of a price and a quantity is below 2^95.
use l3_lock_free_orderbook_e.Prelude.{ℕ, ◌+◌, ◌==◌, if◌then◌else◌, Run, ok, ◌>>=◌}
use l3_lock_free_orderbook_e.Prelude.Signed.{checked128}
use l3_lock_free_orderbook_e.Prelude.Int.{ℤ, pos, pos_part, ◌+ℤ◌, ◌*ℤ◌, div_ℤ, wrap_i64}
use l3_lock_free_orderbook_e.Prelude.Word.{add32}
use l3_lock_free_orderbook_e.Types.{Price, Quantity}

-- `cumulative_qty_`, a sum of unsigned quantities, is a natural number.
pub record VwapSignalEngine : Type 0 where
  pub cumulative_pv : ℤ
  pub cumulative_qty : ℕ
  pub total_qty : Quantity

abbrev pub new : VwapSignalEngine
new = record { cumulative_pv = pos 0; cumulative_qty = 0; total_qty = 0 }

unfoldable pub on_trade : Price → Quantity → VwapSignalEngine → Run VwapSignalEngine
on_trade price qty e = do
  pv ← checked128 (e.cumulative_pv +ℤ price *ℤ pos qty)
  sum ← checked128 (pos (e.cumulative_qty + qty))
  ok (record {
    cumulative_pv = pv;
    cumulative_qty = pos_part sum;
    total_qty = add32 e.total_qty qty;
  })

unfoldable pub vwap : VwapSignalEngine → Price
vwap e = if e.cumulative_qty == 0 then pos 0 else wrap_i64 (div_ℤ e.cumulative_pv e.cumulative_qty)

abbrev pub total_volume : VwapSignalEngine → Quantity
total_volume e = e.total_qty

unfoldable pub reset : VwapSignalEngine → VwapSignalEngine
reset e = record { cumulative_pv = pos 0; cumulative_qty = 0; total_qty = 0 }
