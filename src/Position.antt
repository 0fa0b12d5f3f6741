-- ===== src/Position.antt =====
-- Position of include/orderbook/backtester.hpp and src/backtester.cpp. The quantity and the prices are
-- integers here (`int64_t`); Position/Fills bounds the quantity. The difference of two prices and its
-- product with a quantity are signed sums of 64 bits, which are a fault where they overflow.
use l3_lock_free_orderbook_e.Prelude.{ℕ, Bool, ◌==◌, leb, if◌then◌else◌, Run, ok, ◌>>=◌}
use l3_lock_free_orderbook_e.Prelude.Signed.{checked64}
use l3_lock_free_orderbook_e.Prelude.Int.{
  ℤ, pos, neg_part, pos_part, ◌+ℤ◌, ◌-ℤ◌, ◌*ℤ◌, ltb_ℤ, leb_ℤ, eqb_ℤ, sub_ℕ,
}
use l3_lock_free_orderbook_e.Prelude.Word.{u32}
use l3_lock_free_orderbook_e.Types.{Price, Quantity, Side, buy, sell}
use l3_lock_free_orderbook_e.Double.{Double, nought}
pub mod Fills
pub mod Profit
mod Tests

pub record Position (W : Type 0) : Type 0 where
  pub qty : ℤ
  pub avg_entry_price : Price
  pub realized_pnl : W

module _ {W : Type 0} ⦃d : Double W⦄ where
  abbrev pub new : Position W
  new = record { qty = pos 0; avg_entry_price = pos 0; realized_pnl = nought }

  -- static_cast<double>(price) * qty, for a 64-bit integer and a quantity
  abbrev pub worth : Price → ℤ → W
  worth price qty = d.times (d.of_int price) (d.of_int qty)

  -- A fill on the side of the position: `held` is its size before, and `qty` the quantity after.
  unfoldable pub open_fill :
      (held : ℤ) → Price → Quantity → (after size : ℤ) → Position W → Position W
  open_fill held price qty after size p = record p {
    qty = after;
    avg_entry_price =
        d.to_int
          (d.over (d.plus (worth p.avg_entry_price held) (worth price (pos qty))) (d.of_int size));
  }

  -- A fill against the position closes `closed` of it, at a gain of `gain` for each.
  unfoldable pub close_fill :
      (gain closed : ℤ) (commission : W) → Quantity → (after : ℤ) → Position W → Run (Position W)
  close_fill gain closed commission qty after p = checked64 (gain *ℤ closed) >>= λ total.
      ok (record p {
        qty = after;
        realized_pnl =
            d.plus p.realized_pnl
              (d.minus (d.of_int total) (d.times commission (d.of_int (pos qty))));
      })

  -- The price of the rest, where the fill was larger than the position.
  unfoldable pub turn : (turned : Bool) → Price → Position W → Position W
  turn turned price p = if turned then record p { avg_entry_price = price } else p

  unfoldable pub buy_fill : Price → Quantity → W → Position W → Run (Position W)
  buy_fill price qty commission p =
      let after = p.qty +ℤ pos qty in
      let short = pos 0 -ℤ p.qty in
      if leb_ℤ (pos 0) p.qty then ok (open_fill p.qty price qty after after p) else (do
        gain ← checked64 (p.avg_entry_price -ℤ price)
        if leb (u32 (neg_part p.qty)) qty
            then (do
              p ← close_fill gain short commission qty after p
              ok (turn (ltb_ℤ (pos 0) after) price p))
            else close_fill gain (pos qty) commission qty after p)

  unfoldable pub sell_fill : Price → Quantity → W → Position W → Run (Position W)
  sell_fill price qty commission p =
      let after = p.qty -ℤ pos qty in
      let held = p.qty in
      if leb_ℤ p.qty (pos 0)
      then ok (open_fill (pos 0 -ℤ p.qty) price qty after (pos 0 -ℤ after) p)
      else (do
        gain ← checked64 (price -ℤ p.avg_entry_price)
        if leb (u32 (pos_part p.qty)) qty
            then (do
              p ← close_fill gain held commission qty after p
              ok (turn (ltb_ℤ after (pos 0)) price p))
            else close_fill gain (pos qty) commission qty after p)

  unfoldable pub fill_side : Side → Price → Quantity → W → Position W → Run (Position W)
  fill_side buy = buy_fill
  fill_side sell = sell_fill

  unfoldable pub add_fill :
      Side → Price → Quantity → (commission : W) → Position W → Run (Position W)
  add_fill side price qty commission p =
      if qty == 0 then ok p else fill_side side price qty commission p

  unfoldable pub unrealized_pnl : Price → Position W → Run W
  unrealized_pnl current_price p =
      if eqb_ℤ p.qty (pos 0)
      then ok nought
      else (if ltb_ℤ (pos 0) p.qty
          then (do gain ← checked64 (current_price -ℤ p.avg_entry_price); ok (worth gain p.qty))
          else (do
            gain ← checked64 (p.avg_entry_price -ℤ current_price)
            ok (worth gain (pos 0 -ℤ p.qty))))

  unfoldable pub market_value : Price → Position W → W
  market_value current_price p = worth current_price p.qty
