-- ===== src/Position/Tests.antt =====
-- Fills of a position, with whole numbers for doubles.
use l3_lock_free_orderbook_e.Prelude.{
  ◌-◌, ◌^◌, ◌≡◌, refl, true, List, [], ◌∷◌, Run, ok, Returns, ReturnsOr, arith,
}
use l3_lock_free_orderbook_e.Prelude.Int.{ℤ, pos, negsuc, sub_ℕ, fits_i64, ◌+ℤ◌, ◌-ℤ◌, ◌*ℤ◌}
use l3_lock_free_orderbook_e.Types.{buy, sell}
use l3_lock_free_orderbook_e.Double.{integers}
use l3_lock_free_orderbook_e.Position.{
  Position, new, add_fill, fill_side, buy_fill, sell_fill, open_fill, close_fill, turn,
  unrealized_pnl, market_value,
}
use l3_lock_free_orderbook_e.Position.Fills.{Fill, Overflows, add_fills, add_fills-net}
use l3_lock_free_orderbook_e.Position.Profit.{realized, add_fill-opens, add_fill-closes}

abbrev fills : List (Fill ℤ)
fills =
    record { side = buy; price = pos 10; quantity = 100; commission = pos 0 }
    ∷ record { side = buy; price = pos 20; quantity = 100; commission = pos 0 }
    ∷ record { side = sell; price = pos 18; quantity = 250; commission = pos 1 }
    ∷ []

abbrev after : Position ℤ
after = record { qty = negsuc 49; avg_entry_price = pos 18; realized_pnl = pos 350 }

fills_run : add_fills ⦃d = integers⦄ fills (new ⦃d = integers⦄) ≡ ok after
unfolding add_fills add_fill fill_side buy_fill sell_fill open_fill close_fill turn ◌+ℤ◌ ◌-ℤ◌ ◌*ℤ◌
fills_run = refl

values_run :
    ◌≡◌ {A = Run ℤ × ℤ}
      (unrealized_pnl ⦃d = integers⦄ (pos 15) after, market_value ⦃d = integers⦄ (pos 15) after)
      (ok (pos 150), negsuc 749)
unfolding ◌-ℤ◌ ◌*ℤ◌ unrealized_pnl market_value
values_run = refl

add_fills-net_example :
    ReturnsOr
      (Overflows ⦃d = integers⦄ fills (new ⦃d = integers⦄))
      (λ p. (p.qty ≡ sub_ℕ 200 250) × (fits_i64 p.qty ≡ true))
      (add_fills ⦃d = integers⦄ fills (new ⦃d = integers⦄))
add_fills-net_example = add_fills-net ⦃d = integers⦄ fills (omega arith) (omega arith)

abbrev long : Position ℤ
long = record { qty = pos 100; avg_entry_price = pos 10; realized_pnl = pos 0 }

-- The difference of the two prices is 2^64 - 1.
overflow_run :
    add_fill ⦃d = integers⦄ buy
      (negsuc (2 ^ 63 - 1))
      1
      (pos 0)
      (record { qty = negsuc 0; avg_entry_price = pos (2 ^ 63 - 1); realized_pnl = pos 0 })
    ≡ Run.fault
unfolding add_fill fill_side buy_fill close_fill ◌-ℤ◌
overflow_run = refl

add_fill-opens_example :
    Returns
      (λ p. (p.realized_pnl ≡ pos 0) × (add_fill ⦃d = integers⦄ buy (pos 12) 5 (pos 2) long ≡ ok p))
      (add_fill ⦃d = integers⦄ buy (pos 12) 5 (pos 1) long)
add_fill-opens_example = add_fill-opens ⦃d = integers⦄ buy (pos 12) 5 (pos 1) (pos 2) long refl

add_fill-closes_example :
    Returns
      (λ p.
        (p.realized_pnl ≡ realized ⦃d = integers⦄ sell (pos 10) (pos 12) 100 120 (pos 1) (pos 0))
        × (p.avg_entry_price ≡ pos 12))
      (add_fill ⦃d = integers⦄ sell (pos 12) 120 (pos 1) long)
unfolding ◌-ℤ◌ ◌*ℤ◌
add_fill-closes_example =
    add_fill-closes ⦃d = integers⦄ sell (pos 12) (pos 10) 120 99 (pos 1) (pos 0) (omega arith)
      (omega arith) refl refl
