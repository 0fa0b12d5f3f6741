-- ===== src/Backtest/Session.antt =====
-- `run_replay`, and the parts of `run_ema_strategy`. The size of the order map and what the time
-- stamp counter reads are parameters, as in Book.
use l3_lock_free_orderbook_e.Prelude.{ℕ, ◌+◌, not, if◌then◌else◌, List, [], ◌∷◌, Run, ok}
use l3_lock_free_orderbook_e.Prelude.Int.{pos, ◌-ℤ◌, ltb_ℤ, eqb_ℤ}
use l3_lock_free_orderbook_e.Prelude.Word.{add64}
use l3_lock_free_orderbook_e.Types.{
  Price, Timestamp, Side, buy, sell, limit, market, cancel, modify, invalid_price,
  MarketDataMessage, TradeReport, is_valid,
}
use l3_lock_free_orderbook_e.Double.{Double, number}
use l3_lock_free_orderbook_e.Signals.Vwap.{VwapSignalEngine, on_trade}
use l3_lock_free_orderbook_e.Signals.Ema.{Signal, EmaSignalEngine, on_price}
use l3_lock_free_orderbook_e.Signals.Ema
use l3_lock_free_orderbook_e.Position.{Position, add_fill}
use l3_lock_free_orderbook_e.Book.State.{B, pure, ◌>>=◌, ◌>>◌}
use l3_lock_free_orderbook_e.Book.Levels.{best_bid, best_ask}
use l3_lock_free_orderbook_e.Book.Orders.{add_order, cancel_order, modify_order}
use l3_lock_free_orderbook_e.Book.Depth.{mid_price}
use l3_lock_free_orderbook_e.Backtest.{BacktestConfig, BacktestResult, no_result}

-- A fresh vector of reports, and the reports in it.
abbrev pub fresh_trades : B (Unit {0})
fresh_trades b = ok (tt, record b { trades = [] })

abbrev pub get_trades : B (List TradeReport)
get_trades b = ok (b.trades, b)

-- Code that does not touch the book.
abbrev pub apart : {A : Type 0} → Run A → B A
apart (ok a) b = ok (a, b)
apart Run.fault b = Run.fault
apart Run.out_of_fuel b = Run.out_of_fuel

-- The volume-weighted average takes in the reports.
unfoldable pub take_in : List TradeReport → VwapSignalEngine → B VwapSignalEngine
take_in [] e = pure e
take_in (t ∷ ts) e = do e ← apart (on_trade t.price t.quantity e); take_in ts e

module _ (order_map_size : ℕ) (rdtsc : ℕ → Timestamp) where
  abbrev pub read_tsc : B Timestamp
  read_tsc b = ok (rdtsc b.ticks, record b { ticks = b.ticks + 1 })

  -- The switch over the type of a message, whose results are not looked at.
  unfoldable pub handle : MarketDataMessage → B (Unit {0})
  handle m = do
    fresh_trades
    elim m.type [
      | limit ↦ do
        added ← add_order order_map_size rdtsc m.order_id m.side m.price m.quantity m.timestamp_ns
        pure tt
      | cancel ↦ do cancelled ← cancel_order order_map_size m.order_id; pure tt
      | modify ↦ do
        modified ← modify_order order_map_size rdtsc m.order_id m.price m.quantity m.timestamp_ns
        pure tt
      | market ↦ pure tt
    ]

  module _ {W : Type 0} ⦃d : Double W⦄ where
    abbrev pub signal_at : Price → EmaSignalEngine W → B (Signal × EmaSignalEngine W)
    signal_at mid e = pure (on_price mid e)

    -- One message of `run_replay`
    unfoldable pub replay_message : MarketDataMessage → EmaSignalEngine W → B (EmaSignalEngine W)
    replay_message m e = if not (is_valid m) then pure e else (do
      handle m
      mid ← mid_price
      if eqb_ℤ mid invalid_price then pure e else pure (on_price mid e).1)

    unfoldable pub replay_loop : List MarketDataMessage → EmaSignalEngine W → B (EmaSignalEngine W)
    replay_loop [] e = pure e
    replay_loop (m ∷ ms) e = do e ← replay_message m e; replay_loop ms e

    -- The result that `run_replay` returns is as it was initialized.
    unfoldable pub run_replay : List MarketDataMessage → Ema.Config W → B (BacktestResult W)
    run_replay ms cfg = do e ← replay_loop ms (Ema.new cfg); pure no_result

    -- The fills of an order of the strategy.
    unfoldable pub add_trades :
        BacktestConfig W → Side → List TradeReport → Position W → B (Position W)
    add_trades cfg side [] p = pure p
    add_trades cfg side (t ∷ ts) p = do
      let impact = d.over (d.times (d.of_int t.price) cfg.market_impact_bps) (number 10000)
      p ← apart (add_fill side t.price t.quantity (d.plus cfg.commission_per_share impact) p)
      add_trades cfg side ts p

    -- An order of the strategy at the best opposite price, and its fills.
    unfoldable pub take_side :
        BacktestConfig W → (i : ℕ) → Side → Price → Timestamp → Position W → B (Position W)
    take_side cfg i side price ts p = do
      fresh_trades
      added ← add_order order_map_size rdtsc (add64 1000000 i) side price cfg.order_size ts
      trades ← get_trades
      add_trades cfg side trades p

    -- What the strategy does with a signal.
    unfoldable pub act :
        BacktestConfig W → (i : ℕ) → Timestamp → Signal → Position W → B (Position W)
    act cfg i ts Signal.buy p =
        if ltb_ℤ p.qty (pos cfg.max_position)
        then (do ask ← best_ask; take_side cfg i buy ask ts p)
        else pure p
    act cfg i ts Signal.sell p =
        if ltb_ℤ (pos 0 -ℤ pos cfg.max_position) p.qty
        then (do bid ← best_bid; take_side cfg i sell bid ts p)
        else pure p
    act cfg i ts Signal.hold p = pure p
