-- ===== src/Backtest/Tests.antt =====
-- The parts of the backtester on small inputs, with whole numbers for doubles.
use l3_lock_free_orderbook_e.Prelude.{
  ℕ, ◌+◌, ◌%◌, ◌==◌, if◌then◌else◌, ◌≡◌, refl, List, [], ◌∷◌, Run, ok, arith,
}
use l3_lock_free_orderbook_e.Prelude.Int.{ℤ, pos, negsuc, ◌+ℤ◌, ◌-ℤ◌, ◌*ℤ◌}
use l3_lock_free_orderbook_e.Types.{
  MarketDataMessage, TradeReport, Side, buy, sell, OrderType, limit, cancel, modify, is_valid,
  Quantity, Price,
}
use l3_lock_free_orderbook_e.Double.{integers, integers-IsOrdered}
use l3_lock_free_orderbook_e.HashMap
use l3_lock_free_orderbook_e.Pool
use l3_lock_free_orderbook_e.Level
use l3_lock_free_orderbook_e.Tree.Machine.{machine}
use l3_lock_free_orderbook_e.Signals.Ema
use l3_lock_free_orderbook_e.Signals.Ema.{EmaSignalEngine, on_price}
use l3_lock_free_orderbook_e.Market
use l3_lock_free_orderbook_e.Market.{
  Config, Random, next_message, random_side, random_order_type, walk, later,
}
use l3_lock_free_orderbook_e.Position
use l3_lock_free_orderbook_e.Position.{Position}
use l3_lock_free_orderbook_e.Book.State.{OrderBook}
use l3_lock_free_orderbook_e.Book.State
use l3_lock_free_orderbook_e.Book.Levels.{best_bid, best_ask}
use l3_lock_free_orderbook_e.Book.Orders.{add_order, cancel_order, modify_order}
use l3_lock_free_orderbook_e.Book.Depth.{mid_price}
use l3_lock_free_orderbook_e.Backtest.{
  BacktestConfig, BacktestResult, Backtester, Percentile, percentiles, update_drawdown, raise_peak,
  deepen, summarize, record_latency, new,
}
use l3_lock_free_orderbook_e.Backtest.Percentiles.{
  IsOrderedPercentile, percentiles-IsOrderedPercentile,
}
use l3_lock_free_orderbook_e.Backtest.Drawdown.{Covered, update_drawdowns, update_drawdowns-Covered}
use l3_lock_free_orderbook_e.Backtest.Session.{
  handle, replay_message, replay_loop, run_replay, take_in, act, take_side,
}
use l3_lock_free_orderbook_e.Backtest.Strategy.{
  Session, signal_step, equity_step, strategy_step, strategy_loop, report_session, rate_session,
  count_trades, run_ema_strategy,
}
use l3_lock_free_orderbook_e.Backtest.Replay.{valid_only, run_replay-valid_only}

abbrev cfg : BacktestConfig ℤ
cfg = record {
  commission_per_share = pos 1;
  market_impact_bps = pos 1;
  tick_size = pos 1;
  max_position = 10000;
  order_size = 100;
}

abbrev tester : Backtester ℤ
tester = new ⦃d = integers⦄ cfg

percentiles_run :
    percentiles (1 ∷ 4 ∷ 9 ∷ 16 ∷ []) ≡ ok (record { p50 = 9; p99 = 16; p999 = 16; max = 16 })
unfolding percentiles
percentiles_run = refl

percentiles-IsOrderedPercentile_example :
    (p : Percentile) × (percentiles (1 ∷ 4 ∷ 9 ∷ 16 ∷ []) ≡ ok p)
    × IsOrderedPercentile (1 ∷ 4 ∷ 9 ∷ 16 ∷ []) p
percentiles-IsOrderedPercentile_example =
    percentiles-IsOrderedPercentile 1 (4 ∷ 9 ∷ 16 ∷ [])
      (omega arith, (omega arith, (omega arith, tt))) (omega arith)

abbrev equities : List ℤ
equities = pos 5 ∷ pos 3 ∷ pos 7 ∷ negsuc 0 ∷ pos 2 ∷ []

abbrev after : Backtester ℤ
after = update_drawdowns ⦃d = integers⦄ equities tester

drawdown_run : ◌≡◌ {A = ℤ × ℤ} (after.peak_equity, after.current_drawdown) (pos 7, pos 8)
unfolding update_drawdowns update_drawdown raise_peak deepen new ◌-ℤ◌
drawdown_run = refl

update_drawdowns-Covered_example :
    Covered ⦃d = integers⦄ after.peak_equity after.current_drawdown equities tester
update_drawdowns-Covered_example =
    update_drawdowns-Covered ⦃d = integers⦄ (λ _. Unit) integers-IsOrdered equities tester tt tt
      ((tt, tt), ((tt, tt), ((tt, tt), ((tt, tt), ((tt, tt), tt)))))

abbrev message : ℕ → Side → Price → Quantity → OrderType → MarketDataMessage
message id side price qty type = record {
  timestamp_ns = 0;
  order_id = id;
  price = price;
  quantity = qty;
  side = side;
  type = type;
}

-- The second message has no id, and the fifth no quantity.
abbrev messages : List MarketDataMessage
messages =
    message 1 buy (pos 100) 10 limit
    ∷ message 0 buy (pos 100) 10 limit
    ∷ message 2 sell (pos 104) 10 limit
    ∷ message 1 buy (pos 102) 5 modify
    ∷ message 4 sell (pos 104) 0 limit
    ∷ message 2 sell (pos 0) 1 cancel
    ∷ []

abbrev signal_cfg : Ema.Config ℤ
signal_cfg = record { fast_period = 1; slow_period = 3; threshold = pos 0 }

abbrev book : OrderBook
book = State.new 16 8

run_replay-valid_only_example :
    run_replay 16 (λ n. n) ⦃d = integers⦄ messages signal_cfg book
    ≡ run_replay 16 (λ n. n) ⦃d = integers⦄ (valid_only messages) signal_cfg book
run_replay-valid_only_example =
    run_replay-valid_only 16 (λ n. n) ⦃d = integers⦄ messages signal_cfg book

abbrev reports : List TradeReport
reports =
    record { timestamp_ns = 1; price = pos 104; quantity = 60; aggressor_side = buy }
    ∷ record { timestamp_ns = 2; price = pos 105; quantity = 40; aggressor_side = buy }
    ∷ []

abbrev flat : Position ℤ
flat = record { qty = negsuc 9; avg_entry_price = pos 100; realized_pnl = pos 0 }

-- The ids, sides and quantities that are left in the book are those of the valid messages.
abbrev left : Run (BacktestResult ℤ × OrderBook) → ℕ
left (ok r) = r.1.order_map.size
left _ = 99

replay_run : left (run_replay 16 (λ n. n) ⦃d = integers⦄ messages signal_cfg book) ≡ 1
unfolding machine HashMap.new Pool.new HashMap.hash State.new add_order cancel_order modify_order
    mid_price best_bid best_ask run_replay replay_loop replay_message handle is_valid on_price
    Ema.new Level.remove_order
replay_run = refl

-- Buys and sells in turn, at prices that fall by four and rise by ten.
abbrev turns : Random ℤ ℕ
turns = record {
  start = λ c. 0;
  price_dist = λ n. (if n % 10 == 2 then negsuc 3 else pos 10, n + 1);
  arrival_dist = λ n. (pos 0, n + 1);
  size_dist = λ n. (50, n + 1);
  type_dist = λ n. (if n % 10 == 1 then negsuc 0 else pos 1, n + 1);
}

abbrev market_cfg : Config ℤ
market_cfg = record {
  start_price = pos 100;
  volatility = pos 5;
  arrival_rate = pos 1;
  cancel_rate = pos 0;
  modify_rate = pos 0;
  max_order_size = 50;
  seed = 0;
}

abbrev strategy : ℕ → Run ((BacktestResult ℤ × Session ℤ ℕ) × OrderBook)
strategy n =
    run_ema_strategy 16 (λ n. n) ⦃d = integers⦄ turns (λ xs. xs) n signal_cfg tester
      (Market.new ⦃d = integers⦄ turns market_cfg) book

abbrev held : Run ((BacktestResult ℤ × Session ℤ ℕ) × OrderBook) → ℤ × Price × ℕ
held (ok r) = (r.0.1.position.qty, r.0.1.position.avg_entry_price, r.1.order_map.size)
held _ = (negsuc 99, pos 0, 0)

-- A bid at 96 and an offer at 106, and the first mid price.
strategy_run : ◌≡◌ {A = ℤ × Price × ℕ} (held (strategy 2)) (pos 0, pos 0, 2)
unfolding machine HashMap.new Pool.new HashMap.hash State.new add_order cancel_order modify_order
    mid_price best_bid best_ask handle is_valid on_price Ema.new Level.remove_order run_ema_strategy
    strategy_loop strategy_step signal_step equity_step next_message walk Market.new random_side
    random_order_type act Ema.crossing ◌-ℤ◌ ◌+ℤ◌ Ema.average ◌*ℤ◌ update_drawdown deepen raise_peak
    record_latency new Position.unrealized_pnl take_side take_in summarize percentiles
    report_session rate_session later count_trades
strategy_run = refl
