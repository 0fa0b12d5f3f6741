-- ===== src/Backtest/Strategy.antt =====
-- `run_ema_strategy` and `benchmark_latency`.
use l3_lock_free_orderbook_e.Prelude.{
  ℕ, zero, suc, ◌+◌, not, if◌then◌else◌, List, [], ◌∷◌, ◌++◌, length,
}
use l3_lock_free_orderbook_e.Prelude.Int.{eqb_ℤ}
use l3_lock_free_orderbook_e.Prelude.Word.{add64, sub64}
use l3_lock_free_orderbook_e.Types.{
  Price, Timestamp, limit, cancel, invalid_price, MarketDataMessage, TradeReport, is_valid,
}
use l3_lock_free_orderbook_e.Double.{Double, nought, number}
use l3_lock_free_orderbook_e.Market.{Random, MarketDataSimulator, next_message}
use l3_lock_free_orderbook_e.Signals.Vwap.{VwapSignalEngine, on_trade}
use l3_lock_free_orderbook_e.Signals.Vwap
use l3_lock_free_orderbook_e.Signals.Ema.{Signal, EmaSignalEngine, on_price}
use l3_lock_free_orderbook_e.Signals.Ema
use l3_lock_free_orderbook_e.Position.{Position, add_fill, unrealized_pnl}
use l3_lock_free_orderbook_e.Position
use l3_lock_free_orderbook_e.Book.State.{B, pure, ◌>>=◌, ◌>>◌}
use l3_lock_free_orderbook_e.Book.Orders.{add_order, cancel_order}
use l3_lock_free_orderbook_e.Book.Depth.{mid_price}
use l3_lock_free_orderbook_e.Backtest.{
  BacktestResult, Backtester, no_result, record_latency, update_drawdown, summarize,
}
use l3_lock_free_orderbook_e.Backtest.Session.{
  fresh_trades, get_trades, apart, take_in, read_tsc, handle, act,
}

pub record Session (W G : Type 0) : Type 0 where
  pub simulator : MarketDataSimulator W G
  pub signal_engine : EmaSignalEngine W
  pub vwap_engine : VwapSignalEngine
  pub position : Position W
  pub tester : Backtester W
  pub trade_count : ℕ

module _ (order_map_size : ℕ) (rdtsc : ℕ → Timestamp) {W G : Type 0} ⦃d : Double W⦄
    (r : Random W G) where
  -- The reports of a message reach the average and the count.
  unfoldable pub count_trades : List TradeReport → Session W G → B (Session W G)
  count_trades trades s = do
    vwap_engine ← take_in trades s.vwap_engine
    pure (record s { vwap_engine = vwap_engine; trade_count = add64 s.trade_count (length trades) })

  -- The signal at a mid price, and what the strategy does with it.
  unfoldable pub signal_step : (i : ℕ) → MarketDataMessage → Session W G → B (Session W G)
  signal_step i m s = do
    mid ← mid_price
    if eqb_ℤ mid invalid_price then pure s else (do
      let signalled = on_price mid s.signal_engine
      p ← act order_map_size rdtsc s.tester.cfg i m.timestamp_ns signalled.0 s.position
      pure (record s { signal_engine = signalled.1; position = p }))

  -- The equity at the mid price after a message.
  unfoldable pub equity_step : Session W G → B (Session W G)
  equity_step s = do
    mid ← mid_price
    if eqb_ℤ mid invalid_price then pure s else (do
      unrealized ← apart (unrealized_pnl mid s.position)
      let equity = d.plus s.position.realized_pnl unrealized
      let t = record s.tester { equity_curve = s.tester.equity_curve ++ equity ∷ [] }
      pure (record s { tester = update_drawdown equity t }))

  unfoldable pub strategy_step : (i : ℕ) → Session W G → B (Session W G)
  strategy_step i s = do
    next ← apart (next_message r s.simulator)
    let m = next.0
    let s = record s { simulator = next.1 }
    if not (is_valid m) then pure s else (do
      msg_start ← read_tsc order_map_size rdtsc
      handle order_map_size rdtsc m
      trades ← get_trades
      s ← count_trades trades s
      s ← signal_step i m s
      msg_end ← read_tsc order_map_size rdtsc
      equity_step (record s { tester = record_latency msg_start msg_end s.tester }))

  -- The loop, with the messages that are left.
  unfoldable pub strategy_loop : (i left : ℕ) → Session W G → B (Session W G)
  strategy_loop i zero s = pure s
  strategy_loop i (suc left) s = do s ← strategy_step i s; strategy_loop (i + 1) left s

  module _ (sort : List ℕ → List ℕ) where
    -- What is reported of the end of the session.
    unfoldable pub report_session : (mid : Price) → Session W G → B (BacktestResult W)
    report_session mid s = do
      unrealized ←
          (if eqb_ℤ mid invalid_price then pure nought else apart (unrealized_pnl mid s.position))
      pure (record no_result {
        total_trades = s.trade_count;
        realized_pnl = s.position.realized_pnl;
        unrealized_pnl = unrealized;
        total_pnl = d.plus s.position.realized_pnl unrealized;
        max_drawdown = s.tester.current_drawdown;
      })

    -- messages and trades per second
    unfoldable pub rate_session :
        (messages : ℕ) (elapsed : W) → Session W G → BacktestResult W → BacktestResult W
    rate_session n elapsed s result = record result {
      orders_per_second = d.over (number n) elapsed;
      trades_per_second = d.over (number s.trade_count) elapsed;
    }

    unfoldable pub run_ema_strategy :
        (num_messages : ℕ) (signal_cfg : Ema.Config W)
        → Backtester W
        → MarketDataSimulator W G
        → B (BacktestResult W × Session W G)
    run_ema_strategy n signal_cfg tester simulator = do
      start_time ← read_tsc order_map_size rdtsc
      s ← strategy_loop 0 n (record {
        simulator = simulator;
        signal_engine = Ema.new signal_cfg;
        vwap_engine = Vwap.new;
        position = Position.new;
        tester = tester;
        trade_count = 0;
      })
      end_time ← read_tsc order_map_size rdtsc
      final_mid ← mid_price
      report ← report_session final_mid s
      summary ← apart (summarize sort s.tester report)
      let elapsed = d.over (number (sub64 end_time start_time)) (number 1000000000)
      pure (rate_session n elapsed s summary.1, record s { tester = summary.0 })

  -- The same switch in `benchmark_latency`, where a message to modify an order does nothing.
  unfoldable pub handle_benchmark : MarketDataMessage → B (Unit {0})
  handle_benchmark m = elim m.type [
    | limit ↦ do
      added ← add_order order_map_size rdtsc m.order_id m.side m.price m.quantity m.timestamp_ns
      pure tt
    | cancel ↦ do cancelled ← cancel_order order_map_size m.order_id; pure tt
    | _ ↦ pure tt
  ]

  -- Messages before the measurement: those that add an order are handled.
  unfoldable pub warm_up : ℕ → MarketDataSimulator W G → B (MarketDataSimulator W G)
  warm_up zero s = pure s
  warm_up (suc n) s = do
    next ← apart (next_message r s)
    let m = next.0
    fresh_trades
    elim m.type [
      | limit ↦ do
        added ← add_order order_map_size rdtsc m.order_id m.side m.price m.quantity m.timestamp_ns
        warm_up n next.1
      | _ ↦ warm_up n next.1
    ]

  -- The measured loop, and the latencies at its end.
  unfoldable pub measure :
      ℕ → MarketDataSimulator W G → List Timestamp → B (List Timestamp × MarketDataSimulator W G)
  measure zero s latencies = pure (latencies, s)
  measure (suc n) s latencies = do
    next ← apart (next_message r s)
    fresh_trades
    start ← read_tsc order_map_size rdtsc
    handle_benchmark next.0
    end ← read_tsc order_map_size rdtsc
    measure n next.1 (latencies ++ sub64 end start ∷ [])

  unfoldable pub benchmark_latency :
      (sort : List ℕ → List ℕ) (num_messages warmup_messages : ℕ)
      → Backtester W
      → MarketDataSimulator W G
      → B (BacktestResult W × Backtester W × MarketDataSimulator W G)
  benchmark_latency sort n warmup tester simulator = do
    simulator ← warm_up warmup simulator
    measured ← measure n simulator []
    summary ← apart (summarize sort (record tester { latencies = measured.0 }) no_result)
    pure (summary.1, summary.0, measured.1)
