-- ===== src/Backtest.antt =====
-- Backtester of include/orderbook/backtester.hpp and src/backtester.cpp: a simulator, a book, the two
-- engines and a position put together. `sort` of the library is a parameter, as is what the time stamp
-- counter reads.
use l3_lock_free_orderbook_e.Prelude.{
  ℕ, zero, suc, ◌+◌, ◌*◌, ◌/◌, ◌==◌, ltb, Bool, true, false, not, if◌then◌else◌, List, [], ◌∷◌,
  ◌++◌, length, get_elem?, Option, none, some, Run, ok, fault, ◌>>=◌,
}
use l3_lock_free_orderbook_e.Prelude.Int.{pos}
use l3_lock_free_orderbook_e.Prelude.Word.{add64, sub64, u64}
use l3_lock_free_orderbook_e.Types.{Price, Quantity, Timestamp}
use l3_lock_free_orderbook_e.Double.{Double, nought, number}
pub mod Drawdown
pub mod Percentiles
pub mod Session
pub mod Strategy
pub mod Replay
mod Tests

pub record BacktestConfig (W : Type 0) : Type 0 where
  pub commission_per_share : W
  pub market_impact_bps : W
  pub tick_size : Price
  pub max_position : Quantity
  pub order_size : Quantity

pub record BacktestResult (W : Type 0) : Type 0 where
  pub total_pnl : W
  pub realized_pnl : W
  pub unrealized_pnl : W
  pub sharpe_ratio : W
  pub max_drawdown : W
  pub max_drawdown_pct : W
  pub volatility : W
  pub total_trades : ℕ
  pub winning_trades : ℕ
  pub losing_trades : ℕ
  pub win_rate : W
  pub avg_trade_pnl : W
  pub avg_win : W
  pub avg_loss : W
  pub profit_factor : W
  pub avg_latency_ns : W
  pub p50_latency_ns : W
  pub p99_latency_ns : W
  pub p999_latency_ns : W
  pub max_latency_ns : W
  pub orders_per_second : W
  pub trades_per_second : W

pub record Backtester (W : Type 0) : Type 0 where
  pub cfg : BacktestConfig W
  pub latencies : List Timestamp
  pub equity_curve : List W
  pub peak_equity : W
  pub current_drawdown : W

module _ {W : Type 0} where
  unfoldable pub record_latency : (start end : Timestamp) → Backtester W → Backtester W
  record_latency start end t =
      if ltb start end then record t { latencies = t.latencies ++ sub64 end start ∷ [] } else t

-- `std::accumulate` from 0ULL
abbrev pub accumulate : List ℕ → ℕ
accumulate xs = go 0 xs
  where
    go : ℕ → List ℕ → ℕ
    go acc [] = acc
    go acc (x ∷ xs) = go (add64 acc x) xs

-- `xs[i]`, undefined behaviour out of range.
abbrev pub at : {A : Type 0} → List A → ℕ → Run A
at [] i = fault
at (x ∷ xs) zero = ok x
at (x ∷ xs) (suc i) = at xs i

-- `xs.back()`
abbrev pub back : {A : Type 0} → List A → Run A
back [] = fault
back (x ∷ []) = ok x
back (x ∷ y ∷ xs) = back (y ∷ xs)

-- The place of a percentile: size * per / out_of
abbrev pub rank : (size per out_of : ℕ) → ℕ
rank size per out_of = u64 (size * per) / out_of

-- The percentiles of sorted latencies.
pub record Percentile : Type 0 where
  pub p50 : ℕ
  pub p99 : ℕ
  pub p999 : ℕ
  pub max : ℕ

unfoldable pub percentiles : List ℕ → Run Percentile
percentiles xs = do
  a ← at xs (rank (length xs) 50 100)
  b ← at xs (rank (length xs) 99 100)
  c ← at xs (rank (length xs) 999 1000)
  z ← back xs
  ok (record { p50 = a; p99 = b; p999 = c; max = z })

module _ {W : Type 0} ⦃d : Double W⦄ where
  unfoldable pub new : BacktestConfig W → Backtester W
  new cfg = record {
    cfg = cfg;
    latencies = [];
    equity_curve = [];
    peak_equity = nought;
    current_drawdown = nought;
  }

  abbrev pub no_result : BacktestResult W
  no_result = record {
    total_pnl = nought;
    realized_pnl = nought;
    unrealized_pnl = nought;
    sharpe_ratio = nought;
    max_drawdown = nought;
    max_drawdown_pct = nought;
    volatility = nought;
    total_trades = 0;
    winning_trades = 0;
    losing_trades = 0;
    win_rate = nought;
    avg_trade_pnl = nought;
    avg_win = nought;
    avg_loss = nought;
    profit_factor = nought;
    avg_latency_ns = nought;
    p50_latency_ns = nought;
    p99_latency_ns = nought;
    p999_latency_ns = nought;
    max_latency_ns = nought;
    orders_per_second = nought;
    trades_per_second = nought;
  }

  unfoldable pub raise_peak : (equity : W) → Backtester W → Backtester W
  raise_peak equity t = if d.less t.peak_equity equity then record t { peak_equity = equity } else t

  unfoldable pub deepen : (dd : W) → Backtester W → Backtester W
  deepen dd t = if d.less t.current_drawdown dd then record t { current_drawdown = dd } else t

  unfoldable pub update_drawdown : (equity : W) → Backtester W → Backtester W
  update_drawdown equity t = let t = raise_peak equity t in deepen (d.minus t.peak_equity equity) t

  module _ (sort : List ℕ → List ℕ) where
    -- The end of a run: the latencies are sorted and summed up.
    unfoldable pub summarize :
        Backtester W → BacktestResult W → Run (Backtester W × BacktestResult W)
    summarize t result = if length t.latencies == 0 then ok (t, result) else (do
      let xs = sort t.latencies
      p ← percentiles xs
      ok (
        record t { latencies = xs },
        record result {
          avg_latency_ns = d.over (number (accumulate xs)) (number (length xs));
          p50_latency_ns = number p.p50;
          p99_latency_ns = number p.p99;
          p999_latency_ns = number p.p999;
          max_latency_ns = number p.max;
        },
      ))
