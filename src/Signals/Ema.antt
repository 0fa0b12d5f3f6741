-- ===== src/Signals/Ema.antt =====
-- EMASignalEngine: a signal where the fast average of the price crosses the slow one.
use l3_lock_free_orderbook_e.Prelude.{ℕ, Bool, true, false, not, ◌&&◌, if◌then◌else◌}
use l3_lock_free_orderbook_e.Prelude.Int.{pos, ◌-ℤ◌}
use l3_lock_free_orderbook_e.Types.{Price}
use l3_lock_free_orderbook_e.Double.{Double, number, neg}

pub data Signal : Type 0 where
  hold buy sell : Signal

-- `!=` on signals
abbrev pub differ : Signal → Signal → Bool
differ hold hold = false
differ buy buy = false
differ sell sell = false
differ _ _ = true

-- `last_signal_` after a signal
unfoldable pub remember : Signal → Signal → Signal
remember new_signal last = if differ new_signal hold then new_signal else last

pub record Config (W : Type 0) : Type 0 where
  pub fast_period : ℕ
  pub slow_period : ℕ
  pub threshold : W

pub record EmaSignalEngine (W : Type 0) : Type 0 where
  pub cfg : Config W
  pub fast_ema : Price
  pub slow_ema : Price
  pub last_signal : Signal
  pub initialized : Bool
  pub fast_alpha : W
  pub slow_alpha : W

module _ {W : Type 0} ⦃d : Double W⦄ where
  -- 2.0 / (period + 1.0)
  abbrev pub alpha : ℕ → W
  alpha period = d.over (number 2) (d.plus (number period) (number 1))

  unfoldable pub new : Config W → EmaSignalEngine W
  new cfg = record {
    cfg = cfg;
    fast_ema = pos 0;
    slow_ema = pos 0;
    last_signal = hold;
    initialized = false;
    fast_alpha = alpha cfg.fast_period;
    slow_alpha = alpha cfg.slow_period;
  }

  -- alpha * price + (1.0 - alpha) * ema
  unfoldable pub average : W → Price → Price → Price
  average a price ema =
      d.to_int (d.plus (d.times a (d.of_int price)) (d.times (d.minus (number 1) a) (d.of_int ema)))

  -- The signal for a difference of the averages.
  unfoldable pub crossing : Config W → Signal → Price → Signal
  crossing cfg last diff =
      if d.less cfg.threshold (d.of_int diff) && differ last buy
      then buy
      else (if d.less (d.of_int diff) (neg cfg.threshold) && differ last sell then sell else hold)

  unfoldable pub on_price : Price → EmaSignalEngine W → Signal × EmaSignalEngine W
  on_price mid_price e =
      if not e.initialized
      then (hold, record e { fast_ema = mid_price; slow_ema = mid_price; initialized = true })
      else let fast = average e.fast_alpha mid_price e.fast_ema in
        let slow = average e.slow_alpha mid_price e.slow_ema in
        let new_signal = crossing e.cfg e.last_signal (fast -ℤ slow) in
        (
          new_signal,
          record e {
            fast_ema = fast;
            slow_ema = slow;
            last_signal = remember new_signal e.last_signal;
          },
        )

  unfoldable pub reset : EmaSignalEngine W → EmaSignalEngine W
  reset e = record e { fast_ema = pos 0; slow_ema = pos 0; last_signal = hold; initialized = false }
