-- ===== src/Backtest/Replay.antt =====
-- What a replay makes of messages that are not valid.
use l3_lock_free_orderbook_e.Prelude.{
  ℕ, ◌≡◌, refl, sym, ap, ◌∙◌, false, if◌then◌else◌, Bool-cases, inl, inr, List, [], ◌∷◌, Run, ok,
}
use l3_lock_free_orderbook_e.Types.{Timestamp, MarketDataMessage, is_valid}
use l3_lock_free_orderbook_e.Double.{Double}
use l3_lock_free_orderbook_e.Signals.Ema
use l3_lock_free_orderbook_e.Signals.Ema.{EmaSignalEngine}
use l3_lock_free_orderbook_e.Book.State.{B, OrderBook, and_then}
use l3_lock_free_orderbook_e.Backtest.{no_result}
use l3_lock_free_orderbook_e.Backtest.Session.{replay_message, replay_loop, run_replay}

abbrev pub valid_only : List MarketDataMessage → List MarketDataMessage
valid_only [] = []
valid_only (m ∷ ms) = if is_valid m then m ∷ valid_only ms else valid_only ms

and_then-cong :
    {A C : Type 0} (x : Run (A × OrderBook)) {f g : A → B C}
    → ((a : A) (b : OrderBook) → f a b ≡ g a b)
    → and_then x f ≡ and_then x g
and_then-cong (ok r) h = h r.0 r.1
and_then-cong Run.fault h = refl
and_then-cong Run.out_of_fuel h = refl

module _ (order_map_size : ℕ) (rdtsc : ℕ → Timestamp) {W : Type 0} ⦃d : Double W⦄ where
  skip_invalid :
      (m : MarketDataMessage) (e : EmaSignalEngine W) (b : OrderBook)
      → is_valid m ≡ false
      → replay_message order_map_size rdtsc m e b ≡ ok (e, b)
  unfolding replay_message
  skip_invalid m e b h = rw h refl

  replay_loop-valid_only :
      (ms : List MarketDataMessage) (e : EmaSignalEngine W) (b : OrderBook)
      → replay_loop order_map_size rdtsc ms e b
        ≡ replay_loop order_map_size rdtsc (valid_only ms) e b
  unfolding replay_loop
  replay_loop-valid_only [] e b = refl
  replay_loop-valid_only (m ∷ ms) e b =
      let loop = λ (xs : List MarketDataMessage). replay_loop order_map_size rdtsc xs e b in
      elim (Bool-cases (is_valid m)) [
        | inl a ↦
            let kept : valid_only (m ∷ ms) ≡ m ∷ valid_only ms = rw a refl in
            and_then-cong (replay_message order_map_size rdtsc m e b)
              (λ e' b'. replay_loop-valid_only ms e' b')
            ∙ ap loop (sym kept)
        | inr a ↦
            let dropped : valid_only (m ∷ ms) ≡ valid_only ms = rw a refl in
            ap (λ x. and_then x (λ e'. replay_loop order_map_size rdtsc ms e'))
              (skip_invalid m e b a)
            ∙ replay_loop-valid_only ms e b
            ∙ ap loop (sym dropped)
      ]

  -- A replay does the same to the book, and returns the same, as one without the messages
  -- that are not valid.
  pub run_replay-valid_only :
      (ms : List MarketDataMessage) (cfg : Ema.Config W) (b : OrderBook)
      → (run_replay order_map_size rdtsc ms cfg b
          ≡ run_replay order_map_size rdtsc (valid_only ms) cfg b)
  unfolding run_replay
  run_replay-valid_only ms cfg b =
      ap (λ x. and_then x (λ e b'. ok (no_result, b'))) (replay_loop-valid_only ms (Ema.new cfg) b)
