-- ===== src/Market/Tests.antt =====
-- A simulator whose draws are counted, and files in which a number is one character.
use l3_lock_free_orderbook_e.Prelude.{
  ℕ, ◌+◌, ◌-◌, ◌%◌, ◌≡◌, refl, true, List, [], ◌∷◌, map, Option, none, some, Run, ok, length, ltb,
  if◌then◌else◌, arith,
}
use l3_lock_free_orderbook_e.Prelude.Int.{ℤ, pos, negsuc, ◌+ℤ◌, ◌*ℤ◌}
use l3_lock_free_orderbook_e.Types.{MarketDataMessage, buy, sell, market, cancel, Quantity}
use l3_lock_free_orderbook_e.Double.{integers}
use l3_lock_free_orderbook_e.Market.{
  Config, Random, MarketDataSimulator, new, next_message, generate_batch, random_side,
  random_order_type, walk, later,
}
use l3_lock_free_orderbook_e.Market.Csv.{String, load_csv}
use l3_lock_free_orderbook_e.Market.Messages.{Issued, IsDrawn, generate_batch-Issued}
use l3_lock_free_orderbook_e.Market.Lines.{
  NoComma, IsMessage, Printed, print_line, with_buffer, load_csv-print_line,
}

abbrev cfg : Config ℤ
cfg = record {
  start_price = pos 100;
  volatility = pos 5;
  arrival_rate = pos 1;
  cancel_rate = pos 0;
  modify_rate = pos 1;
  max_order_size = 10;
  seed = 7;
}

-- The state of the generator counts the draws.
abbrev counted : Random ℤ ℕ
counted = record {
  start = λ c. c.seed;
  price_dist = λ n. (pos 3, n + 1);
  arrival_dist = λ n. (pos 0, n + 1);
  size_dist = λ n. (n % 10 + 1, n + 1);
  type_dist = λ n. (pos 1, n + 1);
}

abbrev simulator : MarketDataSimulator ℤ ℕ
simulator = new ⦃d = integers⦄ counted cfg

abbrev messages : Run (List MarketDataMessage × MarketDataSimulator ℤ ℕ) → List (ℕ × ℤ × Quantity)
messages (ok r) = map (λ m. (m.order_id, m.price, m.quantity)) r.0
messages _ = []

batch_run :
    messages (generate_batch ⦃d = integers⦄ counted 3 simulator)
    ≡ (1, pos 103, 1) ∷ (2, pos 106, 6) ∷ (3, pos 109, 1) ∷ []
unfolding new generate_batch next_message random_side random_order_type walk later ◌+ℤ◌ ◌*ℤ◌
batch_run = refl

counted-IsDrawn : IsDrawn ⦃d = integers⦄ counted 3
counted-IsDrawn = record {
  step = λ g. omega arith;
  in_range = λ g. refl;
  some_size = λ g. omega arith;
}

generate_batch-Issued_example :
    (ms : List MarketDataMessage) × (s' : MarketDataSimulator ℤ ℕ) × (generate_batch ⦃d = integers⦄
        counted 20 simulator
      ≡ ok (ms, s'))
    × (length ms ≡ 20)
    × Issued 1 ms
    × (s'.next_order_id ≡ 1 + 20)
unfolding new
generate_batch-Issued_example =
    generate_batch-Issued ⦃d = integers⦄ counted 20 simulator 3 counted-IsDrawn (omega arith)
      (omega arith) (omega arith) (omega arith)

abbrev first_message : MarketDataMessage
first_message = record {
  timestamp_ns = 5;
  order_id = 1;
  price = pos 10;
  quantity = 4;
  side = sell;
  type = market;
}

abbrev second_message : MarketDataMessage
second_message = record {
  timestamp_ns = 6;
  order_id = 2;
  price = negsuc 3;
  quantity = 9;
  side = buy;
  type = cancel;
}

abbrev loaded : MarketDataSimulator ℤ ℕ
loaded = record simulator { replay_buffer = first_message ∷ second_message ∷ [] }

-- A number is printed as one character behind the hundredth.
abbrev read_number : String → Option ℕ
read_number (c ∷ []) = if ltb c 100 then none else some (c - 100)
read_number _ = none

abbrev read_signed : String → Option ℤ
read_signed (c ∷ []) = if ltb c 100 then none else some (pos (c - 100))
read_signed (m ∷ c ∷ []) = some (negsuc (c - 100))
read_signed _ = none

abbrev show_signed : ℤ → String
show_signed (pos n) = (n + 100) ∷ []
show_signed (negsuc n) = 45 ∷ (n + 100) ∷ []

NoComma-number : (n : ℕ) → NoComma ((n + 100) ∷ [])
NoComma-number n = (ground arith, tt)

NoComma-signed : (a : ℤ) → NoComma (show_signed a)
NoComma-signed (pos n) = NoComma-number n
NoComma-signed (negsuc n) = (refl, NoComma-number n)

read-number : (n : ℕ) → read_number ((n + 100) ∷ []) ≡ some n
read-number n = ground arith

read-signed : (a : ℤ) → read_signed (show_signed a) ≡ some a
read-signed (pos n) = ground arith
read-signed (negsuc n) = ground arith

abbrev characters : Printed read_number read_signed read_number
characters = record {
  show = λ n. (n + 100) ∷ [];
  show_signed = show_signed;
  no_comma = NoComma-number;
  no_comma_signed = NoComma-signed;
  stoull-show = λ n h. read-number n;
  stoll-show = λ a h. read-signed a;
  stoul-show = λ n h. read-number n;
}

first-IsMessage : IsMessage first_message
first-IsMessage = record {
  timestamp = omega arith;
  id = omega arith;
  price = refl;
  quantity = omega arith;
}

second-IsMessage : IsMessage second_message
second-IsMessage = record {
  timestamp = omega arith;
  id = omega arith;
  price = refl;
  quantity = omega arith;
}

load_csv-print_line_example :
    load_csv read_number read_signed read_number
      (some ([] ∷ map (print_line characters) (first_message ∷ second_message ∷ [])))
      simulator
    ≡ (some true, with_buffer characters (first_message ∷ second_message ∷ []) simulator)
load_csv-print_line_example =
    load_csv-print_line characters [] (first_message ∷ second_message ∷ []) simulator
      (first-IsMessage, (second-IsMessage, tt))
