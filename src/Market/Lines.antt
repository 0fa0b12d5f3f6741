-- ===== src/Market/Lines.antt =====
-- The lines of a file that holds messages, and what `load_csv` reads from it.
use mathlib.Core.List.{append_assoc, append-nil}
use l3_lock_free_orderbook_e.Prelude.{
  ℕ, ◌^◌, ◌<◌, ◌≡◌, ◌==◌, refl, sym, ap, ◌∙◌, true, false, List, [], ◌∷◌, ◌++◌, map, Option, none,
  some, arith,
}
use l3_lock_free_orderbook_e.Prelude.Int.{ℤ, fits_i64}
use l3_lock_free_orderbook_e.Prelude.Word.{u32}
use l3_lock_free_orderbook_e.Types.{
  Side, buy, sell, OrderType, limit, market, cancel, modify, MarketDataMessage,
}
use l3_lock_free_orderbook_e.Market.{MarketDataSimulator}
use l3_lock_free_orderbook_e.Market.Csv.{
  String, comma, cut, token_buy, token_limit, token_market, token_cancel, parse_side, parse_type,
  parse_line, load_lines, load_csv,
}

abbrev pub NoComma : String → Type 0
NoComma [] = Unit
NoComma (c ∷ cs) = ((c == comma) ≡ false) × NoComma cs

cut-token : (t rest : String) → NoComma t → cut (t ++ (comma ∷ rest)) ≡ (t, some rest)
cut-token [] rest h = refl
cut-token (c ∷ t) rest h = rw (h.0, cut-token t rest h.1) refl

cut-last : (t : String) → NoComma t → cut t ≡ (t, none)
cut-last [] h = refl
cut-last (c ∷ t) h = rw (h.0, cut-last t h.1) refl

abbrev pub side_token : Side → String
side_token buy = token_buy
side_token sell = 83 ∷ 69 ∷ 76 ∷ 76 ∷ []

abbrev pub type_token : OrderType → String
type_token limit = token_limit
type_token market = token_market
type_token cancel = token_cancel
type_token modify = 77 ∷ 79 ∷ 68 ∷ 73 ∷ 70 ∷ 89 ∷ []

parse_side-token : (s : Side) → parse_side (side_token s) ≡ s
unfolding parse_side
parse_side-token buy = refl
parse_side-token sell = refl

parse_type-token : (t : OrderType) → parse_type (type_token t) ≡ t
unfolding parse_type
parse_type-token limit = refl
parse_type-token market = refl
parse_type-token cancel = refl
parse_type-token modify = refl

side_token-NoComma : (s : Side) → NoComma (side_token s)
side_token-NoComma buy = (refl, (refl, (refl, tt)))
side_token-NoComma sell = (refl, (refl, (refl, (refl, tt))))

type_token-NoComma : (t : OrderType) → NoComma (type_token t)
type_token-NoComma limit = (refl, (refl, (refl, (refl, (refl, tt)))))
type_token-NoComma market = (refl, (refl, (refl, (refl, (refl, (refl, tt))))))
type_token-NoComma cancel = (refl, (refl, (refl, (refl, (refl, (refl, tt))))))
type_token-NoComma modify = (refl, (refl, (refl, (refl, (refl, (refl, tt))))))

-- The numbers of a message are in the ranges of their types.
pub record IsMessage (m : MarketDataMessage) : Type 0 where
  pub timestamp : m.timestamp_ns < 2 ^ 64
  pub id : m.order_id < 2 ^ 64
  pub price : fits_i64 m.price ≡ true
  pub quantity : m.quantity < 2 ^ 32

abbrev pub AllMessages : List MarketDataMessage → Type 0
AllMessages [] = Unit
AllMessages (m ∷ ms) = IsMessage m × AllMessages ms

-- Numbers as they are printed, for the conversions to read: without a comma, and read back as they were.
pub record Printed (stoull : String → Option ℕ) (stoll : String → Option ℤ)
    (stoul : String → Option ℕ) : Type 0 where
  pub show : ℕ → String
  pub show_signed : ℤ → String
  pub no_comma : (n : ℕ) → NoComma (show n)
  pub no_comma_signed : (a : ℤ) → NoComma (show_signed a)
  pub stoull-show : (n : ℕ) → n < 2 ^ 64 → stoull (show n) ≡ some n
  pub stoll-show : (a : ℤ) → fits_i64 a ≡ true → stoll (show_signed a) ≡ some a
  pub stoul-show : (n : ℕ) → n < 2 ^ 32 → stoul (show n) ≡ some n

module _ {stoull : String → Option ℕ} {stoll : String → Option ℤ} {stoul : String → Option ℕ}
    (d : Printed stoull stoll stoul) where
  -- timestamp,order_id,side,price,qty,type
  abbrev pub print_line : MarketDataMessage → String
  print_line m =
      d.show m.timestamp_ns
      ++ (comma
          ∷ (d.show m.order_id
              ++ (comma
                  ∷ (side_token m.side
                      ++ (comma
                          ∷ (d.show_signed m.price
                              ++ (comma ∷ (d.show m.quantity ++ (comma ∷ type_token m.type)))))))))

  parse_line-print_line :
      (m : MarketDataMessage) → IsMessage m → parse_line stoull stoll stoul (print_line m) ≡ some m
  unfolding parse_line
  parse_line-print_line m h =
      let quantity : u32 m.quantity ≡ m.quantity = ground (arith, h.quantity) in
      let f5 = d.show m.quantity ++ (comma ∷ type_token m.type) in
      let f4 = d.show_signed m.price ++ (comma ∷ f5) in
      let f3 = side_token m.side ++ (comma ∷ f4) in
      let f2 = d.show m.order_id ++ (comma ∷ f3) in
      rw
        (
          cut-token (d.show m.timestamp_ns) f2 (d.no_comma m.timestamp_ns),
          cut-token (d.show m.order_id) f3 (d.no_comma m.order_id),
          cut-token (side_token m.side) f4 (side_token-NoComma m.side),
          cut-token (d.show_signed m.price) f5 (d.no_comma_signed m.price),
          cut-token (d.show m.quantity) (type_token m.type) (d.no_comma m.quantity),
          cut-last (type_token m.type) (type_token-NoComma m.type),
          d.stoull-show m.timestamp_ns h.timestamp,
          d.stoull-show m.order_id h.id,
          d.stoll-show m.price h.price,
          d.stoul-show m.quantity h.quantity,
          parse_side-token m.side,
          parse_type-token m.type,
          quantity,
        )
        refl

  module _ {W G : Type 0} where
    abbrev pub with_buffer :
        List MarketDataMessage → MarketDataSimulator W G → MarketDataSimulator W G
    with_buffer ms s = record s { replay_buffer = s.replay_buffer ++ ms }

    load_lines-append :
        (ms : List MarketDataMessage) (lines : List String) (s : MarketDataSimulator W G)
        → AllMessages ms
        → load_lines stoull stoll stoul (map print_line ms ++ lines) s
          ≡ load_lines stoull stoll stoul lines (with_buffer ms s)
    unfolding load_lines
    load_lines-append [] lines s h =
        ap (λ b. load_lines stoull stoll stoul lines (record s { replay_buffer = b }))
          (sym (append-nil s.replay_buffer))
    load_lines-append (m ∷ ms) lines s h = simp (parse_line-print_line m h.0) (
        load_lines-append ms lines (with_buffer (m ∷ []) s) h.1
        ∙ ap (λ b. load_lines stoull stoll stoul lines (record s { replay_buffer = b }))
            (append_assoc s.replay_buffer (m ∷ []) ms))

    -- Where the conversions read back the numbers as they are printed, without a comma, messages whose
    -- numbers are in the ranges of their types, printed below a header line, are read back into the
    -- buffer in their order.
    pub load_csv-print_line :
        (header : String) (ms : List MarketDataMessage) (s : MarketDataSimulator W G)
        → AllMessages ms
        → load_csv stoull stoll stoul (some (header ∷ map print_line ms)) s
          ≡ (some true, with_buffer ms s)
    unfolding load_csv load_lines
    load_csv-print_line header ms s h =
        ap (λ lines. load_lines stoull stoll stoul lines s) (sym (append-nil (map print_line ms)))
        ∙ load_lines-append ms [] s h

    -- Where a line is refused by a conversion, its exception leaves `load_csv`, and the messages of the
    -- lines before it stay in the buffer.
    load_csv-throws :
        (header : String) (ms : List MarketDataMessage) (line : String) (lines : List String)
        (s : MarketDataSimulator W G)
        → AllMessages ms
        → parse_line stoull stoll stoul line ≡ none
        → load_csv stoull stoll stoul (some (header ∷ (map print_line ms ++ (line ∷ lines)))) s
          ≡ (none, with_buffer ms s)
    unfolding load_csv load_lines
    load_csv-throws header ms line lines s h bad =
        load_lines-append ms (line ∷ lines) s h ∙ simp bad refl
