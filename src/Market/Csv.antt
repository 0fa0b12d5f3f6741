-- ===== src/Market/Csv.antt =====
-- `load_csv`. A string is the list of its characters' codes, and a file the lines that `getline` reads
-- from it; a file that does not open is `none`. The conversions `stoull`, `stoll` and `stoul` throw
-- where they give `none`, and then the exception leaves `load_csv`.
use l3_lock_free_orderbook_e.Prelude.{
  ℕ, ◌+◌, ◌==◌, ◌||◌, ◌&&◌, Bool, true, false, if◌then◌else◌, List, [], ◌∷◌, ◌++◌, Option, none,
  some,
}
use l3_lock_free_orderbook_e.Prelude.Int.{ℤ}
use l3_lock_free_orderbook_e.Prelude.Word.{u32}
use l3_lock_free_orderbook_e.Types.{
  Side, buy, sell, OrderType, limit, market, cancel, modify, MarketDataMessage,
}
use l3_lock_free_orderbook_e.Market.{MarketDataSimulator}

abbrev pub String : Type 0
String = List ℕ

-- `==` on strings
abbrev pub equal : String → String → Bool
equal [] [] = true
equal (x ∷ xs) (y ∷ ys) = (x == y) && equal xs ys
equal _ _ = false

abbrev pub comma : ℕ
comma = 44

-- The characters up to a comma, and those behind it; `none` if there was no comma.
abbrev pub cut : String → String × Option String
cut [] = ([], none)
cut (c ∷ cs) = if c == comma then ([], some cs) else (c ∷ (cut cs).0, (cut cs).1)

-- `getline(ss, token, ',')`, with the token before it: from a stream that has ended it reads nothing.
abbrev pub getline : String → Option String → String × Option String
getline token none = (token, none)
getline token (some cs) = cut cs

abbrev pub token_buy : String
token_buy = 66 ∷ 85 ∷ 89 ∷ []

abbrev pub token_limit : String
token_limit = 76 ∷ 73 ∷ 77 ∷ 73 ∷ 84 ∷ []

abbrev pub token_market : String
token_market = 77 ∷ 65 ∷ 82 ∷ 75 ∷ 69 ∷ 84 ∷ []

abbrev pub token_cancel : String
token_cancel = 67 ∷ 65 ∷ 78 ∷ 67 ∷ 69 ∷ 76 ∷ []

-- "0", "1", "2"
abbrev pub digit : ℕ → String
digit n = (n + 48) ∷ []

unfoldable pub parse_side : String → Side
parse_side t = if equal t token_buy || equal t (digit 0) then buy else sell

unfoldable pub parse_type : String → OrderType
parse_type t =
    if equal t token_limit || equal t (digit 0)
    then limit
    else (if equal t token_market || equal t (digit 1)
        then market
        else (if equal t token_cancel || equal t (digit 2) then cancel else modify))

infixl 5 ◌>>=◌
abbrev ◌>>=◌ : {A B : Type 0} → Option A → (A → Option B) → Option B
some a >>= f = f a
none >>= f = none

module _ (stoull : String → Option ℕ) (stoll : String → Option ℤ) (stoul : String → Option ℕ) where
  -- One round of the loop over the lines: timestamp,order_id,side,price,qty,type
  unfoldable pub parse_line : String → Option MarketDataMessage
  parse_line line = do
    let (token, ss) = getline [] (some line)
    timestamp ← stoull token
    let (token, ss) = getline token ss
    id ← stoull token
    let (token, ss) = getline token ss
    let side = parse_side token
    let (token, ss) = getline token ss
    price ← stoll token
    let (token, ss) = getline token ss
    quantity ← stoul token
    let (token, ss) = getline token ss
    some (record {
      timestamp_ns = timestamp;
      order_id = id;
      price = price;
      quantity = u32 quantity;
      side = side;
      type = parse_type token;
    })

  module _ {W G : Type 0} where
    -- `push_back`, and the rounds that follow; an exception leaves behind the messages before it.
    abbrev push_parsed :
        Option MarketDataMessage
        → (MarketDataSimulator W G → Option Bool × MarketDataSimulator W G)
        → MarketDataSimulator W G
        → Option Bool × MarketDataSimulator W G
    push_parsed (some m) rounds s = rounds (record s { replay_buffer = s.replay_buffer ++ m ∷ [] })
    push_parsed none rounds s = (none, s)

    -- The loop; `none` stands for an exception.
    unfoldable pub load_lines :
        List String → MarketDataSimulator W G → Option Bool × MarketDataSimulator W G
    load_lines [] s = (some true, s)
    load_lines (line ∷ lines) s = push_parsed (parse_line line) (λ s'. load_lines lines s') s

    unfoldable pub load_csv :
        (file : Option (List String))
        → MarketDataSimulator W G
        → Option Bool × MarketDataSimulator W G
    load_csv none s = (some false, s)
    load_csv (some []) s = (some true, s)
    load_csv (some (header ∷ lines)) s = load_lines lines s
