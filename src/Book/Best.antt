-- ===== src/Book/Best.antt =====
-- The best prices, in a book whose trees hold levels sorted by price.
use l3_lock_free_orderbook_e.Prelude.{
  ℕ, ◌≡◌, refl, sym, subst, arith, some, List, [], ◌∷◌, ok, Bool,
}
use l3_lock_free_orderbook_e.Prelude.Int.{ltb_ℤ}
use l3_lock_free_orderbook_e.Types.{Price, invalid_price}
use l3_lock_free_orderbook_e.Pool.{ObjectPool, Slot, load}
use l3_lock_free_orderbook_e.Level.{PriceLevel}
use l3_lock_free_orderbook_e.Tree.Memory.{IntrusiveRbTree}
use l3_lock_free_orderbook_e.Tree.Shape.{Shape, slots}
use l3_lock_free_orderbook_e.Tree.Order.{AllBehind, IsSorted}
use l3_lock_free_orderbook_e.Tree.Sorted.{IsTree}
use l3_lock_free_orderbook_e.Tree.Lookup.{head?, minimum-maximum}
use l3_lock_free_orderbook_e.Book.State.{OrderBook, level_price, bid_compare, ask_compare}
use l3_lock_free_orderbook_e.Book.Levels.{
  get_best_bid_level, get_best_ask_level, price_of, best_bid, best_ask,
}

abbrev pub higher : Price → Price → Bool
higher a b = ltb_ℤ b a

abbrev pub lower : Price → Price → Bool
lower a b = ltb_ℤ a b

-- There is a level in each of the slots.
abbrev pub AllLevels : ObjectPool PriceLevel → List ℕ → Type 0
AllLevels p [] = Unit
AllLevels p (x ∷ xs) = ((l : PriceLevel) × (p.storage x ≡ Slot.live l)) × AllLevels p xs

-- A tree of a book: its levels, sorted by `compare`.
pub record IsSide (p : ObjectPool PriceLevel) (compare : Price → Price → Bool) (t : IntrusiveRbTree)
    (s : Shape) : Type 0 where
  pub tree : IsTree t s
  pub sorted : IsSorted (level_price p) compare (slots s)
  pub levels : AllLevels p (slots s)

-- The price is that of a level that comes before all others; it is `INVALID_PRICE` if there is none.
abbrev pub IsBest : ObjectPool PriceLevel → (Price → Price → Bool) → List ℕ → Price → Type 0
IsBest p compare [] price = price ≡ invalid_price
IsBest p compare (x ∷ xs) price =
    (price ≡ level_price p x) × AllBehind (level_price p) compare price xs

load-live :
    (p : ObjectPool PriceLevel) (x : ℕ) {l : PriceLevel}
    → p.storage x ≡ Slot.live l
    → load (some x) p ≡ ok l
unfolding load
load-live p x e = ground arith

level_price-live :
    (p : ObjectPool PriceLevel) (x : ℕ) {l : PriceLevel}
    → p.storage x ≡ Slot.live l
    → level_price p x ≡ l.price
unfolding level_price
level_price-live p x e = ground arith

price_of-head :
    (b : OrderBook) (compare : Price → Price → Bool) (xs : List ℕ)
    → IsSorted (level_price b.level_pool) compare xs
    → AllLevels b.level_pool xs
    → (price : Price) × (price_of (head? xs) b ≡ ok (price, b))
      × IsBest b.level_pool compare xs price
unfolding price_of
price_of-head b compare [] sorted levels = (invalid_price, refl, refl)
price_of-head b compare (x ∷ xs) sorted levels =
    let (l, live) = levels.0 in
    let named = level_price-live b.level_pool x live in
    (
      l.price,
      simp (load-live b.level_pool x live) refl,
      (sym named, subst (λ k. AllBehind (level_price b.level_pool) compare k xs) named sorted.0),
    )

-- Where both trees of a book hold levels sorted by the comparison of their side, with a black root:
-- `best_bid` and `best_ask` run without a fault, end within their fuel and change nothing; the bid is
-- the price of a level above all other bids, the ask that of a level below all other asks, and either
-- is `INVALID_PRICE` if there is no level.
pub best_bid-IsBest :
    (b : OrderBook) (bids asks : Shape)
    → IsSide b.level_pool bid_compare b.bid_tree bids
    → IsSide b.level_pool ask_compare b.ask_tree asks
    → ((p : Price) × (best_bid b ≡ ok (p, b)) × IsBest b.level_pool higher (slots bids) p)
      × ((q : Price) × (best_ask b ≡ ok (q, b)) × IsBest b.level_pool lower (slots asks) q)
unfolding best_bid best_ask get_best_bid_level get_best_ask_level
best_bid-IsBest b bids asks hb ha =
    let (p, run, best) = price_of-head b bid_compare (slots bids) hb.sorted hb.levels in
    let (q, run', best') = price_of-head b ask_compare (slots asks) ha.sorted ha.levels in
    (
      (p, simp ((minimum-maximum b.bid_tree bids hb.tree).0) run, best),
      (q, simp ((minimum-maximum b.ask_tree asks ha.tree).0) run', best'),
    )
