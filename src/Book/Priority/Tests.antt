-- ===== src/Book/Priority/Tests.antt =====
-- The inner loop of matching at a level with two orders, of 11 and 12, for an incoming order of 15.
use l3_lock_free_orderbook_e.Prelude.{
  ℕ, ◌-◌, ◌≡◌, refl, none, some, List, [], ◌∷◌, ◌++◌, ok, arith, ◌==◌, if◌then◌else◌, min,
}
use l3_lock_free_orderbook_e.Prelude.Int.{ℤ}
use l3_lock_free_orderbook_e.Types.{Price, Side, TradeReport}
use l3_lock_free_orderbook_e.Pool.{Slot}
use l3_lock_free_orderbook_e.Pool.FreeList.{view}
use l3_lock_free_orderbook_e.Level.{Order, PriceLevel, new_order}
use l3_lock_free_orderbook_e.Level.Links.{Entry, place, total, IsQueue}
use l3_lock_free_orderbook_e.Book.State.{OrderBook}
use l3_lock_free_orderbook_e.Book.State
use l3_lock_free_orderbook_e.Book.Matching.{match_level}
use l3_lock_free_orderbook_e.Book.Fill.{Matching}
use l3_lock_free_orderbook_e.Book.Priority.{left, unfilled, fills, Swept, match_level-Swept}
use l3_lock_free_orderbook_e.Book.Priority.Conserve.{volume, match_level_conserves}

abbrev ticks : Price
ticks = ℤ.pos 100

abbrev incoming : Order
incoming = new_order 9 Side.buy ticks 15 0

abbrev resting : ℕ → ℕ → Entry
resting i q = record { slot = i; order = new_order i Side.sell ticks q 0 }

abbrev queue : List Entry
queue = resting 1 11 ∷ resting 2 12 ∷ []

abbrev level : PriceLevel
level = record {
  price = ticks;
  total_quantity = 23;
  order_count = 2;
  side = Side.sell;
  head_order = some 1;
  tail_order = some 2;
}

-- The level stands in slot 7, the two orders in slots 1 and 2, the incoming one in slot 3.
abbrev book : OrderBook
book = record (State.new 0 0) {
  order_pool = record {
    storage = λ i.
        if i == 1
        then Slot.live (place (resting 1 11).order 7 none (some 2))
        else (if i == 2
            then Slot.live (place (resting 2 12).order 7 (some 1) none)
            else Slot.live incoming);
    free_list = none;
    available = 0;
  };
  level_pool = record { storage = λ i. Slot.live level; free_list = none; available = 0 };
}

matching : Matching 8 3 7 incoming book 15 level queue
unfolding view new_order
matching = record {
  order = refl;
  level = refl;
  queue = record {
    linked = (refl, (refl, tt));
    head = refl;
    tail = refl;
    distinct = (refl, (refl, tt));
    total_quantity = refl;
    order_count = refl;
  };
  outside = refl;
  word = omega arith;
  fits = (omega arith, omega arith, (omega arith, omega arith, tt));
  free = [];
  valid = record {
    head = refl;
    linked = tt;
    distinct = tt;
    counted = refl;
    small = omega arith;
    cap_small = omega arith;
    inside = λ i m. cc;
    others = λ i m lt. ground arith;
  };
}

match_level-Swept_example :
    (b' : OrderBook) × (match_level 16 (λ n. n) 3 Side.buy 3 7 (some 1) book ≡ ok (tt, b'))
    × Swept 8 3 7 incoming book level
        (left 15 queue)
        (unfilled 15 queue)
        (fills (λ n. n) Side.buy book.ticks 15 queue)
        b'
match_level-Swept_example =
    match_level-Swept 16 (λ n. n) Side.buy 8 3 7 incoming 3 queue (omega arith) matching

match_level_conserves_example :
    (b' : OrderBook) × (l' : PriceLevel) × (fs : List Entry) × (reports : List TradeReport)
    × (match_level 16 (λ n. n) 3 Side.buy 3 7 (some 1) book ≡ ok (tt, b'))
    × (b'.trades ≡ book.trades ++ reports)
    × (volume reports ≡ min 15 (total queue))
    × (view b'.order_pool 3 ≡ some (record incoming { quantity = 15 - volume reports }))
    × (view b'.level_pool 7 ≡ some l')
    × IsQueue 7 l' (view b'.order_pool) fs
    × (total fs ≡ total queue - volume reports)
match_level_conserves_example =
    match_level_conserves 16 (λ n. n) Side.buy 8 3 7 incoming 3 queue (omega arith) matching
