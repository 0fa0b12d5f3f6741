-- ===== src/Book/Examples.antt =====
-- A book with one bid and three offers.
use l3_lock_free_orderbook_e.Prelude.{
  ◌≡◌, refl, arith, none, some, [], ◌∷◌, ok, if◌then◌else◌, ◌==◌,
}
use l3_lock_free_orderbook_e.Prelude.Int.{pos}
use l3_lock_free_orderbook_e.Types.{Price, buy, sell}
use l3_lock_free_orderbook_e.Pool.{ObjectPool, Slot}
use l3_lock_free_orderbook_e.Level.{PriceLevel, new_level}
use l3_lock_free_orderbook_e.Tree.Memory.{IntrusiveRbTree, red, black, new_node}
use l3_lock_free_orderbook_e.Tree.Shape.{Shape, leaf, branch}
use l3_lock_free_orderbook_e.Tree.Cells.{cell}
use l3_lock_free_orderbook_e.Tree.Sorted.{IsTree}
use l3_lock_free_orderbook_e.Book.State
use l3_lock_free_orderbook_e.Book.State.{OrderBook, level_price, bid_compare, ask_compare}
use l3_lock_free_orderbook_e.Book.Levels.{best_bid, best_ask}
use l3_lock_free_orderbook_e.Book.Best.{IsSide, IsBest, best_bid-IsBest, higher, lower}

abbrev levels : ObjectPool PriceLevel
levels = record {
  storage = λ i.
      if i == 1
      then Slot.live (new_level (pos 99) buy)
      else (if i == 5
          then Slot.live (new_level (pos 102) sell)
          else (if i == 3
              then Slot.live (new_level (pos 101) sell)
              else (if i == 6 then Slot.live (new_level (pos 105) sell) else Slot.free none)));
  free_list = none;
  available = 0;
}

abbrev bid_nodes : IntrusiveRbTree
bid_nodes = record {
  nodes = λ i. if i == 1 then cell none none none black else new_node;
  root = some 1;
  size = 1;
}

abbrev ask_nodes : IntrusiveRbTree
ask_nodes = record {
  nodes = λ i.
      if i == 5
      then cell none (some 3) (some 6) black
      else (if i == 3
          then cell (some 5) none none red
          else (if i == 6 then cell (some 5) none none red else new_node));
  root = some 5;
  size = 3;
}

abbrev bids : Shape
bids = branch leaf 1 black leaf

abbrev asks : Shape
asks = branch (branch leaf 3 red leaf) 5 black (branch leaf 6 red leaf)

abbrev book : OrderBook
book = record (State.new 16 8) { bid_tree = bid_nodes; ask_tree = ask_nodes; level_pool = levels }

bids-IsTree : IsTree bid_nodes bids
bids-IsTree = record {
  focus = record { here = (refl, tt, tt); around = tt; root = refl; once = λ i. ground arith };
  black_root = refl;
  size = refl;
}

asks-IsTree : IsTree ask_nodes asks
asks-IsTree = record {
  focus = record {
    here = (refl, (refl, tt, tt), (refl, tt, tt));
    around = tt;
    root = refl;
    once = λ i. ground arith;
  };
  black_root = refl;
  size = refl;
}

bids-IsSide : IsSide levels bid_compare bid_nodes bids
bids-IsSide = record { tree = bids-IsTree; sorted = (tt, tt); levels = ((_, refl), tt) }

asks-IsSide : IsSide levels ask_compare ask_nodes asks
unfolding level_price new_level
asks-IsSide = record {
  tree = asks-IsTree;
  sorted = ((refl, (refl, tt)), ((refl, tt), (tt, tt)));
  levels = ((_, refl), ((_, refl), ((_, refl), tt)));
}

best_bid-IsBest_example :
    ((p : Price) × (best_bid book ≡ ok (p, book)) × IsBest levels higher (1 ∷ []) p)
    × ((q : Price) × (best_ask book ≡ ok (q, book)) × IsBest levels lower (3 ∷ 5 ∷ 6 ∷ []) q)
unfolding State.new
best_bid-IsBest_example = best_bid-IsBest book bids asks bids-IsSide asks-IsSide
