-- ===== src/Book/Samples.antt =====
-- A book with one offer of 10 at 101: the order stands in slot 0 of its pool, the level in slot 0.
use l3_lock_free_orderbook_e.Prelude.{
  ℕ, ◌≡◌, refl, arith, none, some, List, [], ◌∷◌, ok, true, false, if◌then◌else◌, ◌==◌, mem, inl,
  inr, Bool-cases, subst, ==_iff,
}
use l3_lock_free_orderbook_e.Prelude.Int.{pos}
use l3_lock_free_orderbook_e.Types.{Side, buy, sell}
use l3_lock_free_orderbook_e.Pool.{ObjectPool, Slot}
use l3_lock_free_orderbook_e.Pool.FreeList.{view, object}
use l3_lock_free_orderbook_e.HashMap
use l3_lock_free_orderbook_e.Level.{Order, PriceLevel, new_order}
use l3_lock_free_orderbook_e.Level.Links.{Entry, place}
use l3_lock_free_orderbook_e.Tree.Memory.{IntrusiveRbTree, black, new_node}
use l3_lock_free_orderbook_e.Tree.Shape.{Shape, leaf, branch, slots}
use l3_lock_free_orderbook_e.Tree.Cells.{cell}
use l3_lock_free_orderbook_e.Tree.Sorted.{IsTree}
use l3_lock_free_orderbook_e.Book.State
use l3_lock_free_orderbook_e.Book.State.{OrderBook}
use l3_lock_free_orderbook_e.Book.Orders.{add_order, cancel_order, modify_order}
use l3_lock_free_orderbook_e.Book.Moved.{Moved, modify_order-Moved}
use l3_lock_free_orderbook_e.Book.Cancelled.{cancel_order-Left}
use l3_lock_free_orderbook_e.Book.Leaving.{Left}
use l3_lock_free_orderbook_e.Book.Invariant.{tree_of, IsBook, HasQueue-frame, HasQueue}
use l3_lock_free_orderbook_e.Book.Resting.{Rested, side_rows}
use l3_lock_free_orderbook_e.Book.Refused.{IsRefused, add_order-IsRefused}
use l3_lock_free_orderbook_e.Book.Accepted.{add_order-Rested}

abbrev offer : Order
offer = new_order 1 sell (pos 101) 10 0

abbrev offer_level : PriceLevel
offer_level = record {
  price = pos 101;
  total_quantity = 10;
  order_count = 1;
  side = sell;
  head_order = some 0;
  tail_order = some 0;
}

abbrev orders : ObjectPool Order
orders = record {
  storage = λ i.
      if i == 0
      then Slot.live (place offer 0 none none)
      else (if i == 1 then Slot.free (some 2) else Slot.free none);
  free_list = some 1;
  available = 2;
}

abbrev levels : ObjectPool PriceLevel
levels = record {
  storage = λ i. if i == 0 then Slot.live offer_level else Slot.free none;
  free_list = some 1;
  available = 1;
}

abbrev asks : IntrusiveRbTree
asks = record {
  nodes = λ i. if i == 0 then cell none none none black else new_node;
  root = some 0;
  size = 1;
}

abbrev shape : Side → Shape
shape buy = leaf
shape sell = branch leaf 0 black leaf

abbrev queue : ℕ → List Entry
queue i = record { slot = 0; order = offer } ∷ []

abbrev book : OrderBook
book = record (State.new 0 0) {
  ask_tree = asks;
  order_pool = orders;
  level_pool = levels;
  order_map = (HashMap.insert 8 1 (some 0) (HashMap.new none)).1;
}

trees : (d : Side) → IsTree (tree_of d book) (shape d)
unfolding State.new
trees buy = record {
  focus = record { here = tt; around = tt; root = refl; once = λ i. ground arith };
  black_root = tt;
  size = refl;
}
trees sell = record {
  focus = record { here = (refl, tt, tt); around = tt; root = refl; once = λ i. ground arith };
  black_root = refl;
  size = refl;
}

queues : (d : Side) (i : ℕ) → mem i (slots (shape d)) ≡ true → HasQueue levels orders d i (queue i)
unfolding new_order view object
queues buy i m = cc
queues sell i m = elim (Bool-cases (0 == i)) [
  | inl h ↦
      subst (λ j. HasQueue levels orders sell j (queue j)) ((==_iff 0 i).0 h)
        (record {
          level = offer_level;
          live = refl;
          at_side = refl;
          queue = record {
            linked = (refl, tt);
            head = refl;
            tail = refl;
            distinct = (refl, tt);
            total_quantity = refl;
            order_count = refl;
          };
        })
  | inr h ↦ absurd (ground (arith, h, m))
]

book-IsBook : IsBook 3 2 book shape queue
unfolding State.new view object
book-IsBook = record {
  tree = trees;
  sorted = elim [ buy ↦ tt | sell ↦ (tt, tt) ];
  queues = queues;
  free_orders = 1 ∷ 2 ∷ [];
  free_levels = 1 ∷ [];
  orders = record {
    head = refl;
    linked = (refl, (refl, tt));
    distinct = (refl, (refl, tt));
    counted = refl;
    small = omega arith;
    cap_small = omega arith;
    inside = λ i m. ground arith;
    others = λ i m lt. ground arith;
  };
  levels = record {
    head = refl;
    linked = (refl, tt);
    distinct = (refl, tt);
    counted = refl;
    small = omega arith;
    cap_small = omega arith;
    inside = λ i m. ground arith;
    others = λ i m lt. ground arith;
  };
}

add_order-Rested_example :
    (after : OrderBook) × (add_order 8 (λ n. n) 2 sell (pos 101) 5 0 book ≡ ok (true, after))
    × Rested 8 2 3 2 sell (new_order 2 sell (pos 101) 5 0) 1 book shape queue after
unfolding book-IsBook HashMap.find HashMap.insert HashMap.new HashMap.hash
add_order-Rested_example =
    add_order-Rested 8 (λ n. n) book-IsBook sell 2 (pos 101) 5 0 1 1 (2 ∷ []) [] refl refl refl
      (omega arith) refl

cancel_order-Left_example :
    (after : OrderBook) × (cancel_order 8 1 book ≡ ok (true, after))
    × Left sell 0 (record { slot = 0; order = offer }) 3 2 book shape queue after
    × (view after.order_pool 0 ≡ none)
    × (after.order_map ≡ (HashMap.remove 8 1 book.order_map).1)
unfolding HashMap.find HashMap.insert HashMap.new HashMap.hash new_order
cancel_order-Left_example =
    cancel_order-Left 8 book-IsBook sell 1 0 [] (record { slot = 0; order = offer }) [] refl refl
      refl refl (omega arith) (omega arith) (omega arith) ((tt, tt), refl, tt) (omega arith)

abbrev full : OrderBook
full = record book { level_pool = record levels { free_list = none; available = 0 } }

full-IsBook : IsBook 3 1 full shape queue
unfolding State.new view object book-IsBook
full-IsBook = record {
  tree = trees;
  sorted = elim [ buy ↦ tt | sell ↦ (tt, tt) ];
  queues = λ d i m. HasQueue-frame refl (λ k n. refl) (queues d i m);
  free_orders = 1 ∷ 2 ∷ [];
  free_levels = [];
  orders = book-IsBook.orders;
  levels = record {
    head = refl;
    linked = tt;
    distinct = tt;
    counted = refl;
    small = omega arith;
    cap_small = omega arith;
    inside = λ i m. cc;
    others = λ i m lt. ground arith;
  };
}

add_order-IsRefused_example :
    (after : OrderBook) × (add_order 8 (λ n. n) 2 buy (pos 100) 5 0 full ≡ ok (false, after))
    × IsBook 3 1 after shape queue
    × ((e : Side) → side_rows after shape queue e ≡ side_rows full shape queue e)
    × (after.order_map ≡ full.order_map)
    × (after.trades ≡ full.trades)
    × (after.order_pool.available ≡ full.order_pool.available)
unfolding full-IsBook HashMap.find HashMap.insert HashMap.new HashMap.hash State.level_price
add_order-IsRefused_example =
    add_order-IsRefused 8 (λ n. n) full-IsBook buy 2 (pos 100) 5 0
      (IsRefused.no_level 1 (2 ∷ []) refl refl refl refl tt)

modify_order-Moved_example :
    (after : OrderBook) × (modify_order 8 (λ n. n) 1 (pos 103) 4 7 book ≡ ok (true, after))
    × Moved sell 0
        (record { slot = 0; order = offer })
        (new_order 1 sell (pos 103) 4 7)
        3
        2
        book
        shape
        queue
        after
unfolding HashMap.find HashMap.insert HashMap.new HashMap.hash new_order
modify_order-Moved_example =
    modify_order-Moved 8 (λ n. n) book-IsBook sell 1 0 [] (record { slot = 0; order = offer }) []
      (pos 103) 4 7 refl refl refl refl (omega arith) (omega arith) (omega arith)
      ((tt, tt), refl, tt) (omega arith) (omega arith) refl
