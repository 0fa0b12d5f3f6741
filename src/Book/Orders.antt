-- ===== src/Book/Orders.antt =====
-- `add_order`, `cancel_order`, `modify_order` and `clear`.
use l3_lock_free_orderbook_e.Prelude.{
  ℕ, Bool, true, false, not, ◌&&◌, none, some, Option, Ptr, ok, fault, if◌then◌else◌, ◌==◌,
}
use l3_lock_free_orderbook_e.Prelude.Int.{leb_ℤ, eqb_ℤ}
use l3_lock_free_orderbook_e.Types.{
  Price, Quantity, OrderId, Timestamp, Side, buy, sell, invalid_price,
}
use l3_lock_free_orderbook_e.Arena
use l3_lock_free_orderbook_e.Pool.{acquire, release, load, store}
use l3_lock_free_orderbook_e.HashMap
use l3_lock_free_orderbook_e.Tree.Remove
use l3_lock_free_orderbook_e.Level
use l3_lock_free_orderbook_e.Level.{Order, new_order, is_empty}
use l3_lock_free_orderbook_e.Book.State.{
  B, pure, ◌>>=◌, ◌>>◌, on_orders, acquire_order, release_order, get_order, get_level, put_level,
  on_bids, on_asks,
}
use l3_lock_free_orderbook_e.Book.Levels.{best_bid, best_ask, find_or_create_level, remove_level}
use l3_lock_free_orderbook_e.Book.Matching.{unlink_order, forget, match_buy_order, match_sell_order}

-- The tests of `add_order` for an order that crosses the book.
unfoldable pub crosses : Side → Price → B Bool
unfolding best_ask best_bid
crosses buy price = do ask ← best_ask; pure (leb_ℤ ask price && not (eqb_ℤ ask invalid_price))
crosses sell price = do bid ← best_bid; pure (leb_ℤ price bid && not (eqb_ℤ bid invalid_price))

-- `level->add_order(order)`
unfoldable pub enqueue_order : (level order : ℕ) → B (Unit {0})
unfolding load store Level.add_order
enqueue_order p order = do
  l ← get_level (some p)
  l ← on_orders (Level.add_order p l (some order))
  put_level (some p) l

module _ (order_map_size : ℕ) where
  -- `order_map_.find(id)`, with the pointer to the entry's value followed
  abbrev pub lookup_order : OrderId → B (Option Ptr)
  lookup_order id b = ok (HashMap.find order_map_size id b.order_map, b)

  -- `order_map_.insert(id, order)`
  abbrev pub remember : OrderId → ℕ → B (Unit {0})
  remember id order b =
      ok
        (tt, record b { order_map = (HashMap.insert order_map_size id (some order) b.order_map).1 })

  module _ (rdtsc : ℕ → Timestamp) where
    unfoldable pub match_crossing : Side → ℕ → B (Unit {0})
    unfolding match_buy_order match_sell_order
    match_crossing buy order = match_buy_order order_map_size rdtsc order
    match_crossing sell order = match_sell_order order_map_size rdtsc order

    -- The end of `add_order`: the order joins the queue of its price.
    unfoldable pub rest_order : OrderId → Side → ℕ → B Bool
    unfolding find_or_create_level enqueue_order release HashMap.insert
    rest_order id side order = do
      x ← get_order (some order)
      level ← find_or_create_level x.price side
      elim level [
        | none ↦ do release_order (some order); pure false
        | some p ↦ do enqueue_order p order; remember id order; pure true
      ]

    unfoldable pub add_order : OrderId → Side → Price → Quantity → Timestamp → B Bool
    unfolding acquire new_order crosses match_crossing rest_order HashMap.find
    add_order id side price qty ts = do
      known ← lookup_order id
      elim known [
        | some _ ↦ pure false
        | none ↦ do
          slot ← acquire_order (new_order id side price qty ts)
          elim slot [
            | none ↦ pure false
            | some order ↦ do
              crossing ← crosses side price
              if crossing
                  then (do
                    match_crossing side order
                    x ← get_order (some order)
                    if x.quantity == 0
                        then (do release_order (some order); pure true)
                        else (rest_order id side order))
                  else rest_order id side order
          ]
      ]

  -- `if (level != nullptr)` of `cancel_order`
  unfoldable pub leave_level : Ptr → (order : ℕ) → Side → B (Unit {0})
  unfolding unlink_order remove_level is_empty
  leave_level none order side = pure tt
  leave_level (some p) order side = do
    unlink_order p order
    l ← get_level (some p)
    if is_empty l then remove_level p side else pure tt

  -- A null pointer in the map would be followed.
  unfoldable pub cancel_found : OrderId → Ptr → B Bool
  unfolding leave_level
  cancel_found id none = λ b. fault
  cancel_found id (some order) = do
    x ← get_order (some order)
    leave_level x.price_level order x.side
    forget order_map_size id
    release_order (some order)
    pure true

  unfoldable pub cancel_order : OrderId → B Bool
  unfolding cancel_found HashMap.find HashMap.remove release load
  cancel_order id = do
    found ← lookup_order id
    elim found [ none ↦ pure false | some p ↦ cancel_found id p ]

  unfoldable pub modify_order :
      (rdtsc : ℕ → Timestamp) → OrderId → Price → Quantity → Timestamp → B Bool
  unfolding add_order cancel_order
  modify_order rdtsc id new_price new_qty ts = do
    found ← lookup_order id
    elim found [
      | none ↦ pure false
      | some p ↦ do
        x ← get_order p
        cancelled ← cancel_order id
        add_order rdtsc id x.side new_price new_qty ts
    ]

  -- The pools are not touched.
  unfoldable pub clear : B (Unit {0})
  unfolding Remove.clear HashMap.clear Arena.reset
  clear = do
    on_bids Remove.clear
    on_asks Remove.clear
    λ b. ok (
      tt,
      record b {
        order_map = HashMap.clear order_map_size b.order_map;
        arena = Arena.reset b.arena;
      },
    )
