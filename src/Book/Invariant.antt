-- ===== src/Book/Invariant.antt =====
-- The invariant of `OrderBook`: two sorted trees of live levels, and in each level its queue of live
-- orders. A level in the slot `i` holds the queue `queue i`.
use l3_lock_free_orderbook_e.Prelude.{
  ℕ, Ptr, ◌≡◌, ◌≢◌, sym, ap, ◌∙◌, subst, Bool, true, none, false, some, List, [], ◌∷◌, arith, mem,
  Bool-cases, inl, inr, ==_iff, ◌==◌,
}
use l3_lock_free_orderbook_e.Types.{Price, Side, buy, sell, opposite}
use l3_lock_free_orderbook_e.HashMap.{FlatHashMap}
use l3_lock_free_orderbook_e.Pool.{ObjectPool}
use l3_lock_free_orderbook_e.Pool.FreeList.{view, object, IsValid}
use l3_lock_free_orderbook_e.Tree.Memory.{IntrusiveRbTree}
use l3_lock_free_orderbook_e.Tree.Shape.{Shape}
use l3_lock_free_orderbook_e.Tree.Shape
use l3_lock_free_orderbook_e.Tree.Order.{IsSorted, AllBehind, IsStrictOrder}
use l3_lock_free_orderbook_e.Tree.Sorted.{IsTree}
use l3_lock_free_orderbook_e.Level.{Order, PriceLevel}
use l3_lock_free_orderbook_e.Level.Links.{Entry, slots, IsQueue, IsQueue-frame, Linked-price_level}
use l3_lock_free_orderbook_e.Book.State.{OrderBook, level_price, bid_compare, ask_compare}

abbrev pub compare_of : Side → Price → Price → Bool
compare_of buy = bid_compare
compare_of sell = ask_compare

abbrev pub on_buy {ℓ} : {A : Type ℓ} → Side → A → A → A
on_buy buy x y = x
on_buy sell x y = y

abbrev pub tree_of : Side → OrderBook → IntrusiveRbTree
tree_of d b = on_buy d b.bid_tree b.ask_tree

-- In the slot `i` there is a level of the side, with the queue `es`.
pub record HasQueue (levels : ObjectPool PriceLevel) (orders : ObjectPool Order) (side : Side)
    (i : ℕ) (es : List Entry) : Type 0 where
  pub level : PriceLevel
  pub live : view levels i ≡ some level
  pub at_side : level.side ≡ side
  pub queue : IsQueue i level (view orders) es

pub record IsBook (order_cap level_cap : ℕ) (b : OrderBook) (shape : Side → Shape)
    (queue : ℕ → List Entry) : Type 0 where
  pub tree : (d : Side) → IsTree (tree_of d b) (shape d)
  pub sorted :
      (d : Side) → IsSorted (level_price b.level_pool) (compare_of d) (Shape.slots (shape d))
  pub queues :
      (d : Side) (i : ℕ)
      → mem i (Shape.slots (shape d)) ≡ true
      → HasQueue b.level_pool b.order_pool d i (queue i)
  pub free_orders : List ℕ
  pub free_levels : List ℕ
  pub orders : IsValid order_cap b.order_pool free_orders
  pub levels : IsValid level_cap b.level_pool free_levels

pub HasQueue-frame :
    {levels levels' : ObjectPool PriceLevel} {orders orders' : ObjectPool Order} {d : Side} {i : ℕ}
    {es : List Entry}
    → view levels' i ≡ view levels i
    → ((k : ℕ) → mem k (slots es) ≡ true → view orders' k ≡ view orders k)
    → HasQueue levels orders d i es
    → HasQueue levels' orders' d i es
HasQueue-frame {orders} {orders'} {i} {es} e f q = record {
  level = q.level;
  live = e ∙ q.live;
  at_side = q.at_side;
  queue = IsQueue-frame i (view orders) (view orders') es f q.queue;
}

-- An order stands in the queue of the level that it points to, and in no other.
pub not_mem_of_level :
    {levels : ObjectPool PriceLevel} {orders : ObjectPool Order} {d : Side} {i : ℕ}
    {es : List Entry} (k : ℕ) {x : Order}
    → view orders k ≡ some x
    → x.price_level ≢ some i
    → HasQueue levels orders d i es
    → mem k (slots es) ≡ false
not_mem_of_level {orders} {i} {es} k at ne q = elim (Bool-cases (mem k (slots es))) [
  | inl m ↦
      let (y, here, up) = Linked-price_level i (view orders) none es k q.queue.linked m in
      absurd (ne cc)
  | inr m ↦ m
]

-- The price of a level is read from its slot alone.
pub level_price-view :
    (p : ObjectPool PriceLevel) (i : ℕ) {l : PriceLevel}
    → view p i ≡ some l
    → level_price p i ≡ l.price
unfolding level_price view object
level_price-view p i e = ground arith

AllBehind-frame :
    {key key' : ℕ → Price} (less : Price → Price → Bool) (k : Price) (xs : List ℕ)
    → ((i : ℕ) → mem i xs ≡ true → key' i ≡ key i)
    → AllBehind key less k xs
    → AllBehind key' less k xs
AllBehind-frame less k [] same h = tt
AllBehind-frame less k (x ∷ xs) same h = (
  ap (less k) (same x (ground (arith, ==_iff x x))) ∙ h.0,
  AllBehind-frame less k xs (λ i m. same i (ground arith)) h.1,
)

pub IsSorted-frame :
    {key key' : ℕ → Price} (less : Price → Price → Bool) (xs : List ℕ)
    → ((i : ℕ) → mem i xs ≡ true → key' i ≡ key i)
    → IsSorted key less xs
    → IsSorted key' less xs
IsSorted-frame less [] same h = tt
IsSorted-frame {key} {key'} less (x ∷ xs) same h = (
  subst (λ k. AllBehind key' less k xs) (sym (same x (ground (arith, ==_iff x x))))
      (AllBehind-frame less (key x) xs (λ i m. same i (ground arith)) h.0),
  IsSorted-frame less xs (λ i m. same i (ground arith)) h.1,
)

-- Two levels have no order in common.
pub queues_apart :
    {levels : ObjectPool PriceLevel} {orders : ObjectPool Order} {d e : Side} {i j : ℕ}
    {es fs : List Entry} (k : ℕ)
    → HasQueue levels orders d i es
    → HasQueue levels orders e j fs
    → (j == i) ≡ false
    → mem k (slots es) ≡ true
    → mem k (slots fs) ≡ false
queues_apart {orders} {i} {j} {es} k q r ne m =
    let (y, here, up) = Linked-price_level i (view orders) none es k q.queue.linked m in
    not_mem_of_level k here (λ h. absurd (ground (arith, up, h, ==_iff j i))) r

-- Two equal levels in the pools have one price.
pub level_price-same :
    (p p' : ObjectPool PriceLevel) (i : ℕ) {l : PriceLevel}
    → view p' i ≡ view p i
    → view p i ≡ some l
    → level_price p' i ≡ level_price p i
level_price-same p p' i e h = level_price-view p' i (e ∙ h) ∙ sym (level_price-view p i h)

-- A free slot is that of no order in a queue.
pub ne_of_free :
    {levels : ObjectPool PriceLevel} {orders : ObjectPool Order} {d : Side} {i : ℕ}
    {es : List Entry} (p k : ℕ)
    → view orders p ≡ none
    → HasQueue levels orders d i es
    → mem k (slots es) ≡ true
    → (p == k) ≡ false
ne_of_free {orders} {i} {es} p k free q m = elim (Bool-cases (p == k)) [
  | inl h ↦
      let (y, here, up) = Linked-price_level i (view orders) none es k q.queue.linked m in
      let e : none ≡ some y = sym free ∙ ap (view orders) ((==_iff p k).0 h) ∙ here in absurd cc
  | inr h ↦ h
]

pub ltb_ℤ-IsStrictOrder : (d : Side) → IsStrictOrder (compare_of d)
ltb_ℤ-IsStrictOrder buy = record {
  asym = λ a b h. ground (arith, h);
  trans = λ a b c h i. ground (arith, h, i);
}
ltb_ℤ-IsStrictOrder sell = record {
  asym = λ a b h. ground (arith, h);
  trans = λ a b c h i. ground (arith, h, i);
}

-- The map of the orders has no part in the invariant.
pub IsBook-order_map :
    {oc lc : ℕ} {b : OrderBook} {shape : Side → Shape} {queue : ℕ → List Entry}
    (m : FlatHashMap Ptr)
    → IsBook oc lc b shape queue
    → IsBook oc lc (record b { order_map = m }) shape queue
IsBook-order_map m g = record {
  tree = g.tree;
  sorted = g.sorted;
  queues = g.queues;
  free_orders = g.free_orders;
  free_levels = g.free_levels;
  orders = g.orders;
  levels = g.levels;
}

pub one_level :
    {levels : ObjectPool PriceLevel} {orders : ObjectPool Order} {d e : Side} {i : ℕ}
    {es fs : List Entry} (q : HasQueue levels orders d i es) (r : HasQueue levels orders e i fs)
    → q.level.side ≡ r.level.side
one_level q r = let h : some q.level ≡ some r.level = sym q.live ∙ r.live in cc

opposite-ne : (d : Side) → d ≢ opposite d
opposite-ne buy h = cc
opposite-ne sell h = cc

-- No slot holds a level of both trees.
pub sides_apart :
    {oc lc : ℕ} {b : OrderBook} {shape : Side → Shape} {queue : ℕ → List Entry} (d : Side) (i j : ℕ)
    → IsBook oc lc b shape queue
    → mem i (Shape.slots (shape d)) ≡ true
    → mem j (Shape.slots (shape (opposite d))) ≡ true
    → (i == j) ≡ false
sides_apart {shape} d i j g m n = elim (Bool-cases (i == j)) [
  | inl h ↦
      let q = g.queues d i m in
      let r =
        g.queues (opposite d) i
          (ap (λ k. mem k (Shape.slots (shape (opposite d)))) ((==_iff i j).0 h) ∙ n) in
      absurd (opposite-ne d (sym q.at_side ∙ one_level q r ∙ r.at_side))
  | inr h ↦ h
]
