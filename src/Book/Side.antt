-- ===== src/Book/Side.antt =====
-- One of the two trees of a book, and what is asked of it by the side of an order.
use l3_lock_free_orderbook_e.Prelude.{
  ℕ, ◌≡◌, refl, subst, Bool, true, false, ◌||◌, List, [], ◌∷◌, ok, arith, mem, Bool-cases, inl, inr,
  ==_iff, ◌==◌, Ptr,
}
use l3_lock_free_orderbook_e.Types.{Price, Side, buy, sell, opposite}
use l3_lock_free_orderbook_e.Tree.Memory.{IntrusiveRbTree}
use l3_lock_free_orderbook_e.Tree.Walk
use l3_lock_free_orderbook_e.Tree.Insert
use l3_lock_free_orderbook_e.Tree.Remove
use l3_lock_free_orderbook_e.Tree.Shape.{Shape, leaf, branch, slots, times}
use l3_lock_free_orderbook_e.Tree.Order.{insert_by, IsAbsent}
use l3_lock_free_orderbook_e.Tree.Sorted.{IsTree}
use l3_lock_free_orderbook_e.Level.Links.{mem-append}
use l3_lock_free_orderbook_e.Book.State.{OrderBook, level_price}
use l3_lock_free_orderbook_e.Book.Levels.{remove_from_tree, find_level, insert_level}
use l3_lock_free_orderbook_e.Book.Invariant.{on_buy, compare_of, tree_of}

-- The book with another tree on a side.
abbrev pub with_tree : Side → IntrusiveRbTree → OrderBook → OrderBook
with_tree d t b = record b { bid_tree = on_buy d t b.bid_tree; ask_tree = on_buy d b.ask_tree t }

abbrev pub at_side : Side → Shape → (Side → Shape) → Side → Shape
at_side buy s f buy = s
at_side buy s f sell = f sell
at_side sell s f buy = f buy
at_side sell s f sell = s

pub at_side-all :
    (P : Side → Shape → Type 0) (d : Side) (s : Shape) (f : Side → Shape)
    → P d s
    → ((e : Side) → P e (f e))
    → (e : Side) → P e (at_side d s f e)
at_side-all P buy s f h g buy = h
at_side-all P buy s f h g sell = g sell
at_side-all P sell s f h g buy = g buy
at_side-all P sell s f h g sell = h

pub with_tree-IsTree :
    (d : Side) (t : IntrusiveRbTree) (s : Shape) (b : OrderBook) (f : Side → Shape)
    → IsTree t s
    → ((e : Side) → IsTree (tree_of e b) (f e))
    → (e : Side) → IsTree (tree_of e (with_tree d t b)) (at_side d s f e)
with_tree-IsTree buy t s b f h g buy = h
with_tree-IsTree buy t s b f h g sell = g sell
with_tree-IsTree sell t s b f h g buy = g buy
with_tree-IsTree sell t s b f h g sell = h

pub find_level-run :
    (d : Side) (price : Price) (b : OrderBook) {p : Ptr}
    → Walk.find_node (level_price b.level_pool) (compare_of d) price (tree_of d b)
      ≡ ok (p, tree_of d b)
    → find_level price d b ≡ ok (p, b)
unfolding find_level
find_level-run buy price b e = rw e refl
find_level-run sell price b e = rw e refl

pub insert_level-run :
    (d : Side) (lv : ℕ) (b : OrderBook) {r : Bool} {t : IntrusiveRbTree}
    → Insert.insert (level_price b.level_pool) (compare_of d) lv (tree_of d b) ≡ ok (r, t)
    → insert_level lv d b ≡ ok (r, with_tree d t b)
unfolding insert_level
insert_level-run buy lv b e = rw e refl
insert_level-run sell lv b e = rw e refl

pub times-mem : (v : ℕ) (s : Shape) → mem v (slots s) ≡ false → times v s ≡ 0
times-mem v leaf h = refl
times-mem v (branch l p c r) h =
    let e = mem-append v (slots l) (p ∷ slots r) in
    let a : mem v (slots l) ≡ false = ground (arith, e, h) in
    let b : ((p == v) || mem v (slots r)) ≡ false = ground (arith, e, h) in
    ground (arith, times-mem v l a, times-mem v r (ground (arith, b)), b)

module _ {ℓ} {K : Type ℓ} (key : ℕ → K) (less : K → K → Bool) (k : K) where
  pub mem-insert_by :
      (i v : ℕ) (xs : List ℕ) → mem i (insert_by key less k v xs) ≡ ((v == i) || mem i xs)
  mem-insert_by i v [] = refl
  mem-insert_by i v (x ∷ xs) = elim (Bool-cases (less k (key x))) [
    | inl h ↦ rw h refl
    | inr h ↦ rw h (ground (arith, mem-insert_by i v xs))
  ]

  pub IsAbsent-of_mem :
      (p : ℕ) (xs : List ℕ)
      → IsAbsent key less k xs
      → mem p xs ≡ true
      → (less k (key p) || less (key p) k) ≡ true
  IsAbsent-of_mem p [] a m = cc
  IsAbsent-of_mem p (x ∷ xs) a m = elim (Bool-cases (x == p)) [
    | inl h ↦ subst (λ j. (less k (key j) || less (key j) k) ≡ true) ((==_iff x p).0 h) a.0
    | inr h ↦ IsAbsent-of_mem p xs a.1 (ground (arith, h))
  ]

pub at_side_self : (d : Side) (s : Shape) (f : Side → Shape) → at_side d s f d ≡ s
at_side_self buy s f = refl
at_side_self sell s f = refl

pub at_side-opposite :
    (d : Side) (s : Shape) (f : Side → Shape) → at_side d s f (opposite d) ≡ f (opposite d)
at_side-opposite buy s f = refl
at_side-opposite sell s f = refl

pub at_side-both :
    (P : Side → Shape → Type 0) (d : Side) (s : Shape) (f : Side → Shape)
    → P d s
    → P (opposite d) (f (opposite d))
    → (e : Side) → P e (at_side d s f e)
at_side-both P buy s f h g buy = h
at_side-both P buy s f h g sell = g
at_side-both P sell s f h g buy = g
at_side-both P sell s f h g sell = h

pub remove_from_tree-run :
    (d : Side) (lv : ℕ) (b : OrderBook) {t : IntrusiveRbTree}
    → Remove.remove lv (tree_of d b) ≡ ok (tt, t)
    → remove_from_tree lv d b ≡ ok (tt, with_tree d t b)
unfolding remove_from_tree
remove_from_tree-run buy lv b e = rw e refl
remove_from_tree-run sell lv b e = rw e refl
