-- ===== src/Tree/Shape.antt =====
-- The trees that the nodes of an `IntrusiveRBTree` stand for, by the slots of their objects, and the
-- places in them.
use l3_lock_free_orderbook_e.Prelude.{
  ℕ, ◌+◌, ◌≡◌, true, false, none, some, List, [], ◌∷◌, ◌++◌, Ptr, arith, ◌==◌, if◌then◌else◌,
}
use l3_lock_free_orderbook_e.Tree.Memory.{Color}

pub data Shape : Type 0 where
  leaf : Shape
  branch : (left : Shape) (slot : ℕ) (color : Color) (right : Shape) → Shape

-- A tree with one subtree taken out, from that subtree's place up to the root.
pub data Context : Type 0 where
  top : Context
  in_left : (slot : ℕ) (color : Color) (right : Shape) (up : Context) → Context
  in_right : (left : Shape) (slot : ℕ) (color : Color) (up : Context) → Context

abbrev pub root_of : Shape → Ptr
root_of leaf = none
root_of (branch l p c r) = some p

abbrev pub parent_of : Context → Ptr
parent_of top = none
parent_of (in_left p c r k) = some p
parent_of (in_right l p c k) = some p

-- The root of the whole tree.
abbrev pub root_above : Ptr → Context → Ptr
root_above h top = h
root_above h (in_left p c r k) = root_above (some p) k
root_above h (in_right l p c k) = root_above (some p) k

-- The slots in order.
abbrev pub slots : Shape → List ℕ
slots leaf = []
slots (branch l p c r) = slots l ++ (p ∷ slots r)

-- The slots of the whole tree, where those of the subtree are `xs`.
abbrev pub fill : Context → List ℕ → List ℕ
fill top xs = xs
fill (in_left p c r k) xs = fill k (xs ++ (p ∷ slots r))
fill (in_right l p c k) xs = fill k (slots l ++ (p ∷ xs))

-- The whole tree.
abbrev pub plug : Shape → Context → Shape
plug s top = s
plug s (in_left p c r k) = plug (branch s p c r) k
plug s (in_right l p c k) = plug (branch l p c s) k

abbrev pub is : ℕ → ℕ → ℕ
is i p = if p == i then 1 else 0

-- How often a slot stands in a tree, and in what is around a subtree.
abbrev pub times : ℕ → Shape → ℕ
times i leaf = 0
times i (branch l p c r) = times i l + (is i p + times i r)

abbrev pub times_around : ℕ → Context → ℕ
times_around i top = 0
times_around i (in_left p c r k) = is i p + (times i r + times_around i k)
times_around i (in_right l p c k) = times i l + (is i p + times_around i k)

abbrev pub count : Shape → ℕ
count leaf = 0
count (branch l p c r) = count l + (1 + count r)

abbrev pub depth : Context → ℕ
depth top = 0
depth (in_left p c r k) = 1 + depth k
depth (in_right l p c k) = 1 + depth k

pub ==_refl : (i : ℕ) → (i == i) ≡ true
==_refl i = ground arith

pub is_self : (i : ℕ) → is i i ≡ 1
is_self i = ground arith

pub is_ne : (i p : ℕ) → is i p ≡ 0 → (p == i) ≡ false
is_ne i p h = ground arith
