-- ===== src/Tree/Examples.antt =====
-- Lookups and insertions in a tree of three objects that are their own keys.
use l3_lock_free_orderbook_e.Prelude.{
  ℕ, Bool, ◌≡◌, ◌⊎◌, refl, false, none, some, [], ◌∷◌, Ptr, ok, ltb, arith, if◌then◌else◌, ◌==◌,
}
use l3_lock_free_orderbook_e.Tree.Memory.{red, black, new_node, IntrusiveRbTree}
use l3_lock_free_orderbook_e.Tree.Walk.{minimum, maximum, inorder, find_node}
use l3_lock_free_orderbook_e.Tree.Insert.{insert}
use l3_lock_free_orderbook_e.Tree.Shape.{Shape, leaf, branch}
use l3_lock_free_orderbook_e.Tree.Cells.{cell}
use l3_lock_free_orderbook_e.Tree.Order.{IsStrictOrder, IsSorted, Found}
use l3_lock_free_orderbook_e.Tree.Sorted.{IsTree, Inserted, insert-Inserted, insert-IsShallow}
use l3_lock_free_orderbook_e.Tree.Height.{IsShallow}
use l3_lock_free_orderbook_e.Tree.Balance.{IsRedBlack}
use l3_lock_free_orderbook_e.Tree.Removed.{Removed, remove-Removed}
use l3_lock_free_orderbook_e.Tree.Lookup.{inorder-slots, minimum-maximum, Looked, find_node-Looked}

abbrev key : ℕ → ℕ
key n = n

ltb-IsStrictOrder : IsStrictOrder ltb
ltb-IsStrictOrder = record {
  asym = λ a b h. ground (arith, h);
  trans = λ a b c h i. ground (arith, h, i);
}

abbrev three : IntrusiveRbTree
three = record {
  nodes = λ i.
      if i == 5
      then cell none (some 3) (some 8) black
      else (if i == 3
          then cell (some 5) none none red
          else (if i == 8 then cell (some 5) none none red else new_node));
  root = some 5;
  size = 3;
}

abbrev three_shape : Shape
three_shape = branch (branch leaf 3 red leaf) 5 black (branch leaf 8 red leaf)

three-IsTree : IsTree three three_shape
three-IsTree = record {
  focus = record {
    here = (refl, (refl, tt, tt), (refl, tt, tt));
    around = tt;
    root = refl;
    once = λ i. ground arith;
  };
  black_root = refl;
  size = refl;
}

three-IsSorted : IsSorted key ltb (3 ∷ 5 ∷ 8 ∷ [])
three-IsSorted = ((refl, (refl, tt)), ((refl, tt), (tt, tt)))

insert-Inserted_example :
    Inserted key ltb 7 three three_shape
    ⊎ ((insert key ltb 7 three ≡ ok (false, three))
        × ((p : ℕ) × Found key ltb 7 (3 ∷ 5 ∷ 8 ∷ []) p))
insert-Inserted_example =
    insert-Inserted key ltb ltb-IsStrictOrder 7 three three_shape three-IsTree three-IsSorted refl
      (omega arith)

inorder-slots_example : inorder three ≡ ok (3 ∷ 5 ∷ 8 ∷ [], three)
inorder-slots_example = inorder-slots three three_shape three-IsTree

minimum-maximum_example :
    (minimum three ≡ ok (some 3, three)) × (maximum three ≡ ok (some 8, three))
minimum-maximum_example = minimum-maximum three three_shape three-IsTree

find_node-Looked_example :
    (p : Ptr) × (find_node key ltb 8 three ≡ ok (p, three)) × Looked key ltb 8 (3 ∷ 5 ∷ 8 ∷ []) p
find_node-Looked_example =
    find_node-Looked key ltb 8 ltb-IsStrictOrder three three_shape three-IsTree three-IsSorted

three-IsRedBlack : IsRedBlack three_shape
three-IsRedBlack = ((((tt, tt), refl, (refl, refl)), ((tt, tt), refl, (refl, refl))), refl, tt)

insert-IsShallow_example :
    (b : Bool) × (t' : IntrusiveRbTree) × (s' : Shape) × (insert key ltb 7 three ≡ ok (b, t'))
    × IsTree t' s'
    × IsShallow s'
insert-IsShallow_example =
    insert-IsShallow key ltb ltb-IsStrictOrder 7 three three_shape three-IsTree three-IsSorted refl
      (omega arith) three-IsRedBlack

remove-Removed_example : Removed 5 three three_shape
remove-Removed_example =
    remove-Removed 5 three three_shape three-IsTree three-IsRedBlack (omega arith) (omega arith)
