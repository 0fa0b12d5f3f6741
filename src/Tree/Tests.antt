-- ===== src/Tree/Tests.antt =====
-- `IntrusiveRBTree` over objects that are their own keys.
use l3_lock_free_orderbook_e.Prelude.{
  ℕ, ◌≡◌, refl, none, some, List, [], ◌∷◌, Run, ok, fault, ltb, Ptr,
}
use l3_lock_free_orderbook_e.Tree.Memory.{M, ◌>>=◌, ◌>>◌, pure, new}
use l3_lock_free_orderbook_e.Tree.Walk.{
  find_node, minimum, maximum, predecessor, successor, inorder,
}
use l3_lock_free_orderbook_e.Tree.Insert.{insert}
use l3_lock_free_orderbook_e.Tree.Remove.{remove}
use l3_lock_free_orderbook_e.Tree.Machine.{machine}

abbrev key : ℕ → ℕ
key n = n

abbrev put : ℕ → M (Unit {0})
put n = insert key ltb n >>= λ _. pure tt

abbrev put_all : List ℕ → M (Unit {0})
put_all [] = pure tt
put_all (x ∷ xs) = put x >> put_all xs

abbrev remove_all : List ℕ → M (Unit {0})
remove_all [] = pure tt
remove_all (x ∷ xs) = remove x >> remove_all xs

abbrev result {ℓ} : {A : Type 0} {S : Type ℓ} → Run (A × S) → Run A
result (ok (a, s)) = ok a
result Run.fault = Run.fault
result Run.out_of_fuel = Run.out_of_fuel

abbrev sample : M (Unit {0})
sample = put_all (5 ∷ 3 ∷ 8 ∷ 1 ∷ 4 ∷ 7 ∷ 9 ∷ 2 ∷ 6 ∷ [])

inorder_run : result ((do sample; inorder) new) ≡ ok (1 ∷ 2 ∷ 3 ∷ 4 ∷ 5 ∷ 6 ∷ 7 ∷ 8 ∷ 9 ∷ [])
unfolding machine
inorder_run = refl

remove_run :
    result ((do sample; remove_all (5 ∷ 1 ∷ 9 ∷ []); inorder) new) ≡ ok (2 ∷ 3 ∷ 4 ∷ 6 ∷ 7 ∷ 8 ∷ [])
unfolding machine
remove_run = refl

walk_run :
    result {A = Ptr × Ptr × Ptr × Ptr × Ptr} (
      (do
        sample
        a ← minimum
        b ← maximum
        c ← predecessor (some 5)
        d ← successor (some 5)
        e ← predecessor (some 1)
        pure (a, b, c, d, e))
        new)
    ≡ ok (some 1, some 9, some 4, some 6, none)
unfolding machine
walk_run = refl

find_run :
    result {A = Ptr × Ptr}
      ((do sample; a ← find_node key ltb 7; b ← find_node key ltb 10; pure (a, b)) new)
    ≡ ok (some 7, none)
unfolding machine
find_run = refl

-- The removal of a black leaf leaves the tree unbalanced, and a later `delete_fixup` then follows the
-- null pointer where it takes a sibling for granted.
remove_faults :
    result (
      (do
        put_all (30 ∷ 54 ∷ 62 ∷ 58 ∷ [])
        remove 30
        put_all (18 ∷ 23 ∷ [])
        remove 58
        put 39
        remove_all (18 ∷ 39 ∷ 54 ∷ [])
        inorder)
        new)
    ≡ fault
unfolding machine
remove_faults = refl
