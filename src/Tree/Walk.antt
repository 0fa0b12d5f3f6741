-- ===== src/Tree/Walk.antt =====
-- The read-only methods of `IntrusiveRBTree`.
use l3_lock_free_orderbook_e.Prelude.{
  ℕ, zero, suc, Bool, none, some, Ptr, same, if◌then◌else◌, List, [], ◌∷◌, ◌++◌,
}
use l3_lock_free_orderbook_e.Tree.Memory.{
  M, ◌>>=◌, pure, get_parent, get_left, get_right, get_root, with_fuel, no_fuel,
}

unfoldable pub minimum_node : ℕ → Ptr → M Ptr
minimum_node zero p = no_fuel
minimum_node (suc f) p = do
  l ← get_left p
  elim l [ none ↦ pure p | some q ↦ minimum_node f (some q) ]

unfoldable pub maximum_node : ℕ → Ptr → M Ptr
maximum_node zero p = no_fuel
maximum_node (suc f) p = do
  r ← get_right p
  elim r [ none ↦ pure p | some q ↦ maximum_node f (some q) ]

unfoldable pub minimum : M Ptr
minimum = do
  r ← get_root
  elim r [ none ↦ pure none | some p ↦ with_fuel (λ f. minimum_node f (some p)) ]

unfoldable pub maximum : M Ptr
maximum = do
  r ← get_root
  elim r [ none ↦ pure none | some p ↦ with_fuel (λ f. maximum_node f (some p)) ]

-- the loop of `predecessor`: up while the node is a left child
unfoldable pub predecessor_loop : ℕ → Ptr → Ptr → M Ptr
predecessor_loop zero n parent = no_fuel
predecessor_loop (suc f) n none = pure none
predecessor_loop (suc f) n (some p) = do
  l ← get_left (some p)
  up ← get_parent (some p)
  if same n l then predecessor_loop f (some p) up else pure (some p)

unfoldable pub predecessor : Ptr → M Ptr
predecessor value = do
  l ← get_left value
  parent ← get_parent value
  elim l [
    | some q ↦ with_fuel (λ f. maximum_node f (some q))
    | none ↦ with_fuel (λ f. predecessor_loop f value parent)
  ]

-- the loop of `successor`: up while the node is a right child
unfoldable pub successor_loop : ℕ → Ptr → Ptr → M Ptr
successor_loop zero n parent = no_fuel
successor_loop (suc f) n none = pure none
successor_loop (suc f) n (some p) = do
  r ← get_right (some p)
  up ← get_parent (some p)
  if same n r then successor_loop f (some p) up else pure (some p)

unfoldable pub successor : Ptr → M Ptr
successor value = do
  r ← get_right value
  parent ← get_parent value
  elim r [
    | some q ↦ with_fuel (λ f. minimum_node f (some q))
    | none ↦ with_fuel (λ f. successor_loop f value parent)
  ]

-- The objects that `inorder_traversal` hands to its callback, in order. The fuel bounds the depth.
unfoldable pub inorder_traversal : ℕ → Ptr → M (List ℕ)
inorder_traversal zero p = no_fuel
inorder_traversal (suc f) none = pure []
inorder_traversal (suc f) (some p) = do
  l ← get_left (some p)
  before ← inorder_traversal f l
  r ← get_right (some p)
  behind ← inorder_traversal f r
  pure (before ++ p ∷ behind)

unfoldable pub inorder : M (List ℕ)
inorder = do r ← get_root; with_fuel (λ f. inorder_traversal f r)

module _ {ℓ} {K : Type ℓ} (key : ℕ → K) (less : K → K → Bool) where
  unfoldable pub find_loop : ℕ → K → Ptr → M Ptr
  find_loop zero k current = no_fuel
  find_loop (suc f) k none = pure none
  find_loop (suc f) k (some c) =
      if less k (key c)
      then (do l ← get_left (some c); find_loop f k l)
      else (if less (key c) k then (do r ← get_right (some c); find_loop f k r) else pure (some c))

  unfoldable pub find_node : K → M Ptr
  find_node k = do r ← get_root; with_fuel (λ f. find_loop f k r)
