-- ===== src/Tree/Cells.antt =====
-- The nodes in the store, read and written one at a time, and what it means that they hold a tree.
use l3_lock_free_orderbook_e.Prelude.{
  ℕ, ◌+◌, ◌≤◌, ◌<◌, ◌≡◌, refl, ap, ◌∙◌, false, some, Ptr, ok, arith, ◌==◌, update,
}
use l3_lock_free_orderbook_e.Tree.Memory.{Color, RbTreeNodeBase, IntrusiveRbTree, node, modify}
use l3_lock_free_orderbook_e.Tree.Shape.{
  Shape, leaf, branch, Context, top, in_left, in_right, root_of, parent_of, root_above, times,
  times_around, is_self,
}

abbrev pub cell : (parent left right : Ptr) → Color → RbTreeNodeBase
cell u l r c = record { parent = u; left = l; right = r; color = c }

-- The store with one node replaced.
pub put : IntrusiveRbTree → ℕ → RbTreeNodeBase → IntrusiveRbTree
put t p n = record t { nodes = update t.nodes p n }

pub put_self : (t : IntrusiveRbTree) (p : ℕ) (n : RbTreeNodeBase) → (put t p n).nodes p ≡ n
unfolding put
put_self t p n = ground arith

pub put_ne :
    (t : IntrusiveRbTree) (p : ℕ) (n : RbTreeNodeBase) {i : ℕ} {m : RbTreeNodeBase}
    → (p == i) ≡ false
    → t.nodes i ≡ m
    → (put t p n).nodes i ≡ m
unfolding put
put_ne t p n ne e = rw ne e

pub put-root : (t : IntrusiveRbTree) (p : ℕ) (n : RbTreeNodeBase) → (put t p n).root ≡ t.root
unfolding put
put-root t p n = refl

pub put-size : (t : IntrusiveRbTree) (p : ℕ) (n : RbTreeNodeBase) → (put t p n).size ≡ t.size
unfolding put
put-size t p n = refl

pub node-cell :
    (t : IntrusiveRbTree) (p : ℕ) {n : RbTreeNodeBase} → t.nodes p ≡ n → node (some p) t ≡ ok (n, t)
unfolding node
node-cell t p e = ap (λ n. ok (n, t)) e

pub modify-cell :
    (t : IntrusiveRbTree) (p : ℕ) (f : RbTreeNodeBase → RbTreeNodeBase) {n : RbTreeNodeBase}
    → t.nodes p ≡ n
    → modify (some p) f t ≡ ok (tt, put t p (f n))
unfolding modify put
modify-cell t p f e = ap (λ n. ok (tt, record t { nodes = update t.nodes p (f n) })) e

-- The nodes hold the tree, whose root has the parent `u`.
abbrev pub Holds : (ℕ → RbTreeNodeBase) → Ptr → Shape → Type 0
Holds m u leaf = Unit
Holds m u (branch l p c r) =
    (m p ≡ cell u (root_of l) (root_of r) c) × Holds m (some p) l × Holds m (some p) r

-- The nodes hold what is around a subtree with the root `h`.
abbrev pub HoldsAround : (ℕ → RbTreeNodeBase) → Ptr → Context → Type 0
HoldsAround m h top = Unit
HoldsAround m h (in_left p c r k) =
    (m p ≡ cell (parent_of k) h (root_of r) c) × Holds m (some p) r × HoldsAround m (some p) k
HoldsAround m h (in_right l p c k) =
    (m p ≡ cell (parent_of k) (root_of l) h c) × Holds m (some p) l × HoldsAround m (some p) k

-- The store holds the subtree `s` at the place `k`, each slot once.
pub record Focus (t : IntrusiveRbTree) (s : Shape) (k : Context) : Type 0 where
  pub here : Holds t.nodes (parent_of k) s
  pub around : HoldsAround t.nodes (root_of s) k
  pub root : t.root ≡ root_above (root_of s) k
  pub once : (i : ℕ) → times i s + times_around i k ≤ 1

pub Holds-frame :
    (m m' : ℕ → RbTreeNodeBase) (u : Ptr) (s : Shape)
    → ((i : ℕ) → 0 < times i s → m' i ≡ m i)
    → Holds m u s
    → Holds m' u s
Holds-frame m m' u leaf same h = tt
Holds-frame m m' u (branch l p c r) same h = (
  same p (omega (arith, is_self p)) ∙ h.0,
  Holds-frame m m' (some p) l (λ i k. same i (omega arith)) h.1,
  Holds-frame m m' (some p) r (λ i k. same i (omega arith)) h.2,
)

pub HoldsAround-frame :
    (m m' : ℕ → RbTreeNodeBase) (h : Ptr) (k : Context)
    → ((i : ℕ) → 0 < times_around i k → m' i ≡ m i)
    → HoldsAround m h k
    → HoldsAround m' h k
HoldsAround-frame m m' h top same a = tt
HoldsAround-frame m m' h (in_left p c r k) same a = (
  same p (omega (arith, is_self p)) ∙ a.0,
  Holds-frame m m' (some p) r (λ i j. same i (omega arith)) a.1,
  HoldsAround-frame m m' (some p) k (λ i j. same i (omega arith)) a.2,
)
HoldsAround-frame m m' h (in_right l p c k) same a = (
  same p (omega (arith, is_self p)) ∙ a.0,
  Holds-frame m m' (some p) l (λ i j. same i (omega arith)) a.1,
  HoldsAround-frame m m' (some p) k (λ i j. same i (omega arith)) a.2,
)
