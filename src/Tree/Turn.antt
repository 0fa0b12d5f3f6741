-- ===== src/Tree/Turn.antt =====
-- The two helpers that a rotation is made of, and the rotations: they keep the slots in order.
use l3_lock_free_orderbook_e.Prelude.{
  ℕ, ◌+◌, ◌≤◌, ◌<◌, ◌≡◌, refl, ◌∙◌, false, some, Ptr, ok, arith, same, ◌==◌, ==_comm,
}
use l3_lock_free_orderbook_e.Tree.Memory.{Color, IntrusiveRbTree}
use l3_lock_free_orderbook_e.Tree.Rotate.{adopt, replace_left, replace_right}
use l3_lock_free_orderbook_e.Tree.Shape.{
  Shape, leaf, branch, Context, top, in_left, in_right, root_of, parent_of, root_above, is, times,
  times_around, is_ne, ==_refl,
}
use l3_lock_free_orderbook_e.Tree.Cells.{
  cell, put, put_self, put_ne, put-root, put-size, node-cell, modify-cell, Holds, HoldsAround,
  Holds-frame, HoldsAround-frame,
}

ne_of_once : (i p : ℕ) (n : ℕ) → is i p + n ≤ 1 → 0 < n → (p == i) ≡ false
ne_of_once i p n h k = is_ne i p (omega arith)

-- `b` has been given the parent `u`; nothing else has changed.
pub record Adopted (t : IntrusiveRbTree) (u : Ptr) (b : Shape) (t' : IntrusiveRbTree) : Type 0 where
  pub here : Holds t'.nodes u b
  pub others : (i : ℕ) → times i b ≡ 0 → t'.nodes i ≡ t.nodes i
  pub root : t'.root ≡ t.root
  pub size : t'.size ≡ t.size

pub adopt-Adopted :
    (t : IntrusiveRbTree) (v u : Ptr) (b : Shape)
    → Holds t.nodes v b
    → ((i : ℕ) → times i b ≤ 1)
    → (t' : IntrusiveRbTree) × (adopt (root_of b) u t ≡ ok (tt, t')) × Adopted t u b t'
unfolding adopt
adopt-Adopted t v u leaf h once =
    (t, refl, record { here = tt; others = λ i k. refl; root = refl; size = refl })
adopt-Adopted t v u (branch l p c r) h once =
    let t' = put t p (cell u (root_of l) (root_of r) c) in
    (
      t',
      modify-cell t p (λ n. record n { parent = u }) h.0,
      record {
        here = (
          put_self t p _,
          Holds-frame t.nodes t'.nodes (some p) l
              (λ i k. put_ne t p _ (is_ne i p (omega (arith, once i))) refl) h.1,
          Holds-frame t.nodes t'.nodes (some p) r
              (λ i k. put_ne t p _ (is_ne i p (omega (arith, once i))) refl) h.2,
        );
        others = λ i k. put_ne t p _ (is_ne i p (omega arith)) refl;
        root = put-root t p _;
        size = put-size t p _;
      },
    )

-- The place `k` holds `v` where it held another root; nothing else has changed.
pub record Replaced (t : IntrusiveRbTree) (v : Ptr) (k : Context) (t' : IntrusiveRbTree)
    : Type 0 where
  pub around : HoldsAround t'.nodes v k
  pub others : (i : ℕ) → times_around i k ≡ 0 → t'.nodes i ≡ t.nodes i
  pub root : t'.root ≡ root_above v k
  pub size : t'.size ≡ t.size

pub root_away : (x : ℕ) (s : Shape) → times x s ≡ 0 → same (some x) (root_of s) ≡ false
root_away x leaf h = refl
root_away x (branch l p c r) h = ==_comm x p ∙ is_ne x p (omega arith)

module _ (t : IntrusiveRbTree) (h v : Ptr) where
  pub put-Replaced_left :
      (p : ℕ) (c : Color) (r : Shape) (k : Context)
      → HoldsAround t.nodes h (in_left p c r k)
      → ((i : ℕ) → times_around i (in_left p c r k) ≤ 1)
      → t.root ≡ root_above (some p) k
      → Replaced t v (in_left p c r k) (put t p (cell (parent_of k) v (root_of r) c))
  put-Replaced_left p c r k a once e =
      let t' = put t p (cell (parent_of k) v (root_of r) c) in
      record {
        around = (
          put_self t p _,
          Holds-frame t.nodes t'.nodes (some p) r
              (λ i j. put_ne t p _ (is_ne i p (omega (arith, once i))) refl) a.1,
          HoldsAround-frame t.nodes t'.nodes (some p) k
              (λ i j. put_ne t p _ (is_ne i p (omega (arith, once i))) refl) a.2,
        );
        others = λ i j. put_ne t p _ (is_ne i p (omega arith)) refl;
        root = put-root t p _ ∙ e;
        size = put-size t p _;
      }

  pub put-Replaced_right :
      (l : Shape) (p : ℕ) (c : Color) (k : Context)
      → HoldsAround t.nodes h (in_right l p c k)
      → ((i : ℕ) → times_around i (in_right l p c k) ≤ 1)
      → t.root ≡ root_above (some p) k
      → Replaced t v (in_right l p c k) (put t p (cell (parent_of k) (root_of l) v c))
  put-Replaced_right l p c k a once e =
      let t' = put t p (cell (parent_of k) (root_of l) v c) in
      record {
        around = (
          put_self t p _,
          Holds-frame t.nodes t'.nodes (some p) l
              (λ i j. put_ne t p _ (is_ne i p (omega (arith, once i))) refl) a.1,
          HoldsAround-frame t.nodes t'.nodes (some p) k
              (λ i j. put_ne t p _ (is_ne i p (omega (arith, once i))) refl) a.2,
        );
        others = λ i j. put_ne t p _ (is_ne i p (omega arith)) refl;
        root = put-root t p _ ∙ e;
        size = put-size t p _;
      }

module _ (t : IntrusiveRbTree) (x : ℕ) (v : Ptr) where
  set_root-Replaced : Replaced t v top (record t { root = v })
  set_root-Replaced = record { around = tt; others = λ i j. refl; root = refl; size = refl }

  pub replace_left-Replaced :
      (k : Context)
      → HoldsAround t.nodes (some x) k
      → t.root ≡ root_above (some x) k
      → ((i : ℕ) → times_around i k ≤ 1)
      → times_around x k ≡ 0
      → (t' : IntrusiveRbTree) × (replace_left (parent_of k) (some x) v t ≡ ok (tt, t'))
        × Replaced t v k t'
  unfolding replace_left
  replace_left-Replaced top a e once out = (_, refl, set_root-Replaced)
  replace_left-Replaced (in_left p c r k) a e once out = (
    _,
    rw (node-cell t p a.0, ==_refl x, modify-cell t p (λ n. record n { left = v }) a.0) refl,
    put-Replaced_left t (some x) v p c r k a once e,
  )
  replace_left-Replaced (in_right l p c k) a e once out = (
    _,
    rw
        (
          node-cell t p a.0,
          root_away x l (omega arith),
          modify-cell t p (λ n. record n { right = v }) a.0,
        )
        refl,
    put-Replaced_right t (some x) v l p c k a once e,
  )

  pub replace_right-Replaced :
      (k : Context)
      → HoldsAround t.nodes (some x) k
      → t.root ≡ root_above (some x) k
      → ((i : ℕ) → times_around i k ≤ 1)
      → times_around x k ≡ 0
      → (t' : IntrusiveRbTree) × (replace_right (parent_of k) (some x) v t ≡ ok (tt, t'))
        × Replaced t v k t'
  unfolding replace_right
  replace_right-Replaced top a e once out = (_, refl, set_root-Replaced)
  replace_right-Replaced (in_left p c r k) a e once out = (
    _,
    rw
        (
          node-cell t p a.0,
          root_away x r (omega arith),
          modify-cell t p (λ n. record n { left = v }) a.0,
        )
        refl,
    put-Replaced_left t (some x) v p c r k a once e,
  )
  replace_right-Replaced (in_right l p c k) a e once out = (
    _,
    rw (node-cell t p a.0, ==_refl x, modify-cell t p (λ n. record n { right = v }) a.0) refl,
    put-Replaced_right t (some x) v l p c k a once e,
  )
