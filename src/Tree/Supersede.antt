-- ===== src/Tree/Supersede.antt =====
-- The least node behind `z` takes its place.
use l3_lock_free_orderbook_e.Prelude.{
  ℕ, ◌+◌, ◌≤◌, ◌<◌, ◌≡◌, refl, ◌∙◌, false, some, Ptr, ok, arith, ◌==◌,
}
use l3_lock_free_orderbook_e.Tree.Memory.{Color, IntrusiveRbTree}
use l3_lock_free_orderbook_e.Tree.Rotate.{adopt}
use l3_lock_free_orderbook_e.Tree.Remove.{supersede}
use l3_lock_free_orderbook_e.Tree.Shape.{
  Shape, leaf, branch, Context, root_of, parent_of, root_above, is, times, times_around, is_self,
  is_ne,
}
use l3_lock_free_orderbook_e.Tree.Cells.{
  cell, put, put_self, put_ne, put-root, put-size, node-cell, modify-cell, Holds, HoldsAround,
  Focus, Holds-frame, HoldsAround-frame,
}
use l3_lock_free_orderbook_e.Tree.Turn.{adopt-Adopted}
use l3_lock_free_orderbook_e.Tree.Transplant.{transplant-Transplanted}

-- `y` is the root of all that is behind `z`, as far as its children know; `z` stands at `k` still.
pub record Lifted (z y : ℕ) (l b : Shape) (c d : Color) (k : Context) (t : IntrusiveRbTree)
    : Type 0 where
  pub parent : Ptr
  pub behind : Ptr
  pub node : t.nodes z ≡ cell (parent_of k) (root_of l) behind c
  pub least : Holds t.nodes parent (branch leaf y d b)
  pub left : Holds t.nodes (some z) l
  pub around : HoldsAround t.nodes (some z) k
  pub root : t.root ≡ root_above (some z) k
  pub once : (i : ℕ) → times i l + (is i y + times i b) + (is i z + times_around i k) ≤ 1

pub supersede-Focus :
    (t : IntrusiveRbTree) (z y : ℕ) (la : Shape) (q : ℕ) (e : Color) (lb b : Shape) (c d : Color)
    (k : Context)
    → Lifted z y (branch la q e lb) b c d k t
    → (t' : IntrusiveRbTree) × (supersede (some z) (some y) t ≡ ok (tt, t'))
      × Focus t' (branch (branch la q e lb) y c b) k
      × (t'.size ≡ t.size)
unfolding supersede adopt
supersede-Focus t z y la q e lb b c d k g =
    let l = branch la q e lb in
    let u = parent_of k in
    let y_z : (y == z) ≡ false = is_ne z y (omega (arith, g.once z, is_self z)) in
    let w =
      transplant-Transplanted t z k g.parent (branch leaf y d b) g.node g.least g.around g.root
        (λ i. omega (arith, g.once i)) (omega (arith, g.once z, is_self z)) in
    let t₁ = w.after in
    let here_y = w.focus.here.0 in
    let kept : (i : ℕ) → 0 < times i l + is i z → t₁.nodes i ≡ t.nodes i =
      λ i j. w.others i (omega (arith, g.once i)) (omega (arith, g.once i)) in
    let here_z = kept z (omega (arith, is_self z)) ∙ g.node in
    let t₂ = put t₁ y (cell u (some q) (root_of b) d) in
    let (t₃, run₃, a) =
      adopt-Adopted t₂ (some z) (some y) l
        (Holds-frame t.nodes t₂.nodes (some z) l
          (λ i j. put_ne t₁ y _ (is_ne i y (omega (arith, g.once i))) (kept i (omega arith)))
          g.left)
        (λ i. omega (arith, g.once i)) in
    let here_y₃ : t₃.nodes y ≡ cell u (some q) (root_of b) d =
      a.others y (omega (arith, g.once y, is_self y)) ∙ put_self t₁ y _ in
    let here_z₃ : t₃.nodes z ≡ cell u (some q) g.behind c =
      a.others z (omega (arith, g.once z, is_self z)) ∙ put_ne t₁ y _ y_z here_z in
    let t₄ = put t₃ y (cell u (some q) (root_of b) c) in
    let still : (i : ℕ) → 0 < times i b + times_around i k → t₄.nodes i ≡ t₁.nodes i = λ i j.
      put_ne t₃ y _ (is_ne i y (omega (arith, g.once i))) (
        a.others i (omega (arith, g.once i))
        ∙ put_ne t₁ y _ (is_ne i y (omega (arith, g.once i))) refl) in
    (
      t₄,
      rw
          (
            w.run,
            node-cell t₁ z here_z,
            modify-cell t₁ y (λ n. record n { left = some q }) here_y,
            node-cell t₂ y (put_self t₁ y _),
            run₃,
            node-cell t₃ z here_z₃,
            modify-cell t₃ y (λ n. record n { color = c }) here_y₃,
          )
          refl,
      record {
        here = (
          put_self t₃ y _,
          Holds-frame t₃.nodes t₄.nodes (some y) l
              (λ i j. put_ne t₃ y _ (is_ne i y (omega (arith, g.once i))) refl) a.here,
          Holds-frame t₁.nodes t₄.nodes (some y) b (λ i j. still i (omega arith)) w.focus.here.2,
        );
        around =
            HoldsAround-frame t₁.nodes t₄.nodes (some y) k (λ i j. still i (omega arith))
              w.focus.around;
        root = put-root t₃ y _ ∙ a.root ∙ put-root t₁ y _ ∙ w.focus.root;
        once = λ i. omega (arith, g.once i);
      },
      put-size t₃ y _ ∙ a.size ∙ put-size t₁ y _ ∙ w.size,
    )
