-- ===== src/Tree/Transplant.antt =====
-- `transplant`: a subtree takes the place of a node.
use l3_lock_free_orderbook_e.Prelude.{ℕ, ◌+◌, ◌≤◌, ◌≡◌, refl, ◌∙◌, some, Ptr, ok, arith}
use l3_lock_free_orderbook_e.Tree.Memory.{Color, IntrusiveRbTree}
use l3_lock_free_orderbook_e.Tree.Rotate.{transplant}
use l3_lock_free_orderbook_e.Tree.Shape.{
  Shape, Context, root_of, parent_of, root_above, times, times_around,
}
use l3_lock_free_orderbook_e.Tree.Cells.{
  cell, node-cell, Holds, HoldsAround, Focus, Holds-frame, HoldsAround-frame,
}
use l3_lock_free_orderbook_e.Tree.Turn.{adopt-Adopted, replace_left-Replaced}

-- The subtree `b` stands at `k`; the nodes that are in neither are as they were.
pub record Transplanted (z : ℕ) (b : Shape) (k : Context) (t : IntrusiveRbTree) : Type 0 where
  pub after : IntrusiveRbTree
  pub run : transplant (some z) (root_of b) t ≡ ok (tt, after)
  pub focus : Focus after b k
  pub others : (i : ℕ) → times i b ≡ 0 → times_around i k ≡ 0 → after.nodes i ≡ t.nodes i
  pub size : after.size ≡ t.size

pub transplant-Transplanted :
    (t : IntrusiveRbTree) (z : ℕ) {l r : Ptr} {c : Color} (k : Context) (v : Ptr) (b : Shape)
    → t.nodes z ≡ cell (parent_of k) l r c
    → Holds t.nodes v b
    → HoldsAround t.nodes (some z) k
    → t.root ≡ root_above (some z) k
    → ((i : ℕ) → times i b + times_around i k ≤ 1)
    → times_around z k ≡ 0
    → Transplanted z b k t
unfolding transplant
transplant-Transplanted t z k v b e h a root once out =
    let (t₁, run₁, r) =
      replace_left-Replaced t z (root_of b) k a root (λ i. omega (arith, once i)) out in
    let (t₂, run₂, d) =
      adopt-Adopted t₁ v (parent_of k) b
        (Holds-frame t.nodes t₁.nodes v b (λ i j. r.others i (omega (arith, once i))) h)
        (λ i. omega (arith, once i)) in
    record {
      after = t₂;
      run = rw (node-cell t z e, run₁, run₂) refl;
      focus = record {
        here = d.here;
        around =
            HoldsAround-frame t₁.nodes t₂.nodes (root_of b) k
              (λ i j. d.others i (omega (arith, once i))) r.around;
        root = d.root ∙ r.root;
        once = once;
      };
      others = λ i j n. d.others i j ∙ r.others i n;
      size = d.size ∙ r.size;
    }
