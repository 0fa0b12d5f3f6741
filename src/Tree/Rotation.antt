-- ===== src/Tree/Rotation.antt =====
-- `rotate_left` and `rotate_right` at a place of the tree.
use l3_lock_free_orderbook_e.Prelude.{ℕ, ◌≡◌, refl, false, some, ok, arith, ◌==◌, ==_comm, ◌∙◌}
use l3_lock_free_orderbook_e.Tree.Memory.{Color, IntrusiveRbTree}
use l3_lock_free_orderbook_e.Tree.Rotate.{rotate_left, rotate_right}
use l3_lock_free_orderbook_e.Tree.Shape.{
  Shape, branch, Context, root_of, parent_of, times, times_around, is_self, is_ne,
}
use l3_lock_free_orderbook_e.Tree.Cells.{
  cell, put, put_self, put_ne, put-root, put-size, node-cell, modify-cell, Focus, Holds-frame,
  HoldsAround-frame,
}
use l3_lock_free_orderbook_e.Tree.Turn.{
  adopt-Adopted, replace_left-Replaced, replace_right-Replaced,
}

module _ {t : IntrusiveRbTree} {k : Context} (a : Shape) (x : ℕ) (c : Color) (b : Shape) (y : ℕ)
    (d : Color) (e : Shape) where
  -- `rotate_left` turns the subtree at `x`: its right child `y` takes its place, and the slots stay in order.
  pub rotate_left-Focus :
      Focus t (branch a x c (branch b y d e)) k
      → (t' : IntrusiveRbTree) × (rotate_left (some x) t ≡ ok (tt, t'))
        × Focus t' (branch (branch a x c b) y d e) k
        × (t'.size ≡ t.size)
  unfolding rotate_left
  rotate_left-Focus g =
      let u = parent_of k in
      let (ex, ha, hy) = g.here in
      let (ey, hb, he) = hy in
      let x_y : (x == y) ≡ false = is_ne y x (omega (arith, g.once y, is_self y)) in
      let y_x : (y == x) ≡ false = ==_comm y x ∙ x_y in
      let t₁ = put t x (cell u (root_of a) (root_of b) c) in
      let (t₂, run₂, b₂) =
        adopt-Adopted t₁ (some y) (some x) b
          (Holds-frame t.nodes t₁.nodes (some y) b
            (λ i j. put_ne t x _ (is_ne i x (omega (arith, g.once i))) refl) hb)
          (λ i. omega (arith, g.once i)) in
      let ex₂ : t₂.nodes x ≡ (cell u (root_of a) (root_of b) c) =
        b₂.others x (omega (arith, g.once x, is_self x)) ∙ put_self t x _ in
      let ey₂ : t₂.nodes y ≡ (cell (some x) (root_of b) (root_of e) d) =
        b₂.others y (omega (arith, g.once y, is_self y)) ∙ put_ne t x _ x_y ey in
      let t₃ = put t₂ y (cell u (root_of b) (root_of e) d) in
      let kept₃ : (i : ℕ)
          → (x == i) ≡ false
          → (y == i) ≡ false
          → times i b ≡ 0
          → t₃.nodes i ≡ t.nodes i =
        λ i n m o. put_ne t₂ y _ m (b₂.others i o ∙ put_ne t x _ n refl) in
      let (t₄, run₄, r) =
        replace_left-Replaced t₃ x (some y) k
          (HoldsAround-frame t.nodes t₃.nodes (some x) k
            (λ i j.
              kept₃ i (is_ne i x (omega (arith, g.once i))) (is_ne i y (omega (arith, g.once i)))
                (omega (arith, g.once i)))
            g.around)
          (put-root t₂ y _ ∙ b₂.root ∙ put-root t x _ ∙ g.root) (λ i. omega (arith, g.once i))
          (omega (arith, g.once x, is_self x)) in
      let ey₄ : t₄.nodes y ≡ (cell u (root_of b) (root_of e) d) =
        r.others y (omega (arith, g.once y, is_self y)) ∙ put_self t₂ y _ in
      let t₅ = put t₄ y (cell u (some x) (root_of e) d) in
      let ex₅ : t₅.nodes x ≡ (cell u (root_of a) (root_of b) c) =
        put_ne t₄ y _ y_x
          (r.others x (omega (arith, g.once x, is_self x)) ∙ put_ne t₂ y _ y_x ex₂) in
      let t₆ = put t₅ x (cell (some y) (root_of a) (root_of b) c) in
      let kept : (i : ℕ) → (x == i) ≡ false → (y == i) ≡ false → t₆.nodes i ≡ t₄.nodes i =
        λ i n m. put_ne t₅ x _ n (put_ne t₄ y _ m refl) in
      let kept_all : (i : ℕ)
          → (x == i) ≡ false
          → (y == i) ≡ false
          → times i b ≡ 0
          → times_around i k ≡ 0
          → t₆.nodes i ≡ t.nodes i =
        λ i n m o p. kept i n m ∙ r.others i p ∙ kept₃ i n m o in
      let ha₆ =
        Holds-frame t.nodes t₆.nodes (some x) a
          (λ i j.
            kept_all i (is_ne i x (omega (arith, g.once i))) (is_ne i y (omega (arith, g.once i)))
              (omega (arith, g.once i)) (omega (arith, g.once i)))
          ha in
      let he₆ =
        Holds-frame t.nodes t₆.nodes (some y) e
          (λ i j.
            kept_all i (is_ne i x (omega (arith, g.once i))) (is_ne i y (omega (arith, g.once i)))
              (omega (arith, g.once i)) (omega (arith, g.once i)))
          he in
      let hb₆ =
        Holds-frame t₂.nodes t₆.nodes (some x) b
          (λ i j.
            kept i (is_ne i x (omega (arith, g.once i))) (is_ne i y (omega (arith, g.once i)))
            ∙ r.others i (omega (arith, g.once i))
            ∙ put_ne t₂ y _ (is_ne i y (omega (arith, g.once i))) refl)
          b₂.here in
      (
        t₆,
        rw
            (
              node-cell t x ex,
              node-cell t y ey,
              modify-cell t x (λ n. record n { right = root_of b }) ex,
              run₂,
              node-cell t₂ x ex₂,
              modify-cell t₂ y (λ n. record n { parent = u }) ey₂,
              run₄,
              modify-cell t₄ y (λ n. record n { left = some x }) ey₄,
              modify-cell t₅ x (λ n. record n { parent = some y }) ex₅,
            )
            refl,
        record {
          here = (put_ne t₅ x _ x_y (put_self t₄ y _), (put_self t₅ x _, ha₆, hb₆), he₆);
          around =
              HoldsAround-frame t₄.nodes t₆.nodes (some y) k
                (λ i j.
                  kept i (is_ne i x (omega (arith, g.once i)))
                    (is_ne i y (omega (arith, g.once i))))
                r.around;
          root = put-root t₅ x _ ∙ put-root t₄ y _ ∙ r.root;
          once = λ i. omega (arith, g.once i);
        },
        put-size t₅ x _ ∙ put-size t₄ y _ ∙ r.size ∙ put-size t₂ y _ ∙ b₂.size ∙ put-size t x _,
      )

module _ {t : IntrusiveRbTree} {k : Context} (a : Shape) (x : ℕ) (c : Color) (b : Shape) (y : ℕ)
    (d : Color) (e : Shape) where
  -- `rotate_right` turns the subtree at `x`: its left child `y` takes its place, and the slots stay in order.
  pub rotate_right-Focus :
      Focus t (branch (branch e y d b) x c a) k
      → (t' : IntrusiveRbTree) × (rotate_right (some x) t ≡ ok (tt, t'))
        × Focus t' (branch e y d (branch b x c a)) k
        × (t'.size ≡ t.size)
  unfolding rotate_right
  rotate_right-Focus g =
      let u = parent_of k in
      let (ex, hy, ha) = g.here in
      let (ey, he, hb) = hy in
      let x_y : (x == y) ≡ false = is_ne y x (omega (arith, g.once y, is_self y)) in
      let y_x : (y == x) ≡ false = ==_comm y x ∙ x_y in
      let t₁ = put t x (cell u (root_of b) (root_of a) c) in
      let (t₂, run₂, b₂) =
        adopt-Adopted t₁ (some y) (some x) b
          (Holds-frame t.nodes t₁.nodes (some y) b
            (λ i j. put_ne t x _ (is_ne i x (omega (arith, g.once i))) refl) hb)
          (λ i. omega (arith, g.once i)) in
      let ex₂ : t₂.nodes x ≡ (cell u (root_of b) (root_of a) c) =
        b₂.others x (omega (arith, g.once x, is_self x)) ∙ put_self t x _ in
      let ey₂ : t₂.nodes y ≡ (cell (some x) (root_of e) (root_of b) d) =
        b₂.others y (omega (arith, g.once y, is_self y)) ∙ put_ne t x _ x_y ey in
      let t₃ = put t₂ y (cell u (root_of e) (root_of b) d) in
      let kept₃ : (i : ℕ)
          → (x == i) ≡ false
          → (y == i) ≡ false
          → times i b ≡ 0
          → t₃.nodes i ≡ t.nodes i =
        λ i n m o. put_ne t₂ y _ m (b₂.others i o ∙ put_ne t x _ n refl) in
      let (t₄, run₄, r) =
        replace_right-Replaced t₃ x (some y) k
          (HoldsAround-frame t.nodes t₃.nodes (some x) k
            (λ i j.
              kept₃ i (is_ne i x (omega (arith, g.once i))) (is_ne i y (omega (arith, g.once i)))
                (omega (arith, g.once i)))
            g.around)
          (put-root t₂ y _ ∙ b₂.root ∙ put-root t x _ ∙ g.root) (λ i. omega (arith, g.once i))
          (omega (arith, g.once x, is_self x)) in
      let ey₄ : t₄.nodes y ≡ (cell u (root_of e) (root_of b) d) =
        r.others y (omega (arith, g.once y, is_self y)) ∙ put_self t₂ y _ in
      let t₅ = put t₄ y (cell u (root_of e) (some x) d) in
      let ex₅ : t₅.nodes x ≡ (cell u (root_of b) (root_of a) c) =
        put_ne t₄ y _ y_x
          (r.others x (omega (arith, g.once x, is_self x)) ∙ put_ne t₂ y _ y_x ex₂) in
      let t₆ = put t₅ x (cell (some y) (root_of b) (root_of a) c) in
      let kept : (i : ℕ) → (x == i) ≡ false → (y == i) ≡ false → t₆.nodes i ≡ t₄.nodes i =
        λ i n m. put_ne t₅ x _ n (put_ne t₄ y _ m refl) in
      let kept_all : (i : ℕ)
          → (x == i) ≡ false
          → (y == i) ≡ false
          → times i b ≡ 0
          → times_around i k ≡ 0
          → t₆.nodes i ≡ t.nodes i =
        λ i n m o p. kept i n m ∙ r.others i p ∙ kept₃ i n m o in
      let ha₆ =
        Holds-frame t.nodes t₆.nodes (some x) a
          (λ i j.
            kept_all i (is_ne i x (omega (arith, g.once i))) (is_ne i y (omega (arith, g.once i)))
              (omega (arith, g.once i)) (omega (arith, g.once i)))
          ha in
      let he₆ =
        Holds-frame t.nodes t₆.nodes (some y) e
          (λ i j.
            kept_all i (is_ne i x (omega (arith, g.once i))) (is_ne i y (omega (arith, g.once i)))
              (omega (arith, g.once i)) (omega (arith, g.once i)))
          he in
      let hb₆ =
        Holds-frame t₂.nodes t₆.nodes (some x) b
          (λ i j.
            kept i (is_ne i x (omega (arith, g.once i))) (is_ne i y (omega (arith, g.once i)))
            ∙ r.others i (omega (arith, g.once i))
            ∙ put_ne t₂ y _ (is_ne i y (omega (arith, g.once i))) refl)
          b₂.here in
      (
        t₆,
        rw
            (
              node-cell t x ex,
              node-cell t y ey,
              modify-cell t x (λ n. record n { left = root_of b }) ex,
              run₂,
              node-cell t₂ x ex₂,
              modify-cell t₂ y (λ n. record n { parent = u }) ey₂,
              run₄,
              modify-cell t₄ y (λ n. record n { right = some x }) ey₄,
              modify-cell t₅ x (λ n. record n { parent = some y }) ex₅,
            )
            refl,
        record {
          here = (put_ne t₅ x _ x_y (put_self t₄ y _), he₆, (put_self t₅ x _, hb₆, ha₆));
          around =
              HoldsAround-frame t₄.nodes t₆.nodes (some y) k
                (λ i j.
                  kept i (is_ne i x (omega (arith, g.once i)))
                    (is_ne i y (omega (arith, g.once i))))
                r.around;
          root = put-root t₅ x _ ∙ put-root t₄ y _ ∙ r.root;
          once = λ i. omega (arith, g.once i);
        },
        put-size t₅ x _ ∙ put-size t₄ y _ ∙ r.size ∙ put-size t₂ y _ ∙ b₂.size ∙ put-size t x _,
      )
