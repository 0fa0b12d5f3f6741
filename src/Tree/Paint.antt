-- ===== src/Tree/Paint.antt =====
-- Moves of the place that is looked at, and a change of one node's color.
use l3_lock_free_orderbook_e.Prelude.{ℕ, ◌≡◌, refl, ◌∙◌, Bool, false, some, Ptr, ok, arith}
use l3_lock_free_orderbook_e.Tree.Memory.{
  Color, is_red_color, IntrusiveRbTree, set_color, present_and_red,
}
use l3_lock_free_orderbook_e.Tree.Shape.{
  Shape, leaf, branch, Context, in_left, in_right, root_of, parent_of, is_ne,
}
use l3_lock_free_orderbook_e.Tree.Cells.{
  cell, put, put_self, put_ne, put-root, put-size, node-cell, modify-cell, Holds, Focus,
  Holds-frame, HoldsAround-frame,
}

module _ {t : IntrusiveRbTree} {p : ℕ} {c : Color} {l r : Shape} {k : Context} where
  pub up_left : Focus t l (in_left p c r k) → Focus t (branch l p c r) k
  up_left g = record {
    here = (g.around.0, g.here, g.around.1);
    around = g.around.2;
    root = g.root;
    once = λ i. omega (arith, g.once i);
  }

  pub up_right : Focus t r (in_right l p c k) → Focus t (branch l p c r) k
  up_right g = record {
    here = (g.around.0, g.around.1, g.here);
    around = g.around.2;
    root = g.root;
    once = λ i. omega (arith, g.once i);
  }

  pub down_left : Focus t (branch l p c r) k → Focus t l (in_left p c r k)
  down_left g = record {
    here = g.here.1;
    around = (g.here.0, g.here.2, g.around);
    root = g.root;
    once = λ i. omega (arith, g.once i);
  }

  pub down_right : Focus t (branch l p c r) k → Focus t r (in_right l p c k)
  down_right g = record {
    here = g.here.2;
    around = (g.here.0, g.here.1, g.around);
    root = g.root;
    once = λ i. omega (arith, g.once i);
  }

  -- The root of the subtree gets the color `d`.
  pub set_color-Focus :
      (d : Color)
      → Focus t (branch l p c r) k
      → (t' : IntrusiveRbTree) × (set_color (some p) d t ≡ ok (tt, t'))
        × Focus t' (branch l p d r) k
        × (t'.size ≡ t.size)
  set_color-Focus d g =
      let n = cell (parent_of k) (root_of l) (root_of r) d in
      let t' = put t p n in
      (
        t',
        modify-cell t p (λ n. record n { color = d }) g.here.0,
        record {
          here = (
            put_self t p n,
            Holds-frame t.nodes t'.nodes (some p) l
                (λ i j. put_ne t p n (is_ne i p (omega (arith, g.once i))) refl) g.here.1,
            Holds-frame t.nodes t'.nodes (some p) r
                (λ i j. put_ne t p n (is_ne i p (omega (arith, g.once i))) refl) g.here.2,
          );
          around =
              HoldsAround-frame t.nodes t'.nodes (some p) k
                (λ i j. put_ne t p n (is_ne i p (omega (arith, g.once i))) refl) g.around;
          root = put-root t p n ∙ g.root;
          once = g.once;
        },
        put-size t p n,
      )

abbrev pub red_root : Shape → Bool
red_root leaf = false
red_root (branch l p c r) = is_red_color c

pub present_and_red-root :
    (t : IntrusiveRbTree) (u : Ptr) (s : Shape)
    → Holds t.nodes u s
    → present_and_red (root_of s) t ≡ ok (red_root s, t)
present_and_red-root t u leaf h = refl
present_and_red-root t u (branch l p c r) h = rw (node-cell t p h.0) refl
