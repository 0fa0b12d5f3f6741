-- ===== src/Tree/Detach.antt =====
-- `detach`, the first part of `remove`: the node is out of the tree, and the other slots stand in order.
use mathlib.Core.List.{append-nil}
use l3_lock_free_orderbook_e.Prelude.{
  ℕ, ◌+◌, ◌≤◌, ◌≡◌, refl, sym, ap, ◌∙◌, subst, some, List, ◌++◌, ok, arith, erase, length,
}
use l3_lock_free_orderbook_e.Tree.Memory.{Color, IntrusiveRbTree}
use l3_lock_free_orderbook_e.Tree.Remove.{splice, detach}
use l3_lock_free_orderbook_e.Tree.Shape.{
  Shape, leaf, branch, Context, in_right, root_of, plug, slots, fill, times, times_around, is_self,
}
use l3_lock_free_orderbook_e.Tree.Cells.{node-cell, Focus}
use l3_lock_free_orderbook_e.Tree.Paint.{down_right}
use l3_lock_free_orderbook_e.Tree.Balance.{IsRedBlack, black_height}
use l3_lock_free_orderbook_e.Tree.Fixup.{slots-plug}
use l3_lock_free_orderbook_e.Tree.Lookup.{minimum_node-head}
use l3_lock_free_orderbook_e.Tree.Under.{under, plug-under, Focus-down, IsRedBlack-part}
use l3_lock_free_orderbook_e.Tree.Erase.{mem-slots, erase-fill, Least-from}
use l3_lock_free_orderbook_e.Tree.Transplant.{transplant-Transplanted}
use l3_lock_free_orderbook_e.Tree.Supersede.{supersede-Focus}
use l3_lock_free_orderbook_e.Tree.Lift.{times-plug, times-under, lift_least-Lifts}

-- The subtree `below`, which has moved up, and the color of the node that has gone from above it.
pub record Detached (z : ℕ) (xs : List ℕ) (t : IntrusiveRbTree) : Type 0 where
  pub after : IntrusiveRbTree
  pub below : Shape
  pub around : Context
  pub color : Color
  pub run : detach (some z) t ≡ ok ((root_of below, color), after)
  pub focus : Focus after below around
  pub order : slots (plug below around) ≡ erase z xs
  pub gone : times z below + times_around z around ≡ 0
  pub flat : black_height below ≡ 0
  pub size : after.size ≡ t.size

module _ (t : IntrusiveRbTree) (z : ℕ) (c : Color) (k : Context) where
  -- The slots without `z`.
  pub without :
      (l r : Shape)
      → Focus t (branch l z c r) k
      → fill k (slots l ++ slots r) ≡ erase z (fill k (slots (branch l z c r)))
  without l r g = sym (
      erase-fill z k (slots l) (slots r) (mem-slots z l (omega (arith, g.once z, is_self z)))
        (omega (arith, g.once z, is_self z)))

  -- Both children are there.
  spliced :
      (la : Shape) (q : ℕ) (f : Color) (lb ra : Shape) (p : ℕ) (h : Color) (rb : Shape)
      → Focus t (branch (branch la q f lb) z c (branch ra p h rb)) k
      → IsRedBlack (branch ra p h rb)
      → length (slots (branch ra p h rb)) ≤ t.size
      → Detached z (fill k (slots (branch (branch la q f lb) z c (branch ra p h rb)))) t
  unfolding detach splice
  spliced la q f lb ra p h rb g balanced small =
      let l = branch la q f lb in
      let r = branch ra p h rb in
      let w = Least-from ra p h rb in
      let y = w.least in
      let place = under w.around (in_right l z c k) in
      let at_y =
        Focus-down (branch leaf y w.color w.right) w.around (in_right l z c k)
          (subst (λ s. Focus t s (in_right l z c k)) (sym w.whole) (down_right g)) in
      let found =
        minimum_node-head (t.size + 1) t (some z) ra p rb g.here.2 (omega (arith, small))
        ∙ ap (λ x. ok (x, t)) w.first in
      let (t₁, run₁, lifted, size₁) = lift_least-Lifts t z y l w.right c w.color k w.around at_y in
      let (t₂, run₂, f₂, size₂) =
        supersede-Focus t₁ z y la q f lb (plug w.right w.around) c w.color k lifted in
      let around = under w.around (in_right l y c k) in
      let flat : black_height w.right ≡ 0 = sym (
        (IsRedBlack-part (branch leaf y w.color w.right) w.around
          (subst IsRedBlack (sym w.whole) balanced)).1) in
      let focus = Focus-down w.right w.around (in_right l y c k) (down_right f₂) in
      record {
        after = t₂;
        below = w.right;
        around = around;
        color = w.color;
        run =
            rw
              (
                node-cell t z g.here.0,
                node-cell t z g.here.0,
                node-cell t z g.here.0,
                found,
                node-cell t y at_y.here.0,
                node-cell t y at_y.here.0,
                node-cell t y at_y.here.0,
                run₁,
                run₂,
              )
              refl;
        focus = focus;
        order =
            ap slots (plug-under w.right w.around (in_right l y c k))
            ∙ slots-plug (branch l y c (plug w.right w.around)) k
            ∙ ap (λ xs. fill k (slots l ++ xs)) (sym w.rest)
            ∙ without l r g;
        gone = omega (
          arith,
          g.once z,
          is_self z,
          times-under z w.around (in_right l y c k),
          times-plug z (branch leaf y w.color w.right) w.around,
          ap (times z) w.whole,
        );
        flat = flat;
        size = size₂ ∙ size₁;
      }

  pub detach-Detached :
      (l r : Shape)
      → Focus t (branch l z c r) k
      → IsRedBlack (branch l z c r)
      → length (slots r) ≤ t.size
      → Detached z (fill k (slots (branch l z c r))) t
  unfolding detach
  detach-Detached leaf r g balanced small =
      let w =
        transplant-Transplanted t z k (some z) r g.here.0 g.here.2 g.around g.root
          (λ i. omega (arith, g.once i)) (omega (arith, g.once z, is_self z)) in
      record {
        after = w.after;
        below = r;
        around = k;
        color = c;
        run =
            rw (node-cell t z g.here.0, node-cell t z g.here.0, node-cell t z g.here.0, w.run) refl;
        focus = w.focus;
        order = slots-plug r k ∙ without leaf r g;
        gone = omega (arith, g.once z, is_self z);
        flat = sym balanced.1;
        size = w.size;
      }
  detach-Detached (branch la q f lb) leaf g balanced small =
      let l = branch la q f lb in
      let w =
        transplant-Transplanted t z k (some z) l g.here.0 g.here.1 g.around g.root
          (λ i. omega (arith, g.once i)) (omega (arith, g.once z, is_self z)) in
      record {
        after = w.after;
        below = l;
        around = k;
        color = c;
        run =
            rw (node-cell t z g.here.0, node-cell t z g.here.0, node-cell t z g.here.0, w.run) refl;
        focus = w.focus;
        order = slots-plug l k ∙ ap (fill k) (sym (append-nil (slots l))) ∙ without l leaf g;
        gone = omega (arith, g.once z, is_self z);
        flat = balanced.1;
        size = w.size;
      }
  detach-Detached (branch la q f lb) (branch ra p h rb) g balanced small =
      spliced la q f lb ra p h rb g balanced.0.1 small
