-- ===== src/Tree/Removed.antt =====
-- The whole of `remove`, on a red-black tree.
use mathlib.Core.List.{append_assoc}
use l3_lock_free_orderbook_e.Prelude.{
  ℕ, ◌+◌, ◌<◌, ◌^◌, ◌≡◌, refl, sym, ap, ◌∙◌, subst, List, ◌∷◌, ◌++◌, ok, arith, erase, length,
  length-append,
}
use l3_lock_free_orderbook_e.Prelude.Word.{sub64}
use l3_lock_free_orderbook_e.Tree.Memory.{Color, IntrusiveRbTree}
use l3_lock_free_orderbook_e.Tree.Remove.{shrink, remove}
use l3_lock_free_orderbook_e.Tree.Shape.{
  Shape, branch, Context, top, slots, fill, plug, times, in_left, in_right,
}
use l3_lock_free_orderbook_e.Tree.Cells.{Focus}
use l3_lock_free_orderbook_e.Tree.Balance.{IsRedBlack}
use l3_lock_free_orderbook_e.Tree.Fixup.{Focus-plug, slots-plug}
use l3_lock_free_orderbook_e.Tree.Attach.{length-fill}
use l3_lock_free_orderbook_e.Tree.Sorted.{IsTree, resized}
use l3_lock_free_orderbook_e.Tree.Under.{under, Focus-down, IsRedBlack-part, place_of}
use l3_lock_free_orderbook_e.Tree.Detach.{without, detach-Detached}
use l3_lock_free_orderbook_e.Tree.Repair.{reset-Focus, repair-Painted, blacken_root-Painted}

under-top : (k : Context) → under k top ≡ k
under-top top = refl
under-top (in_left p c r k) = ap (in_left p c r) (under-top k)
under-top (in_right l p c k) = ap (in_right l p c) (under-top k)

-- The place holds one slot more than the two subtrees below it.
length-fill_branch :
    (k : Context) (xs : List ℕ) (v : ℕ) (ys : List ℕ)
    → length (fill k (xs ++ (v ∷ ys))) ≡ length (fill k (xs ++ ys)) + 1
length-fill_branch top xs v ys = omega (arith, length-append xs (v ∷ ys), length-append xs ys)
length-fill_branch (in_left p c r k) xs v ys =
    ap (λ zs. length (fill k zs)) (append_assoc xs (v ∷ ys) (p ∷ slots r))
    ∙ length-fill_branch k xs v (ys ++ (p ∷ slots r))
    ∙ ap (λ zs. length (fill k zs) + 1) (sym (append_assoc xs ys (p ∷ slots r)))
length-fill_branch (in_right l p c k) xs v ys =
    ap (λ zs. length (fill k zs)) (sym (append_assoc (slots l) (p ∷ xs) (v ∷ ys)))
    ∙ length-fill_branch k (slots l ++ (p ∷ xs)) v ys
    ∙ ap (λ zs. length (fill k zs) + 1) (append_assoc (slots l) (p ∷ xs) ys)

-- What `remove` has done.
pub record Removed (v : ℕ) (t : IntrusiveRbTree) (s : Shape) : Type 0 where
  pub after : IntrusiveRbTree
  pub shape : Shape
  pub run : remove v t ≡ ok (tt, after)
  pub tree : IsTree after shape
  pub order : slots shape ≡ erase v (slots s)

module _ (v : ℕ) (t : IntrusiveRbTree) where
  Removed-at :
      (l : Shape) (c : Color) (r : Shape) (k : Context)
      → Focus t (branch l v c r) k
      → IsRedBlack (branch l v c r)
      → t.size ≡ length (slots (plug (branch l v c r) k))
      → t.size < 2 ^ 64
      → Removed v t (plug (branch l v c r) k)
  unfolding remove shrink
  Removed-at l c r k g balanced size room =
      let whole = slots-plug (branch l v c r) k in
      let w = detach-Detached t v c k l r g balanced (
        omega (
          arith,
          size,
          ap length whole,
          length-fill k (slots (branch l v c r)),
          length-append (slots l) (v ∷ slots r),
        )) in
      let (t₂, run₂, f₂, size₂) = reset-Focus w.after v w.below w.around w.focus w.gone in
      let t₃ = record t₂ { size = sub64 t₂.size 1 } in
      let (p, run₄) = repair-Painted t₃ w.below w.around w.color (resized t₃.size f₂) w.flat in
      let (q, run₅, root) =
        blacken_root-Painted p.after (plug p.shape w.around)
          (Focus-plug p.shape w.around p.focus) in
      let order : slots q.shape ≡ erase v (slots (plug (branch l v c r) k)) =
        q.order
        ∙ slots-plug p.shape w.around
        ∙ ap (fill w.around) p.order
        ∙ sym (slots-plug w.below w.around)
        ∙ w.order
        ∙ ap (erase v) (sym whole) in
      let shorter : length (slots q.shape) + 1 ≡ t.size = omega (
        arith,
        size,
        ap length order,
        ap length whole,
        ap (λ xs. length (erase v xs)) whole,
        ap length (without t v c k l r g),
        length-fill_branch k (slots l) v (slots r),
      ) in
      record {
        after = q.after;
        shape = q.shape;
        run = rw (w.run, run₂, run₄) run₅;
        tree = record {
          focus = q.focus;
          black_root = root;
          size = ground (arith, q.size, p.size, size₂, w.size, shorter, room);
        };
        order = order;
      }

-- In a red-black tree with fewer than 2^64 nodes: `remove` of an object that is in the tree runs
-- without a fault and ends within its fuel. The new store holds a tree with a black root, whose slots
-- are those of the old one without the removed slot, in the same order, and `size_` is their number.
pub remove-Removed :
    (v : ℕ) (t : IntrusiveRbTree) (s : Shape)
    → IsTree t s
    → IsRedBlack s
    → 0 < times v s
    → length (slots s) < 2 ^ 64
    → Removed v t s
remove-Removed v t s g balanced there room =
    let w = place_of v s there in
    let at = branch w.left v w.color w.right in
    let focus : Focus t at w.around =
      subst (Focus t at) (under-top w.around)
        (Focus-down at w.around top (subst (λ x. Focus t x top) (sym w.whole) g.focus)) in
    subst (Removed v t) w.whole (
      Removed-at v t w.left w.color w.right w.around focus
        (IsRedBlack-part at w.around (subst IsRedBlack (sym w.whole) balanced))
        (g.size ∙ ap (λ x. length (slots x)) (sym w.whole)) (omega (arith, g.size, room)))
