-- ===== src/Tree/RoundLeft.antt =====
-- One round of `insert_fixup` where the parent is a left child.
use mathlib.Core.List.{append_assoc}
use l3_lock_free_orderbook_e.Prelude.{ℕ, ◌≡◌, refl, ap, ◌∙◌, false, some, ok, arith}
use l3_lock_free_orderbook_e.Tree.Memory.{Color, red, black, IntrusiveRbTree}
use l3_lock_free_orderbook_e.Tree.Insert.{recolor, rise_left, insert_fixup_left}
use l3_lock_free_orderbook_e.Tree.Shape.{
  Shape, branch, Context, in_left, root_of, slots, fill, is_self, ==_refl,
}
use l3_lock_free_orderbook_e.Tree.Cells.{cell, Focus, node-cell}
use l3_lock_free_orderbook_e.Tree.Turn.{root_away}
use l3_lock_free_orderbook_e.Tree.Rotation.{rotate_left-Focus, rotate_right-Focus}
use l3_lock_free_orderbook_e.Tree.Paint.{
  up_left, up_right, down_left, down_right, set_color-Focus, red_root, present_and_red-root,
}
use l3_lock_free_orderbook_e.Tree.Round.{color_above, black_above, still_black, Risen}
use l3_lock_free_orderbook_e.Tree.Balance.{Family, recolored_left, sunk_left-outer, sunk_left-inner}

module _ {t : IntrusiveRbTree} {k : Context} {p g : ℕ} {c : Color} where
  recolor-Focus_left :
      (l r yl : Shape) (y : ℕ) (yr : Shape)
      → Focus t (branch (branch l p red r) g c (branch yl y red yr)) k
      → (t' : IntrusiveRbTree) × (recolor (some p) (some y) (some g) t ≡ ok (tt, t'))
        × Focus t' (branch (branch l p black r) g red (branch yl y black yr)) k
        × (t'.size ≡ t.size)
  unfolding recolor
  recolor-Focus_left l r yl y yr w =
      let (t₁, run₁, f₁, s₁) = set_color-Focus black (down_left w) in
      let (t₂, run₂, f₂, s₂) = set_color-Focus black (down_right (up_left f₁)) in
      let (t₃, run₃, f₃, s₃) = set_color-Focus red (up_right f₂) in
      (t₃, rw (run₁, run₂, run₃) refl, f₃, s₃ ∙ s₂ ∙ s₁)

  rise_left-Focus :
      (zl : Shape) (z : ℕ) (d : Color) (zr r y : Shape)
      → Focus t (branch (branch (branch zl z d zr) p red r) g c y) k
      → (t' : IntrusiveRbTree) × (rise_left (some z) t ≡ ok (tt, t'))
        × Focus t' (branch (branch zl z d zr) p black (branch r g red y)) k
        × (t'.size ≡ t.size)
  unfolding rise_left
  rise_left-Focus zl z d zr r y w =
      let (t₁, run₁, f₁, s₁) = set_color-Focus black (down_left w) in
      let (t₂, run₂, f₂, s₂) = set_color-Focus red (up_left f₁) in
      let (t₃, run₃, f₃, s₃) = rotate_right-Focus y g red r p black (branch zl z d zr) f₂ in
      (
        t₃,
        rw (node-cell t z w.here.1.1.0, run₁, node-cell t₁ p f₁.here.0, run₂, run₃) refl,
        f₃,
        s₃ ∙ s₂ ∙ s₁,
      )

module _ {t : IntrusiveRbTree} {k : Context} {p g : ℕ} {c : Color} (zl : Shape) (z : ℕ)
    (zr r : Shape) (black_root : color_above c k ≡ black) where
  pub insert_fixup_left-recolor :
      {s : Shape} (l' r' yl : Shape) (y : ℕ) (yr : Shape)
      → t.nodes z ≡ cell (some p) (root_of zl) (root_of zr) red
      → Focus t (branch (branch l' p red r') g c (branch yl y red yr)) k
      → (z' : ℕ) × (t' : IntrusiveRbTree) × (insert_fixup_left (some z) t ≡ ok (some z', t'))
        × Risen
            (Family l' r' s (branch yl y red yr) k)
            k
            (slots (branch (branch l' p red r') g c (branch yl y red yr)))
            t
            t'
            z'
  unfolding insert_fixup_left
  insert_fixup_left-recolor l' r' yl y yr here w =
      let (t', run, f, s) = recolor-Focus_left l' r' yl y yr w in
      (
        g,
        t',
        rw
            (
              node-cell t z here,
              node-cell t p w.here.1.0,
              node-cell t g w.here.0,
              present_and_red-root t (some g) (branch yl y red yr) w.here.2,
              run,
            )
            refl,
        record {
          left = (branch l' p black r');
          right = (branch yl y black yr);
          place = k;
          focus = f;
          order = refl;
          above = black_above c k black_root;
          shallower = omega arith;
          size = s;
          balanced = recolored_left;
        },
      )

  pub insert_fixup_left-outer :
      (y : Shape)
      → red_root y ≡ false
      → Focus t (branch (branch (branch zl z red zr) p red r) g c y) k
      → (z' : ℕ) × (t' : IntrusiveRbTree) × (insert_fixup_left (some z) t ≡ ok (some z', t'))
        × Risen
            (Family (branch zl z red zr) r r y k)
            k
            (slots (branch (branch (branch zl z red zr) p red r) g c y))
            t
            t'
            z'
  unfolding insert_fixup_left
  insert_fixup_left-outer y e w =
      let (t', run, f, s) = rise_left-Focus zl z red zr r y w in
      (
        z,
        t',
        rw
            (
              node-cell t z w.here.1.1.0,
              node-cell t p w.here.1.0,
              node-cell t g w.here.0,
              present_and_red-root t (some g) y w.here.2,
              e,
              node-cell t p w.here.1.0,
              root_away z r (omega (arith, w.once z, is_self z)),
              run,
            )
            refl,
        record {
          left = zl;
          right = zr;
          place = in_left p black (branch r g red y) k;
          focus = down_left f;
          order = ap (fill k) (simp append_assoc refl);
          above = still_black c k black_root;
          shallower = omega arith;
          size = s;
          balanced = λ f. sunk_left-outer f e;
        },
      )

  pub insert_fixup_left-inner :
      (l y : Shape)
      → red_root y ≡ false
      → Focus t (branch (branch l p red (branch zl z red zr)) g c y) k
      → (z' : ℕ) × (t' : IntrusiveRbTree) × (insert_fixup_left (some z) t ≡ ok (some z', t'))
        × Risen
            (Family (branch zl z red zr) l l y k)
            k
            (slots (branch (branch l p red (branch zl z red zr)) g c y))
            t
            t'
            z'
  unfolding insert_fixup_left
  insert_fixup_left-inner l y e w =
      let (t₁, run₁, f₁, s₁) = rotate_left-Focus l p red zl z red zr (down_left w) in
      let (t₂, run₂, f₂, s₂) = rise_left-Focus l p red zl zr y (up_left f₁) in
      (
        p,
        t₂,
        rw
            (
              node-cell t z w.here.1.2.0,
              node-cell t p w.here.1.0,
              node-cell t g w.here.0,
              present_and_red-root t (some g) y w.here.2,
              e,
              node-cell t p w.here.1.0,
              ==_refl z,
              run₁,
              run₂,
            )
            refl,
        record {
          left = l;
          right = zl;
          place = in_left z black (branch zr g red y) k;
          focus = down_left f₂;
          order = ap (fill k) (simp append_assoc refl);
          above = still_black c k black_root;
          shallower = omega arith;
          size = s₂ ∙ s₁;
          balanced = λ f. sunk_left-inner f e;
        },
      )
