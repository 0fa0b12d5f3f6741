-- ===== src/Tree/RoundRight.antt =====
-- One round of `insert_fixup` where the parent is a right child.
use mathlib.Core.List.{append_assoc}
use l3_lock_free_orderbook_e.Prelude.{ℕ, ◌≡◌, refl, ap, ◌∙◌, false, some, ok, arith}
use l3_lock_free_orderbook_e.Tree.Memory.{Color, red, black, IntrusiveRbTree}
use l3_lock_free_orderbook_e.Tree.Insert.{recolor, rise_right, insert_fixup_right}
use l3_lock_free_orderbook_e.Tree.Shape.{
  Shape, branch, Context, in_right, root_of, slots, fill, is_self, ==_refl,
}
use l3_lock_free_orderbook_e.Tree.Cells.{cell, Focus, node-cell}
use l3_lock_free_orderbook_e.Tree.Turn.{root_away}
use l3_lock_free_orderbook_e.Tree.Rotation.{rotate_left-Focus, rotate_right-Focus}
use l3_lock_free_orderbook_e.Tree.Paint.{
  up_left, up_right, down_left, down_right, set_color-Focus, red_root, present_and_red-root,
}
use l3_lock_free_orderbook_e.Tree.Round.{color_above, black_above, still_black, Risen}
use l3_lock_free_orderbook_e.Tree.Balance.{
  Family, Family-flip, recolored_right, sunk_right-outer, sunk_right-inner,
}

module _ {t : IntrusiveRbTree} {k : Context} {p g : ℕ} {c : Color} where
  recolor-Focus_right :
      (l r yl : Shape) (y : ℕ) (yr : Shape)
      → Focus t (branch (branch yr y red yl) g c (branch r p red l)) k
      → (t' : IntrusiveRbTree) × (recolor (some p) (some y) (some g) t ≡ ok (tt, t'))
        × Focus t' (branch (branch yr y black yl) g red (branch r p black l)) k
        × (t'.size ≡ t.size)
  unfolding recolor
  recolor-Focus_right l r yl y yr w =
      let (t₁, run₁, f₁, s₁) = set_color-Focus black (down_right w) in
      let (t₂, run₂, f₂, s₂) = set_color-Focus black (down_left (up_right f₁)) in
      let (t₃, run₃, f₃, s₃) = set_color-Focus red (up_left f₂) in
      (t₃, rw (run₁, run₂, run₃) refl, f₃, s₃ ∙ s₂ ∙ s₁)

  rise_right-Focus :
      (zl : Shape) (z : ℕ) (d : Color) (zr r y : Shape)
      → Focus t (branch y g c (branch r p red (branch zr z d zl))) k
      → (t' : IntrusiveRbTree) × (rise_right (some z) t ≡ ok (tt, t'))
        × Focus t' (branch (branch y g red r) p black (branch zr z d zl)) k
        × (t'.size ≡ t.size)
  unfolding rise_right
  rise_right-Focus zl z d zr r y w =
      let (t₁, run₁, f₁, s₁) = set_color-Focus black (down_right w) in
      let (t₂, run₂, f₂, s₂) = set_color-Focus red (up_right f₁) in
      let (t₃, run₃, f₃, s₃) = rotate_left-Focus y g red r p black (branch zr z d zl) f₂ in
      (
        t₃,
        rw (node-cell t z w.here.2.2.0, run₁, node-cell t₁ p f₁.here.0, run₂, run₃) refl,
        f₃,
        s₃ ∙ s₂ ∙ s₁,
      )

module _ {t : IntrusiveRbTree} {k : Context} {p g : ℕ} {c : Color} (zl : Shape) (z : ℕ)
    (zr r : Shape) (black_root : color_above c k ≡ black) where
  pub insert_fixup_right-recolor :
      {s : Shape} (l' r' yl : Shape) (y : ℕ) (yr : Shape)
      → t.nodes z ≡ cell (some p) (root_of zr) (root_of zl) red
      → Focus t (branch (branch yr y red yl) g c (branch r' p red l')) k
      → (z' : ℕ) × (t' : IntrusiveRbTree) × (insert_fixup_right (some z) t ≡ ok (some z', t'))
        × Risen
            (Family l' r' s (branch yr y red yl) k)
            k
            (slots (branch (branch yr y red yl) g c (branch r' p red l')))
            t
            t'
            z'
  unfolding insert_fixup_right
  insert_fixup_right-recolor l' r' yl y yr here w =
      let (t', run, f, s) = recolor-Focus_right l' r' yl y yr w in
      (
        g,
        t',
        rw
            (
              node-cell t z here,
              node-cell t p w.here.2.0,
              node-cell t g w.here.0,
              present_and_red-root t (some g) (branch yr y red yl) w.here.1,
              run,
            )
            refl,
        record {
          left = (branch yr y black yl);
          right = (branch r' p black l');
          place = k;
          focus = f;
          order = refl;
          above = black_above c k black_root;
          shallower = omega arith;
          size = s;
          balanced = λ f. recolored_right (Family-flip f);
        },
      )

  pub insert_fixup_right-outer :
      (y : Shape)
      → red_root y ≡ false
      → Focus t (branch y g c (branch r p red (branch zr z red zl))) k
      → (z' : ℕ) × (t' : IntrusiveRbTree) × (insert_fixup_right (some z) t ≡ ok (some z', t'))
        × Risen
            (Family (branch zr z red zl) r r y k)
            k
            (slots (branch y g c (branch r p red (branch zr z red zl))))
            t
            t'
            z'
  unfolding insert_fixup_right
  insert_fixup_right-outer y e w =
      let (t', run, f, s) = rise_right-Focus zl z red zr r y w in
      (
        z,
        t',
        rw
            (
              node-cell t z w.here.2.2.0,
              node-cell t p w.here.2.0,
              node-cell t g w.here.0,
              present_and_red-root t (some g) y w.here.1,
              e,
              node-cell t p w.here.2.0,
              root_away z r (omega (arith, w.once z, is_self z)),
              run,
            )
            refl,
        record {
          left = zr;
          right = zl;
          place = in_right (branch y g red r) p black k;
          focus = down_right f;
          order = ap (fill k) (simp append_assoc refl);
          above = still_black c k black_root;
          shallower = omega arith;
          size = s;
          balanced = λ f. sunk_right-outer f e;
        },
      )

  pub insert_fixup_right-inner :
      (l y : Shape)
      → red_root y ≡ false
      → Focus t (branch y g c (branch (branch zr z red zl) p red l)) k
      → (z' : ℕ) × (t' : IntrusiveRbTree) × (insert_fixup_right (some z) t ≡ ok (some z', t'))
        × Risen
            (Family (branch zr z red zl) l l y k)
            k
            (slots (branch y g c (branch (branch zr z red zl) p red l)))
            t
            t'
            z'
  unfolding insert_fixup_right
  insert_fixup_right-inner l y e w =
      let (t₁, run₁, f₁, s₁) = rotate_right-Focus l p red zl z red zr (down_right w) in
      let (t₂, run₂, f₂, s₂) = rise_right-Focus l p red zl zr y (up_right f₁) in
      (
        p,
        t₂,
        rw
            (
              node-cell t z w.here.2.1.0,
              node-cell t p w.here.2.0,
              node-cell t g w.here.0,
              present_and_red-root t (some g) y w.here.1,
              e,
              node-cell t p w.here.2.0,
              ==_refl z,
              run₁,
              run₂,
            )
            refl,
        record {
          left = zl;
          right = l;
          place = in_right (branch y g red zr) z black k;
          focus = down_right f₂;
          order = ap (fill k) (simp append_assoc refl);
          above = still_black c k black_root;
          shallower = omega arith;
          size = s₂ ∙ s₁;
          balanced = λ f. sunk_right-inner f e;
        },
      )
