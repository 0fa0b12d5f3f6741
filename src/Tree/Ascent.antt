-- ===== src/Tree/Ascent.antt =====
-- One round of `insert_fixup` at each of the four places that the red node can have below its
-- grandparent.
use l3_lock_free_orderbook_e.Prelude.{ℕ, ◌≡◌, refl, ◌∙◌, some, List, ok, arith}
use l3_lock_free_orderbook_e.Tree.Memory.{Color, red, black, IntrusiveRbTree}
use l3_lock_free_orderbook_e.Tree.Insert.{insert_fixup_left, insert_fixup_right, insert_fixup_round}
use l3_lock_free_orderbook_e.Tree.Shape.{
  Shape, leaf, branch, Context, root_of, slots, is_self, ==_refl,
}
use l3_lock_free_orderbook_e.Tree.Cells.{cell, Focus, node-cell}
use l3_lock_free_orderbook_e.Tree.Turn.{root_away}
use l3_lock_free_orderbook_e.Tree.Round.{color_above, Risen, Risen-after}
use l3_lock_free_orderbook_e.Tree.Balance.{Family, Family-flip}
use l3_lock_free_orderbook_e.Tree.RoundLeft.{
  insert_fixup_left-recolor, insert_fixup_left-outer, insert_fixup_left-inner,
}
use l3_lock_free_orderbook_e.Tree.RoundRight.{
  insert_fixup_right-recolor, insert_fixup_right-outer, insert_fixup_right-inner,
}

-- What a round gives, for the place `k` of the grandparent.
abbrev pub Rises : (In : Type 0) → IntrusiveRbTree → ℕ → Context → List ℕ → Type 0
Rises In t z k xs =
    (z' : ℕ) × (t' : IntrusiveRbTree) × (insert_fixup_round (some z) t ≡ ok (some z', t'))
    × Risen In k xs t t' z'

module _ {t : IntrusiveRbTree} {k : Context} {p g : ℕ} {c : Color} (zl : Shape) (z : ℕ) (zr : Shape)
    (black_root : color_above c k ≡ black) where
  -- The parent is a left child, or a right one.
  round_left :
      (l r y : Shape)
      → t.nodes z ≡ cell (some p) (root_of zl) (root_of zr) red
      → Focus t (branch (branch l p red r) g c y) k
      → insert_fixup_round (some z) t ≡ insert_fixup_left (some z) t
  unfolding insert_fixup_round
  round_left l r y here w =
      rw (node-cell t z here, node-cell t p w.here.1.0, node-cell t g w.here.0, ==_refl p) refl

  round_right :
      (l r y : Shape)
      → t.nodes z ≡ cell (some p) (root_of zl) (root_of zr) red
      → Focus t (branch y g c (branch l p red r)) k
      → insert_fixup_round (some z) t ≡ insert_fixup_right (some z) t
  unfolding insert_fixup_round
  round_right l r y here w =
      rw
        (
          node-cell t z here,
          node-cell t p w.here.2.0,
          node-cell t g w.here.0,
          root_away p y (omega (arith, w.once p, is_self p)),
        )
        refl

  pub round_left-outer :
      (r y : Shape)
      → Focus t (branch (branch (branch zl z red zr) p red r) g c y) k
      → Rises
          (Family (branch zl z red zr) r r y k)
          t
          z
          k
          (slots (branch (branch (branch zl z red zr) p red r) g c y))
  round_left-outer r leaf w =
      let (z', t', run, f) = insert_fixup_left-outer zl z zr r black_root leaf refl w in
      (z', t', round_left (branch zl z red zr) r leaf w.here.1.1.0 w ∙ run, f)
  round_left-outer r (branch yl y black yr) w =
      let (z', t', run, f) =
        insert_fixup_left-outer zl z zr r black_root (branch yl y black yr) refl w in
      (z', t', round_left (branch zl z red zr) r (branch yl y black yr) w.here.1.1.0 w ∙ run, f)
  round_left-outer r (branch yl y red yr) w =
      let (z', t', run, f) =
        insert_fixup_left-recolor zl z zr r black_root (branch zl z red zr) r yl y yr w.here.1.1.0
          w in
      (z', t', round_left (branch zl z red zr) r (branch yl y red yr) w.here.1.1.0 w ∙ run, f)

  pub round_left-inner :
      (l y : Shape)
      → Focus t (branch (branch l p red (branch zl z red zr)) g c y) k
      → Rises
          (Family (branch zl z red zr) l l y k)
          t
          z
          k
          (slots (branch (branch l p red (branch zl z red zr)) g c y))
  round_left-inner l leaf w =
      let (z', t', run, f) = insert_fixup_left-inner zl z zr leaf black_root l leaf refl w in
      (z', t', round_left l (branch zl z red zr) leaf w.here.1.2.0 w ∙ run, f)
  round_left-inner l (branch yl y black yr) w =
      let (z', t', run, f) =
        insert_fixup_left-inner zl z zr leaf black_root l (branch yl y black yr) refl w in
      (z', t', round_left l (branch zl z red zr) (branch yl y black yr) w.here.1.2.0 w ∙ run, f)
  round_left-inner l (branch yl y red yr) w =
      let (z', t', run, f) =
        insert_fixup_left-recolor zl z zr leaf black_root l (branch zl z red zr) yl y yr
          w.here.1.2.0 w in
      (
        z',
        t',
        round_left l (branch zl z red zr) (branch yl y red yr) w.here.1.2.0 w ∙ run,
        Risen-after Family-flip f,
      )

  pub round_right-outer :
      (l y : Shape)
      → Focus t (branch y g c (branch l p red (branch zl z red zr))) k
      → Rises
          (Family (branch zl z red zr) l l y k)
          t
          z
          k
          (slots (branch y g c (branch l p red (branch zl z red zr))))
  round_right-outer l leaf w =
      let (z', t', run, f) = insert_fixup_right-outer zr z zl l black_root leaf refl w in
      (z', t', round_right l (branch zl z red zr) leaf w.here.2.2.0 w ∙ run, f)
  round_right-outer l (branch yl y black yr) w =
      let (z', t', run, f) =
        insert_fixup_right-outer zr z zl l black_root (branch yl y black yr) refl w in
      (z', t', round_right l (branch zl z red zr) (branch yl y black yr) w.here.2.2.0 w ∙ run, f)
  round_right-outer l (branch yl y red yr) w =
      let (z', t', run, f) =
        insert_fixup_right-recolor zr z zl l black_root (branch zl z red zr) l yr y yl w.here.2.2.0
          w in
      (z', t', round_right l (branch zl z red zr) (branch yl y red yr) w.here.2.2.0 w ∙ run, f)

  pub round_right-inner :
      (r y : Shape)
      → Focus t (branch y g c (branch (branch zl z red zr) p red r)) k
      → Rises
          (Family (branch zl z red zr) r r y k)
          t
          z
          k
          (slots (branch y g c (branch (branch zl z red zr) p red r)))
  round_right-inner r leaf w =
      let (z', t', run, f) = insert_fixup_right-inner zr z zl leaf black_root r leaf refl w in
      (z', t', round_right (branch zl z red zr) r leaf w.here.2.1.0 w ∙ run, f)
  round_right-inner r (branch yl y black yr) w =
      let (z', t', run, f) =
        insert_fixup_right-inner zr z zl leaf black_root r (branch yl y black yr) refl w in
      (z', t', round_right (branch zl z red zr) r (branch yl y black yr) w.here.2.1.0 w ∙ run, f)
  round_right-inner r (branch yl y red yr) w =
      let (z', t', run, f) =
        insert_fixup_right-recolor zr z zl leaf black_root r (branch zl z red zr) yr y yl
          w.here.2.1.0 w in
      (
        z',
        t',
        round_right (branch zl z red zr) r (branch yl y red yr) w.here.2.1.0 w ∙ run,
        Risen-after Family-flip f,
      )
