-- ===== src/Tree/Repair.antt =====
-- The rest of `remove`, from the reset of the node that is out of the tree to the black root.
use l3_lock_free_orderbook_e.Prelude.{
  ℕ, zero, suc, ◌+◌, ◌<◌, ◌≡◌, refl, ap, ◌∙◌, inl, inr, false, some, ok, arith, Ptr, same,
  Bool-cases, ◌==◌, ==_iff,
}
use l3_lock_free_orderbook_e.Tree.Memory.{
  Color, red, black, IntrusiveRbTree, new_node, modify, set_color, unless_null,
}
use l3_lock_free_orderbook_e.Tree.Remove.{
  black_below_root, delete_fixup_loop, delete_fixup, repair, blacken_root,
}
use l3_lock_free_orderbook_e.Tree.Shape.{
  Shape, leaf, branch, Context, top, root_of, parent_of, slots, times, times_around,
}
use l3_lock_free_orderbook_e.Tree.Cells.{
  cell, put, put_ne, put-root, put-size, node-cell, modify-cell, Focus, Holds-frame,
  HoldsAround-frame,
}
use l3_lock_free_orderbook_e.Tree.Paint.{set_color-Focus}
use l3_lock_free_orderbook_e.Tree.Balance.{black_height}
use l3_lock_free_orderbook_e.Tree.Attach.{HasBlackRoot}

away :
    (z i : ℕ) (s : Shape) (k : Context)
    → times z s + times_around z k ≡ 0
    → 0 < times i s + times_around i k
    → (z == i) ≡ false
away z i s k gone there = elim (Bool-cases (z == i)) [
  | inl e ↦
      absurd (omega (arith, gone, there, ap (λ j. times j s + times_around j k) ((==_iff z i).0 e)))
  | inr e ↦ e
]

-- A node outside the tree is reset.
pub reset-Focus :
    (t : IntrusiveRbTree) (z : ℕ) (s : Shape) (k : Context)
    → Focus t s k
    → times z s + times_around z k ≡ 0
    → (t' : IntrusiveRbTree) × (modify (some z) (λ _. new_node) t ≡ ok (tt, t'))
      × Focus t' s k
      × (t'.size ≡ t.size)
reset-Focus t z s k g gone =
    let t' = put t z new_node in
    (
      t',
      modify-cell t z (λ _. new_node) refl,
      record {
        here =
            Holds-frame t.nodes t'.nodes (parent_of k) s
              (λ i j. put_ne t z new_node (away z i s k gone (omega arith)) refl) g.here;
        around =
            HoldsAround-frame t.nodes t'.nodes (root_of s) k
              (λ i j. put_ne t z new_node (away z i s k gone (omega arith)) refl) g.around;
        root = put-root t z new_node ∙ g.root;
        once = g.once;
      },
      put-size t z new_node,
    )

-- `delete_fixup` of a red node makes no round.
module _ (t : IntrusiveRbTree) (p : ℕ) {u l r : Ptr} (red_here : t.nodes p ≡ cell u l r red) where
  black_below_root-red : black_below_root (some p) t ≡ ok (false, t)
  unfolding black_below_root
  black_below_root-red = elim (Bool-cases (same (some p) t.root)) [
    | inl e ↦ rw e refl
    | inr e ↦ rw (e, node-cell t p red_here) refl
  ]

  delete_fixup_loop-red : (f : ℕ) → 0 < f → delete_fixup_loop f (some p) t ≡ ok (some p, t)
  unfolding delete_fixup_loop
  delete_fixup_loop-red zero h = absurd (omega arith)
  delete_fixup_loop-red (suc f) h = rw black_below_root-red refl

  delete_fixup-red : delete_fixup (some p) t ≡ set_color (some p) black t
  unfolding delete_fixup
  delete_fixup-red = rw (delete_fixup_loop-red (t.size + 1) (omega arith)) refl

-- The subtree has been painted, at most: the same slots, in the same order.
pub record Painted (t : IntrusiveRbTree) (s : Shape) (k : Context) : Type 0 where
  pub after : IntrusiveRbTree
  pub shape : Shape
  pub focus : Focus after shape k
  pub order : slots shape ≡ slots s
  pub size : after.size ≡ t.size

abbrev unpainted : {t : IntrusiveRbTree} {s : Shape} {k : Context} → Focus t s k → Painted t s k
unpainted {t} {s} {k} g = record { after = t; shape = s; focus = g; order = refl; size = refl }

-- A subtree without black nodes has moved up: it is empty, or its root is red, and it becomes black if
-- the node that has gone was black.
pub repair-Painted :
    (t : IntrusiveRbTree) (s : Shape) (k : Context) (c : Color)
    → Focus t s k
    → black_height s ≡ 0
    → (w : Painted t s k) × (repair (root_of s) c t ≡ ok (tt, w.after))
unfolding repair
repair-Painted t leaf k c g flat = (unpainted g, refl)
repair-Painted t (branch l p black r) k c g flat = absurd (omega arith)
repair-Painted t (branch l p red r) k red g flat = (unpainted g, refl)
repair-Painted t (branch l p red r) k black g flat =
    let (t', run, f, n) = set_color-Focus black g in
    (
      record { after = t'; shape = branch l p black r; focus = f; order = refl; size = n },
      delete_fixup-red t p g.here.0 ∙ run,
    )

pub blacken_root-Painted :
    (t : IntrusiveRbTree) (s : Shape)
    → Focus t s top
    → (w : Painted t s top) × (blacken_root t ≡ ok (tt, w.after)) × HasBlackRoot w.shape
unfolding blacken_root
blacken_root-Painted t leaf g =
    (unpainted g, ap (λ r. unless_null r (set_color r black) t) g.root, tt)
blacken_root-Painted t (branch l p c r) g =
    let (t', run, f, n) = set_color-Focus black g in
    (
      record { after = t'; shape = branch l p black r; focus = f; order = refl; size = n },
      ap (λ r. unless_null r (set_color r black) t) g.root ∙ run,
      refl,
    )
