-- ===== src/Tree/Lift.antt =====
-- The least node behind `z` becomes the root of all that is behind `z`.
use l3_lock_free_orderbook_e.Prelude.{
  ℕ, ◌+◌, ◌≤◌, ◌<◌, ◌≡◌, refl, sym, ap, ◌∙◌, subst, false, some, none, Ptr, ok, arith, same, ◌==◌,
  ==_comm,
}
use l3_lock_free_orderbook_e.Tree.Memory.{Color, IntrusiveRbTree}
use l3_lock_free_orderbook_e.Tree.Rotate.{adopt, transplant}
use l3_lock_free_orderbook_e.Tree.Remove.{lift_least}
use l3_lock_free_orderbook_e.Tree.Shape.{
  Shape, leaf, branch, Context, top, in_left, in_right, root_of, parent_of, plug, is, times,
  times_around, is_self, is_ne, ==_refl,
}
use l3_lock_free_orderbook_e.Tree.Cells.{
  cell, put, put_self, put_ne, put-root, put-size, node-cell, modify-cell, Focus, Holds-frame,
  HoldsAround-frame,
}
use l3_lock_free_orderbook_e.Tree.Turn.{adopt-Adopted}
use l3_lock_free_orderbook_e.Tree.Paint.{up_right}
use l3_lock_free_orderbook_e.Tree.Under.{under, Focus-up}
use l3_lock_free_orderbook_e.Tree.Transplant.{transplant-Transplanted}
use l3_lock_free_orderbook_e.Tree.Supersede.{Lifted}

pub times-plug :
    (i : ℕ) (s : Shape) (j : Context) → times i (plug s j) ≡ times i s + times_around i j
times-plug i s top = omega arith
times-plug i s (in_left p c r j) = omega (arith, times-plug i (branch s p c r) j)
times-plug i s (in_right l p c j) = omega (arith, times-plug i (branch l p c s) j)

pub times-under :
    (i : ℕ) (j k : Context) → times_around i (under j k) ≡ times_around i j + times_around i k
times-under i top k = omega arith
times-under i (in_left p c r j) k = omega (arith, times-under i j k)
times-under i (in_right l p c j) k = omega (arith, times-under i j k)

-- A node plugged into a place is a node.
record Node (s : Shape) : Type 0 where
  left : Shape
  slot : ℕ
  color : Color
  right : Shape
  is_branch : s ≡ branch left slot color right

plug-Node :
    (l : Shape) (p : ℕ) (c : Color) (r : Shape) (j : Context) → Node (plug (branch l p c r) j)
plug-Node l p c r top = record { left = l; slot = p; color = c; right = r; is_branch = refl }
plug-Node l p c r (in_left q d s j) = plug-Node (branch l p c r) q d s j
plug-Node l p c r (in_right s q d j) = plug-Node s q d (branch l p c r) j

-- What `lift_least` gives.
abbrev pub Lifts :
    (z y : ℕ) (l b : Shape) (c d : Color) (k : Context) (x y_parent : Ptr)
    → IntrusiveRbTree
    → Type 0
Lifts z y l b c d k x y_parent t =
    (t' : IntrusiveRbTree) × (lift_least (some z) (some y) x y_parent t ≡ ok (tt, t'))
    × Lifted z y l b c d k t'
    × (t'.size ≡ t.size)

module _ (t : IntrusiveRbTree) (z y : ℕ) (l e : Shape) (c d : Color) (k : Context) where
  -- It stands just below `z`.
  lift_least-child :
      Focus t (branch l z c (branch leaf y d e)) k → Lifts z y l e c d k (root_of e) (some z) t
  unfolding lift_least adopt
  lift_least-child g =
      let (t₁, run, a) =
        adopt-Adopted t (some y) (some y) e g.here.2.2 (λ i. omega (arith, g.once i)) in
      let kept : (i : ℕ) → times i e ≡ 0 → t₁.nodes i ≡ t.nodes i = λ i j. a.others i j in
      (
        t₁,
        rw (==_refl z) run,
        record {
          parent = some z;
          behind = some y;
          node = kept z (omega (arith, g.once z, is_self z)) ∙ g.here.0;
          least = (kept y (omega (arith, g.once y, is_self y)) ∙ g.here.2.0, tt, a.here);
          left =
              Holds-frame t.nodes t₁.nodes (some z) l (λ i j. kept i (omega (arith, g.once i)))
                g.here.1;
          around =
              HoldsAround-frame t.nodes t₁.nodes (some z) k
                (λ i j. kept i (omega (arith, g.once i))) g.around;
          root = a.root ∙ g.root;
          once = λ i. omega (arith, g.once i);
        },
        a.size,
      )

  -- It stands further down: its right child has taken its place, and the node `q` is now behind `z`.
  lift_least-below :
      (ra : Shape) (q : ℕ) (f : Color) (rb : Shape) (x y_parent : Ptr)
      → (t₁ : IntrusiveRbTree) {up old : Ptr} → same y_parent (some z) ≡ false
      → t₁.nodes y ≡ cell up none old d
      → Focus t₁ (branch ra q f rb) (in_right l z c k)
      → ((i : ℕ)
          → times i (branch ra q f rb) + (is i y + (times i l + (is i z + times_around i k))) ≤ 1)
      → (transplant (some y) x t ≡ ok (tt, t₁))
      → t₁.size ≡ t.size
      → Lifts z y l (branch ra q f rb) c d k x y_parent t
  unfolding lift_least adopt
  lift_least-below ra q f rb x y_parent t₁ {up} apart here_y g once run same_size =
      let r = branch ra q f rb in
      let y_z : (y == z) ≡ false = is_ne z y (omega (arith, once z, is_self z)) in
      let t₂ = put t₁ y (cell up none (some q) d) in
      let (t₃, run₃, a) =
        adopt-Adopted t₂ (some z) (some y) r
          (Holds-frame t₁.nodes t₂.nodes (some z) r
            (λ i j. put_ne t₁ y _ (is_ne i y (omega (arith, once i))) refl) g.here)
          (λ i. omega (arith, once i)) in
      let kept : (i : ℕ) → 0 < times i l + (is i z + times_around i k) → t₃.nodes i ≡ t₁.nodes i =
        λ i j.
          a.others i (omega (arith, once i))
          ∙ put_ne t₁ y _ (is_ne i y (omega (arith, once i))) refl in
      (
        t₃,
        rw
            (
              apart,
              run,
              node-cell t₁ z g.around.0,
              modify-cell t₁ y (λ n. record n { right = some q }) here_y,
              node-cell t₂ y (put_self t₁ y _),
              run₃,
            )
            refl,
        record {
          parent = up;
          behind = some q;
          node = kept z (omega (arith, is_self z)) ∙ g.around.0;
          least = (a.others y (omega (arith, once y, is_self y)) ∙ put_self t₁ y _, tt, a.here);
          left = Holds-frame t₁.nodes t₃.nodes (some z) l (λ i j. kept i (omega arith)) g.around.1;
          around =
              HoldsAround-frame t₁.nodes t₃.nodes (some z) k (λ i j. kept i (omega arith))
                g.around.2;
          root = a.root ∙ put-root t₁ y _ ∙ g.root;
          once = λ i. omega (arith, once i);
        },
        a.size ∙ put-size t₁ y _ ∙ same_size,
      )

  lift_least-deep :
      (j : Context) (p : ℕ)
      → Focus t (branch leaf y d e) (under j (in_right l z c k))
      → parent_of (under j (in_right l z c k)) ≡ some p
      → 0 < times_around p j
      → Node (plug e j)
      → Lifts z y l (plug e j) c d k (root_of e) (parent_of (under j (in_right l z c k))) t
  lift_least-deep j p g below inside n =
      let place = under j (in_right l z c k) in
      let around = λ (i : ℕ). times-under i j (in_right l z c k) in
      let once = λ (i : ℕ). g.once i in
      let w =
        transplant-Transplanted t y place (some y) e g.here.0 g.here.2 g.around g.root
          (λ i. omega (arith, once i)) (omega (arith, once y, is_self y)) in
      let b = branch n.left n.slot n.color n.right in
      let f =
        subst (λ s. Focus w.after s (in_right l z c k)) n.is_branch
          (Focus-up e j (in_right l z c k) w.focus) in
      let p_z : (p == z) ≡ false =
        ==_comm p z ∙ is_ne p z (omega (arith, once p, around p, inside)) in
      let apart : same (parent_of place) (some z) ≡ false = ap (λ q. same q (some z)) below ∙ p_z in
      let plugged : (i : ℕ) → times i b ≡ times i e + times_around i j =
        λ i. ap (times i) (sym n.is_branch) ∙ times-plug i e j in
      let lifted =
        lift_least-below n.left n.slot n.color n.right (root_of e) (parent_of place) w.after apart
          (w.others y (omega (arith, once y, is_self y)) (omega (arith, once y, is_self y))
            ∙ g.here.0)
          f (λ i. omega (arith, once i, around i, plugged i)) w.run w.size in
      subst (λ s. Lifts z y l s c d k (root_of e) (parent_of place) t) (sym n.is_branch) lifted

  pub lift_least-Lifts :
      (j : Context)
      → Focus t (branch leaf y d e) (under j (in_right l z c k))
      → Lifts z y l (plug e j) c d k (root_of e) (parent_of (under j (in_right l z c k))) t
  lift_least-Lifts top g = lift_least-child (up_right g)
  lift_least-Lifts (in_left p f r j) g =
      lift_least-deep (in_left p f r j) p g refl (omega (arith, is_self p)) (plug-Node e p f r j)
  lift_least-Lifts (in_right s p f j) g =
      lift_least-deep (in_right s p f j) p g refl (omega (arith, is_self p)) (plug-Node s p f e j)
