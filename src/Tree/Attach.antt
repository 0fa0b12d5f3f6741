-- ===== src/Tree/Attach.antt =====
-- The new leaf is hung below its parent, and the whole of `insert_fixup`.
use l3_lock_free_orderbook_e.Prelude.{
  ℕ, ◌+◌, ◌≤◌, ◌<◌, ◌≡◌, refl, ap, ◌∙◌, false, none, some, List, ◌∷◌, ◌++◌, Ptr, ok, arith, ◌==◌,
  length, length-append, Bool, ==_iff,
}
use l3_lock_free_orderbook_e.Tree.Memory.{red, black, IntrusiveRbTree, set_color}
use l3_lock_free_orderbook_e.Tree.Insert.{attach, insert_fixup}
use l3_lock_free_orderbook_e.Tree.Shape.{
  Shape, leaf, branch, Context, top, in_left, in_right, parent_of, slots, fill, depth, times,
  times_around, is_ne,
}
use l3_lock_free_orderbook_e.Tree.Cells.{
  cell, put, put_self, put_ne, put-root, put-size, modify-cell, HoldsAround, Focus,
  HoldsAround-frame,
}
use l3_lock_free_orderbook_e.Tree.Turn.{Replaced, put-Replaced_left, put-Replaced_right}
use l3_lock_free_orderbook_e.Tree.Paint.{set_color-Focus}
use l3_lock_free_orderbook_e.Tree.Round.{BlackAbove}
use l3_lock_free_orderbook_e.Tree.Balance.{IsRedBlack, Blushing}
use l3_lock_free_orderbook_e.Tree.Fixup.{insert_fixup_loop-Balanced}
use l3_lock_free_orderbook_e.Tree.Order.{Fits}

module _ {ℓ} {K : Type ℓ} (key : ℕ → K) (less : K → K → Bool) (v : ℕ) where
  fresh : IntrusiveRbTree → Ptr → IntrusiveRbTree
  fresh t u = put t v (cell u none none red)

  fresh-around :
      (t : IntrusiveRbTree) (c : Context)
      → Focus t leaf c
      → times_around v c ≡ 0
      → HoldsAround (fresh t (parent_of c)).nodes none c
  unfolding fresh
  fresh-around t c g new =
      HoldsAround-frame t.nodes (put t v (cell (parent_of c) none none red)).nodes none c
        (λ i j. put_ne t v _ (away i j) refl) g.around
    where
      away : (i : ℕ) → 0 < times_around i c → (v == i) ≡ false
      away i j = ground (arith, is_ne i v, new)

  -- The leaf, below a parent that has been told of it.
  attached :
      (t : IntrusiveRbTree) (c : Context) {t' : IntrusiveRbTree}
      → Focus t leaf c
      → times_around v c ≡ 0
      → Replaced (fresh t (parent_of c)) (some v) c t'
      → Focus t' (branch leaf v red leaf) c × (t'.size ≡ t.size)
  unfolding fresh
  attached t c {t'} g new r = (
    record {
      here = (r.others v new ∙ put_self t v _, tt, tt);
      around = r.around;
      root = r.root;
      once = λ i. once i;
    },
    r.size ∙ put-size t v _,
  )
    where
      once : (i : ℕ) → times i (branch leaf v red leaf) + times_around i c ≤ 1
      once i = ground (arith, g.once i, new, ==_iff v i)

  -- A new leaf `v` hangs at the place of a missing subtree, if it is on the side of its parent that its
  -- key asks for.
  pub attach-Focus :
      (t : IntrusiveRbTree) (c : Context)
      → Focus t leaf c
      → times_around v c ≡ 0
      → Fits key less (key v) c
      → (t' : IntrusiveRbTree) × (attach key less v (parent_of c) t ≡ ok (tt, t'))
        × Focus t' (branch leaf v red leaf) c
        × (t'.size ≡ t.size)
  unfolding attach fresh
  attach-Focus t top g new fits =
      let t₁ = put t v (cell none none none red) in
      let t' = record t₁ { root = some v } in
      let (f, s) =
        attached t top {t' = t'} g new
          (record { around = tt; others = λ i j. refl; root = refl; size = refl }) in
      (t', rw (modify-cell t v (λ _. cell none none none red) refl) refl, f, s)
  attach-Focus t (in_left p d r k) g new fits =
      let n = cell (some p) none none red in
      let t₁ = put t v n in
      let a = fresh-around t (in_left p d r k) g new in
      let q =
        put-Replaced_left t₁ none (some v) p d r k a (λ i. omega (arith, g.once i))
          (put-root t v n ∙ g.root) in
      let (f, s) = attached t (in_left p d r k) g new q in
      (
        _,
        rw
            (
              modify-cell t v (λ _. n) refl,
              fits,
              modify-cell t₁ p (λ m. record m { left = some v }) a.0,
            )
            refl,
        f,
        s,
      )
  attach-Focus t (in_right l p d k) g new fits =
      let n = cell (some p) none none red in
      let t₁ = put t v n in
      let a = fresh-around t (in_right l p d k) g new in
      let q =
        put-Replaced_right t₁ none (some v) l p d k a (λ i. omega (arith, g.once i))
          (put-root t v n ∙ g.root) in
      let (f, s) = attached t (in_right l p d k) g new q in
      (
        _,
        rw
            (
              modify-cell t v (λ _. n) refl,
              fits,
              modify-cell t₁ p (λ m. record m { right = some v }) a.0,
            )
            refl,
        f,
        s,
      )

-- The whole tree, with its root black.
abbrev pub HasBlackRoot : Shape → Type 0
HasBlackRoot leaf = Unit
HasBlackRoot (branch l p c r) = c ≡ black

pub length-fill : (c : Context) (xs : List ℕ) → length xs ≤ length (fill c xs)
length-fill top xs = omega arith
length-fill (in_left p d r c) xs =
    omega (arith, length-fill c (xs ++ (p ∷ slots r)), length-append xs (p ∷ slots r))
length-fill (in_right l p d c) xs =
    omega (arith, length-fill c (slots l ++ (p ∷ xs)), length-append (slots l) (p ∷ xs))

-- The root becomes black.
paint_root :
    {t : IntrusiveRbTree} (s : Shape)
    → Focus t s top
    → 0 < length (slots s)
    → (t' : IntrusiveRbTree) × (s' : Shape) × (set_color t.root black t ≡ ok (tt, t'))
      × Focus t' s' top
      × HasBlackRoot s'
      × (slots s' ≡ slots s)
      × (t'.size ≡ t.size)
      × (IsRedBlack s → IsRedBlack s')
paint_root leaf g h = absurd (omega arith)
paint_root {t = t} (branch l p c r) g h =
    let (t', run, f, s) = set_color-Focus black g in
    (
      t',
      branch l p black r,
      ap (λ r. set_color r black t) g.root ∙ run,
      f,
      refl,
      refl,
      s,
      λ h. (h.0, h.1, tt),
    )

-- `insert_fixup` of a red node below a black root.
pub insert_fixup-Focus :
    (t : IntrusiveRbTree) (zl : Shape) (z : ℕ) (zr : Shape) (c : Context)
    → Focus t (branch zl z red zr) c
    → BlackAbove c
    → depth c ≤ t.size
    → (t' : IntrusiveRbTree) × (s' : Shape) × (insert_fixup (some z) t ≡ ok (tt, t'))
      × Focus t' s' top
      × HasBlackRoot s'
      × (slots s' ≡ fill c (slots (branch zl z red zr)))
      × (t'.size ≡ t.size)
      × (Blushing zl zr c → IsRedBlack s')
unfolding insert_fixup
insert_fixup-Focus t zl z zr c g b h =
    let (t₁, run, w) = insert_fixup_loop-Balanced (t.size + 1) t zl z zr c g b (omega arith) in
    let some_slot : 0 < length (slots w.shape) = omega (
      arith,
      ap length w.order,
      length-fill c (slots (branch zl z red zr)),
      length-append (slots zl) (z ∷ slots zr),
    ) in
    let (t₂, s', run', f, e, same, n, painted) = paint_root w.shape w.focus some_slot in
    (t₂, s', rw (run, run') refl, f, e, same ∙ w.order, n ∙ w.size, λ b. painted (w.balanced b))
