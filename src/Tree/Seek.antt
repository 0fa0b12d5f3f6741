-- ===== src/Tree/Seek.antt =====
-- The place that `seek` finds, and that the loop of `insert` finds it too.
use l3_lock_free_orderbook_e.Prelude.{
  ℕ, zero, suc, ◌+◌, ◌≤◌, ◌<◌, ◌≡◌, refl, sym, ap, ◌∙◌, subst, Bool, true, Option, none, some, List,
  [], ◌∷◌, ◌++◌, arith, mem, length, length-append, Bool-cases, inl, inr, Ptr, ok,
}
use l3_lock_free_orderbook_e.Tree.Memory.{Color, black, IntrusiveRbTree}
use l3_lock_free_orderbook_e.Tree.Insert.{descend}
use l3_lock_free_orderbook_e.Tree.Shape.{
  Shape, leaf, branch, Context, in_left, in_right, root_of, parent_of, slots, fill, depth, times,
  times_around, ==_refl,
}
use l3_lock_free_orderbook_e.Tree.Cells.{Holds, Focus, node-cell}
use l3_lock_free_orderbook_e.Tree.Paint.{down_left, down_right}
use l3_lock_free_orderbook_e.Tree.Round.{BlackAbove, color_above}
use l3_lock_free_orderbook_e.Tree.Order.{
  IsStrictOrder, AllBefore-middle, IsSorted, IsSorted-append, insert_by, insert_by-left,
  insert_by-right, seek, Fits, Found, IsAbsent, IsAbsent-append, IsAbsent-before, IsAbsent-behind,
}

-- The root of the whole tree is black.
abbrev pub BlackRoot : Shape → Context → Type 0
BlackRoot leaf c = BlackAbove c
BlackRoot (branch l p d r) c = color_above d c ≡ black

black_left :
    (l : Shape) (p : ℕ) (d : Color) (r : Shape) (c : Context)
    → color_above d c ≡ black
    → BlackRoot l (in_left p d r c)
black_left leaf p d r c h = h
black_left (branch a q e b) p d r c h = h

black_right :
    (l : Shape) (p : ℕ) (d : Color) (r : Shape) (c : Context)
    → color_above d c ≡ black
    → BlackRoot r (in_right l p d c)
black_right l p d leaf c h = h
black_right l p d (branch a q e b) c h = h

abbrev pub parent_place : Option Context → Option Ptr
parent_place none = none
parent_place (some c) = some (parent_of c)

pub mem-append_left : (i : ℕ) (xs ys : List ℕ) → mem i xs ≡ true → mem i (xs ++ ys) ≡ true
mem-append_left i [] ys h = cc
mem-append_left i (x ∷ xs) ys h = ground (arith, mem-append_left i xs ys)

pub mem-append_right : (i : ℕ) (xs ys : List ℕ) → mem i ys ≡ true → mem i (xs ++ ys) ≡ true
mem-append_right i [] ys h = h
mem-append_right i (x ∷ xs) ys h = ground (arith, mem-append_right i xs ys h)

module _ {ℓ} {K : Type ℓ} (key : ℕ → K) (less : K → K → Bool) (k : K) where
  pub seek-none :
      (s : Shape) (c : Context)
      → seek key less k s c ≡ none
      → (p : ℕ) × Found key less k (slots s) p
  unfolding seek
  seek-none leaf c e = cc
  seek-none (branch l p d r) c e = elim (Bool-cases (less k (key p))) [
    | inl a ↦
        let (q, f) = seek-none l (in_left p d r c) (rw a at e) in
        (
          q,
          record {
            member = mem-append_left q (slots l) (p ∷ slots r) f.member;
            not_before = f.not_before;
            not_behind = f.not_behind;
          },
        )
    | inr a ↦ elim (Bool-cases (less (key p) k)) [
      | inl b ↦
          let (q, f) = seek-none r (in_right l p d c) (rw (a, b) at e) in
          (
            q,
            record {
              member = mem-append_right q (slots l) (p ∷ slots r) (ground (arith, f.member));
              not_before = f.not_before;
              not_behind = f.not_behind;
            },
          )
      | inr b ↦ (
        p,
        record {
          member = mem-append_right p (slots l) (p ∷ slots r) (ground (arith, ==_refl p));
          not_before = a;
          not_behind = b;
        },
      )
    ]
  ]

  -- The loop of `insert` walks to the place that `seek` names.
  pub descend-seek :
      (f : ℕ) (t : IntrusiveRbTree) (s : Shape) (c : Context)
      → Holds t.nodes (parent_of c) s
      → length (slots s) < f
      → descend key less f k (parent_of c) (root_of s) t
        ≡ ok (parent_place (seek key less k s c), t)
  unfolding descend seek
  descend-seek zero t s c h n = absurd (omega arith)
  descend-seek (suc f) t leaf c h n = refl
  descend-seek (suc f) t (branch l p d r) c h n =
      let shorter = length-append (slots l) (p ∷ slots r) in
      elim (Bool-cases (less k (key p))) [
        | inl a ↦
            rw (a, node-cell t p h.0)
              (descend-seek f t l (in_left p d r c) h.1 (omega (arith, shorter)))
        | inr a ↦ elim (Bool-cases (less (key p) k)) [
          | inl b ↦
              rw (a, b, node-cell t p h.0)
                (descend-seek f t r (in_right l p d c) h.2 (omega (arith, shorter)))
          | inr b ↦ rw (a, b) refl
        ]
      ]

  -- What is known of the place `c'` for a new node `v` below the subtree `s` at `c`.
  pub record Place (v : ℕ) (s : Shape) (c c' : Context) : Type 0 where
    pub before : fill c' [] ≡ fill c (slots s)
    pub after : fill c' (v ∷ []) ≡ fill c (insert_by key less k v (slots s))
    pub fits : Fits key less k c'
    pub black_root : BlackAbove c'
    pub inside : depth c' ≤ depth c + length (slots s)
    pub new : times_around v c' ≡ times v s + times_around v c
    pub absent : IsAbsent key less k (slots s)

  module _ (o : IsStrictOrder less) (v : ℕ) where
    pub seek-Place :
        (s : Shape) (c c' : Context)
        → seek key less k s c ≡ some c'
        → IsSorted key less (slots s)
        → Fits key less k c
        → BlackRoot s c
        → Place v s c c'
    unfolding seek
    seek-Place leaf c c' e sorted fits root =
        let same : c ≡ c' = cc in
        subst (Place v leaf c) same (record {
          before = refl;
          after = refl;
          fits = fits;
          black_root = root;
          inside = omega arith;
          new = omega arith;
          absent = tt;
        })
    seek-Place (branch l p d r) c c' e sorted fits root =
        let parts = IsSorted-append key less (slots l) (p ∷ slots r) sorted in
        let before_p = AllBefore-middle key less (slots l) p (slots r) sorted in
        let longer = length-append (slots l) (p ∷ slots r) in
        elim (Bool-cases (less k (key p))) [
          | inl a ↦
              let q =
                seek-Place l (in_left p d r c) c' (rw a at e) parts.0 a
                  (black_left l p d r c root) in
              record {
                before = q.before;
                after =
                    q.after
                    ∙ ap (fill c) (sym (insert_by-left key less k v (slots l) p (slots r) a));
                fits = q.fits;
                black_root = q.black_root;
                inside = omega (arith, q.inside, longer);
                new = omega (arith, q.new);
                absent =
                    IsAbsent-append key less k (slots l) (p ∷ slots r) q.absent (
                      ground (arith, a),
                      IsAbsent-behind key less o k (slots r) (key p) parts.1.0 a,
                    );
              }
          | inr a ↦ elim (Bool-cases (less (key p) k)) [
            | inl b ↦
                let q =
                  seek-Place r (in_right l p d c) c' (rw (a, b) at e) parts.1.1 a
                    (black_right l p d r c root) in
                record {
                  before = q.before;
                  after =
                      q.after
                      ∙ ap (fill c)
                          (sym (insert_by-right key less o k v (slots l) p (slots r) b before_p));
                  fits = q.fits;
                  black_root = q.black_root;
                  inside = omega (arith, q.inside, longer);
                  new = omega (arith, q.new);
                  absent =
                      IsAbsent-append key less k (slots l) (p ∷ slots r)
                        (IsAbsent-before key less o k (slots l) (key p) before_p b)
                        (ground (arith, b), q.absent);
                }
            | inr b ↦ absurd (ground (arith, e, a, b))
          ]
        ]

  pub seek-Focus :
      (t : IntrusiveRbTree) (s : Shape) (c c' : Context)
      → seek key less k s c ≡ some c'
      → Focus t s c
      → Focus t leaf c'
  unfolding seek
  seek-Focus t leaf c c' e g = let same : c ≡ c' = cc in subst (Focus t leaf) same g
  seek-Focus t (branch l p d r) c c' e g = elim (Bool-cases (less k (key p))) [
    | inl a ↦ seek-Focus t l (in_left p d r c) c' (rw a at e) (down_left g)
    | inr a ↦ elim (Bool-cases (less (key p) k)) [
      | inl b ↦ seek-Focus t r (in_right l p d c) c' (rw (a, b) at e) (down_right g)
      | inr b ↦ absurd (ground (arith, e, a, b))
    ]
  ]
