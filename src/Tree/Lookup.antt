-- ===== src/Tree/Lookup.antt =====
-- The read-only methods, on a store that holds a tree.
use l3_lock_free_orderbook_e.Prelude.{
  ℕ, zero, suc, ◌+◌, ◌≤◌, ◌<◌, ◌≡◌, inl, inr, refl, sym, ap, ◌∙◌, Bool, true, Option, none, some,
  List, [], ◌∷◌, ◌++◌, Ptr, ok, arith, length, length-append, Bool-cases, ◌||◌,
}
use l3_lock_free_orderbook_e.Tree.Memory.{IntrusiveRbTree}
use l3_lock_free_orderbook_e.Tree.Walk.{
  minimum_node, maximum_node, minimum, maximum, inorder_traversal, inorder, find_loop, find_node,
}
use l3_lock_free_orderbook_e.Tree.Shape.{==_refl, Shape, leaf, branch, root_of, slots}
use l3_lock_free_orderbook_e.Tree.Cells.{Holds, node-cell}
use l3_lock_free_orderbook_e.Tree.Order.{
  IsStrictOrder, AllBefore-middle, IsSorted, IsSorted-append, Found, IsAbsent, IsAbsent-append,
  IsAbsent-before, IsAbsent-behind,
}
use l3_lock_free_orderbook_e.Tree.Seek.{mem-append_left, mem-append_right}
use l3_lock_free_orderbook_e.Tree.Sorted.{IsTree}

abbrev pub head? : List ℕ → Option ℕ
head? [] = none
head? (x ∷ xs) = some x

abbrev pub last? : List ℕ → Option ℕ
last? [] = none
last? (x ∷ []) = some x
last? (x ∷ y ∷ xs) = last? (y ∷ xs)

head?-append :
    (xs : List ℕ) (x : ℕ) (ys zs : List ℕ) → head? ((xs ++ (x ∷ ys)) ++ zs) ≡ head? (xs ++ (x ∷ ys))
head?-append [] x ys zs = refl
head?-append (w ∷ xs) x ys zs = refl

last?-append : (xs : List ℕ) (y : ℕ) (ys : List ℕ) → last? (xs ++ (y ∷ ys)) ≡ last? (y ∷ ys)
last?-append [] y ys = refl
last?-append (x ∷ []) y ys = refl
last?-append (x ∷ w ∷ xs) y ys = last?-append (w ∷ xs) y ys

last?-skip :
    (x : ℕ) (xs : List ℕ) (y : ℕ) (ys : List ℕ)
    → last? (x ∷ (xs ++ (y ∷ ys))) ≡ last? (xs ++ (y ∷ ys))
last?-skip x [] y ys = refl
last?-skip x (w ∷ xs) y ys = refl

inorder_traversal-slots :
    (f : ℕ) (t : IntrusiveRbTree) (u : Ptr) (s : Shape)
    → Holds t.nodes u s
    → length (slots s) < f
    → inorder_traversal f (root_of s) t ≡ ok (slots s, t)
unfolding inorder_traversal
inorder_traversal-slots zero t u s h n = absurd (omega arith)
inorder_traversal-slots (suc f) t u leaf h n = refl
inorder_traversal-slots (suc f) t u (branch l p c r) h n =
    let longer = length-append (slots l) (p ∷ slots r) in
    rw
      (
        node-cell t p h.0,
        inorder_traversal-slots f t (some p) l h.1 (omega (arith, longer)),
        node-cell t p h.0,
        inorder_traversal-slots f t (some p) r h.2 (omega (arith, longer)),
      )
      refl

pub minimum_node-head :
    (f : ℕ) (t : IntrusiveRbTree) (u : Ptr) (l : Shape) (p : ℕ) (r : Shape) {c : _}
    → Holds t.nodes u (branch l p c r)
    → length (slots (branch l p c r)) ≤ f
    → minimum_node f (some p) t ≡ ok (head? (slots (branch l p c r)), t)
unfolding minimum_node
minimum_node-head zero t u l p r h n =
    absurd (omega (arith, n, length-append (slots l) (p ∷ slots r)))
minimum_node-head (suc f) t u leaf p r h n = rw (node-cell t p h.0) refl
minimum_node-head (suc f) t u (branch a q d b) p r h n =
    rw
      (
        node-cell t p h.0,
        minimum_node-head f t (some p) a q b h.1
            (omega (arith, n, length-append (slots (branch a q d b)) (p ∷ slots r))),
      )
      (ap (λ x. ok (x, t)) (sym (head?-append (slots a) q (slots b) (p ∷ slots r))))

maximum_node-last :
    (f : ℕ) (t : IntrusiveRbTree) (u : Ptr) (l : Shape) (p : ℕ) (r : Shape) {c : _}
    → Holds t.nodes u (branch l p c r)
    → length (slots (branch l p c r)) ≤ f
    → maximum_node f (some p) t ≡ ok (last? (slots (branch l p c r)), t)
unfolding maximum_node
maximum_node-last zero t u l p r h n =
    absurd (omega (arith, n, length-append (slots l) (p ∷ slots r)))
maximum_node-last (suc f) t u l p leaf h n =
    rw (node-cell t p h.0) (ap (λ x. ok (x, t)) (sym (last?-append (slots l) p [])))
maximum_node-last (suc f) t u l p (branch a q d b) h n =
    rw
      (
        node-cell t p h.0,
        maximum_node-last f t (some p) a q b h.2
            (omega (arith, n, length-append (slots l) (p ∷ slots (branch a q d b)))),
      )
      (ap (λ x. ok (x, t))
        (sym
          (last?-append (slots l) p (slots (branch a q d b)) ∙ last?-skip p (slots a) q (slots b))))

-- In a store that holds a tree, `inorder_traversal` ends within its fuel, having handed over the slots
-- of the tree in order and changed nothing.
pub inorder-slots : (t : IntrusiveRbTree) (s : Shape) → IsTree t s → inorder t ≡ ok (slots s, t)
unfolding inorder
inorder-slots t s g =
    ap (λ r. inorder_traversal (t.size + 1) r t) g.focus.root
    ∙ inorder_traversal-slots (t.size + 1) t none s g.focus.here (omega (arith, g.size))

-- In a store that holds a tree, `minimum` ends within its fuel with the first slot in order, and
-- `maximum` with the last, both with the null pointer for an empty tree; the store is unchanged.
pub minimum-maximum :
    (t : IntrusiveRbTree) (s : Shape)
    → IsTree t s
    → (minimum t ≡ ok (head? (slots s), t)) × (maximum t ≡ ok (last? (slots s), t))
unfolding minimum maximum
minimum-maximum t leaf g = (rw g.focus.root refl, rw g.focus.root refl)
minimum-maximum t (branch l p c r) g = (
  simp g.focus.root
      (minimum_node-head (t.size + 1) t none l p r g.focus.here (omega (arith, g.size))),
  simp g.focus.root
      (maximum_node-last (t.size + 1) t none l p r g.focus.here (omega (arith, g.size))),
)

module _ {ℓ} {K : Type ℓ} (key : ℕ → K) (less : K → K → Bool) (k : K) where
  -- What a lookup returns.
  abbrev pub Looked : List ℕ → Ptr → Type 0
  Looked xs none = IsAbsent key less k xs
  Looked xs (some p) = Found key less k xs p

  Looked-left :
      (l : Shape) (p : ℕ) (r : Shape) (q : Ptr)
      → Looked (slots l) q
      → IsAbsent key less k (p ∷ slots r)
      → Looked (slots l ++ (p ∷ slots r)) q
  Looked-left l p r none found rest = IsAbsent-append key less k (slots l) (p ∷ slots r) found rest
  Looked-left l p r (some q) found rest = record {
    member = mem-append_left q (slots l) (p ∷ slots r) found.member;
    not_before = found.not_before;
    not_behind = found.not_behind;
  }

  Looked-right :
      (l : Shape) (p : ℕ) (r : Shape) (q : Ptr)
      → Looked (slots r) q
      → IsAbsent key less k (slots l)
      → ((less k (key p) || less (key p) k) ≡ true)
      → Looked (slots l ++ (p ∷ slots r)) q
  Looked-right l p r none found rest apart =
      IsAbsent-append key less k (slots l) (p ∷ slots r) rest (apart, found)
  Looked-right l p r (some q) found rest apart = record {
    member = mem-append_right q (slots l) (p ∷ slots r) (ground (arith, found.member));
    not_before = found.not_before;
    not_behind = found.not_behind;
  }

  module _ (o : IsStrictOrder less) where
    find_loop-Looked :
        (f : ℕ) (t : IntrusiveRbTree) (u : Ptr) (s : Shape)
        → Holds t.nodes u s
        → IsSorted key less (slots s)
        → length (slots s) < f
        → (p : Ptr) × (find_loop key less f k (root_of s) t ≡ ok (p, t)) × Looked (slots s) p
    unfolding find_loop
    find_loop-Looked zero t u s h sorted n = absurd (omega arith)
    find_loop-Looked (suc f) t u leaf h sorted n = (none, refl, tt)
    find_loop-Looked (suc f) t u (branch l p d r) h sorted n =
        let (sorted_l, (behind_p, sorted_r)) =
          IsSorted-append key less (slots l) (p ∷ slots r) sorted in
        let before_p = AllBefore-middle key less (slots l) p (slots r) sorted in
        let longer = length-append (slots l) (p ∷ slots r) in
        elim (Bool-cases (less k (key p))) [
          | inl a ↦
              let (q, run, found) =
                find_loop-Looked f t (some p) l h.1 sorted_l (omega (arith, longer)) in
              (
                q,
                rw (a, node-cell t p h.0) run,
                Looked-left l p r q found
                    (ground (arith, a), IsAbsent-behind key less o k (slots r) (key p) behind_p a),
              )
          | inr a ↦ elim (Bool-cases (less (key p) k)) [
            | inl b ↦
                let (q, run, found) =
                  find_loop-Looked f t (some p) r h.2 sorted_r (omega (arith, longer)) in
                (
                  q,
                  rw (a, b, node-cell t p h.0) run,
                  Looked-right l p r q found
                      (IsAbsent-before key less o k (slots l) (key p) before_p b)
                      (ground (arith, b)),
                )
            | inr b ↦ (
              some p,
              rw (a, b) refl,
              record {
                member = mem-append_right p (slots l) (p ∷ slots r) (ground (arith, ==_refl p));
                not_before = a;
                not_behind = b;
              },
            )
          ]
        ]

    -- With a strict order of keys, in a store that holds a tree with sorted keys: `find_node` ends within
    -- its fuel and changes nothing; a pointer that it returns is to a slot of the tree with the key, and
    -- it returns the null pointer only if no slot has the key.
    pub find_node-Looked :
        (t : IntrusiveRbTree) (s : Shape)
        → IsTree t s
        → IsSorted key less (slots s)
        → (p : Ptr) × (find_node key less k t ≡ ok (p, t)) × Looked (slots s) p
    unfolding find_node
    find_node-Looked t s g sorted =
        let (p, run, found) =
          find_loop-Looked (t.size + 1) t none s g.focus.here sorted (omega (arith, g.size)) in
        (p, ap (λ r. find_loop key less (t.size + 1) k r t) g.focus.root ∙ run, found)
