-- ===== src/Tree/Sorted.antt =====
-- The whole of `insert`, on a tree whose slots are in the order of their keys.
use l3_lock_free_orderbook_e.Prelude.{
  ℕ, ◌+◌, ◌^◌, ◌<◌, ◌≡◌, ◌⊎◌, inl, inr, refl, sym, ap, ◌∙◌, subst, Bool, true, false, Option, none,
  some, List, [], ◌∷◌, ok, arith, length, Bool-cases,
}
use l3_lock_free_orderbook_e.Prelude.Word.{add64}
use l3_lock_free_orderbook_e.Tree.Memory.{is_red_color, IntrusiveRbTree}
use l3_lock_free_orderbook_e.Tree.Insert.{descend, grow, insert}
use l3_lock_free_orderbook_e.Tree.Shape.{Shape, leaf, branch, Context, top, slots, times}
use l3_lock_free_orderbook_e.Tree.Cells.{Focus}
use l3_lock_free_orderbook_e.Tree.Balance.{IsRedBlack}
use l3_lock_free_orderbook_e.Tree.Height.{IsShallow, height-black_height, black_height-slots}
use l3_lock_free_orderbook_e.Tree.Paint.{red_root}
use l3_lock_free_orderbook_e.Tree.Order.{
  IsStrictOrder, IsSorted, IsSorted-insert_by, insert_by, seek, Found, IsAbsent,
}
use l3_lock_free_orderbook_e.Tree.Seek.{
  BlackRoot, parent_place, seek-none, descend-seek, Place, seek-Place, seek-Focus,
}
use l3_lock_free_orderbook_e.Tree.SeekBalance.{seek-RedBlackAround}
use l3_lock_free_orderbook_e.Tree.Attach.{attach-Focus, HasBlackRoot, insert_fixup-Focus}

-- The store holds the tree `s`, its root black, with as many nodes as `size_` says.
pub record IsTree (t : IntrusiveRbTree) (s : Shape) : Type 0 where
  pub focus : Focus t s top
  pub black_root : HasBlackRoot s
  pub size : t.size ≡ length (slots s)

black_top : (s : Shape) → HasBlackRoot s → BlackRoot s top
black_top leaf h = tt
black_top (branch l p c r) h = h

pub resized :
    {t : IntrusiveRbTree} {s : Shape} {c : Context} (n : ℕ)
    → Focus t s c
    → Focus (record t { size = n }) s c
resized n g = record { here = g.here; around = g.around; root = g.root; once = g.once }

module _ {ℓ} {K : Type ℓ} (key : ℕ → K) (less : K → K → Bool) where
  length-insert_by :
      (k : K) (v : ℕ) (xs : List ℕ) → length (insert_by key less k v xs) ≡ length xs + 1
  length-insert_by k v [] = refl
  length-insert_by k v (x ∷ xs) = elim (Bool-cases (less k (key x))) [
    | inl h ↦ rw h (omega arith)
    | inr h ↦ rw h (omega (arith, length-insert_by k v xs))
  ]

  -- What `insert` has done when the key is new.
  pub record Inserted (v : ℕ) (t : IntrusiveRbTree) (s : Shape) : Type ℓ where
    pub after : IntrusiveRbTree
    pub shape : Shape
    pub run : insert key less v t ≡ ok (true, after)
    pub tree : IsTree after shape
    pub order : slots shape ≡ insert_by key less (key v) v (slots s)
    pub sorted : IsSorted key less (slots shape)
    pub absent : IsAbsent key less (key v) (slots s)

  -- The same, and whether the new tree is red-black.
  record Grown (v : ℕ) (t : IntrusiveRbTree) (s : Shape) : Type ℓ where
    inserted : Inserted v t s
    balanced : IsRedBlack s → IsRedBlack inserted.shape

  module _ (v : ℕ) (t : IntrusiveRbTree) (s : Shape) (g : IsTree t s) where
    walked :
        descend key less (t.size + 1) (key v) none t.root t
        ≡ ok (parent_place (seek key less (key v) s top), t)
    walked =
        ap (λ r. descend key less (t.size + 1) (key v) none r t) g.focus.root
        ∙ descend-seek key less (key v) (t.size + 1) t s top g.focus.here (omega (arith, g.size))

    Grown-Place :
        (c : Context)
        → seek key less (key v) s top ≡ some c
        → Place key less (key v) v s top c
        → IsSorted key less (insert_by key less (key v) v (slots s))
        → times v s ≡ 0
        → length (slots s) + 1 < 2 ^ 64
        → Grown v t s
    unfolding insert grow
    Grown-Place c e q sorted new room =
        let (t₁, run₁, f₁, n₁) =
          attach-Focus key less v t c (seek-Focus key less (key v) t s top c e g.focus)
            (omega (arith, q.new, new)) q.fits in
        let t₂ = record t₁ { size = add64 t₁.size 1 } in
        let grown : t₂.size ≡ t.size + 1 = ground (arith, n₁, g.size, room) in
        let (t₃, s', run₃, f₃, root, order, n₃, balanced) =
          insert_fixup-Focus t₂ leaf v leaf c (resized t₂.size f₁) q.black_root
            (omega (arith, grown, q.inside, g.size)) in
        let same = order ∙ q.after in
        record {
          inserted = record {
            after = t₃;
            shape = s';
            run = rw (walked, e, run₁, run₃) refl;
            tree = record {
              focus = f₃;
              black_root = root;
              size =
                  omega (
                    arith,
                    n₃,
                    grown,
                    g.size,
                    ap length same,
                    length-insert_by (key v) v (slots s),
                  );
            };
            order = same;
            sorted = subst (IsSorted key less) (sym same) sorted;
            absent = q.absent;
          };
          balanced = λ h. balanced (record {
            left = tt;
            right = tt;
            even = refl;
            left_black = refl;
            right_black = refl;
            around = seek-RedBlackAround key less (key v) s top c e h tt (ground arith);
          });
        }

  -- `insert` has returned false, and there is a slot with the key.
  abbrev pub Present : ℕ → IntrusiveRbTree → Shape → Type 0
  Present v t s =
      (insert key less v t ≡ ok (false, t)) × ((p : ℕ) × Found key less (key v) (slots s) p)

  insert-Grown :
      IsStrictOrder less
      → (v : ℕ) (t : IntrusiveRbTree) (s : Shape) → IsTree t s
      → IsSorted key less (slots s)
      → times v s ≡ 0
      → length (slots s) + 1 < 2 ^ 64
      → Grown v t s ⊎ Present v t s
  unfolding insert
  insert-Grown o v t s g sorted new room = by_seek (seek key less (key v) s top) refl
    where
      by_seek : (c : Option Context) → seek key less (key v) s top ≡ c → Grown v t s ⊎ Present v t s
      by_seek none e = inr (rw (walked v t s g, e) refl, seek-none key less (key v) s top e)
      by_seek (some c) e =
          let q = seek-Place key less (key v) o v s top c e sorted tt (black_top s g.black_root) in
          inl (
            Grown-Place v t s g c e q (IsSorted-insert_by key less o v (slots s) sorted q.absent)
              new room)

  -- With a strict order of keys, and fewer than 2^64 - 1 slots: `insert` of an object that is not in a
  -- tree with sorted keys and a black root runs without a fault and ends within its fuel. If no slot
  -- has its key, it returns true, and the new store holds a tree with a black root, with the slots of
  -- the old one and the new slot at the place of its key, sorted, and `size_` their number; else it
  -- returns false, changes nothing, and there is a slot with the key.
  pub insert-Inserted :
      IsStrictOrder less
      → (v : ℕ) (t : IntrusiveRbTree) (s : Shape) → IsTree t s
      → IsSorted key less (slots s)
      → times v s ≡ 0
      → length (slots s) + 1 < 2 ^ 64
      → Inserted v t s
        ⊎ ((insert key less v t ≡ ok (false, t)) × ((p : ℕ) × Found key less (key v) (slots s) p))
  insert-Inserted o v t s g sorted new room = elim (insert-Grown o v t s g sorted new room) [
    | inl r ↦ inl r.inserted
    | inr r ↦ inr r
  ]

  -- Under the conditions of `insert-Inserted`, in a red-black tree: `insert` leaves a red-black tree
  -- with a black root, whose height is at most twice the logarithm to the base 2 of its size plus one.
  pub insert-IsShallow :
      IsStrictOrder less
      → (v : ℕ) (t : IntrusiveRbTree) (s : Shape) → IsTree t s
      → IsSorted key less (slots s)
      → times v s ≡ 0
      → length (slots s) + 1 < 2 ^ 64
      → IsRedBlack s
      → (b : Bool) × (t' : IntrusiveRbTree) × (s' : Shape) × (insert key less v t ≡ ok (b, t'))
        × IsTree t' s'
        × IsShallow s'
  insert-IsShallow o v t s g sorted new room h = elim (insert-Grown o v t s g sorted new room) [
    | inl r ↦ (
      true,
      r.inserted.after,
      r.inserted.shape,
      r.inserted.run,
      r.inserted.tree,
      shallow r.inserted.shape r.inserted.tree (r.balanced h),
    )
    | inr r ↦ (false, t, s, r.0, g, shallow s g h)
  ]
    where
      not_red : (s : Shape) → HasBlackRoot s → red_root s ≡ false
      not_red leaf h = refl
      not_red (branch l p c r) h = ap is_red_color h

      shallow : {t : IntrusiveRbTree} (s : Shape) → IsTree t s → IsRedBlack s → IsShallow s
      shallow s g h = record {
        red_black = h;
        height_le = height-black_height s (not_red s g.black_root) h;
        size_le = black_height-slots s h;
      }
