-- ===== src/Tree/Fixup.antt =====
-- `insert_fixup`: it ends, without a fault, with a black root and with the slots in the order that they
-- had.
use l3_lock_free_orderbook_e.Prelude.{
  ℕ, subst, zero, suc, ◌+◌, ◌<◌, ◌≡◌, refl, ◌∙◌, true, false, some, List, ok, arith,
}
use l3_lock_free_orderbook_e.Tree.Memory.{Color, red, black, is_red_color, IntrusiveRbTree}
use l3_lock_free_orderbook_e.Tree.Insert.{insert_fixup_round, parent_is_red, insert_fixup_loop}
use l3_lock_free_orderbook_e.Tree.Shape.{
  Shape, branch, Context, top, in_left, in_right, slots, fill, plug, depth,
}
use l3_lock_free_orderbook_e.Tree.Cells.{Focus, node-cell}
use l3_lock_free_orderbook_e.Tree.Paint.{up_left, up_right}
use l3_lock_free_orderbook_e.Tree.Round.{BlackAbove}
use l3_lock_free_orderbook_e.Tree.Balance.{
  IsRedBlack, RedBlackAround, Blushing, red_parent, IsRedBlack-plug,
}
use l3_lock_free_orderbook_e.Tree.Family.{Family-ll, Family-lr, Family-rl, Family-rr}
use l3_lock_free_orderbook_e.Tree.Ascent.{
  Rises, round_left-outer, round_left-inner, round_right-outer, round_right-inner,
}

pub Focus-plug :
    {t : IntrusiveRbTree} (s : Shape) (k : Context) → Focus t s k → Focus t (plug s k) top
Focus-plug s top g = g
Focus-plug s (in_left p c r k) g = Focus-plug (branch s p c r) k (up_left g)
Focus-plug s (in_right l p c k) g = Focus-plug (branch l p c s) k (up_right g)

pub slots-plug : (s : Shape) (k : Context) → slots (plug s k) ≡ fill k (slots s)
slots-plug s top = refl
slots-plug s (in_left p c r k) = slots-plug (branch s p c r) k
slots-plug s (in_right l p c k) = slots-plug (branch l p c s) k

-- The loop has ended, and the store holds the whole tree, its slots in the order `xs`.
pub record Balanced (In : Type 0) (xs : List ℕ) (t t' : IntrusiveRbTree) : Type 0 where
  pub shape : Shape
  pub focus : Focus t' shape top
  pub order : slots shape ≡ xs
  pub size : t'.size ≡ t.size
  pub balanced : In → IsRedBlack shape

-- The loop looks at the color of the parent.
parent_is_red-left :
    {t : IntrusiveRbTree} (zl : Shape) (z : ℕ) (e : Color) (zr : Shape) (p : ℕ) (c : Color)
    (r : Shape) (k : Context)
    → Focus t (branch zl z e zr) (in_left p c r k)
    → parent_is_red (some z) t ≡ ok (is_red_color c, t)
unfolding parent_is_red
parent_is_red-left {t} zl z e zr p c r k g =
    rw (node-cell t z g.here.0, node-cell t p g.around.0) refl

parent_is_red-right :
    {t : IntrusiveRbTree} (zl : Shape) (z : ℕ) (e : Color) (zr : Shape) (l : Shape) (p : ℕ)
    (c : Color) (k : Context)
    → Focus t (branch zl z e zr) (in_right l p c k)
    → parent_is_red (some z) t ≡ ok (is_red_color c, t)
unfolding parent_is_red
parent_is_red-right {t} zl z e zr l p c k g =
    rw (node-cell t z g.here.0, node-cell t p g.around.0) refl

parent_is_red-top :
    {t : IntrusiveRbTree} (zl : Shape) (z : ℕ) (e : Color) (zr : Shape)
    → Focus t (branch zl z e zr) top
    → parent_is_red (some z) t ≡ ok (false, t)
unfolding parent_is_red
parent_is_red-top {t} zl z e zr g = rw (node-cell t z g.here.0) refl

loop_stops :
    (f : ℕ) (t : IntrusiveRbTree) (z : ℕ)
    → parent_is_red (some z) t ≡ ok (false, t)
    → insert_fixup_loop (suc f) (some z) t ≡ ok (tt, t)
unfolding insert_fixup_loop
loop_stops f t z e = rw e refl

loop_goes_on :
    (f : ℕ) (t t' : IntrusiveRbTree) (z z' : ℕ)
    → parent_is_red (some z) t ≡ ok (true, t)
    → insert_fixup_round (some z) t ≡ ok (some z', t')
    → insert_fixup_loop (suc f) (some z) t ≡ insert_fixup_loop f (some z') t'
unfolding insert_fixup_loop
loop_goes_on f t t' z z' e run = rw (e, run) refl

-- The loop, given fuel for more rounds than there are nodes above.
abbrev pub LoopBalances : ℕ → Type 0
LoopBalances f =
    (t : IntrusiveRbTree) (zl : Shape) (z : ℕ) (zr : Shape) (k : Context)
    → Focus t (branch zl z red zr) k
    → BlackAbove k
    → depth k < f
    → (t' : IntrusiveRbTree) × (insert_fixup_loop f (some z) t ≡ ok (tt, t'))
      × Balanced (Blushing zl zr k) (fill k (slots (branch zl z red zr))) t t'

stopped :
    (f : ℕ) {t : IntrusiveRbTree} (zl : Shape) (z : ℕ) (zr : Shape) (k : Context)
    → Focus t (branch zl z red zr) k
    → red_parent k ≡ false
    → parent_is_red (some z) t ≡ ok (false, t)
    → (t' : IntrusiveRbTree) × (insert_fixup_loop (suc f) (some z) t ≡ ok (tt, t'))
      × Balanced (Blushing zl zr k) (fill k (slots (branch zl z red zr))) t t'
stopped f {t} zl z zr k g h e = (
  t,
  loop_stops f t z e,
  record {
    shape = plug (branch zl z red zr) k;
    focus = Focus-plug (branch zl z red zr) k g;
    order = slots-plug (branch zl z red zr) k;
    size = refl;
    balanced = λ b.
        IsRedBlack-plug (branch zl z red zr) k
          ((b.left, b.right), b.even, (b.left_black, b.right_black))
          (subst (λ n. RedBlackAround n k) (omega arith) b.around) h;
  },
)

went_up :
    {In Out : Type 0} (f : ℕ) {t : IntrusiveRbTree} (z : ℕ) (k : Context) (xs : List ℕ)
    → (Out → In)
    → LoopBalances f
    → parent_is_red (some z) t ≡ ok (true, t)
    → Rises In t z k xs
    → 1 + depth k < f
    → (t' : IntrusiveRbTree) × (insert_fixup_loop (suc f) (some z) t ≡ ok (tt, t'))
      × Balanced Out (fill k xs) t t'
went_up f {t} z k xs into ih e (z', t₁, run, r) h =
    let (t', runs, b) =
      ih t₁ r.left z' r.right r.place r.focus r.above (omega (arith, r.shallower)) in
    (
      t',
      loop_goes_on f t t₁ z z' e run ∙ runs,
      record {
        shape = b.shape;
        focus = b.focus;
        order = b.order ∙ r.order;
        size = b.size ∙ r.size;
        balanced = λ x. b.balanced (r.balanced (into x));
      },
    )

pub insert_fixup_loop-Balanced : (f : ℕ) → LoopBalances f
insert_fixup_loop-Balanced zero t zl z zr k g b h = absurd (omega arith)
insert_fixup_loop-Balanced (suc f) t zl z zr top g b h =
    stopped f zl z zr top g refl (parent_is_red-top zl z red zr g)
insert_fixup_loop-Balanced (suc f) t zl z zr (in_left p black r k) g b h =
    stopped f zl z zr (in_left p black r k) g refl (parent_is_red-left zl z red zr p black r k g)
insert_fixup_loop-Balanced (suc f) t zl z zr (in_right l p black k) g b h =
    stopped f zl z zr (in_right l p black k) g refl (parent_is_red-right zl z red zr l p black k g)
insert_fixup_loop-Balanced (suc f) t zl z zr (in_left p red r top) g b h = cc
insert_fixup_loop-Balanced (suc f) t zl z zr (in_right l p red top) g b h = cc
insert_fixup_loop-Balanced (suc f) t zl z zr (in_left p red r (in_left q c y k)) g b h =
    went_up f z k _ (λ b. Family-ll b) (insert_fixup_loop-Balanced f)
      (parent_is_red-left zl z red zr p red r (in_left q c y k) g)
      (round_left-outer zl z zr b r y (up_left (up_left g))) (omega arith)
insert_fixup_loop-Balanced (suc f) t zl z zr (in_left p red r (in_right y q c k)) g b h =
    went_up f z k _ (λ b. Family-lr b) (insert_fixup_loop-Balanced f)
      (parent_is_red-left zl z red zr p red r (in_right y q c k) g)
      (round_right-inner zl z zr b r y (up_right (up_left g))) (omega arith)
insert_fixup_loop-Balanced (suc f) t zl z zr (in_right l p red (in_left q c y k)) g b h =
    went_up f z k _ (λ b. Family-rl b) (insert_fixup_loop-Balanced f)
      (parent_is_red-right zl z red zr l p red (in_left q c y k) g)
      (round_left-inner zl z zr b l y (up_left (up_right g))) (omega arith)
insert_fixup_loop-Balanced (suc f) t zl z zr (in_right l p red (in_right y q c k)) g b h =
    went_up f z k _ (λ b. Family-rr b) (insert_fixup_loop-Balanced f)
      (parent_is_red-right zl z red zr l p red (in_right y q c k) g)
      (round_right-outer zl z zr b l y (up_right (up_right g))) (omega arith)
