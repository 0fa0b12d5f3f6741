-- ===== src/Tree/Erase.antt =====
-- The list of the slots when one is taken out, and the least slot of a tree.
use mathlib.Core.List.{append_assoc}
use l3_lock_free_orderbook_e.Prelude.{
  ℕ, ◌≡◌, refl, sym, ap, ◌∙◌, false, some, List, [], ◌∷◌, ◌++◌, arith, mem, erase, ◌==◌,
}
use l3_lock_free_orderbook_e.Tree.Memory.{Color}
use l3_lock_free_orderbook_e.Tree.Shape.{
  Shape, leaf, branch, Context, top, in_left, in_right, slots, fill, plug, times, times_around,
  ==_refl, is_ne,
}
use l3_lock_free_orderbook_e.Tree.Under.{under, plug-under}
use l3_lock_free_orderbook_e.Tree.Lookup.{head?}

mem-append :
    (v : ℕ) (xs ys : List ℕ) → mem v xs ≡ false → mem v ys ≡ false → mem v (xs ++ ys) ≡ false
mem-append v [] ys a b = b
mem-append v (x ∷ xs) ys a b = ground (arith, a, mem-append v xs ys)

pub mem-slots : (v : ℕ) (s : Shape) → times v s ≡ 0 → mem v (slots s) ≡ false
mem-slots v leaf h = refl
mem-slots v (branch l p c r) h =
    mem-append v (slots l) (p ∷ slots r) (mem-slots v l (omega arith))
      (ground (arith, is_ne v p (omega arith), mem-slots v r (omega arith)))

erase-append : (v : ℕ) (xs ys : List ℕ) → mem v xs ≡ false → erase v (xs ++ (v ∷ ys)) ≡ xs ++ ys
erase-append v [] ys h = rw (==_refl v) refl
erase-append v (x ∷ xs) ys h =
    let other : (x == v) ≡ false = ground (arith, h) in
    rw other (ap (λ zs. x ∷ zs) (erase-append v xs ys (ground (arith, h))))

-- The slot `v` of a tree, erased from the list of its slots.
pub erase-fill :
    (v : ℕ) (k : Context) (xs ys : List ℕ)
    → mem v xs ≡ false
    → times_around v k ≡ 0
    → erase v (fill k (xs ++ (v ∷ ys))) ≡ fill k (xs ++ ys)
erase-fill v top xs ys h a = erase-append v xs ys h
erase-fill v (in_left p c r k) xs ys h a =
    ap (λ zs. erase v (fill k zs)) (append_assoc xs (v ∷ ys) (p ∷ slots r))
    ∙ erase-fill v k xs (ys ++ (p ∷ slots r)) h (omega arith)
    ∙ ap (fill k) (sym (append_assoc xs ys (p ∷ slots r)))
erase-fill v (in_right l p c k) xs ys h a =
    ap (λ zs. erase v (fill k zs)) (sym (append_assoc (slots l) (p ∷ xs) (v ∷ ys)))
    ∙ erase-fill v k (slots l ++ (p ∷ xs)) ys
        (mem-append v (slots l) (p ∷ xs) (mem-slots v l (omega arith))
          (ground (arith, is_ne v p (omega arith), h)))
        (omega arith)
    ∙ ap (fill k) (append_assoc (slots l) (p ∷ xs) ys)

-- The least node `least` of a tree that is not empty; it has no left child.
pub record Least (s : Shape) : Type 0 where
  pub least : ℕ
  pub color : Color
  pub right : Shape
  pub around : Context
  pub whole : plug (branch leaf least color right) around ≡ s
  pub first : head? (slots s) ≡ some least
  pub rest : slots s ≡ least ∷ slots (plug right around)

-- a context of left turns
pub Least-from : (a : Shape) (p : ℕ) (c : Color) (b : Shape) → Least (branch a p c b)
Least-from leaf p c b = record {
  least = p;
  color = c;
  right = b;
  around = top;
  whole = refl;
  first = refl;
  rest = refl;
}
Least-from (branch a q d e) p c b =
    let w = Least-from a q d e in
    let j = in_left p c b top in
    record {
      least = w.least;
      color = w.color;
      right = w.right;
      around = under w.around j;
      whole =
          plug-under (branch leaf w.least w.color w.right) w.around j
          ∙ ap (λ x. branch x p c b) w.whole;
      first = ap (λ xs. head? (xs ++ (p ∷ slots b))) w.rest;
      rest =
          ap (λ xs. xs ++ (p ∷ slots b)) w.rest
          ∙ ap (λ x. w.least ∷ slots x) (sym (plug-under w.right w.around j));
    }
