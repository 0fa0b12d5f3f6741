-- ===== src/Tree/SortedErase.antt =====
-- Sorted lists of slots have no slot twice, and stay sorted when one is erased.
use l3_lock_free_orderbook_e.Prelude.{
  ℕ, ◌≤◌, length, ◌<◌, ◌≡◌, refl, sym, ap, ◌∙◌, subst, Bool, true, false, List, [], ◌∷◌, arith, mem,
  erase, Distinct, Bool-cases, inl, inr, ==_iff, ◌==◌,
}
use l3_lock_free_orderbook_e.Tree.Shape.{Shape, slots, times}
use l3_lock_free_orderbook_e.Tree.Order.{IsStrictOrder, IsSorted, AllBehind}
use l3_lock_free_orderbook_e.Tree.Erase.{mem-slots}

pub mem-times : (v : ℕ) (s : Shape) → mem v (slots s) ≡ true → 0 < times v s
mem-times v s m = elim (Bool-cases (times v s == 0)) [
  | inl e ↦ absurd (ground (arith, m, mem-slots v s ((==_iff (times v s) 0).0 e)))
  | inr e ↦ ground (arith, e)
]

pub mem_of_erase : (i a : ℕ) (xs : List ℕ) → mem i (erase a xs) ≡ true → mem i xs ≡ true
mem_of_erase i a [] m = m
mem_of_erase i a (x ∷ xs) m = elim (Bool-cases (x == a)) [
  | inl h ↦ ground (arith, h, m)
  | inr h ↦ ground (arith, h, m, mem_of_erase i a xs)
]

pub length-erase_le : (a : ℕ) (xs : List ℕ) → length (erase a xs) ≤ length xs
length-erase_le a [] = omega arith
length-erase_le a (x ∷ xs) = ground (arith, length-erase_le a xs)

pub irreflexive {ℓ} :
    {K : Type ℓ} (less : K → K → Bool) → IsStrictOrder less → (a : K) → less a a ≡ false
irreflexive less o a = elim (Bool-cases (less a a)) [
  | inl h ↦ absurd (ground (arith, h, o.asym a a h))
  | inr h ↦ h
]

module _ {ℓ} {K : Type ℓ} (key : ℕ → K) (less : K → K → Bool) where
  pub AllBehind-member :
      (k : K) (i : ℕ) (xs : List ℕ)
      → AllBehind key less k xs
      → mem i xs ≡ true
      → less k (key i) ≡ true
  AllBehind-member k i [] h m = cc
  AllBehind-member k i (x ∷ xs) h m = elim (Bool-cases (x == i)) [
    | inl g ↦ subst (λ j. less k (key j) ≡ true) ((==_iff x i).0 g) h.0
    | inr g ↦ AllBehind-member k i xs h.1 (ground (arith, g))
  ]

  AllBehind-erase :
      (k : K) (a : ℕ) (xs : List ℕ) → AllBehind key less k xs → AllBehind key less k (erase a xs)
  AllBehind-erase k a [] h = tt
  AllBehind-erase k a (x ∷ xs) h = elim (Bool-cases (x == a)) [
    | inl e ↦ rw e h.1
    | inr e ↦ rw e (h.0, AllBehind-erase k a xs h.1)
  ]

  pub IsSorted-erase : (a : ℕ) (xs : List ℕ) → IsSorted key less xs → IsSorted key less (erase a xs)
  IsSorted-erase a [] h = tt
  IsSorted-erase a (x ∷ xs) h = elim (Bool-cases (x == a)) [
    | inl e ↦ rw e h.1
    | inr e ↦ rw e (AllBehind-erase (key x) a xs h.0, IsSorted-erase a xs h.1)
  ]

  module _ (o : IsStrictOrder less) where
    pub AllBehind-not_mem : (v : ℕ) (xs : List ℕ) → AllBehind key less (key v) xs → mem v xs ≡ false
    AllBehind-not_mem v [] h = refl
    AllBehind-not_mem v (x ∷ xs) h = elim (Bool-cases (x == v)) [
      | inl g ↦
          let self : less (key v) (key v) ≡ true =
            ap (λ i. less (key v) (key i)) (sym ((==_iff x v).0 g)) ∙ h.0 in
          absurd (ground (arith, self, o.asym (key v) (key v) self))
      | inr g ↦ ground (arith, g, AllBehind-not_mem v xs h.1)
    ]

    pub IsSorted-Distinct : (xs : List ℕ) → IsSorted key less xs → Distinct xs
    IsSorted-Distinct [] h = tt
    IsSorted-Distinct (x ∷ xs) h = (AllBehind-not_mem x xs h.0, IsSorted-Distinct xs h.1)
