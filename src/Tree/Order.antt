-- ===== src/Tree/Order.antt =====
-- The order of the keys, and the place of a key in a tree.
use l3_lock_free_orderbook_e.Prelude.{
  ℕ, ◌≡◌, refl, ap, Bool, true, false, ◌||◌, Option, none, some, List, [], ◌∷◌, ◌++◌, arith,
  if◌then◌else◌, mem, Bool-cases, inl, inr,
}
use l3_lock_free_orderbook_e.Tree.Shape.{Shape, leaf, branch, Context, top, in_left, in_right}

-- What `Compare` has to be.
pub record IsStrictOrder {ℓ} {K : Type ℓ} (less : K → K → Bool) : Type ℓ where
  pub asym : (a b : K) → less a b ≡ true → less b a ≡ false
  pub trans : (a b c : K) → less a b ≡ true → less b c ≡ true → less a c ≡ true

module _ {ℓ} {K : Type ℓ} (key : ℕ → K) (less : K → K → Bool) where
  -- The key `k` is before that of every slot of the list, or behind it.
  abbrev pub AllBehind : K → List ℕ → Type 0
  AllBehind k [] = Unit
  AllBehind k (x ∷ xs) = (less k (key x) ≡ true) × AllBehind k xs

  abbrev pub AllBefore : List ℕ → K → Type 0
  AllBefore [] k = Unit
  AllBefore (x ∷ xs) k = (less (key x) k ≡ true) × AllBefore xs k

  abbrev pub IsSorted : List ℕ → Type 0
  IsSorted [] = Unit
  IsSorted (x ∷ xs) = AllBehind (key x) xs × IsSorted xs

  -- `v`, with the key `k`, put in front of the first slot whose key is behind `k`.
  abbrev pub insert_by : K → ℕ → List ℕ → List ℕ
  insert_by k v [] = v ∷ []
  insert_by k v (x ∷ xs) = if less k (key x) then v ∷ x ∷ xs else x ∷ insert_by k v xs

  -- The place of a new node with the key `k` below the subtree at `c`; none if the key is found.
  unfoldable pub seek : K → Shape → Context → Option Context
  seek k leaf c = some c
  seek k (branch l p d r) c =
      if less k (key p)
      then seek k l (in_left p d r c)
      else (if less (key p) k then seek k r (in_right l p d c) else none)

  -- On which side of its parent the place is.
  abbrev pub Fits : K → Context → Type 0
  Fits k top = Unit
  Fits k (in_left p d r c) = less k (key p) ≡ true
  Fits k (in_right l p d c) = less k (key p) ≡ false

  -- A slot with the key `k`.
  pub record Found (k : K) (xs : List ℕ) (p : ℕ) : Type 0 where
    pub member : mem p xs ≡ true
    pub not_before : less k (key p) ≡ false
    pub not_behind : less (key p) k ≡ false

  -- No slot has the key `k`.
  abbrev pub IsAbsent : K → List ℕ → Type 0
  IsAbsent k [] = Unit
  IsAbsent k (x ∷ xs) = ((less k (key x) || less (key x) k) ≡ true) × IsAbsent k xs

  pub AllBefore-middle :
      (xs : List ℕ) (p : ℕ) (ys : List ℕ) → IsSorted (xs ++ (p ∷ ys)) → AllBefore xs (key p)
  AllBefore-middle [] p ys h = tt
  AllBefore-middle (x ∷ xs) p ys h = (head xs h.0, AllBefore-middle xs p ys h.1)
    where
      head : (zs : List ℕ) → AllBehind (key x) (zs ++ (p ∷ ys)) → less (key x) (key p) ≡ true
      head [] b = b.0
      head (z ∷ zs) b = head zs b.1

  pub AllBehind-append :
      (k : K) (xs ys : List ℕ) → AllBehind k (xs ++ ys) → AllBehind k xs × AllBehind k ys
  AllBehind-append k [] ys h = (tt, h)
  AllBehind-append k (x ∷ xs) ys h = let r = AllBehind-append k xs ys h.1 in ((h.0, r.0), r.1)

  pub IsSorted-append : (xs ys : List ℕ) → IsSorted (xs ++ ys) → IsSorted xs × IsSorted ys
  IsSorted-append [] ys h = (tt, h)
  IsSorted-append (x ∷ xs) ys h =
      let r = IsSorted-append xs ys h.1 in (((AllBehind-append (key x) xs ys h.0).0, r.0), r.1)

  pub IsAbsent-append :
      (k : K) (xs ys : List ℕ) → IsAbsent k xs → IsAbsent k ys → IsAbsent k (xs ++ ys)
  IsAbsent-append k [] ys a b = b
  IsAbsent-append k (x ∷ xs) ys a b = (a.0, IsAbsent-append k xs ys a.1 b)

  pub insert_by-left :
      (k : K) (v : ℕ) (xs : List ℕ) (p : ℕ) (ys : List ℕ)
      → less k (key p) ≡ true
      → insert_by k v (xs ++ (p ∷ ys)) ≡ insert_by k v xs ++ (p ∷ ys)
  insert_by-left k v [] p ys e = rw e refl
  insert_by-left k v (x ∷ xs) p ys e = elim (Bool-cases (less k (key x))) [
    | inl h ↦ rw h refl
    | inr h ↦ rw h (ap (λ zs. x ∷ zs) (insert_by-left k v xs p ys e))
  ]

  module _ (o : IsStrictOrder less) where
    pub insert_by-right :
        (k : K) (v : ℕ) (xs : List ℕ) (p : ℕ) (ys : List ℕ)
        → less (key p) k ≡ true
        → AllBefore xs (key p)
        → insert_by k v (xs ++ (p ∷ ys)) ≡ xs ++ (p ∷ insert_by k v ys)
    insert_by-right k v [] p ys e a = rw (o.asym (key p) k e) refl
    insert_by-right k v (x ∷ xs) p ys e a =
        rw (o.asym (key x) k (o.trans (key x) (key p) k a.0 e))
          (ap (λ zs. x ∷ zs) (insert_by-right k v xs p ys e a.1))

    pub IsAbsent-before :
        (k : K) (xs : List ℕ) (b : K) → AllBefore xs b → less b k ≡ true → IsAbsent k xs
    IsAbsent-before k [] b h e = tt
    IsAbsent-before k (x ∷ xs) b h e =
        let far : less (key x) k ≡ true = o.trans (key x) b k h.0 e in
        (ground (arith, far), IsAbsent-before k xs b h.1 e)

    pub IsAbsent-behind :
        (k : K) (xs : List ℕ) (b : K) → AllBehind b xs → less k b ≡ true → IsAbsent k xs
    IsAbsent-behind k [] b h e = tt
    IsAbsent-behind k (x ∷ xs) b h e =
        let far : less k (key x) ≡ true = o.trans k b (key x) e h.0 in
        (ground (arith, far), IsAbsent-behind k xs b h.1 e)

    AllBehind-insert_by :
        (a k : K) (v : ℕ) (xs : List ℕ)
        → less a (key v) ≡ true
        → AllBehind a xs
        → AllBehind a (insert_by k v xs)
    AllBehind-insert_by a k v [] e h = (e, tt)
    AllBehind-insert_by a k v (x ∷ xs) e h = elim (Bool-cases (less k (key x))) [
      | inl b ↦ rw b (e, h)
      | inr b ↦ rw b (h.0, AllBehind-insert_by a k v xs e h.1)
    ]

    AllBehind-trans : (a b : K) (xs : List ℕ) → less a b ≡ true → AllBehind b xs → AllBehind a xs
    AllBehind-trans a b [] e h = tt
    AllBehind-trans a b (x ∷ xs) e h = (o.trans a b (key x) e h.0, AllBehind-trans a b xs e h.1)

    -- A list stays sorted when a slot of a new key is put into it.
    pub IsSorted-insert_by :
        (v : ℕ) (xs : List ℕ)
        → IsSorted xs
        → IsAbsent (key v) xs
        → IsSorted (insert_by (key v) v xs)
    IsSorted-insert_by v [] h a = (tt, tt)
    IsSorted-insert_by v (x ∷ xs) h a = elim (Bool-cases (less (key v) (key x))) [
      | inl b ↦ rw b ((b, AllBehind-trans (key v) (key x) xs b h.0), h)
      | inr b ↦
          let c : less (key x) (key v) ≡ true = ground (arith, a.0) in
          rw b (AllBehind-insert_by (key x) (key v) v xs c h.0, IsSorted-insert_by v xs h.1 a.1)
    ]
