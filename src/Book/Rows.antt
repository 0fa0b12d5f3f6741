-- ===== src/Book/Rows.antt =====
-- A side of the book as a client sees it: the rows of prices, each with its queue, best price first.
-- No slot of a level and no node of a tree shows in them.
use l3_lock_free_orderbook_e.Prelude.{
  ℕ, ◌≡◌, refl, ap, ◌∙◌, subst, Bool, true, false, List, [], ◌∷◌, ◌++◌, arith, mem, update,
  Bool-cases, inl, inr, ==_iff, ==_comm, ◌==◌, if◌then◌else◌, ne_of_mem,
}
use l3_lock_free_orderbook_e.Prelude.Int.{ℤ, pos, negsuc, ltb_ℤ}
use l3_lock_free_orderbook_e.Types.{Price, Side, buy, sell}
use l3_lock_free_orderbook_e.Tree.Order.{IsStrictOrder, IsSorted, AllBehind, IsAbsent, insert_by}
use l3_lock_free_orderbook_e.Tree.SortedErase.{AllBehind-not_mem, AllBehind-member, irreflexive}
use l3_lock_free_orderbook_e.Level.Links.{Entry}
use l3_lock_free_orderbook_e.Book.Invariant.{compare_of}

abbrev pub Row : Type 0
Row = Price × List Entry

abbrev pub rows : (ℕ → Price) → (ℕ → List Entry) → List ℕ → List Row
rows key queue [] = []
rows key queue (x ∷ xs) = (key x, queue x) ∷ rows key queue xs

-- The abstract book: the entry joins the end of the queue of its price, in a new row if there is none.
abbrev pub join_row : (Price → Price → Bool) → Price → Entry → List Row → List Row
join_row less price e [] = (price, e ∷ []) ∷ []
join_row less price e (r ∷ rs) =
    if less price r.0
    then (price, e ∷ []) ∷ r ∷ rs
    else (if less r.0 price then r ∷ join_row less price e rs else (r.0, r.1 ++ e ∷ []) ∷ rs)

pub rows-frame :
    (key key' : ℕ → Price) (queue queue' : ℕ → List Entry) (xs : List ℕ)
    → ((i : ℕ) → mem i xs ≡ true → key' i ≡ key i)
    → ((i : ℕ) → mem i xs ≡ true → queue' i ≡ queue i)
    → rows key' queue' xs ≡ rows key queue xs
rows-frame key key' queue queue' [] a b = refl
rows-frame key key' queue queue' (x ∷ xs) a b =
    let here : mem x (x ∷ xs) ≡ true = ground (arith, ==_iff x x) in
    rw (a x here, b x here)
      (ap (λ rs. (key x, queue x) ∷ rs)
        (rows-frame key key' queue queue' xs (λ i m. a i (ground arith))
          (λ i m. b i (ground arith))))

-- Two prices that are not apart are equal.
ltb_ℤ-connex : (a b : ℤ) → ltb_ℤ a b ≡ false → ltb_ℤ b a ≡ false → a ≡ b
ltb_ℤ-connex (pos a) (pos b) h k = ap pos (ground (arith, h, k))
ltb_ℤ-connex (pos a) (negsuc b) h k = absurd (ground (arith, h, k))
ltb_ℤ-connex (negsuc a) (pos b) h k = absurd (ground (arith, h, k))
ltb_ℤ-connex (negsuc a) (negsuc b) h k = ap negsuc (ground (arith, h, k))

pub compare_of-connex :
    (d : Side) (a b : Price) → compare_of d a b ≡ false → compare_of d b a ≡ false → a ≡ b
compare_of-connex buy a b h k = ltb_ℤ-connex a b k h
compare_of-connex sell a b h k = ltb_ℤ-connex a b h k

module _ (key key' : ℕ → Price) (less : Price → Price → Bool) (queue : ℕ → List Entry) (lv : ℕ)
    (e : Entry) where
  -- A level of a new price, in a slot of its own, is a new row.
  pub rows-created :
      (price : Price) (xs : List ℕ)
      → key' lv ≡ price
      → IsAbsent key less price xs
      → ((i : ℕ) → mem i xs ≡ true → key' i ≡ key i)
      → mem lv xs ≡ false
      → rows key' (update queue lv (e ∷ [])) (insert_by key' less price lv xs)
        ≡ join_row less price e (rows key queue xs)
  rows-created price [] at absent same out = rw (at, (==_iff lv lv).1 refl) refl
  rows-created price (x ∷ xs) at absent same out =
      let here : key' x ≡ key x = same x (ground (arith, ==_iff x x)) in
      let apart : (lv == x) ≡ false = ==_comm lv x ∙ ground (arith, out) in
      let rest : rows key' (update queue lv (e ∷ [])) xs ≡ rows key queue xs =
        rows-frame key key' queue (update queue lv (e ∷ [])) xs (λ i m. same i (ground arith))
          (λ i m. rw (==_comm lv i ∙ ne_of_mem i lv xs m (ground (arith, out))) refl) in
      elim (Bool-cases (less price (key x))) [
        | inl h ↦
            rw (ap (less price) here ∙ h, h, at, (==_iff lv lv).1 refl, apart, here, rest) refl
        | inr h ↦
            let behind : less (key x) price ≡ true = ground (arith, absent.0, h) in
            rw (ap (less price) here ∙ h, h, behind, apart, here)
              (ap (λ rs. (key x, queue x) ∷ rs)
                (rows-created price xs at absent.1 (λ i m. same i (ground arith))
                  (ground (arith, out))))
      ]

  module _ (o : IsStrictOrder less) where
    rows-joined_here :
        (xs : List ℕ)
        → AllBehind key less (key lv) xs
        → ((i : ℕ) → mem i (lv ∷ xs) ≡ true → key' i ≡ key i)
        → rows key' (update queue lv (queue lv ++ e ∷ [])) (lv ∷ xs)
          ≡ join_row less (key lv) e (rows key queue (lv ∷ xs))
    rows-joined_here xs behind same =
        let self : (lv == lv) ≡ true = (==_iff lv lv).1 refl in
        let rest =
          rows-frame key key' queue (update queue lv (queue lv ++ e ∷ [])) xs
            (λ i m. same i (ground arith))
            (λ i m.
              rw (==_comm lv i ∙ ne_of_mem i lv xs m (AllBehind-not_mem key less o lv xs behind))
                refl) in
        rw (self, same lv (ground arith), irreflexive less o (key lv), rest) refl

    -- A level that has the price gets a longer queue.
    pub rows-joined :
        (xs : List ℕ)
        → IsSorted key less xs
        → mem lv xs ≡ true
        → ((i : ℕ) → mem i xs ≡ true → key' i ≡ key i)
        → rows key' (update queue lv (queue lv ++ e ∷ [])) xs
          ≡ join_row less (key lv) e (rows key queue xs)
    rows-joined [] sorted m same = cc
    rows-joined (x ∷ xs) sorted m same =
        let here : key' x ≡ key x = same x (ground (arith, ==_iff x x)) in
        elim (Bool-cases (lv == x)) [
          | inl h ↦
              subst
                (λ j.
                  AllBehind key less (key j) xs
                  → ((i : ℕ) → mem i (j ∷ xs) ≡ true → key' i ≡ key i)
                  → rows key' (update queue lv (queue lv ++ e ∷ [])) (j ∷ xs)
                    ≡ join_row less (key lv) e (rows key queue (j ∷ xs)))
                ((==_iff lv x).0 h) (rows-joined_here xs) sorted.0 same
          | inr h ↦
              let before : less (key x) (key lv) ≡ true =
                AllBehind-member key less (key x) lv xs sorted.0
                  (ground (arith, ==_comm x lv, h, m)) in
              rw (h, here, o.asym (key x) (key lv) before, before)
                (ap (λ rs. (key x, queue x) ∷ rs)
                  (rows-joined xs sorted.1 (ground (arith, ==_comm x lv, h, m))
                    (λ i m. same i (ground arith))))
        ]
