-- ===== src/Book/RowsLeft.antt =====
-- The rows when an order leaves its queue.
use l3_lock_free_orderbook_e.Prelude.{
  ℕ, ◌≡◌, refl, sym, ap, ◌∙◌, subst, Bool, true, false, ◌||◌, List, [], ◌∷◌, ◌++◌, arith, mem,
  erase, update, Bool-cases, inl, inr, ==_iff, ==_comm, ◌==◌, if◌then◌else◌, ne_of_mem,
}
use l3_lock_free_orderbook_e.Types.{Price}
use l3_lock_free_orderbook_e.Tree.Order.{IsStrictOrder, IsSorted, AllBehind}
use l3_lock_free_orderbook_e.Tree.SortedErase.{AllBehind-not_mem, AllBehind-member, irreflexive}
use l3_lock_free_orderbook_e.Level.Links.{Entry, slots}
use l3_lock_free_orderbook_e.Book.Rows.{Row, rows, rows-frame}

abbrev pub drop_slot : ℕ → List Entry → List Entry
drop_slot p [] = []
drop_slot p (e ∷ es) = if e.slot == p then es else e ∷ drop_slot p es

pub drop_slot-middle :
    (ds : List Entry) (e : Entry) (es : List Entry)
    → mem e.slot (slots ds) ≡ false
    → drop_slot e.slot (ds ++ e ∷ es) ≡ ds ++ es
drop_slot-middle [] e es h = rw ((==_iff e.slot e.slot).1 refl) refl
drop_slot-middle (c ∷ ds) e es h =
    let apart : (c.slot == e.slot) ≡ false = ground (arith, h) in
    rw apart (ap (λ fs. c ∷ fs) (drop_slot-middle ds e es (ground (arith, h))))

-- A row, if its queue is not empty.
abbrev pub keep_row : Price → List Entry → List Row → List Row
keep_row price [] rs = rs
keep_row price (e ∷ es) rs = (price, e ∷ es) ∷ rs

-- The abstract book: the order in the slot `p` leaves the row of its price, and the row goes with the
-- last of its orders.
abbrev pub leave_row : (Price → Price → Bool) → Price → ℕ → List Row → List Row
leave_row less price p [] = []
leave_row less price p (r ∷ rs) =
    if less r.0 price || less price r.0
    then r ∷ leave_row less price p rs
    else keep_row r.0 (drop_slot p r.1) rs

module _ (key key' : ℕ → Price) (less : Price → Price → Bool) (o : IsStrictOrder less)
    (queue : ℕ → List Entry) (lv p : ℕ) where
  rows-tail :
      (fs : List Entry) (xs : List ℕ)
      → AllBehind key less (key lv) xs
      → ((i : ℕ) → mem i xs ≡ true → key' i ≡ key i)
      → rows key' (update queue lv fs) xs ≡ rows key queue xs
  rows-tail fs xs behind same = rows-frame key key' queue (update queue lv fs) xs same (λ i m.
      rw (==_comm lv i ∙ ne_of_mem i lv xs m (AllBehind-not_mem key less o lv xs behind)) refl)

  leave_row-here :
      (fs : List Entry) (xs : List ℕ)
      → drop_slot p (queue lv) ≡ fs
      → leave_row less (key lv) p (rows key queue (lv ∷ xs))
        ≡ keep_row (key lv) fs (rows key queue xs)
  leave_row-here fs xs e = rw (irreflexive less o (key lv), e) refl

  -- Other orders are left at the price,
  pub rows-shorter :
      (f : Entry) (fs : List Entry) (xs : List ℕ)
      → drop_slot p (queue lv) ≡ f ∷ fs
      → IsSorted key less xs
      → mem lv xs ≡ true
      → ((i : ℕ) → mem i xs ≡ true → key' i ≡ key i)
      → rows key' (update queue lv (f ∷ fs)) xs ≡ leave_row less (key lv) p (rows key queue xs)
  rows-shorter f fs [] e sorted m same = cc
  rows-shorter f fs (x ∷ xs) e sorted m same = elim (Bool-cases (lv == x)) [
    | inl h ↦
        subst
          (λ j.
            AllBehind key less (key j) xs
            → ((i : ℕ) → mem i (j ∷ xs) ≡ true → key' i ≡ key i)
            → rows key' (update queue lv (f ∷ fs)) (j ∷ xs)
              ≡ leave_row less (key lv) p (rows key queue (j ∷ xs)))
          ((==_iff lv x).0 h)
          (λ behind same.
            rw
              (
                (==_iff lv lv).1 refl,
                same lv (ground (arith, ==_iff lv lv)),
                rows-tail (f ∷ fs) xs behind (λ i n. same i (ground arith)),
              )
              (sym (leave_row-here (f ∷ fs) xs e)))
          sorted.0 same
    | inr h ↦
        let here : key' x ≡ key x = same x (ground (arith, ==_iff x x)) in
        let in_tail : mem lv xs ≡ true = ground (arith, ==_comm x lv, h, m) in
        let before : less (key x) (key lv) ≡ true =
          AllBehind-member key less (key x) lv xs sorted.0 in_tail in
        rw (h, here, before)
          (ap (λ rs. (key x, queue x) ∷ rs)
            (rows-shorter f fs xs e sorted.1 in_tail (λ i n. same i (ground arith))))
  ]

  -- or the level leaves the tree.
  pub rows-erased :
      (xs : List ℕ)
      → drop_slot p (queue lv) ≡ []
      → IsSorted key less xs
      → mem lv xs ≡ true
      → ((i : ℕ) → mem i (erase lv xs) ≡ true → key' i ≡ key i)
      → rows key' (update queue lv []) (erase lv xs) ≡ leave_row less (key lv) p (rows key queue xs)
  rows-erased [] e sorted m same = cc
  rows-erased (x ∷ xs) e sorted m same = elim (Bool-cases (x == lv)) [
    | inl h ↦
        let self : (lv == lv) ≡ true = (==_iff lv lv).1 refl in
        subst
          (λ j.
            AllBehind key less (key j) xs
            → ((i : ℕ) → mem i (erase lv (j ∷ xs)) ≡ true → key' i ≡ key i)
            → rows key' (update queue lv []) (erase lv (j ∷ xs))
              ≡ leave_row less (key lv) p (rows key queue (j ∷ xs)))
          (sym ((==_iff x lv).0 h))
          (λ behind same.
            rw self
              (rows-tail [] xs behind (λ i n. same i (rw self n)) ∙ sym (leave_row-here [] xs e)))
          sorted.0 same
    | inr h ↦
        let in_tail : mem lv xs ≡ true = ground (arith, h, m) in
        let before : less (key x) (key lv) ≡ true =
          AllBehind-member key less (key x) lv xs sorted.0 in_tail in
        let here : key' x ≡ key x = same x (rw h (ground (arith, ==_iff x x))) in
        rw (h, here, before, ==_comm lv x ∙ h)
          (ap (λ rs. (key x, queue x) ∷ rs)
            (rows-erased xs e sorted.1 in_tail (λ i n. same i (rw h (ground (arith, n))))))
  ]
