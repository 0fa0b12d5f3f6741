-- ===== src/Spsc/Queue.antt =====
-- `push` and `pop` of one thread at a time: a first-in first-out queue of at most `Capacity - 1` items.
use l3_lock_free_orderbook_e.Prelude.{
  ℕ, zero, suc, ◌-◌, min, take, subst, ◌+◌, ◌<◌, ◌≡◌, ◌⊎◌, inl, inr, refl, ap, true, false, List,
  [], ◌∷◌, ◌++◌, length, length-append, arith, Bool-cases, none, some,
}
use mathlib.Core.List.{append-nil, append_assoc}
use l3_lock_free_orderbook_e.Spsc.{SpscQueue, push_check, push, push_bulk, pop_check, pop}
use l3_lock_free_orderbook_e.Spsc.Ring.{IsRing}
use l3_lock_free_orderbook_e.Spsc.Calls.{
  push_check-IsRing, write_item-IsRing, publish_tail-IsRing, pop_check-IsRing, read_item-first,
  advance_head-IsRing,
}

module _ {ℓ} {T : Type ℓ} (capacity : ℕ) where
  -- The queue holds `xs`, whatever the cached indices are.
  abbrev pub IsQueue : SpscQueue T → List T → Type ℓ
  IsQueue q xs = (b : ℕ) × (k : ℕ) × IsRing capacity b k q xs

  -- `push` puts the item behind the others and returns true, unless the queue holds `Capacity - 1` items;
  -- then it returns false and leaves the items as they are.
  pub push_refines :
      {q : SpscQueue T} {xs : List T} (x : T)
      → IsQueue q xs
      → ((length xs + 1 < capacity)
          × ((push capacity x q).0 ≡ true)
          × IsQueue (push capacity x q).1 (xs ++ x ∷ []))
        ⊎ ((length xs + 1 ≡ capacity)
            × ((push capacity x q).0 ≡ false)
            × IsQueue (push capacity x q).1 xs)
  unfolding push
  push_refines {q} {xs} x (b, k, r) =
      let (b', r', free, full) = push_check-IsRing capacity r in
      elim (Bool-cases (push_check capacity q).0) [
        | inl e ↦
            let (w, at) = write_item-IsRing capacity r' x (free e) in
            rw e (
              inl (
                omega (arith, free e),
                refl,
                (b', k, publish_tail-IsRing capacity w x (free e) at),
              ))
        | inr e ↦ rw e (inr (full e, refl, (b', k, r')))
      ]

  -- What `pop` does to a queue that holds `xs`.
  abbrev pub Popped : SpscQueue T → List T → Type ℓ
  Popped q [] = ((pop capacity q).0 ≡ none) × IsQueue (pop capacity q).1 []
  Popped q (x ∷ xs) = ((pop capacity q).0 ≡ some x) × IsQueue (pop capacity q).1 xs

  -- `pop` gives the first item and takes it away; from an empty queue it returns false and leaves it empty.
  pub pop_refines : {q : SpscQueue T} (xs : List T) → IsQueue q xs → Popped q xs
  unfolding pop
  pop_refines {q} [] (b, k, r) =
      let (k', r', found, absent) = pop_check-IsRing capacity r in
      elim (Bool-cases (pop_check capacity q).0) [
        | inl e ↦ absurd (omega (arith, found e, r'.known_le))
        | inr e ↦ rw e (refl, (b, k', r'))
      ]
  pop_refines {q} (x ∷ xs) (b, k, r) =
      let (k', r', found, absent) = pop_check-IsRing capacity r in
      elim (Bool-cases (pop_check capacity q).0) [
        | inl e ↦ rw e (
          ap some (read_item-first capacity x xs r'),
          (_, _, advance_head-IsRing capacity x xs (found e) r'),
        )
        | inr e ↦ absurd (omega (arith, absent e))
      ]

  -- `push_bulk` pushes the first items in their order: as many as there is room for, no more than the
  -- batch and no more than there are, and returns their number.
  pub push_bulk_refines :
      (left : ℕ) (items : List T) {q : SpscQueue T} {xs : List T}
      → IsQueue q xs
      → ((push_bulk capacity left items q).0
          ≡ min left (min (length items) (capacity - 1 - length xs)))
        × IsQueue
            (push_bulk capacity left items q).1
            (xs ++ take (push_bulk capacity left items q).0 items)
  unfolding push_bulk
  push_bulk_refines zero items {xs = xs} r = (omega arith, rw (append-nil xs) r)
  push_bulk_refines (suc left) [] {xs = xs} r = (omega arith, rw (append-nil xs) r)
  push_bulk_refines (suc left) (x ∷ items) {q} {xs} r = elim (push_refines x r) [
    | inl (free, e, r') ↦
        let (n, rest) = push_bulk_refines left items r' in
        rw e (omega (arith, n, free, length-append xs (x ∷ [])), more _ rest)
    | inr (full, e, r') ↦ rw e (omega (arith, full), rw (append-nil xs) r')
  ]
    where
      more :
          (n : ℕ) {q' : SpscQueue T}
          → IsQueue q' ((xs ++ x ∷ []) ++ take n items)
          → IsQueue q' (xs ++ take (n + 1) (x ∷ items))
      more n {q'} h =
          let longer : suc n ≡ n + 1 = omega arith in
          subst (λ m. IsQueue q' (xs ++ take m (x ∷ items))) longer
            (subst (IsQueue q') (append_assoc xs (x ∷ []) (take n items)) h)
