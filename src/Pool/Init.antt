-- ===== src/Pool/Init.antt =====
-- The constructor of `ObjectPool`: all slots are free, slot 0 first.
use l3_lock_free_orderbook_e.Prelude.{
  ℕ, zero, suc, ◌+◌, ◌^◌, ◌<◌, ◌≡◌, refl, false, List, [], ◌∷◌, length, mem, head_of, Distinct,
  arith, ltb, ◌||◌, ==_iff,
}
use l3_lock_free_orderbook_e.Pool.{ObjectPool, init_loop, new}
use l3_lock_free_orderbook_e.Pool.FreeList.{Linked, Linked-update, IsValid}

-- The numbers below `n` in front of `xs`.
abbrev pub below : ℕ → List ℕ → List ℕ
below zero xs = xs
below (suc n) xs = below n (n ∷ xs)

mem-below : (j n : ℕ) (xs : List ℕ) → mem j (below n xs) ≡ (ltb j n || mem j xs)
mem-below j zero xs = ground arith
mem-below j (suc n) xs = ground (arith, mem-below j n (n ∷ xs))

length-below : (n : ℕ) (xs : List ℕ) → length (below n xs) ≡ n + length xs
length-below zero xs = omega arith
length-below (suc n) xs = omega (arith, length-below n (n ∷ xs))

Distinct-below :
    (n : ℕ) (xs : List ℕ)
    → ((j : ℕ) → j < n → mem j xs ≡ false)
    → Distinct xs
    → Distinct (below n xs)
Distinct-below zero xs h d = d
Distinct-below (suc n) xs h d =
    Distinct-below n (n ∷ xs) (λ j lt. ground (arith, h j)) (h n (omega arith), d)

module _ {ℓ} {T : Type ℓ} where
  init_loop-Linked :
      (n : ℕ) (p : ObjectPool T) (xs : List ℕ)
      → ((j : ℕ) → j < n → mem j xs ≡ false)
      → p.free_list ≡ head_of xs
      → Linked p.storage xs
      → ((init_loop n p).free_list ≡ head_of (below n xs))
        × Linked (init_loop n p).storage (below n xs)
  unfolding init_loop
  init_loop-Linked zero p xs h e l = (e, l)
  init_loop-Linked (suc n) p xs h e l =
      init_loop-Linked n _ (n ∷ xs) (λ j lt. ground (arith, h j)) refl
        (ground (arith, ==_iff n n), Linked-update p.storage n _ xs (h n (omega arith)) l)

  -- A new pool of fewer than 2^64 slots is valid, with every slot below its size on the free list, in
  -- order.
  pub new-IsValid : (n : ℕ) → n < 2 ^ 64 → IsValid {T = T} n (new n) (below n [])
  unfolding new
  new-IsValid n h =
      let (head, linked) = init_loop-Linked n _ [] (λ j lt. refl) refl tt in
      record {
        head = head;
        linked = linked;
        distinct = Distinct-below n [] (λ j lt. refl) tt;
        counted = omega (arith, length-below n []);
        small = omega (arith, length-below n []);
        cap_small = h;
        inside = λ i m. ground (arith, mem-below i n []);
        others = λ i m lt. ground (arith, mem-below i n []);
      }
