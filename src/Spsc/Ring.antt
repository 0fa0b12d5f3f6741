-- ===== src/Spsc/Ring.antt =====
-- The ring of `SPSCQueue`: where its items stand, and what the cached indices may be.
use native.Mathlib.Nat.{mod-eq_of_lt, mod-add-mod, mod-eq-sub-mod}
use l3_lock_free_orderbook_e.Prelude.{
  ℕ, suc, ◌+◌, ◌-◌, ◌%◌, ◌<◌, ◌≤◌, ◌≡◌, ◌≢◌, ◌⊎◌, inl, inr, sym, ap, ◌∙◌, List, [], ◌∷◌, ◌++◌,
  update, length, arith, ==_iff, Bool-cases, ltb,
}
use l3_lock_free_orderbook_e.Spsc.{SpscQueue}

mod_cases : (a c : ℕ) → a < c + c → ((a < c) × (a % c ≡ a)) ⊎ ((c ≤ a) × (a % c + c ≡ a))
mod_cases a c h = elim (Bool-cases (ltb a c)) [
  | inl e ↦ let lt : a < c = ground arith in inl (lt, mod-eq_of_lt lt)
  | inr e ↦
      let ge : c ≤ a = ground arith in
      inr (ge, omega (arith, mod-eq-sub-mod ge ∙ mod-eq_of_lt {n = a - c} {m = c} (omega arith)))
]

-- Offsets below the capacity from one index lead to different slots.
pub slot_injective : (c h i j : ℕ) → h < c → i < c → j < c → (h + i) % c ≡ (h + j) % c → i ≡ j
slot_injective c h i j p q r e =
    ground (arith, mod_cases (h + i) c (omega arith), mod_cases (h + j) c (omega arith))

pub slot_suc : (c h i : ℕ) → ((h + 1) % c + i) % c ≡ (h + (i + 1)) % c
slot_suc c h i = mod-add-mod (h + 1) c i ∙ ap (λ n. n % c) (omega arith)

module _ {ℓ} {T : Type ℓ} (capacity : ℕ) where
  -- The items stand one behind the other from slot `h` on, around the ring.
  abbrev pub IsStored : (ℕ → T) → ℕ → List T → Type ℓ
  IsStored b h [] = Unit
  IsStored b h (x ∷ xs) = (b (h % capacity) ≡ x) × IsStored b (h + 1) xs

  pub IsStored-congr :
      (b : ℕ → T) (h k : ℕ) (xs : List T)
      → h % capacity ≡ k % capacity
      → IsStored b h xs
      → IsStored b k xs
  IsStored-congr b h k [] e s = tt
  IsStored-congr b h k (x ∷ xs) e s = (
    ap b (sym e) ∙ s.0,
    IsStored-congr b (h + 1) (k + 1) xs
        (sym (mod-add-mod h capacity 1) ∙ ap (λ r. (r + 1) % capacity) e ∙ mod-add-mod k capacity 1)
        s.1,
  )

  pub IsStored-update :
      (b : ℕ → T) (h p : ℕ) (y : T) (xs : List T)
      → ((i : ℕ) → i < length xs → (h + i) % capacity ≢ p)
      → IsStored b h xs
      → IsStored (update b p y) h xs
  IsStored-update b h p y [] out s = tt
  IsStored-update b h p y (x ∷ xs) out s =
      let e : h % capacity ≢ p =
        λ e. out 0 (omega arith) (ap (λ n. n % capacity) (omega arith) ∙ e) in
      (
        ground (arith, ==_iff p (h % capacity)),
        IsStored-update b (h + 1) p y xs
            (λ i lt e. out (suc i) (omega arith) (ap (λ n. n % capacity) (omega arith) ∙ e)) s.1,
      )

  pub IsStored-snoc :
      (b : ℕ → T) (h : ℕ) (xs : List T) (y : T)
      → IsStored b h xs
      → b ((h + length xs) % capacity) ≡ y
      → IsStored b h (xs ++ y ∷ [])
  IsStored-snoc b h [] y s e = (ap (λ n. b (n % capacity)) (omega arith) ∙ e, tt)
  IsStored-snoc b h (x ∷ xs) y s e =
      (s.0, IsStored-snoc b (h + 1) xs y s.1 (ap (λ n. b (n % capacity)) (omega arith) ∙ e))

  -- The ring holds `xs`, fewer than its slots. The head is `behind` slots further on than the producer's
  -- cached copy of it, and the consumer's cached tail is `known` slots further on than the head.
  pub record IsRing (behind known : ℕ) (q : SpscQueue T) (xs : List T) : Type ℓ where
    pub head_lt : q.head < capacity
    pub tail_at : q.tail ≡ (q.head + length xs) % capacity
    pub room : behind + length xs < capacity
    pub cached_head : q.head ≡ (q.head_cache + behind) % capacity
    pub head_cache_lt : q.head_cache < capacity
    pub known_le : known ≤ length xs
    pub cached_tail : q.tail_cache ≡ (q.head + known) % capacity
    pub stored : IsStored q.buffer q.head xs
