-- ===== src/Arena/Alloc.antt =====
-- What `LinearArena::allocate` returns, on each branch, and a sequence of allocations.
use l3_lock_free_orderbook_e.Prelude.{
  ℕ, ◌+◌, ◌-◌, ◌^◌, ◌≤◌, ◌<◌, ◌≡◌, ◌↔◌, none, some, List, [], ◌∷◌, arith, sym, Option-cases, inl,
  inr,
}
use l3_lock_free_orderbook_e.Arena.{LinearArena, align_offset, allocate, allocate_all}
use l3_lock_free_orderbook_e.Arena.Bounds.{
  IsValid, IsSmall, IsMultiple, IsPowerOfTwo, align_offset_bounds, align_offset-IsMultiple,
  align_offset-le,
}

-- The block at `p` for a request, taken from `a`, which becomes `a'`.
pub record Placed (a : LinearArena) (size alignment p : ℕ) (a' : LinearArena) : Type 0 where
  pub after : a.memory + a.offset ≤ p
  pub near : p < a.memory + a.offset + alignment
  pub within : p + size ≤ a.memory + a.capacity
  pub bumped : a.memory + a'.offset ≡ p + size
  pub memory : a'.memory ≡ a.memory
  pub capacity : a'.capacity ≡ a.capacity
  pub valid : IsValid a'

-- Such a block, and it is aligned.
pub record Fits (a : LinearArena) (size alignment p : ℕ) (a' : LinearArena) : Type 0 where
  pub placed : Placed a size alignment p a'
  pub aligned : IsMultiple alignment (p - a.memory)

module _ {a : LinearArena} (size alignment : ℕ) (v : IsValid a)
    (small : IsSmall a (size, alignment)) where
  aligned_offset_bounds :
      let o = align_offset a.offset alignment in (a.offset ≤ o) × (o < a.offset + alignment)
  aligned_offset_bounds = align_offset_bounds a.offset alignment small.0 (omega arith)

  address :
      {p : ℕ} {a' : LinearArena}
      → allocate size alignment a ≡ some (p, a')
      → p ≡ a.memory + align_offset a.offset alignment
  unfolding allocate
  address e = let b = aligned_offset_bounds in ground arith

  allocate-Placed :
      {p : ℕ} {a' : LinearArena}
      → allocate size alignment a ≡ some (p, a')
      → Placed a size alignment p a'
  unfolding allocate
  allocate-Placed {p} {a'} e =
      let b = aligned_offset_bounds in
      let at = address e in
      record {
        after = omega arith;
        near = omega arith;
        within = ground arith;
        bumped = ground arith;
        memory = ground arith;
        capacity = ground arith;
        valid = ground arith;
      }

  aligned_of_eq :
      {p : ℕ} (o : ℕ)
      → IsMultiple alignment o
      → p ≡ a.memory + o
      → IsMultiple alignment (p - a.memory)
  aligned_of_eq {p} o m e = let q : p - a.memory ≡ o = omega arith in rw q m

  -- In a valid arena, for a request whose alignment is a power of two and whose sums do not wrap,
  -- `allocate` returns a block behind all that was given out before, less than one alignment further
  -- on, inside the arena's memory, at a multiple of the alignment from its start; it moves the offset
  -- to the block's end, and the arena stays valid.
  pub allocate-Fits :
      {p : ℕ} {a' : LinearArena}
      → IsPowerOfTwo alignment
      → allocate size alignment a ≡ some (p, a')
      → Fits a size alignment p a'
  allocate-Fits two e = record {
    placed = allocate-Placed e;
    aligned =
        aligned_of_eq _ (align_offset-IsMultiple a.offset alignment two (omega arith)) (address e);
  }

  -- In a valid arena, for a request whose alignment is a power of two and whose sums do not wrap,
  -- `std::bad_alloc` is thrown exactly when no aligned block of the size is left.
  pub allocate-none :
      IsPowerOfTwo alignment
      → (allocate size alignment a ≡ none)
        ↔ ((q : ℕ) → a.offset ≤ q → IsMultiple alignment q → a.capacity < q + size)
  unfolding allocate
  allocate-none two =
      let b = aligned_offset_bounds in
      let m = align_offset-IsMultiple a.offset alignment two (omega arith) in
      (
        (λ e q le m. ground (arith, align_offset-le a.offset alignment q two (omega arith) le m)),
        λ h. ground (arith, h (align_offset a.offset alignment) b.0 m),
      )

-- The blocks lie in order between two addresses and do not overlap.
abbrev pub IsApart : ℕ → ℕ → List (ℕ × ℕ) → Type 0
IsApart lo hi [] = lo ≤ hi
IsApart lo hi ((p, size) ∷ bs) = (lo ≤ p) × IsApart (p + size) hi bs

abbrev pub AllSmall : LinearArena → List (ℕ × ℕ) → Type 0
AllSmall a [] = Unit
AllSmall a ((size, alignment) ∷ rs) = IsSmall a (size, alignment) × AllSmall a rs

AllSmall-congr :
    (a b : LinearArena) (rs : List (ℕ × ℕ))
    → a.capacity ≡ b.capacity
    → AllSmall a rs
    → AllSmall b rs
AllSmall-congr a b [] e s = tt
AllSmall-congr a b (r ∷ rs) e s = (omega arith, AllSmall-congr a b rs e s.1)

-- However many requests are made, of positive alignments and with sums that do not wrap, the blocks
-- that a valid arena gives out lie one behind the other in its memory, behind what was used before.
pub allocate_all-IsApart :
    {a : LinearArena} (rs : List (ℕ × ℕ))
    → IsValid a
    → AllSmall a rs
    → IsApart (a.memory + a.offset) (a.memory + a.capacity) (allocate_all rs a).0
unfolding allocate_all
allocate_all-IsApart [] v s = omega arith
allocate_all-IsApart {a} ((size, alignment) ∷ rs) v s =
    elim (Option-cases (allocate size alignment a)) [
      | inl e ↦ rw (e, allocate_all) (omega arith)
      | inr ((p, a'), e) ↦
          let f = allocate-Placed size alignment v s.0 e in
          let rest =
            allocate_all-IsApart rs f.valid (AllSmall-congr a a' rs (sym f.capacity) s.1) in
          rw (e, allocate_all) (f.after, rw (← f.bumped, ← f.memory, ← f.capacity) rest)
    ]

-- In a valid arena, a request whose end wraps past 2^64, to within the capacity, is granted with a
-- block that reaches past the arena's memory.
pub allocate_wraps :
    (a : LinearArena) (size alignment : ℕ)
    → IsValid a
    → let o = align_offset a.offset alignment in
      2 ^ 64 ≤ o + size
      → o + size ≤ 2 ^ 64 + a.capacity
      → (allocate size alignment a ≡ some (a.memory + o, record a { offset = o + size - 2 ^ 64 }))
        × (a.memory + a.capacity < a.memory + o + size)
unfolding allocate
allocate_wraps a size alignment v h k = ground arith
