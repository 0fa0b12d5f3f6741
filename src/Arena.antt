-- ===== src/Arena.antt =====
-- class LinearArena of include/orderbook/arena.hpp. `memory` is the address of the block of
-- `capacity` bytes that the constructor takes from `operator new[]`. `allocate` returns an address,
-- and `none` where the code throws `std::bad_alloc`. Sums are of `size_t` and wrap. The code takes any
-- alignment; its mask aligns the offset where the alignment is a power of two.
pub mod Mask
pub mod Bounds
pub mod Alloc
mod Tests
use Prim.Native.Nat.{bit_and}
use l3_lock_free_orderbook_e.Prelude.{ℕ, ◌+◌, Option, none, some, List, [], ◌∷◌, ltb, if◌then◌else◌}
use l3_lock_free_orderbook_e.Prelude.Word.{add64, sub64, not64}

pub record LinearArena : Type 0 where
  pub memory : ℕ
  pub capacity : ℕ
  pub offset : ℕ

unfoldable pub new : (memory initial_capacity : ℕ) → LinearArena
new memory initial_capacity = record { memory = memory; capacity = initial_capacity; offset = 0 }

-- `(offset_ + alignment - 1) & ~(alignment - 1)`
unfoldable pub align_offset : ℕ → ℕ → ℕ
align_offset offset alignment =
    bit_and (sub64 (add64 offset alignment) 1) (not64 (sub64 alignment 1))

unfoldable pub allocate : (size alignment : ℕ) → LinearArena → Option (ℕ × LinearArena)
allocate size alignment a =
    let aligned_offset = align_offset a.offset alignment in
    if ltb a.capacity (add64 aligned_offset size)
    then none
    else some (a.memory + aligned_offset, record a { offset = add64 aligned_offset size })

unfoldable pub reset : LinearArena → LinearArena
reset a = record a { offset = 0 }

unfoldable pub used : LinearArena → ℕ
used a = a.offset

unfoldable pub available : LinearArena → ℕ
available a = sub64 a.capacity a.offset

-- A client's requests in order, each a size and an alignment, and the blocks that it gets, each an
-- address and a size. It stops at the first `std::bad_alloc`.
unfoldable pub allocate_all : List (ℕ × ℕ) → LinearArena → List (ℕ × ℕ) × LinearArena
allocate_all [] a = ([], a)
allocate_all ((size, alignment) ∷ rs) a = elim (allocate size alignment a) [
  | none ↦ ([], a)
  | some (p, a') ↦ let (blocks, last) = allocate_all rs a' in ((p, size) ∷ blocks, last)
]
