-- ===== src/Arena/Tests.antt =====
-- `LinearArena` on concrete requests.
use l3_lock_free_orderbook_e.Prelude.{
  ℕ, ◌+◌, ◌-◌, ◌^◌, ◌≤◌, ◌<◌, ◌≡◌, ◌↔◌, refl, none, some, List, [], ◌∷◌, arith,
}
use l3_lock_free_orderbook_e.Arena.{LinearArena, new, align_offset, allocate, allocate_all}
use l3_lock_free_orderbook_e.Arena.Bounds.{IsValid, IsMultiple}
use l3_lock_free_orderbook_e.Arena.Alloc.{
  Fits, IsApart, allocate-Fits, allocate-none, allocate_all-IsApart, allocate_wraps,
}

abbrev small_arena : LinearArena
small_arena = record { memory = 4096; capacity = 64; offset = 5 }

abbrev requests : List (ℕ × ℕ)
requests = (8, 8) ∷ (3, 1) ∷ (16, 16) ∷ (40, 8) ∷ (1, 1) ∷ []

-- The fourth request does not fit, and the client stops there.
allocate_all_run :
    allocate_all requests small_arena
    ≡ ((4104, 8) ∷ (4112, 3) ∷ (4128, 16) ∷ [], record small_arena { offset = 48 })
unfolding allocate_all allocate align_offset
allocate_all_run = refl

new_run :
    allocate 32 16 (new 4096 64) ≡ some (4096, record { memory = 4096; capacity = 64; offset = 32 })
unfolding new allocate align_offset
new_run = refl

-- The mask for 3 leaves an offset of 1 where it is, which is no multiple of 3.
align_offset_run : align_offset 1 3 ≡ 1
unfolding align_offset
align_offset_run = refl

small_arena-IsValid : IsValid small_arena
small_arena-IsValid = omega arith

allocate-Fits_example : Fits small_arena 8 8 4104 (record small_arena { offset = 16 })
unfolding allocate align_offset
allocate-Fits_example = allocate-Fits 8 8 small_arena-IsValid (omega arith) (3, refl) refl

allocate-none_example :
    (allocate 60 8 small_arena ≡ none) ↔ ((q : ℕ) → 5 ≤ q → IsMultiple 8 q → 64 < q + 60)
allocate-none_example = allocate-none 60 8 small_arena-IsValid (omega arith) (3, refl)

allocate_all-IsApart_example : IsApart 4101 4160 (allocate_all requests small_arena).0
allocate_all-IsApart_example = allocate_all-IsApart requests small_arena-IsValid (omega arith)

allocate_wraps_example :
    (allocate (2 ^ 64 - 8) 8 small_arena ≡ some (4104, record small_arena { offset = 0 }))
    × (4160 < 4104 + (2 ^ 64 - 8))
unfolding align_offset
allocate_wraps_example =
    allocate_wraps small_arena (2 ^ 64 - 8) 8 small_arena-IsValid (omega arith) (omega arith)
