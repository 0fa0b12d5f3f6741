-- ===== src/Pool/Tests.antt =====
-- `ObjectPool` of three numbers.
use l3_lock_free_orderbook_e.Prelude.{
  ℕ, ◌≡◌, refl, Option, none, some, [], ◌∷◌, Run, ok, fault, ◌>>=◌, arith,
}
use l3_lock_free_orderbook_e.Pool.{ObjectPool, new, acquire, release}
use l3_lock_free_orderbook_e.Pool.FreeList.{IsValid, Acquired, Released, acquire-cons, release-live}
use l3_lock_free_orderbook_e.Pool.Init.{new-IsValid}

abbrev script : Run (Option ℕ × Option ℕ × Option ℕ × Option ℕ × Option ℕ × ℕ)
script = do
  (a, p) ← acquire 10 (new {T = ℕ} 3)
  (b, p) ← acquire 11 p
  (c, p) ← acquire 12 p
  (d, p) ← acquire 13 p
  p ← release b p
  (e, p) ← acquire 14 p
  ok (a, b, c, d, e, p.available)

-- The fourth request is refused, and the slot given back is the next one given out.
script_run : script ≡ ok (some 0, some 1, some 2, none, some 1, 0)
unfolding new acquire release
script_run = refl

release_twice : (acquire 10 (new {T = ℕ} 3) >>= λ r. release r.0 r.1 >>= release r.0) ≡ fault
unfolding new acquire release
release_twice = refl

new-IsValid_example : IsValid {T = ℕ} 3 (new 3) (0 ∷ 1 ∷ 2 ∷ [])
new-IsValid_example = new-IsValid 3 (omega arith)

acquire_ten :
    (p' : ObjectPool ℕ) × (acquire 10 (new 3) ≡ ok (some 0, p'))
    × Acquired 3 (new 3) 10 0 (1 ∷ 2 ∷ []) p'
acquire_ten = acquire-cons 10 (new-IsValid 3 (omega arith))

abbrev taken : ObjectPool ℕ
taken = acquire_ten.0

taken-IsValid : IsValid 3 taken (1 ∷ 2 ∷ [])
taken-IsValid = acquire_ten.2.valid

release-live_example :
    (p' : ObjectPool ℕ) × (release (some 0) taken ≡ ok p') × Released 3 taken 0 (1 ∷ 2 ∷ []) p'
release-live_example = release-live 0 10 taken-IsValid (omega arith) (acquire_ten.2.view 0)
