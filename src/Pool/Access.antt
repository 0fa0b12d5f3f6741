-- ===== src/Pool/Access.antt =====
-- Reads and writes of the objects of a pool.
use l3_lock_free_orderbook_e.Prelude.{
  ℕ, ◌≡◌, ◌∙◌, false, some, ok, List, update, arith, ◌==◌, ==_iff, if◌then◌else◌,
}
use l3_lock_free_orderbook_e.Pool.{ObjectPool, live, load, store}
use l3_lock_free_orderbook_e.Pool.FreeList.{view, view_of_mem, Linked-update, IsValid}

module _ {ℓ} {T : Type ℓ} where
  -- The pool after a write to the object in the slot `i`.
  pub written : ObjectPool T → ℕ → T → ObjectPool T
  written p i x = record p { storage = update p.storage i (live x) }

  pub load-view : (p : ObjectPool T) (i : ℕ) {x : T} → view p i ≡ some x → load (some i) p ≡ ok x
  unfolding load view
  load-view p i e = ground arith

  pub store-view :
      (p : ObjectPool T) (i : ℕ) (y : T) {x : T}
      → view p i ≡ some x
      → store (some i) y p ≡ ok (written p i y)
  unfolding store view written
  store-view p i y e = ground arith

  pub view-written :
      (p : ObjectPool T) (i : ℕ) (y : T) (j : ℕ)
      → view (written p i y) j ≡ (if i == j then some y else view p j)
  unfolding view written
  view-written p i y j = ground arith

  pub view-written_self : (p : ObjectPool T) (i : ℕ) (y : T) → view (written p i y) i ≡ some y
  view-written_self p i y = view-written p i y i ∙ ground (arith, ==_iff i i)

  pub view-written_ne :
      (p : ObjectPool T) (i : ℕ) (y : T) (j : ℕ)
      → (i == j) ≡ false
      → view (written p i y) j ≡ view p j
  view-written_ne p i y j ne = view-written p i y j ∙ rw ne

  -- A write to a live object keeps the pool valid.
  pub written-IsValid :
      (p : ObjectPool T) (i : ℕ) (y : T) {x : T} {cap : ℕ} {xs : List ℕ}
      → view p i ≡ some x
      → IsValid cap p xs
      → IsValid cap (written p i y) xs
  unfolding written view
  written-IsValid p i y {xs = xs} e v = record {
    head = v.head;
    linked =
        Linked-update p.storage i (live y) xs (ground (arith, view_of_mem p i xs v.linked))
          v.linked;
    distinct = v.distinct;
    counted = v.counted;
    small = v.small;
    cap_small = v.cap_small;
    inside = v.inside;
    others = λ j m h. ground (arith, v.others j m h);
  }
