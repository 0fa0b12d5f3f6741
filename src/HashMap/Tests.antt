-- ===== src/HashMap/Tests.antt =====
-- `FlatHashMap` on eight slots. The keys 1 and 9 have one home slot there, 4.
use l3_lock_free_orderbook_e.Prelude.{
  ℕ, ◌%◌, ◌≡◌, ◌≢◌, ◌<◌, refl, true, none, some, arith, if◌then◌else◌, ◌==◌,
}
use l3_lock_free_orderbook_e.HashMap.{
  FlatHashMap, hash, new, insert, find_slot, find, remove, clear,
}
use l3_lock_free_orderbook_e.HashMap.Laws.{insert-false}
use l3_lock_free_orderbook_e.HashMap.Refine.{IsProbed, new-IsProbed, insert_refines, remove_loses}
use l3_lock_free_orderbook_e.HashMap.Count.{IsCounted, new-IsCounted, size-IsCounted}

hash_run : (hash 1 % 8 ≡ 4) × (hash 9 % 8 ≡ 4) × (hash 1 ≡ 9929646806074584996)
unfolding hash
hash_run = (refl, refl, refl)

abbrev empty : FlatHashMap ℕ
empty = new 0

abbrev one : FlatHashMap ℕ
one = (insert 8 1 10 empty).1

abbrev two : FlatHashMap ℕ
two = (insert 8 9 90 one).1

-- The second key goes to the slot behind its home.
find_run : (find_slot 8 9 two ≡ some 5) × (find 8 1 two ≡ some 10) × (find 8 2 two ≡ none)
unfolding insert hash find find_slot new
find_run = (refl, refl, refl)

insert_refines_example :
    IsProbed 8 one × ((q : ℕ) → find 8 q one ≡ (if 1 == q then some 10 else find 8 q empty))
unfolding insert hash new
insert_refines_example = insert_refines 8 1 10 (omega arith) (new-IsProbed 8 0) refl

remove_loses_example : (find 8 9 two ≡ some 90) × (find 8 9 (remove 8 1 two).1 ≡ none)
unfolding insert hash new
remove_loses_example = remove_loses 8 empty 1 9 10 90 (omega arith) refl refl (omega arith) refl

-- One slot, held by another key.
abbrev full : FlatHashMap ℕ
full = record { entries = λ _. record { key = 7; value = 70; occupied = true }; size = 1 }

insert-false_example :
    ((insert 1 3 30 full).1 ≡ full)
    × ((i : ℕ) → i < 1 → (◌≡◌ {A = _} true true) × (◌≢◌ {A = ℕ} 7 3))
unfolding insert hash
insert-false_example = insert-false 1 3 30 full refl

size-IsCounted_example :
    ((key value : ℕ) → IsCounted 8 (insert 8 key value empty).1)
    × ((key : ℕ) → IsCounted 8 (remove 8 key empty).1)
    × IsCounted 8 (clear 8 empty)
size-IsCounted_example = size-IsCounted 8 (omega arith) (omega arith) (new-IsCounted 8 0)
