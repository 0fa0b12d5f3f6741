-- ===== src/HashMap/Probe.antt =====
-- The three loops of `FlatHashMap` walk the same slots: where each of them stops.
use l3_lock_free_orderbook_e.Prelude.{
  ℕ, zero, suc, ◌+◌, ◌%◌, ◌<◌, ◌≡◌, ◌⊎◌, inl, refl, true, false, Option, none, some, update, ◌==◌,
  arith, if◌then◌else◌, ==_iff,
}
use l3_lock_free_orderbook_e.Prelude.Word.{add64, sub64}
use l3_lock_free_orderbook_e.HashMap.{FlatHashMap, insert_loop, find_loop, remove_loop}

module _ {ℓ} {V : Type ℓ} (capacity : ℕ) where
  -- The first slot on the walk that is not occupied or holds the key.
  unfoldable pub target_loop : ℕ → ℕ → ℕ → FlatHashMap V → Option ℕ
  target_loop zero idx key m = none
  target_loop (suc left) idx key m =
      let rest = target_loop left ((idx + 1) % capacity) key m in
      let e = m.entries idx in
      if e.occupied then (if e.key == key then some idx else rest) else some idx

  -- The write of `insert` to the slot `i`.
  abbrev pub write_slot : ℕ → V → FlatHashMap V → ℕ → FlatHashMap V
  write_slot key value m i =
      let e = m.entries i in
      record {
        entries =
            update m.entries i
              (record { key = if e.occupied then e.key else key; value = value; occupied = true });
        size = if e.occupied then m.size else add64 m.size 1;
      }

  -- The write of `remove` to the slot `i`.
  abbrev pub vacate_slot : FlatHashMap V → ℕ → FlatHashMap V
  vacate_slot m i = record {
    entries = update m.entries i (record (m.entries i) { occupied = false });
    size = sub64 m.size 1;
  }

  pub insert_loop-target :
      (left idx key : ℕ) (value : V) (m : FlatHashMap V)
      → insert_loop capacity left idx key value m ≡ elim (target_loop left idx key m) [
        | none ↦ (false, m)
        | some i ↦ (true, write_slot key value m i)
      ]
  unfolding insert_loop target_loop
  insert_loop-target zero idx key value m = refl
  insert_loop-target (suc left) idx key value m =
      ground (arith, insert_loop-target left ((idx + 1) % capacity) key value m)

  pub remove_loop-find :
      (left idx key : ℕ) (m : FlatHashMap V)
      → remove_loop capacity left idx key m ≡ elim (find_loop capacity left idx key m) [
        | none ↦ (false, m)
        | some i ↦ (true, vacate_slot m i)
      ]
  unfolding remove_loop find_loop
  remove_loop-find zero idx key m = refl
  remove_loop-find (suc left) idx key m =
      ground (arith, remove_loop-find left ((idx + 1) % capacity) key m)

  -- What `find` returns holds the key.
  pub find_loop_sound :
      (left idx key : ℕ) (m : FlatHashMap V) {i : ℕ}
      → find_loop capacity left idx key m ≡ some i
      → ((m.entries i).occupied ≡ true) × ((m.entries i).key ≡ key)
  unfolding find_loop
  find_loop_sound zero idx key m e = cc
  find_loop_sound (suc left) idx key m {i} e =
      ground (arith, find_loop_sound left ((idx + 1) % capacity) key m {i = i})

  pub find_loop-lt :
      (left idx key : ℕ) (m : FlatHashMap V) {i : ℕ}
      → 0 < capacity
      → idx < capacity
      → find_loop capacity left idx key m ≡ some i
      → i < capacity
  unfolding find_loop
  find_loop-lt zero idx key m c h e = cc
  find_loop-lt (suc left) idx key m {i} c h e =
      ground (arith, find_loop-lt left ((idx + 1) % capacity) key m {i = i})

  pub target_loop-lt :
      (left idx key : ℕ) (m : FlatHashMap V) {i : ℕ}
      → 0 < capacity
      → idx < capacity
      → target_loop left idx key m ≡ some i
      → i < capacity
  unfolding target_loop
  target_loop-lt zero idx key m c h e = cc
  target_loop-lt (suc left) idx key m {i} c h e =
      ground (arith, target_loop-lt left ((idx + 1) % capacity) key m {i = i})

  -- What the target slot holds.
  pub target_loop_sound :
      (left idx key : ℕ) (m : FlatHashMap V) {i : ℕ}
      → target_loop left idx key m ≡ some i
      → (m.entries i).occupied ≡ true
      → (m.entries i).key ≡ key
  unfolding target_loop
  target_loop_sound zero idx key m e o = cc
  target_loop_sound (suc left) idx key m {i} e o =
      ground (arith, target_loop_sound left ((idx + 1) % capacity) key m {i = i})

  -- After a write to its target, a key is found there.
  pub find_loop-write_self :
      (left idx key : ℕ) (value : V) (m : FlatHashMap V) {i : ℕ}
      → target_loop left idx key m ≡ some i
      → find_loop capacity left idx key (write_slot key value m i) ≡ some i
  unfolding find_loop target_loop
  find_loop-write_self zero idx key value m e = cc
  find_loop-write_self (suc left) idx key value m {i} e = ground (
    arith,
    find_loop-write_self left ((idx + 1) % capacity) key value m {i = i},
    target_loop_sound left ((idx + 1) % capacity) key m {i = i},
  )

  -- A write to another key's target leaves a key that was found where it is.
  pub find_loop-write :
      (left idx key q : ℕ) (value : V) (m : FlatHashMap V) (t : ℕ) {i : ℕ}
      → ((m.entries t).occupied ≡ true → (m.entries t).key ≡ key)
      → find_loop capacity left idx q m ≡ some i
      → find_loop capacity left idx q (write_slot key value m t) ≡ some i
  unfolding find_loop
  find_loop-write zero idx key q value m t h e = cc
  find_loop-write (suc left) idx key q value m t {i} h e =
      ground
        (arith, find_loop-write left ((idx + 1) % capacity) key q value m t {i = i}, ==_iff t idx)

  -- A key whose slot is vacated is found no more on that walk.
  pub find_loop-vacate_self :
      (left idx key : ℕ) (m : FlatHashMap V) {i : ℕ}
      → find_loop capacity left idx key m ≡ some i
      → find_loop capacity left idx key (vacate_slot m i) ≡ none
  unfolding find_loop
  find_loop-vacate_self zero idx key m e = cc
  find_loop-vacate_self (suc left) idx key m {i} e =
      ground
        (arith, find_loop-vacate_self left ((idx + 1) % capacity) key m {i = i}, ==_iff idx idx)

  -- A vacated slot ends the walk of another key, or that walk does not meet it.
  pub find_loop-vacate :
      (left idx q : ℕ) (m : FlatHashMap V) (t : ℕ)
      → (find_loop capacity left idx q (vacate_slot m t) ≡ find_loop capacity left idx q m)
        ⊎ (find_loop capacity left idx q (vacate_slot m t) ≡ none)
  unfolding find_loop
  find_loop-vacate zero idx q m t = inl refl
  find_loop-vacate (suc left) idx q m t =
      ground (arith, find_loop-vacate left ((idx + 1) % capacity) q m t)

  -- A walk stops at once where the slot is vacant.
  pub find_loop-vacant :
      (left idx key : ℕ) (m : FlatHashMap V)
      → (m.entries idx).occupied ≡ false
      → find_loop capacity left idx key m ≡ none
  unfolding find_loop
  find_loop-vacant zero idx key m e = refl
  find_loop-vacant (suc left) idx key m e = rw e

  pub target_loop-vacant :
      (left idx key : ℕ) (m : FlatHashMap V)
      → 0 < left
      → (m.entries idx).occupied ≡ false
      → target_loop left idx key m ≡ some idx
  unfolding target_loop
  target_loop-vacant zero idx key m h e = absurd (omega arith)
  target_loop-vacant (suc left) idx key m h e = rw e
