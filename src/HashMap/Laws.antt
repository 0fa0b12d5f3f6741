-- ===== src/HashMap/Laws.antt =====
-- What `find` sees after `insert` and after `remove`, in every table.
use native.Mathlib.Nat.{mod-lt, mod-eq_of_lt, mod-add-mod, add-mod-mod, add-mod_right, add-zero}
use l3_lock_free_orderbook_e.Prelude.{
  ℕ, zero, suc, ◌+◌, ◌-◌, ◌%◌, ◌<◌, ◌≡◌, ◌≢◌, ◌⊎◌, inl, inr, refl, ap, ◌∙◌, true, false, Option,
  none, some, arith, ==_iff, Option-cases, is_some,
}
use l3_lock_free_orderbook_e.HashMap.{FlatHashMap, hash, insert, find_slot, find, remove}
use l3_lock_free_orderbook_e.HashMap.Probe.{
  target_loop, write_slot, vacate_slot, insert_loop-target, remove_loop-find, find_loop-write_self,
  find_loop-vacate_self, find_loop-vacate, find_loop-vacant,
}

module _ {ℓ} {V : Type ℓ} (capacity : ℕ) where
  unfoldable pub target : ℕ → FlatHashMap V → Option ℕ
  target key m = target_loop capacity capacity (hash key % capacity) key m

  -- `insert` writes to the target slot, if there is one.
  pub insert-target :
      (key : ℕ) (value : V) (m : FlatHashMap V)
      → insert capacity key value m ≡ elim (target key m) [
        | none ↦ (false, m)
        | some i ↦ (true, write_slot capacity key value m i)
      ]
  unfolding insert target
  insert-target key value m = insert_loop-target capacity capacity _ key value m

  pub remove-find_slot :
      (key : ℕ) (m : FlatHashMap V)
      → remove capacity key m ≡ elim (find_slot capacity key m) [
        | none ↦ (false, m)
        | some i ↦ (true, vacate_slot capacity m i)
      ]
  unfolding remove find_slot
  remove-find_slot key m = remove_loop-find capacity capacity _ key m

  pub find_slot-write_self :
      (key : ℕ) (value : V) (m : FlatHashMap V) {i : ℕ}
      → target key m ≡ some i
      → find_slot capacity key (write_slot capacity key value m i) ≡ some i
  unfolding target find_slot
  find_slot-write_self key value m e = find_loop-write_self capacity capacity _ key value m e

  pub find-slot_none :
      (key : ℕ) (m : FlatHashMap V) → find_slot capacity key m ≡ none → find capacity key m ≡ none
  unfolding find
  find-slot_none key m e = rw (e, find)

  pub find-slot_some :
      (key : ℕ) (m : FlatHashMap V) {i : ℕ}
      → find_slot capacity key m ≡ some i
      → find capacity key m ≡ some (m.entries i).value
  unfolding find
  find-slot_some key m e = rw (e, find)

  -- After an `insert` that returns true, `find` of the key returns the value.
  pub find-insert_self :
      (key : ℕ) (value : V) (m : FlatHashMap V)
      → (insert capacity key value m).0 ≡ true
      → find capacity key (insert capacity key value m).1 ≡ some value
  find-insert_self key value m = elim (Option-cases (target key m)) [
    | inl e ↦ rw (insert-target key value m, e) (λ h. cc)
    | inr (i, e) ↦
        rw (insert-target key value m, e)
          (λ h.
            find-slot_some key _ (find_slot-write_self key value m e) ∙ ground (arith, ==_iff i i))
  ]

  -- All slots of a walk that finds no target hold other keys.
  target_loop-none :
      (left idx key : ℕ) (m : FlatHashMap V)
      → idx < capacity
      → target_loop capacity left idx key m ≡ none
      → (j : ℕ) → j < left
      → ((m.entries ((idx + j) % capacity)).occupied ≡ true)
        × ((m.entries ((idx + j) % capacity)).key ≢ key)
  unfolding target_loop
  target_loop-none zero idx key m c e j h = elim h [ ]
  target_loop-none (suc left) idx key m c e zero h =
      let k : (idx + 0) % capacity ≡ idx = ap (λ x. x % capacity) (add-zero idx) ∙ mod-eq_of_lt c in
      rw k (ground arith)
  target_loop-none (suc left) idx key m c e (suc j) h =
      let k : (idx + suc j) % capacity ≡ ((idx + 1) % capacity + j) % capacity =
        rw mod-add-mod (ap (λ x. x % capacity) (omega arith)) in
      rw k (
        target_loop-none left ((idx + 1) % capacity) key m (mod-lt _ (omega arith)) (ground arith) j
          (omega arith))

  -- `insert` returns false only when every slot holds another key, and then it changes nothing.
  pub insert-false :
      (key : ℕ) (value : V) (m : FlatHashMap V)
      → (insert capacity key value m).0 ≡ false
      → ((insert capacity key value m).1 ≡ m)
        × ((i : ℕ) → i < capacity → ((m.entries i).occupied ≡ true) × ((m.entries i).key ≢ key))
  unfolding target
  insert-false key value m = elim (Option-cases (target key m)) [
    | inl e ↦
        rw (insert-target key value m, e)
          (λ h. (
            refl,
            λ i lt.
                let home = hash key % capacity in
                let c : home < capacity = mod-lt (hash key) (omega arith) in
                let k : (home + (i + capacity - home) % capacity) % capacity ≡ i = rw add-mod-mod (
                  ap (λ x. x % capacity) (omega arith)
                  ∙ add-mod_right i capacity
                  ∙ mod-eq_of_lt lt) in
                rw k at (
                  target_loop-none capacity home key m c e _
                    (mod-lt (i + capacity - home) (omega arith))),
          ))
    | inr (i, e) ↦ rw (insert-target key value m, e) (λ h. cc)
  ]

  find_slot-vacate_self :
      (key : ℕ) (m : FlatHashMap V) {i : ℕ}
      → find_slot capacity key m ≡ some i
      → find_slot capacity key (vacate_slot capacity m i) ≡ none
  unfolding find_slot
  find_slot-vacate_self key m e = find_loop-vacate_self capacity capacity _ key m e

  -- `remove` says whether the key was found, and then it is found no more.
  pub find-remove_self :
      (key : ℕ) (m : FlatHashMap V)
      → ((remove capacity key m).0 ≡ is_some (find capacity key m))
        × (find capacity key (remove capacity key m).1 ≡ none)
  find-remove_self key m = elim (Option-cases (find_slot capacity key m)) [
    | inl e ↦ rw (remove-find_slot key m, e, find-slot_none key m e) (refl, refl)
    | inr (i, e) ↦
        rw (remove-find_slot key m, e, find-slot_some key m e)
          (refl, find-slot_none key _ (find_slot-vacate_self key m e))
  ]

  find_slot-vacate :
      (q : ℕ) (m : FlatHashMap V) (t : ℕ)
      → (find_slot capacity q (vacate_slot capacity m t) ≡ find_slot capacity q m)
        ⊎ (find_slot capacity q (vacate_slot capacity m t) ≡ none)
  unfolding find_slot
  find_slot-vacate q m t = find_loop-vacate capacity capacity _ q m t

  find-vacate_kept :
      (q : ℕ) (m : FlatHashMap V) (t : ℕ)
      → find_slot capacity q (vacate_slot capacity m t) ≡ find_slot capacity q m
      → find capacity q (vacate_slot capacity m t) ≡ find capacity q m
  unfolding find
  find-vacate_kept q m t kept = ground (arith, ==_iff t t)

  -- For another key, `remove` leaves what `find` returns, or makes it return the null pointer.
  find-remove_other :
      (key q : ℕ) (m : FlatHashMap V)
      → q ≢ key
      → (find capacity q (remove capacity key m).1 ≡ find capacity q m)
        ⊎ (find capacity q (remove capacity key m).1 ≡ none)
  find-remove_other key q m ne = elim (Option-cases (find_slot capacity key m)) [
    | inl e ↦ rw (remove-find_slot key m, e) (inl refl)
    | inr (t, e) ↦
        rw (remove-find_slot key m, e)
          (elim (find_slot-vacate q m t) [
            | inr gone ↦ inr (find-slot_none q _ gone)
            | inl kept ↦ inl (find-vacate_kept q m t kept)
          ])
  ]

  -- An entry on whose walk another key stands first is lost when that key is removed.
  pub remove_hides :
      (key q : ℕ) (m : FlatHashMap V)
      → find_slot capacity key m ≡ some (hash q % capacity)
      → find capacity q (remove capacity key m).1 ≡ none
  unfolding find_slot
  remove_hides key q m e =
      let home = hash q % capacity in
      rw (remove-find_slot key m, e)
        (find-slot_none q _ (
          find_loop-vacant capacity capacity home q (vacate_slot capacity m home)
            (ground (arith, ==_iff home home))))
