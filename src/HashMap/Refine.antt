-- ===== src/HashMap/Refine.antt =====
-- A table in which every entry can be found is a finite map, and `insert` keeps it one. Where
-- `remove` breaks that.
use native.Mathlib.Nat.{mod-lt}
use l3_lock_free_orderbook_e.Prelude.{
  ℕ, ◌%◌, ◌<◌, ◌≡◌, ◌≢◌, inl, inr, sym, ◌∙◌, ap, true, false, none, some, ◌==◌, arith,
  if◌then◌else◌, ==_iff, Option-cases, Bool-cases,
}
use l3_lock_free_orderbook_e.HashMap.{FlatHashMap, hash, new, insert, find_slot, find, remove}
use l3_lock_free_orderbook_e.HashMap.Probe.{
  write_slot, find_loop_sound, find_loop-lt, target_loop-vacant, target_loop_sound, find_loop-write,
}
use l3_lock_free_orderbook_e.HashMap.Laws.{
  target, insert-target, find-slot_none, find-slot_some, find_slot-write_self, remove_hides,
  find-insert_self,
}

module _ {ℓ} {V : Type ℓ} (capacity : ℕ) where
  -- Every entry can be found from its key's home slot; so no key has two.
  pub record IsProbed (m : FlatHashMap V) : Type ℓ where
    pub found :
        (i : ℕ)
        → i < capacity
        → (m.entries i).occupied ≡ true
        → find_slot capacity (m.entries i).key m ≡ some i

  pub new-IsProbed : (v : V) → IsProbed (new v)
  unfolding new
  new-IsProbed v = record { found = λ i lt o. cc }

  module _ (m : FlatHashMap V) (pos : 0 < capacity) where
    find_slot_sound :
        (q : ℕ) {i : ℕ}
        → find_slot capacity q m ≡ some i
        → (i < capacity) × ((m.entries i).occupied ≡ true) × ((m.entries i).key ≡ q)
    unfolding find_slot
    find_slot_sound q e =
        let lt = find_loop-lt capacity capacity _ q m pos (mod-lt (hash q) pos) e in
        let (o, k) = find_loop_sound capacity capacity _ q m e in (lt, o, k)

    pub target_sound :
        (q : ℕ) {i : ℕ}
        → target capacity q m ≡ some i
        → (m.entries i).occupied ≡ true
        → (m.entries i).key ≡ q
    unfolding target
    target_sound q e o = target_loop_sound capacity capacity _ q m e o

  pub find_slot-write :
      (key q : ℕ) (value : V) (m : FlatHashMap V) (t : ℕ) {i : ℕ}
      → ((m.entries t).occupied ≡ true → (m.entries t).key ≡ key)
      → find_slot capacity q m ≡ some i
      → find_slot capacity q (write_slot capacity key value m t) ≡ some i
  unfolding find_slot
  find_slot-write key q value m t h e = find_loop-write capacity capacity _ key q value m t h e

  module _ {m : FlatHashMap V} (pos : 0 < capacity) (p : IsProbed m) (key : ℕ) (value : V) {t : ℕ}
      (at : target capacity key m ≡ some t) where
    abbrev written : FlatHashMap V
    written = write_slot capacity key value m t

    -- The key of the slot that was written.
    key_at : (written.entries t).key ≡ key
    key_at = ground (arith, ==_iff t t, target_sound m pos key at)

    -- An entry of another key stands where it stood.
    entry-other :
        (i q : ℕ)
        → (q == key) ≡ false
        → ((written.entries i).occupied ≡ true) × ((written.entries i).key ≡ q)
        → ((m.entries i).occupied ≡ true) × ((m.entries i).key ≡ q)
    entry-other i q ne h = ground (arith, ==_iff t i, ==_iff q key, target_sound m pos key at)

    found_before :
        (i q : ℕ)
        → (q == key) ≡ false
        → find_slot capacity q written ≡ some i
        → find_slot capacity q m ≡ some i
    found_before i q ne e =
        let (lt, o, k) = find_slot_sound written pos q e in
        let (o', k') = entry-other i q ne (o, k) in rw k' at (p.found i lt o')

    find_slot-other :
        (q : ℕ) → (q == key) ≡ false → find_slot capacity q written ≡ find_slot capacity q m
    find_slot-other q ne = elim (Option-cases (find_slot capacity q m)) [
      | inr (i, e) ↦ find_slot-write key q value m t (target_sound m pos key at) e ∙ sym e
      | inl e ↦ elim (Option-cases (find_slot capacity q written)) [
        | inl e' ↦ e' ∙ sym e
        | inr (i, e') ↦ absurd (ground (arith, found_before i q ne e'))
      ]
    ]

    entry_kept : (i : ℕ) → (t == i) ≡ false → written.entries i ≡ m.entries i
    entry_kept i ne = rw ne

    found_at_target :
        (i : ℕ) → (t == i) ≡ true → find_slot capacity (written.entries i).key written ≡ some i
    found_at_target i e =
        rw (← (==_iff t i).0 e, key_at) (find_slot-write_self capacity key value m at)

    found_elsewhere :
        (i : ℕ)
        → (t == i) ≡ false
        → i < capacity
        → (written.entries i).occupied ≡ true
        → find_slot capacity (written.entries i).key written ≡ some i
    found_elsewhere i ne lt o =
        find_slot-write key (written.entries i).key value m t (target_sound m pos key at)
          (rw (entry_kept i ne) (p.found i lt (ground (arith, entry_kept i ne))))

    pub written-IsProbed : IsProbed written
    written-IsProbed = record {
      found = λ i lt o. elim (Bool-cases (t == i)) [
        | inl e ↦ found_at_target i e
        | inr ne ↦ found_elsewhere i ne lt o
      ];
    }

    slot_other : (q i : ℕ) → (q == key) ≡ false → find_slot capacity q m ≡ some i → (t == i) ≡ false
    slot_other q i ne e =
        let (lt, o, k) = find_slot_sound m pos q e in
        ground (arith, ==_iff t i, ==_iff q key, target_sound m pos key at)

    find-elsewhere : (q : ℕ) → (q == key) ≡ false → find capacity q written ≡ find capacity q m
    find-elsewhere q ne = elim (Option-cases (find_slot capacity q m)) [
      | inl e ↦
          find-slot_none capacity q _ (find_slot-other q ne ∙ e)
          ∙ sym (find-slot_none capacity q m e)
      | inr (i, e) ↦
          find-slot_some capacity q _ (find_slot-other q ne ∙ e)
          ∙ ap (λ x. some x.value) (entry_kept i (slot_other q i ne e))
          ∙ sym (find-slot_some capacity q m e)
    ]

    pub find-written :
        (q : ℕ) → find capacity q written ≡ (if key == q then some value else find capacity q m)
    find-written q = elim (Bool-cases (key == q)) [
      | inl e ↦
          rw (e, ← (==_iff key q).0 e)
            (find-slot_some capacity key _ (find_slot-write_self capacity key value m at)
              ∙ ground (arith, ==_iff t t))
      | inr ne ↦ rw ne (find-elsewhere q (ground (arith, ==_iff key q, ==_iff q key)))
    ]

  -- An `insert` into such a table, of positive capacity, that returns true keeps it one, and changes
  -- what `find` returns at the key alone.
  pub insert_refines :
      {m : FlatHashMap V} (key : ℕ) (value : V)
      → 0 < capacity
      → IsProbed m
      → (insert capacity key value m).0 ≡ true
      → IsProbed (insert capacity key value m).1
        × ((q : ℕ)
            → find capacity q (insert capacity key value m).1
              ≡ (if key == q then some value else find capacity q m))
  insert_refines {m} key value pos p = elim (Option-cases (target capacity key m)) [
    | inl e ↦ rw (insert-target capacity key value m, e) (λ h. cc)
    | inr (t, e) ↦
        rw (insert-target capacity key value m, e)
          (λ h. (written-IsProbed pos p key value e, find-written pos p key value e))
  ]

  find_slot-insert :
      (key q : ℕ) (w : V) (m : FlatHashMap V) (pos : 0 < capacity) {i : ℕ}
      → find_slot capacity key m ≡ some i
      → find_slot capacity key (insert capacity q w m).1 ≡ some i
  find_slot-insert key q w m pos e = elim (Option-cases (target capacity q m)) [
    | inl none_left ↦ rw (insert-target capacity q w m, none_left) e
    | inr (t, at) ↦
        rw (insert-target capacity q w m, at)
          (find_slot-write q key w m t (target_sound m pos q at) e)
  ]

  target-vacant :
      (key : ℕ) (m : FlatHashMap V)
      → 0 < capacity
      → (m.entries (hash key % capacity)).occupied ≡ false
      → target capacity key m ≡ some (hash key % capacity)
  unfolding target
  target-vacant key m pos e = target_loop-vacant capacity capacity _ key m pos e

  -- For a positive capacity: two different keys with one home slot are inserted one behind the other
  -- where that slot was vacant, and the second insert returns true. The second key is then found with
  -- its value, and when the first is removed it is found no more.
  pub remove_loses :
      (m : FlatHashMap V) (key q : ℕ) (v w : V)
      → 0 < capacity
      → hash key % capacity ≡ hash q % capacity
      → (m.entries (hash q % capacity)).occupied ≡ false
      → q ≢ key
      → let m₁ = (insert capacity key v m).1 in
        let m₂ = (insert capacity q w m₁).1 in
        (insert capacity q w m₁).0 ≡ true
        → (find capacity q m₂ ≡ some w) × (find capacity q (remove capacity key m₂).1 ≡ none)
  remove_loses m key q v w pos home vacant ne ok =
      (find-insert_self capacity q w _ ok, remove_hides capacity key q _ first)
    where
      at : target capacity key m ≡ some (hash q % capacity)
      at = rw (← home) (target-vacant key m pos (rw home vacant))

      first :
          find_slot capacity key (insert capacity q w (insert capacity key v m).1).1
          ≡ some (hash q % capacity)
      first =
          find_slot-insert key q w _ pos
            (rw (insert-target capacity key v m, at) (find_slot-write_self capacity key v m at))
