-- ===== src/HashMap/Count.antt =====
-- `size_` counts the occupied slots.
use native.Mathlib.Nat.{mod-lt}
use l3_lock_free_orderbook_e.Prelude.{
  ℕ, zero, suc, ◌+◌, ◌^◌, ◌<◌, ◌≤◌, ◌≡◌, inl, inr, refl, sym, Bool, true, false, some, update,
  arith, if◌then◌else◌, ==_iff, Option-cases,
}
use l3_lock_free_orderbook_e.HashMap.{
  Entry, FlatHashMap, hash, new, insert, find_slot, remove, clear,
}
use l3_lock_free_orderbook_e.HashMap.Probe.{
  write_slot, vacate_slot, find_loop_sound, find_loop-lt, target_loop-lt,
}
use l3_lock_free_orderbook_e.HashMap.Laws.{target, insert-target, remove-find_slot}

abbrev pub to_ℕ : Bool → ℕ
to_ℕ true = 1
to_ℕ false = 0

module _ {ℓ} {V : Type ℓ} where
  -- The occupied slots below `n`.
  pub count_occupied : ℕ → (ℕ → Entry V) → ℕ
  count_occupied zero es = 0
  count_occupied (suc n) es = count_occupied n es + to_ℕ (es n).occupied

  count_occupied-le : (n : ℕ) (es : ℕ → Entry V) → count_occupied n es ≤ n
  unfolding count_occupied
  count_occupied-le zero es = omega arith
  count_occupied-le (suc n) es = ground (arith, count_occupied-le n es)

  count_occupied-above :
      (n : ℕ) (es : ℕ → Entry V) (i : ℕ) (e : Entry V)
      → n ≤ i
      → count_occupied n (update es i e) ≡ count_occupied n es
  unfolding count_occupied
  count_occupied-above zero es i e h = refl
  count_occupied-above (suc n) es i e h = ground (arith, count_occupied-above n es i e, ==_iff i n)

  count_occupied-update :
      (n : ℕ) (es : ℕ → Entry V) (i : ℕ) (e : Entry V)
      → i < n
      → count_occupied n (update es i e) + to_ℕ (es i).occupied
        ≡ count_occupied n es + to_ℕ e.occupied
  unfolding count_occupied
  count_occupied-update zero es i e h = elim h [ ]
  count_occupied-update (suc n) es i e h =
      ground (arith, count_occupied-update n es i e, count_occupied-above n es i e, ==_iff i n)

  module _ (capacity : ℕ) where
    pub record IsCounted (m : FlatHashMap V) : Type 0 where
      pub counted : m.size ≡ count_occupied capacity m.entries

    new-IsCounted_aux : (v : V) (n : ℕ) → count_occupied n (new v).entries ≡ 0
    unfolding count_occupied new
    new-IsCounted_aux v zero = refl
    new-IsCounted_aux v (suc n) = omega (arith, new-IsCounted_aux v n)

    pub new-IsCounted : (v : V) → IsCounted (new v)
    unfolding new
    new-IsCounted v = record { counted = sym (new-IsCounted_aux v capacity) }

    count-clear :
        (m : FlatHashMap V) (n : ℕ) → n ≤ capacity → count_occupied n (clear capacity m).entries ≡ 0
    unfolding count_occupied clear
    count-clear m zero h = refl
    count-clear m (suc n) h = ground (arith, count-clear m n)

    module _ (m : FlatHashMap V) (t : ℕ) (lt : t < capacity) (small : capacity < 2 ^ 64)
        (c : IsCounted m) where
      changed : (e : Entry V) → count_occupied capacity (update m.entries t e) ≤ capacity
      changed e = count_occupied-le capacity _

      write-IsCounted : (key : ℕ) (value : V) → IsCounted (write_slot capacity key value m t)
      write-IsCounted key value =
          let e : Entry V = record {
            key = if (m.entries t).occupied then (m.entries t).key else key;
            value = value;
            occupied = true;
          } in
          record {
            counted =
                ground
                  (arith, c.counted, count_occupied-update capacity m.entries t e lt, changed e);
          }

      vacate-IsCounted : (m.entries t).occupied ≡ true → IsCounted (vacate_slot capacity m t)
      vacate-IsCounted o =
          let e : Entry V = record (m.entries t) { occupied = false } in
          let all = count_occupied-le capacity m.entries in
          record {
            counted =
                ground (arith, c.counted, count_occupied-update capacity m.entries t e lt, all);
          }

    target-lt :
        (key : ℕ) (m : FlatHashMap V) {t : ℕ}
        → 0 < capacity
        → target capacity key m ≡ some t
        → t < capacity
    unfolding target
    target-lt key m pos e = target_loop-lt capacity capacity _ key m pos (mod-lt (hash key) pos) e

    find_slot-lt :
        (key : ℕ) (m : FlatHashMap V) {t : ℕ}
        → 0 < capacity
        → find_slot capacity key m ≡ some t
        → (t < capacity) × ((m.entries t).occupied ≡ true)
    unfolding find_slot
    find_slot-lt key m pos e = (
      find_loop-lt capacity capacity _ key m pos (mod-lt (hash key) pos) e,
      (find_loop_sound capacity capacity _ key m e).0,
    )

    clear-IsCounted : (m : FlatHashMap V) → IsCounted (clear capacity m)
    unfolding clear
    clear-IsCounted m = record { counted = sym (count-clear m capacity (omega arith)) }

    -- For a positive capacity below 2^64, `size_` stays the number of occupied slots: `insert` adds one when it fills a vacant slot,
    -- `remove` takes one away when it finds its key, and `clear` leaves none.
    pub size-IsCounted :
        {m : FlatHashMap V}
        → 0 < capacity
        → capacity < 2 ^ 64
        → IsCounted m
        → ((key : ℕ) (value : V) → IsCounted (insert capacity key value m).1)
          × ((key : ℕ) → IsCounted (remove capacity key m).1)
          × IsCounted (clear capacity m)
    size-IsCounted {m} pos small c = (
      λ key value. elim (Option-cases (target capacity key m)) [
        | inl e ↦ rw (insert-target capacity key value m, e) c
        | inr (t, e) ↦
            rw (insert-target capacity key value m, e)
              (write-IsCounted m t (target-lt key m pos e) small c key value)
      ],
      λ key. elim (Option-cases (find_slot capacity key m)) [
        | inl e ↦ rw (remove-find_slot capacity key m, e) c
        | inr (t, e) ↦
            rw (remove-find_slot capacity key m, e)
              (let f = find_slot-lt key m pos e in vacate-IsCounted m t f.0 small c f.1)
      ],
      clear-IsCounted m,
    )
