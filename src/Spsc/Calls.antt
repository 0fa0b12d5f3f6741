-- ===== src/Spsc/Calls.antt =====
-- What the accesses that `push` and `pop` are made of do to the ring.
use native.Mathlib.Nat.{mod-lt, mod-eq_of_lt, mod-add-mod, add-mod_right, mod-mod}
use l3_lock_free_orderbook_e.Prelude.{
  ℕ, ◌+◌, ◌-◌, ◌%◌, ◌<◌, ◌≡◌, ◌≢◌, inl, inr, sym, ap, ◌∙◌, true, false, List, [], ◌∷◌, ◌++◌, length,
  length-append, arith, ◌==◌, ==_iff, Bool-cases,
}
use l3_lock_free_orderbook_e.Spsc.{
  SpscQueue, push_check, write_item, publish_tail, pop_check, read_item, advance_head,
}
use l3_lock_free_orderbook_e.Spsc.Ring.{
  slot_injective, slot_suc, IsStored-congr, IsStored-update, IsStored-snoc, IsRing,
}

-- Going once around the ring.
slot_around : (c h n : ℕ) → h < c → n ≡ c → (h + n) % c ≡ h
slot_around c h n lt e = ap (λ k. (h + k) % c) e ∙ add-mod_right h c ∙ mod-eq_of_lt lt

slot_ne : (c h n : ℕ) → h < c → 0 < n → n < c → (h + n) % c ≢ h
slot_ne c h n lt pos below e =
    let same : n ≡ 0 =
      slot_injective c h n 0 lt below (omega arith)
        (e ∙ sym (mod-eq_of_lt lt) ∙ ap (λ k. k % c) (omega arith)) in
    omega arith

module _ {ℓ} {T : Type ℓ} (capacity : ℕ) where
  module _ {b k : ℕ} {q : SpscQueue T} {xs : List T} (r : IsRing capacity b k q xs) where
    next_tail : (q.tail + 1) % capacity ≡ (q.head + (length xs + 1)) % capacity
    next_tail =
        ap (λ t. (t + 1) % capacity) r.tail_at
        ∙ mod-add-mod (q.head + length xs) capacity 1
        ∙ ap (λ n. n % capacity) (omega arith)

    -- The next tail from the cached head.
    next_tail-cache : (q.tail + 1) % capacity ≡ (q.head_cache + (b + (length xs + 1))) % capacity
    next_tail-cache =
        next_tail
        ∙ ap (λ h. (h + (length xs + 1)) % capacity) r.cached_head
        ∙ mod-add-mod (q.head_cache + b) capacity (length xs + 1)
        ∙ ap (λ n. n % capacity) (omega arith)

    reread-IsRing : IsRing capacity 0 k (record q { head_cache = q.head }) xs
    reread-IsRing = record {
      head_lt = r.head_lt;
      tail_at = r.tail_at;
      room = omega (arith, r.room);
      cached_head = sym (mod-eq_of_lt r.head_lt) ∙ ap (λ n. n % capacity) (omega arith);
      head_cache_lt = r.head_lt;
      known_le = r.known_le;
      cached_tail = r.cached_tail;
      stored = r.stored;
    }

    reread_tail-IsRing : IsRing capacity b (length xs) (record q { tail_cache = q.tail }) xs
    reread_tail-IsRing = record {
      head_lt = r.head_lt;
      tail_at = r.tail_at;
      room = r.room;
      cached_head = r.cached_head;
      head_cache_lt = r.head_cache_lt;
      known_le = omega arith;
      cached_tail = r.tail_at;
      stored = r.stored;
    }

    -- The check of `push` says that there is room exactly when there is, whatever copy of the head the
    -- producer has.
    pub push_check-IsRing :
        (b' : ℕ) × IsRing capacity b' k (push_check capacity q).1 xs
        × ((push_check capacity q).0 ≡ true → b' + (length xs + 1) < capacity)
        × ((push_check capacity q).0 ≡ false → length xs + 1 ≡ capacity)
    unfolding push_check
    push_check-IsRing = elim (Bool-cases ((q.tail + 1) % capacity == q.head_cache)) [
      | inl e ↦ rw e (
        0,
        reread-IsRing,
        λ free. ground (
          arith,
          r.room,
          ==_iff ((q.tail + 1) % capacity) q.head,
          next_tail,
          slot_around capacity q.head (length xs + 1) r.head_lt,
        ),
        λ full. ground (
          arith,
          r.room,
          ==_iff ((q.tail + 1) % capacity) q.head,
          next_tail,
          slot_ne capacity q.head (length xs + 1) r.head_lt,
        ),
      )
      | inr e ↦ rw e (
        b,
        r,
        λ free. ground (
          arith,
          r.room,
          ==_iff ((q.tail + 1) % capacity) q.head_cache,
          next_tail-cache,
          slot_around capacity q.head_cache (b + (length xs + 1)) r.head_cache_lt,
        ),
        λ full. cc,
      )
    ]

    -- The check of `pop` says that there is an item exactly when there is, whatever copy of the tail the
    -- consumer has.
    pub pop_check-IsRing :
        (k' : ℕ) × IsRing capacity b k' (pop_check capacity q).1 xs
        × ((pop_check capacity q).0 ≡ true → 0 < k')
        × ((pop_check capacity q).0 ≡ false → length xs ≡ 0)
    unfolding pop_check
    pop_check-IsRing = elim (Bool-cases (q.head == q.tail_cache)) [
      | inl e ↦ rw e (
        length xs,
        reread_tail-IsRing,
        λ found. ground (arith, ==_iff q.head q.tail, r.tail_at, slot_zero (length xs)),
        λ absent. ground (
          arith,
          r.room,
          ==_iff q.head q.tail,
          r.tail_at,
          slot_ne capacity q.head (length xs) r.head_lt,
        ),
      )
      | inr e ↦ rw e (
        k,
        r,
        λ found. ground (arith, ==_iff q.head q.tail_cache, r.cached_tail, slot_zero k),
        λ absent. cc,
      )
    ]
      where
        slot_zero : (n : ℕ) → n ≡ 0 → (q.head + n) % capacity ≡ q.head
        slot_zero n e = ap (λ m. m % capacity) (omega arith) ∙ mod-eq_of_lt r.head_lt

    -- Writing behind the last item leaves the items as they are.
    pub write_item-IsRing :
        (x : T)
        → b + (length xs + 1) < capacity
        → IsRing capacity b k (write_item capacity x q) xs
          × ((write_item capacity x q).buffer ((q.head + length xs) % capacity) ≡ x)
    unfolding write_item
    write_item-IsRing x free =
        let at : q.tail % capacity ≡ (q.head + length xs) % capacity =
          ap (λ t. t % capacity) r.tail_at ∙ mod-mod (q.head + length xs) capacity in
        (
          record {
            head_lt = r.head_lt;
            tail_at = r.tail_at;
            room = r.room;
            cached_head = r.cached_head;
            head_cache_lt = r.head_cache_lt;
            known_le = r.known_le;
            cached_tail = r.cached_tail;
            stored =
                IsStored-update capacity q.buffer q.head (q.tail % capacity) x xs
                  (λ i lt e.
                    let same : i ≡ length xs =
                      slot_injective capacity q.head i (length xs) r.head_lt (omega arith)
                        (omega arith) (e ∙ at) in
                    omega arith)
                  r.stored;
          },
          ground (arith, ==_iff (q.tail % capacity) ((q.head + length xs) % capacity)),
        )

    -- The tail is moved behind the item that has been written.
    pub publish_tail-IsRing :
        (x : T)
        → b + (length xs + 1) < capacity
        → q.buffer ((q.head + length xs) % capacity) ≡ x
        → IsRing capacity b k (publish_tail capacity q) (xs ++ x ∷ [])
    unfolding publish_tail
    publish_tail-IsRing x free e =
        let longer : length (xs ++ x ∷ []) ≡ length xs + 1 = length-append xs (x ∷ []) in
        record {
          head_lt = r.head_lt;
          tail_at = next_tail ∙ ap (λ n. (q.head + n) % capacity) (sym longer);
          room = omega (arith, longer);
          cached_head = r.cached_head;
          head_cache_lt = r.head_cache_lt;
          known_le = omega (arith, longer, r.known_le);
          cached_tail = r.cached_tail;
          stored = IsStored-snoc capacity q.buffer q.head xs x r.stored e;
        }

  -- The item at the head is the first of the ring.
  pub read_item-first :
      {b k : ℕ} {q : SpscQueue T} (x : T) (xs : List T)
      → IsRing capacity b k q (x ∷ xs)
      → read_item capacity q ≡ x
  unfolding read_item
  read_item-first x xs r = r.stored.0

  -- Moving the head takes the first item away.
  pub advance_head-IsRing :
      {b k : ℕ} {q : SpscQueue T} (x : T) (xs : List T)
      → 0 < k
      → IsRing capacity b k q (x ∷ xs)
      → IsRing capacity (b + 1) (k - 1) (advance_head capacity q) xs
  unfolding advance_head
  advance_head-IsRing {b} {k} {q} x xs pos r =
      let pos_capacity : 0 < capacity = omega (arith, r.head_lt) in
      record {
        head_lt = mod-lt (q.head + 1) pos_capacity;
        tail_at =
            r.tail_at
            ∙ ap (λ n. (q.head + n) % capacity) (omega arith)
            ∙ sym (slot_suc capacity q.head (length xs));
        room = omega (arith, r.room);
        cached_head =
            ap (λ h. (h + 1) % capacity) r.cached_head
            ∙ mod-add-mod (q.head_cache + b) capacity 1
            ∙ ap (λ n. n % capacity) (omega arith);
        head_cache_lt = r.head_cache_lt;
        known_le = omega (arith, r.known_le);
        cached_tail =
            r.cached_tail
            ∙ ap (λ n. (q.head + n) % capacity) (omega arith)
            ∙ sym (slot_suc capacity q.head (k - 1));
        stored =
            IsStored-congr capacity q.buffer (q.head + 1) ((q.head + 1) % capacity) xs
              (sym (mod-mod (q.head + 1) capacity)) r.stored.1;
      }
