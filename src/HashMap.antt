-- ===== src/HashMap.antt =====
-- class FlatHashMap of include/orderbook/orderbook.hpp: open addressing with linear probing. The
-- keys are `uint64_t`. `entries_` is an array, read and written below `capacity` alone; the capacity
-- is a power of two, so that `x & MASK` is the remainder of `x`. A loop runs on the probes left,
-- `Capacity - probe`.
pub mod Probe
pub mod Laws
pub mod Refine
pub mod Count
mod Tests
use Prim.Native.Nat.{bit_xor}
use l3_lock_free_orderbook_e.Prelude.{
  ℕ, zero, suc, ◌+◌, ◌*◌, ◌/◌, ◌%◌, ◌^◌, Bool, true, false, Option, none, some, update, ◌==◌,
  if◌then◌else◌, ltb,
}
use l3_lock_free_orderbook_e.Prelude.Word.{u64, add64, sub64}

pub record Entry {ℓ} (V : Type ℓ) : Type ℓ where
  pub key : ℕ
  pub value : V
  pub occupied : Bool

pub record FlatHashMap {ℓ} (V : Type ℓ) : Type ℓ where
  pub entries : ℕ → Entry V
  pub size : ℕ

-- the loop of `hash`, from byte `i` on
hash_loop : ℕ → ℕ → ℕ → ℕ → ℕ
hash_loop zero i key h = h
hash_loop (suc rounds) i key h =
    hash_loop rounds (i + 1) key (u64 (bit_xor h (key / 2 ^ (i * 8) % 256) * 1099511628211))

-- FNV-1a over the eight bytes of the key, the lowest first
unfoldable pub hash : ℕ → ℕ
unfolding hash_loop
hash key = hash_loop 8 0 key 14695981039346656037

module _ {ℓ} {V : Type ℓ} where
  -- `entries_.resize(Capacity)`; `v` is the value-initialised `V`
  unfoldable pub new : V → FlatHashMap V
  new v = record { entries = λ _. record { key = 0; value = v; occupied = false }; size = 0 }

  module _ (capacity : ℕ) where
    pub insert_loop : ℕ → ℕ → ℕ → V → FlatHashMap V → Bool × FlatHashMap V
    insert_loop zero idx key value m = (false, m)
    insert_loop (suc left) idx key value m =
        let rest = insert_loop left ((idx + 1) % capacity) key value m in
        let e = m.entries idx in
        if e.occupied
        then (if e.key == key
            then (true, record m { entries = update m.entries idx (record e { value = value }) })
            else rest)
        else (
          true,
          record {
            entries = update m.entries idx (record { key = key; value = value; occupied = true });
            size = add64 m.size 1;
          },
        )

    unfoldable pub insert : ℕ → V → FlatHashMap V → Bool × FlatHashMap V
    unfolding insert_loop
    insert key value m = insert_loop capacity (hash key % capacity) key value m

    -- The slot whose `value` the code returns a pointer to.
    pub find_loop : ℕ → ℕ → ℕ → FlatHashMap V → Option ℕ
    find_loop zero idx key m = none
    find_loop (suc left) idx key m =
        let rest = find_loop left ((idx + 1) % capacity) key m in
        let e = m.entries idx in
        if e.occupied then (if e.key == key then some idx else rest) else none

    unfoldable pub find_slot : ℕ → FlatHashMap V → Option ℕ
    unfolding find_loop
    find_slot key m = find_loop capacity (hash key % capacity) key m

    -- `find`, with the pointer that it returns followed
    unfoldable pub find : ℕ → FlatHashMap V → Option V
    unfolding find_slot
    find key m = elim (find_slot key m) [ none ↦ none | some i ↦ some (m.entries i).value ]

    pub remove_loop : ℕ → ℕ → ℕ → FlatHashMap V → Bool × FlatHashMap V
    remove_loop zero idx key m = (false, m)
    remove_loop (suc left) idx key m =
        let rest = remove_loop left ((idx + 1) % capacity) key m in
        let e = m.entries idx in
        if e.occupied
        then (if e.key == key
            then (
              true,
              record {
                entries = update m.entries idx (record e { occupied = false });
                size = sub64 m.size 1;
              },
            )
            else rest)
        else (false, m)

    unfoldable pub remove : ℕ → FlatHashMap V → Bool × FlatHashMap V
    unfolding remove_loop
    remove key m = remove_loop capacity (hash key % capacity) key m

    -- the loop of `clear`
    unfoldable pub clear : FlatHashMap V → FlatHashMap V
    clear m = record {
      entries =
          λ i. if ltb i capacity then record (m.entries i) { occupied = false } else m.entries i;
      size = 0;
    }
