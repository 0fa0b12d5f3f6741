-- ===== src/Pool.antt =====
-- class ObjectPool of include/orderbook/arena.hpp. A slot of `storage_` holds nothing yet, a
-- `FreeNode`, or a live object; a pointer into it is the number of the slot. Reading `next` where no
-- `FreeNode` stands, or ending an object that is not alive, is undefined behaviour: a fault.
use l3_lock_free_orderbook_e.Prelude.{ℕ, zero, suc, Option, none, some, Run, ok, fault, update}
use l3_lock_free_orderbook_e.Prelude.Word.{add64, sub64}
pub mod FreeList
pub mod Init
pub mod Access
mod Tests

pub data Slot {ℓ} (T : Type ℓ) : Type ℓ where
  blank : Slot T
  free : (next : Option ℕ) → Slot T
  live : T → Slot T

pub record ObjectPool {ℓ} (T : Type ℓ) : Type ℓ where
  pub storage : ℕ → Slot T
  pub free_list : Option ℕ
  pub available : ℕ

module _ {ℓ} {T : Type ℓ} where
  -- the loop of the constructor, from slot `i - 1` down to slot 0
  init_loop : ℕ → ObjectPool T → ObjectPool T
  init_loop zero p = p
  init_loop (suc i) p =
      init_loop i (record p { storage = update p.storage i (free p.free_list); free_list = some i })

  unfoldable pub acquire : T → ObjectPool T → Run (Option ℕ × ObjectPool T)
  acquire x p = elim p.free_list [
    | none ↦ ok (none, p)
    | some node ↦ elim (p.storage node) [
      | free next ↦ ok (
        some node,
        record p {
          storage = update p.storage node (live x);
          free_list = next;
          available = sub64 p.available 1;
        },
      )
      | _ ↦ fault
    ]
  ]

  unfoldable pub release : Option ℕ → ObjectPool T → Run (ObjectPool T)
  release none p = ok p
  release (some node) p = elim (p.storage node) [
    | live x ↦ ok (record p {
      storage = update p.storage node (free p.free_list);
      free_list = some node;
      available = add64 p.available 1;
    })
    | _ ↦ fault
  ]

  -- reads and writes of a live object
  unfoldable pub load : Option ℕ → ObjectPool T → Run T
  load none p = fault
  load (some node) p = elim (p.storage node) [ live x ↦ ok x | _ ↦ fault ]

  unfoldable pub store : Option ℕ → T → ObjectPool T → Run (ObjectPool T)
  store none x p = fault
  store (some node) x p = elim (p.storage node) [
    | live y ↦ ok (record p { storage = update p.storage node (live x) })
    | _ ↦ fault
  ]

unfoldable pub new {ℓ} : {T : Type ℓ} → ℕ → ObjectPool T
unfolding init_loop
new pool_size =
    record (init_loop pool_size
      (record { storage = λ _. blank; free_list = none; available = 0 })) { available = pool_size }
