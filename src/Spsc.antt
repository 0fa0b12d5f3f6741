-- ===== src/Spsc.antt =====
-- class SPSCQueue of include/orderbook/spsc_queue.hpp. The capacity is a power of two, so that
-- `x & MASK` is the remainder of `x`, also where `size_t` has wrapped. `push` and `pop` are put
-- together from their accesses to the shared members: each makes at most one atomic load of the
-- other side's index, then one access to the buffer, then one atomic store (Spsc/Steps interleaves
-- these).
pub mod Ring
pub mod Calls
pub mod Queue
pub mod Steps
pub mod Invariant
pub mod Fifo
mod Tests
use l3_lock_free_orderbook_e.Prelude.{
  ℕ, zero, suc, ◌+◌, ◌%◌, Bool, true, false, not, Option, none, some, List, [], ◌∷◌, update, ◌==◌,
  if◌then◌else◌,
}
use l3_lock_free_orderbook_e.Prelude.Word.{sub64}

pub record SpscQueue {ℓ} (T : Type ℓ) : Type ℓ where
  pub tail : ℕ
  pub head_cache : ℕ
  pub head : ℕ
  pub tail_cache : ℕ
  pub buffer : ℕ → T

-- The index behind `i`.
abbrev next : (capacity : ℕ) → ℕ → ℕ
next capacity i = (i + 1) % capacity

module _ {ℓ} {T : Type ℓ} where
  -- `x` is what the uninitialised buffer holds
  unfoldable pub new : T → SpscQueue T
  new x = record { tail = 0; head_cache = 0; head = 0; tail_cache = 0; buffer = λ _. x }

  unfoldable pub empty : SpscQueue T → Bool
  empty q = q.head == q.tail

  module _ (capacity : ℕ) where
    -- whether there is room, with `head_cache_` read anew if it says that there is none
    unfoldable pub push_check : SpscQueue T → Bool × SpscQueue T
    push_check q =
        if next capacity q.tail == q.head_cache
        then (not (next capacity q.tail == q.head), record q { head_cache = q.head })
        else (true, q)

    unfoldable pub write_item : T → SpscQueue T → SpscQueue T
    write_item item q = record q { buffer = update q.buffer (q.tail % capacity) item }

    unfoldable pub publish_tail : SpscQueue T → SpscQueue T
    publish_tail q = record q { tail = next capacity q.tail }

    unfoldable pub push : T → SpscQueue T → Bool × SpscQueue T
    unfolding push_check write_item publish_tail
    push item q =
        let (room, q) = push_check q in
        if room then (true, publish_tail (write_item item q)) else (false, q)

    -- whether there is an item, with `tail_cache_` read anew if it says that there is none
    unfoldable pub pop_check : SpscQueue T → Bool × SpscQueue T
    pop_check q =
        if q.head == q.tail_cache
        then (not (q.head == q.tail), record q { tail_cache = q.tail })
        else (true, q)

    unfoldable pub read_item : SpscQueue T → T
    read_item q = q.buffer (q.head % capacity)

    unfoldable pub advance_head : SpscQueue T → SpscQueue T
    advance_head q = record q { head = next capacity q.head }

    -- `none` where the code returns false
    unfoldable pub pop : SpscQueue T → Option T × SpscQueue T
    unfolding pop_check read_item advance_head
    pop q =
        let (found, q) = pop_check q in
        if found then (some (read_item q), advance_head q) else (none, q)

    -- The items are `items[pushed]` to `items[count - 1]`, and `left` is `BatchSize - pushed`.
    unfoldable pub push_bulk : (left : ℕ) → List T → SpscQueue T → ℕ × SpscQueue T
    unfolding push
    push_bulk zero items q = (0, q)
    push_bulk (suc left) [] q = (0, q)
    push_bulk (suc left) (item ∷ items) q =
        let (pushed, q) = push item q in
        let (n, last) = push_bulk left items q in if pushed then (n + 1, last) else (0, q)

    unfoldable pub size_approx : SpscQueue T → ℕ
    size_approx q = sub64 q.tail q.head % capacity
