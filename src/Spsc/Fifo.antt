-- ===== src/Spsc/Fifo.antt =====
-- First in, first out, and no data race, in every state that the two threads of an `SPSCQueue` reach.
use l3_lock_free_orderbook_e.Prelude.{
  ℕ, ◌+◌, ◌%◌, ◌<◌, ◌≡◌, ◌≢◌, ap, sym, ◌∙◌, List, ◌∷◌, ◌++◌, length, arith,
}
use native.Mathlib.Nat.{mod-mod}
use l3_lock_free_orderbook_e.Spsc.Ring.{slot_injective}
use l3_lock_free_orderbook_e.Spsc.Steps.{Producer, Consumer, System, Reach}
use l3_lock_free_orderbook_e.Spsc.Invariant.{ConsumerHolds, Reach-Consistent}

module _ {T : Type 0} (capacity : ℕ) where
  -- In every state that the threads reach, with a positive capacity, the items popped are the first of
  -- those pushed, in their order, and fewer than the capacity have been pushed and not popped.
  pub Reach-fifo :
      {x : T} {s : System T}
      → 0 < capacity
      → Reach capacity x s
      → (xs : List T) × (s.pushed ≡ s.popped ++ xs) × (length xs < capacity)
  Reach-fifo pos r =
      let c = Reach-Consistent capacity pos r in (c.items, c.history, omega (arith, c.ring.room))

  -- An item that the consumer has read and not yet reported is the next after those popped, with a positive
  -- capacity and in every state that the threads reach.
  Reach-read :
      {x : T} {s : System T} (y : T)
      → 0 < capacity
      → Reach capacity x s
      → s.consumer ≡ Consumer.read y
      → (ys : List T) × (s.pushed ≡ s.popped ++ y ∷ ys)
  Reach-read {s = s} y pos r e =
      let c = Reach-Consistent capacity pos r in
      let (ys, at, _) : ConsumerHolds capacity c.known c.items (Consumer.read y) =
        rw e at c.consuming in
      (ys, c.history ∙ ap (λ xs. s.popped ++ xs) at)

  -- In every state that the threads reach, with a positive capacity: when the producer is about to write a
  -- slot and the consumer about to read one, the two slots differ.
  pub Reach-race_free :
      {x : T} {s : System T} (y : T)
      → 0 < capacity
      → Reach capacity x s
      → s.producer ≡ Producer.checked y
      → s.consumer ≡ Consumer.checked
      → s.queue.tail % capacity ≢ s.queue.head % capacity
  Reach-race_free {s = s} y pos r p k same =
      let c = Reach-Consistent capacity pos r in
      let free : c.behind + (length c.items + 1) < capacity = rw p at c.producing in
      let (z, zs, at, _) : ConsumerHolds capacity c.known c.items Consumer.checked =
        rw k at c.consuming in
      let here : (s.queue.head + length c.items) % capacity ≡ (s.queue.head + 0) % capacity =
        sym (mod-mod (s.queue.head + length c.items) capacity)
        ∙ sym (ap (λ t. t % capacity) c.ring.tail_at)
        ∙ same
        ∙ ap (λ n. n % capacity) (omega arith) in
      let none_left : length c.items ≡ 0 =
        slot_injective capacity s.queue.head (length c.items) 0 c.ring.head_lt (omega arith) pos
          here in
      absurd (omega (arith, ap length at))
