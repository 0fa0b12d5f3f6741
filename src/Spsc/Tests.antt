-- ===== src/Spsc/Tests.antt =====
-- Runs of `SPSCQueue` of four slots, and the theorems about it at them.
use l3_lock_free_orderbook_e.Prelude.{
  ℕ, ◌+◌, ◌-◌, ◌%◌, ◌<◌, ◌≡◌, ◌≢◌, ◌⊎◌, inl, inr, min, take, refl, Bool, true, false, Option, some,
  List, [], ◌∷◌, ◌++◌, length, arith,
}
use l3_lock_free_orderbook_e.Spsc.{
  SpscQueue, new, push, pop, push_bulk, empty, size_approx, push_check, write_item, publish_tail,
  pop_check,
}
use l3_lock_free_orderbook_e.Spsc.Queue.{
  IsQueue, Popped, push_refines, pop_refines, push_bulk_refines,
}
use l3_lock_free_orderbook_e.Spsc.Steps.{
  Producer, Consumer, System, begin_push, begin_pop, Step, init, Reach,
}
use l3_lock_free_orderbook_e.Spsc.Fifo.{Reach-fifo, Reach-race_free}

abbrev fresh : SpscQueue ℕ
fresh = new 0

abbrev three : SpscQueue ℕ
three = (push_bulk 4 8 (1 ∷ 2 ∷ 3 ∷ 4 ∷ []) fresh).1

-- A bulk push stops where the queue is full, one slot short of the capacity.
bulk_run :
    ◌≡◌ {A = ℕ × ℕ × Bool}
      ((push_bulk 4 8 (1 ∷ 2 ∷ 3 ∷ 4 ∷ []) fresh).0, size_approx 4 three, empty three)
      (3, 3, false)
unfolding new push_bulk size_approx empty
bulk_run = refl

pop_run :
    ◌≡◌ {A = Option ℕ × Option ℕ × Bool}
      ((pop 4 three).0, (pop 4 (pop 4 three).1).0, (push 4 9 three).0)
      (some 1, some 2, false)
unfolding new push_bulk pop push
pop_run = refl

fresh-IsQueue : IsQueue 4 fresh []
unfolding new
fresh-IsQueue = (
  0,
  0,
  record {
    head_lt = omega arith;
    tail_at = refl;
    room = omega arith;
    cached_head = refl;
    head_cache_lt = omega arith;
    known_le = omega arith;
    cached_tail = refl;
    stored = tt;
  },
)

push_refines_example :
    ((0 + 1 < 4) × ((push 4 7 fresh).0 ≡ true) × IsQueue 4 (push 4 7 fresh).1 (7 ∷ []))
    ⊎ ((0 + 1 ≡ 4) × ((push 4 7 fresh).0 ≡ false) × IsQueue 4 (push 4 7 fresh).1 [])
push_refines_example = push_refines 4 7 fresh-IsQueue

one-IsQueue : IsQueue 4 (push 4 7 fresh).1 (7 ∷ [])
one-IsQueue = elim push_refines_example [ inl h ↦ h.2 | inr h ↦ absurd (omega (arith, h.0)) ]

pop_refines_example : Popped 4 (push 4 7 fresh).1 (7 ∷ [])
pop_refines_example = pop_refines 4 (7 ∷ []) one-IsQueue

push_bulk_refines_example :
    ((push_bulk 4 8 (7 ∷ 8 ∷ []) fresh).0 ≡ min 8 (min 2 (4 - 1 - 0)))
    × IsQueue 4
        (push_bulk 4 8 (7 ∷ 8 ∷ []) fresh).1
        (take (push_bulk 4 8 (7 ∷ 8 ∷ []) fresh).0 (7 ∷ 8 ∷ []))
push_bulk_refines_example = push_bulk_refines 4 8 (7 ∷ 8 ∷ []) fresh-IsQueue

-- The producer pushes 5 and begins to push 6, while the consumer begins to pop.
abbrev s₁ : System ℕ
s₁ = begin_push 4 5 (init 0)

abbrev s₂ : System ℕ
s₂ = record s₁ { queue = write_item 4 5 s₁.queue; producer = Producer.written 5 }

abbrev s₃ : System ℕ
s₃ = record s₂ {
  queue = publish_tail 4 s₂.queue;
  producer = Producer.idle;
  pushed = s₂.pushed ++ 5 ∷ [];
}

abbrev s₄ : System ℕ
s₄ = begin_push 4 6 s₃

abbrev s₅ : System ℕ
s₅ = begin_pop 4 s₄

s₁-checked : s₁.producer ≡ Producer.checked 5
unfolding new push_check
s₁-checked = refl

s₅-checked : (s₅.producer ≡ Producer.checked 6) × (s₅.consumer ≡ Consumer.checked)
unfolding new push_check write_item publish_tail pop_check
s₅-checked = (refl, refl)

s₅-Reach : Reach 4 0 s₅
s₅-Reach =
    Reach.later
      (Reach.later
        (Reach.later
          (Reach.later (Reach.later Reach.start (Step.push_begins 5 refl))
            (Step.push_writes s₁-checked))
          (Step.push_publishes refl))
        (Step.push_begins 6 refl))
      (Step.pop_begins refl)

Reach-fifo_example : (xs : List ℕ) × (s₅.pushed ≡ s₅.popped ++ xs) × (length xs < 4)
Reach-fifo_example = Reach-fifo 4 (omega arith) s₅-Reach

Reach-race_free_example : s₅.queue.tail % 4 ≢ s₅.queue.head % 4
Reach-race_free_example = Reach-race_free 4 6 (omega arith) s₅-Reach s₅-checked.0 s₅-checked.1
