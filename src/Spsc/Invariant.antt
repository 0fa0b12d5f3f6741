-- ===== src/Spsc/Invariant.antt =====
-- What holds in every state that the two threads of an `SPSCQueue` can reach: an invariant of the steps.
use l3_lock_free_orderbook_e.Prelude.{
  ℕ, ◌+◌, ◌-◌, ◌%◌, ◌<◌, ◌≡◌, refl, ap, sym, ◌∙◌, List, [], ◌∷◌, ◌++◌, length, arith, Bool-cases,
  inl, inr,
}
use mathlib.Core.List.{append_assoc}
use native.Mathlib.Nat.{mod-eq_of_lt}
use l3_lock_free_orderbook_e.Spsc.{
  SpscQueue, new, push_check, write_item, publish_tail, pop_check, read_item, advance_head,
}
use l3_lock_free_orderbook_e.Spsc.Ring.{IsRing, slot_suc}
use l3_lock_free_orderbook_e.Spsc.Calls.{
  push_check-IsRing, write_item-IsRing, publish_tail-IsRing, pop_check-IsRing, read_item-first,
  advance_head-IsRing,
}
use l3_lock_free_orderbook_e.Spsc.Steps.{
  Producer, Consumer, System, begin_push, begin_pop, Step, init, Reach,
}

module _ {T : Type 0} (capacity : ℕ) where
  -- What the producer relies on, between its accesses, when the ring holds `xs`.
  abbrev pub ProducerHolds : ℕ → SpscQueue T → List T → Producer T → Type 0
  ProducerHolds b q xs Producer.idle = Unit
  ProducerHolds b q xs (Producer.checked x) = b + (length xs + 1) < capacity
  ProducerHolds b q xs (Producer.written x) =
      (b + (length xs + 1) < capacity) × (q.buffer ((q.head + length xs) % capacity) ≡ x)

  -- What the consumer relies on.
  abbrev pub ConsumerHolds : ℕ → List T → Consumer T → Type 0
  ConsumerHolds k xs Consumer.idle = Unit
  ConsumerHolds k xs Consumer.checked = (y : T) × (ys : List T) × (xs ≡ y ∷ ys) × (0 < k)
  ConsumerHolds k xs (Consumer.read y) = (ys : List T) × (xs ≡ y ∷ ys) × (0 < k)

  -- The ring holds the items that have been pushed and not popped yet.
  pub record Consistent (s : System T) : Type 0 where
    pub items : List T
    pub behind : ℕ
    pub known : ℕ
    pub ring : IsRing capacity behind known s.queue items
    pub history : s.pushed ≡ s.popped ++ items
    pub producing : ProducerHolds behind s.queue items s.producer
    pub consuming : ConsumerHolds known items s.consumer

  first_of : (xs : List T) → 0 < length xs → (y : T) × (ys : List T) × (xs ≡ y ∷ ys)
  first_of [] h = absurd (omega arith)
  first_of (y ∷ ys) h = (y, ys, refl)

  ConsumerHolds-snoc :
      (k : ℕ) (xs : List T) (x : T) (c : Consumer T)
      → ConsumerHolds k xs c
      → ConsumerHolds k (xs ++ x ∷ []) c
  ConsumerHolds-snoc k xs x Consumer.idle h = tt
  ConsumerHolds-snoc k xs x Consumer.checked (y, ys, e, pos) =
      (y, ys ++ x ∷ [], ap (λ zs. zs ++ x ∷ []) e, pos)
  ConsumerHolds-snoc k xs x (Consumer.read y) (ys, e, pos) =
      (ys ++ x ∷ [], ap (λ zs. zs ++ x ∷ []) e, pos)

  -- A change of the consumer's cached tail does not matter to the producer.
  ProducerHolds-pop_check :
      (b : ℕ) (q : SpscQueue T) (xs : List T) (p : Producer T)
      → ProducerHolds b q xs p
      → ProducerHolds b (pop_check capacity q).1 xs p
  unfolding pop_check
  ProducerHolds-pop_check b q xs Producer.idle h = tt
  ProducerHolds-pop_check b q xs (Producer.checked x) h = h
  ProducerHolds-pop_check b q xs (Producer.written x) h = ground (arith, h)

  ProducerHolds-advance_head :
      (b : ℕ) (q : SpscQueue T) (x : T) (xs : List T) (p : Producer T)
      → ProducerHolds b q (x ∷ xs) p
      → ProducerHolds (b + 1) (advance_head capacity q) xs p
  unfolding advance_head
  ProducerHolds-advance_head b q x xs Producer.idle h = tt
  ProducerHolds-advance_head b q x xs (Producer.checked y) h = omega arith
  ProducerHolds-advance_head b q x xs (Producer.written y) h = (
    omega (arith, h.0),
    ap q.buffer
          (slot_suc capacity q.head (length xs) ∙ ap (λ n. (q.head + n) % capacity) (omega arith))
        ∙ h.1,
  )

  init-Consistent : (x : T) → 0 < capacity → Consistent (init x)
  unfolding new
  init-Consistent x pos = record {
    items = [];
    behind = 0;
    known = 0;
    ring = record {
      head_lt = pos;
      tail_at = sym (mod-eq_of_lt pos);
      room = pos;
      cached_head = sym (mod-eq_of_lt pos);
      head_cache_lt = pos;
      known_le = omega arith;
      cached_tail = sym (mod-eq_of_lt pos);
      stored = tt;
    };
    history = refl;
    producing = tt;
    consuming = tt;
  }

  module _ {s : System T} (c : Consistent s) where
    push_begins-Consistent : (x : T) → Consistent (begin_push capacity x s)
    push_begins-Consistent x =
        let (b, r, free, full) = push_check-IsRing capacity c.ring in
        record {
          items = c.items;
          behind = b;
          known = c.known;
          ring = r;
          history = c.history;
          producing = elim (Bool-cases (push_check capacity s.queue).0) [
            | inl e ↦ rw e (free e)
            | inr e ↦ rw e tt
          ];
          consuming = c.consuming;
        }

    push_writes-Consistent :
        {x : T}
        → s.producer ≡ Producer.checked x
        → Consistent
            (record s { queue = write_item capacity x s.queue; producer = Producer.written x })
    unfolding write_item
    push_writes-Consistent {x} e =
        let free : c.behind + (length c.items + 1) < capacity = rw e at c.producing in
        let (r, at) = write_item-IsRing capacity c.ring x free in
        record {
          items = c.items;
          behind = c.behind;
          known = c.known;
          ring = r;
          history = c.history;
          producing = (free, at);
          consuming = c.consuming;
        }

    push_publishes-Consistent :
        {x : T}
        → s.producer ≡ Producer.written x
        → Consistent (record s {
          queue = publish_tail capacity s.queue;
          producer = Producer.idle;
          pushed = s.pushed ++ x ∷ [];
        })
    push_publishes-Consistent {x} e =
        let holds : ProducerHolds c.behind s.queue c.items (Producer.written x) =
          rw e at c.producing in
        record {
          items = c.items ++ x ∷ [];
          behind = c.behind;
          known = c.known;
          ring = publish_tail-IsRing capacity c.ring x holds.0 holds.1;
          history = ap (λ xs. xs ++ x ∷ []) c.history ∙ append_assoc s.popped c.items (x ∷ []);
          producing = tt;
          consuming = ConsumerHolds-snoc c.known c.items x s.consumer c.consuming;
        }

    pop_begins-Consistent : Consistent (begin_pop capacity s)
    pop_begins-Consistent =
        let (k, r, found, absent) = pop_check-IsRing capacity c.ring in
        record {
          items = c.items;
          behind = c.behind;
          known = k;
          ring = r;
          history = c.history;
          producing = ProducerHolds-pop_check c.behind s.queue c.items s.producer c.producing;
          consuming = elim (Bool-cases (pop_check capacity s.queue).0) [
            | inl e ↦
                let (y, ys, at) = first_of c.items (omega (arith, found e, r.known_le)) in
                rw e (y, ys, at, found e)
            | inr e ↦ rw e tt
          ];
        }

    pop_reads-Consistent :
        s.consumer ≡ Consumer.checked
        → Consistent (record s { consumer = Consumer.read (read_item capacity s.queue) })
    pop_reads-Consistent e =
        let (y, ys, at, pos) : ConsumerHolds c.known c.items Consumer.checked =
          rw e at c.consuming in
        let first : read_item capacity s.queue ≡ y =
          read_item-first capacity {b = c.behind} {k = c.known} y ys (rw at at c.ring) in
        record {
          items = c.items;
          behind = c.behind;
          known = c.known;
          ring = c.ring;
          history = c.history;
          producing = c.producing;
          consuming = (ys, at ∙ ap (λ z. z ∷ ys) (sym first), pos);
        }

    pop_advances-Consistent :
        {x : T}
        → s.consumer ≡ Consumer.read x
        → Consistent (record s {
          queue = advance_head capacity s.queue;
          consumer = Consumer.idle;
          popped = s.popped ++ x ∷ [];
        })
    pop_advances-Consistent {x} e =
        let (ys, at, pos) : ConsumerHolds c.known c.items (Consumer.read x) = rw e at c.consuming in
        record {
          items = ys;
          behind = c.behind + 1;
          known = c.known - 1;
          ring = advance_head-IsRing capacity x ys pos (rw at at c.ring);
          history =
              c.history ∙ ap (λ xs. s.popped ++ xs) at ∙ sym (append_assoc s.popped (x ∷ []) ys);
          producing =
              ProducerHolds-advance_head c.behind s.queue x ys s.producer (rw at at c.producing);
          consuming = tt;
        }

  Step-Consistent : {s t : System T} → Consistent s → Step capacity s t → Consistent t
  Step-Consistent c (Step.push_begins x e) = push_begins-Consistent c x
  Step-Consistent c (Step.push_writes e) = push_writes-Consistent c e
  Step-Consistent c (Step.push_publishes e) = push_publishes-Consistent c e
  Step-Consistent c (Step.pop_begins e) = pop_begins-Consistent c
  Step-Consistent c (Step.pop_reads e) = pop_reads-Consistent c e
  Step-Consistent c (Step.pop_advances e) = pop_advances-Consistent c e

  pub Reach-Consistent : {x : T} {s : System T} → 0 < capacity → Reach capacity x s → Consistent s
  Reach-Consistent {x} pos Reach.start = init-Consistent x pos
  Reach-Consistent pos (Reach.later r step) = Step-Consistent (Reach-Consistent pos r) step
