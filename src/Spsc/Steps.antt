-- ===== src/Spsc/Steps.antt =====
-- The producer's and the consumer's thread over one `SPSCQueue`, interleaved in any order. A step runs
-- a thread up to and with its next access to a member that the other thread uses: the load of the
-- other's index, the access to the buffer, or the store of its own index. The atomics are taken to be
-- sequentially consistent.
use l3_lock_free_orderbook_e.Prelude.{ℕ, ◌≡◌, List, [], ◌∷◌, ◌++◌, if◌then◌else◌}
use l3_lock_free_orderbook_e.Spsc.{
  SpscQueue, new, push_check, write_item, publish_tail, pop_check, read_item, advance_head,
}

module _ {ℓ} (T : Type ℓ) where
  -- Where the producer stands in `push(item)`: the check has found room, or the item has been written.
  pub data Producer : Type ℓ where
    idle : Producer
    checked : T → Producer
    written : T → Producer

  -- Where the consumer stands in `pop`: the check has found an item, or the item has been read.
  pub data Consumer : Type ℓ where
    idle : Consumer
    checked : Consumer
    read : T → Consumer

  -- `pushed` and `popped` are the items of the calls that have returned true, in order.
  pub record System : Type ℓ where
    pub queue : SpscQueue T
    pub producer : Producer
    pub consumer : Consumer
    pub pushed : List T
    pub popped : List T

module _ {ℓ} {T : Type ℓ} where
  -- `x` is what the uninitialised buffer holds
  abbrev pub init : T → System T
  init x = record {
    queue = new x;
    producer = Producer.idle;
    consumer = Consumer.idle;
    pushed = [];
    popped = [];
  }

module _ {ℓ} {T : Type ℓ} (capacity : ℕ) where
  -- A call returns false right after its check.
  abbrev pub begin_push : T → System T → System T
  begin_push x s =
      let (room, q) = push_check capacity s.queue in
      record s { queue = q; producer = if room then Producer.checked x else Producer.idle }

  abbrev pub begin_pop : System T → System T
  begin_pop s =
      let (found, q) = pop_check capacity s.queue in
      record s { queue = q; consumer = if found then Consumer.checked else Consumer.idle }

  pub data Step (s : System T) : System T → Type ℓ where
    push_begins : (x : T) → s.producer ≡ Producer.idle → Step s (begin_push x s)
    push_writes :
        {x : T}
        → s.producer ≡ Producer.checked x
        → Step s (record s { queue = write_item capacity x s.queue; producer = Producer.written x })
    push_publishes :
        {x : T}
        → s.producer ≡ Producer.written x
        → Step s (record s {
          queue = publish_tail capacity s.queue;
          producer = Producer.idle;
          pushed = s.pushed ++ x ∷ [];
        })
    pop_begins : s.consumer ≡ Consumer.idle → Step s (begin_pop s)
    pop_reads :
        s.consumer ≡ Consumer.checked
        → Step s (record s { consumer = Consumer.read (read_item capacity s.queue) })
    pop_advances :
        {x : T}
        → s.consumer ≡ Consumer.read x
        → Step s (record s {
          queue = advance_head capacity s.queue;
          consumer = Consumer.idle;
          popped = s.popped ++ x ∷ [];
        })

  pub data Reach (x : T) : System T → Type ℓ where
    start : Reach x (init x)
    later : {s t : System T} → Reach x s → Step s t → Reach x t
