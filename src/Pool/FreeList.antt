-- ===== src/Pool/FreeList.antt =====
-- The free list of `ObjectPool`: the slots below the capacity that hold no object, each once.
use l3_lock_free_orderbook_e.Prelude.{
  ℕ, ◌^◌, ◌<◌, ◌≤◌, ◌≡◌, ◌≢◌, refl, true, false, Option, none, some, ok, fault, List, [], ◌∷◌,
  update, length, mem, head_of, Distinct, length-le_of_Distinct, ◌>>=◌, arith, ==_iff,
}
use l3_lock_free_orderbook_e.Prelude.Word.{add64}
use l3_lock_free_orderbook_e.Pool.{ObjectPool, Slot, free, live, acquire, release}

module _ {ℓ} {T : Type ℓ} where
  -- From each slot of the list `next` leads to the one behind it.
  abbrev pub Linked : (ℕ → Slot T) → List ℕ → Type ℓ
  Linked s [] = Unit
  Linked s (x ∷ xs) = (s x ≡ free (head_of xs)) × Linked s xs

  -- The object that a slot holds.
  unfoldable pub object : Slot T → Option T
  object (live x) = some x
  object _ = none

  -- The objects of a pool by slot.
  unfoldable pub view : ObjectPool T → ℕ → Option T
  unfolding object
  view p i = object (p.storage i)

  -- `xs` are the free slots in the order of the list, among `cap` slots.
  pub record IsValid (cap : ℕ) (p : ObjectPool T) (xs : List ℕ) : Type ℓ where
    pub head : p.free_list ≡ head_of xs
    pub linked : Linked p.storage xs
    pub distinct : Distinct xs
    pub counted : p.available ≡ length xs
    pub small : length xs ≤ cap
    pub cap_small : cap < 2 ^ 64
    pub inside : (i : ℕ) → mem i xs ≡ true → i < cap
    pub others : (i : ℕ) → mem i xs ≡ false → i < cap → view p i ≢ none

  pub Linked-update :
      (s : ℕ → Slot T) (i : ℕ) (c : Slot T) (xs : List ℕ)
      → mem i xs ≡ false
      → Linked s xs
      → Linked (update s i c) xs
  Linked-update s i c [] out l = tt
  Linked-update s i c (x ∷ xs) out l =
      (ground (arith, ==_iff i x), Linked-update s i c xs (ground arith) l.1)

  pub view_of_mem :
      (p : ObjectPool T) (i : ℕ) (xs : List ℕ)
      → Linked p.storage xs
      → mem i xs ≡ true
      → view p i ≡ none
  unfolding view
  view_of_mem p i [] l m = cc
  view_of_mem p i (x ∷ xs) l m = ground (arith, ==_iff x i, view_of_mem p i xs l.1)

  -- `acquire` has put `x` into the slot `node`, which held no object; `xs` are free now.
  pub record Acquired (cap : ℕ) (p : ObjectPool T) (x : T) (node : ℕ) (xs : List ℕ)
      (p' : ObjectPool T) : Type ℓ where
    pub was_free : view p node ≡ none
    pub valid : IsValid cap p' xs
    pub view : (i : ℕ) → view p' i ≡ update (view p) node (some x) i

  -- `release` has ended the object in the slot `node`.
  pub record Released (cap : ℕ) (p : ObjectPool T) (node : ℕ) (xs : List ℕ) (p' : ObjectPool T)
      : Type ℓ where
    pub valid : IsValid cap p' (node ∷ xs)
    pub view : (i : ℕ) → view p' i ≡ update (view p) node none i

  release_lem :
      (p : ObjectPool T) (node : ℕ) {x : T}
      → view p node ≡ some x
      → release (some node) p
        ≡ ok (record p {
          storage = update p.storage node (free p.free_list);
          free_list = some node;
          available = add64 p.available 1;
        })
  unfolding release view
  release_lem p node e = ground arith

  module _ {cap : ℕ} {p : ObjectPool T} where
    -- From a valid pool with no free slot `acquire` returns the null pointer and changes nothing.
    pub acquire-nil : (x : T) → IsValid cap p [] → acquire x p ≡ ok (none, p)
    unfolding acquire
    acquire-nil x v = ground (arith, v.head)

    -- From a valid pool with a free slot `acquire` constructs the object in the slot at the head of the
    -- free list, which held none; the pool is valid with the rest of the list, and the other slots keep
    -- what they hold.
    pub acquire-cons :
        (x : T) {node : ℕ} {xs : List ℕ}
        → IsValid cap p (node ∷ xs)
        → (p' : ObjectPool T) × (acquire x p ≡ ok (some node, p')) × Acquired cap p x node xs p'
    unfolding acquire view
    acquire-cons x {node} {xs} v = (
      record p {
        storage = update p.storage node (live x);
        free_list = head_of xs;
        available = length xs;
      },
      ground (arith, v.head, v.linked, v.counted, v.small, v.cap_small),
      record {
        was_free = ground (arith, v.linked);
        valid = record {
          head = refl;
          linked = Linked-update p.storage node (live x) xs v.distinct.0 v.linked.1;
          distinct = v.distinct.1;
          counted = refl;
          small = omega (arith, v.small);
          cap_small = v.cap_small;
          inside = λ i m. v.inside i (ground arith);
          others = λ i m h. ground (arith, v.others i, ==_iff node i);
        };
        view = λ i. ground arith;
      },
    )

    -- In a valid pool `release` of a live object below the capacity puts its slot at the head of the free
    -- list; the pool stays valid, and the other slots keep what they hold.
    pub release-live :
        (node : ℕ) (x : T) {xs : List ℕ}
        → IsValid cap p xs
        → node < cap
        → view p node ≡ some x
        → (p' : ObjectPool T) × (release (some node) p ≡ ok p') × Released cap p node xs p'
    unfolding release view
    release-live node x {xs} v h e =
        let out : mem node xs ≡ false = ground (arith, view_of_mem p node xs v.linked) in
        let fewer : length (node ∷ xs) ≤ cap =
          length-le_of_Distinct cap (node ∷ xs) (out, v.distinct)
            (λ i m. ground (arith, ==_iff node i, v.inside i)) in
        (
          _,
          release_lem p node e,
          record {
            valid = record {
              head = refl;
              linked = (ground (arith, v.head), Linked-update p.storage node _ xs out v.linked);
              distinct = (out, v.distinct);
              counted = omega (arith, v.counted, fewer, v.cap_small);
              small = fewer;
              cap_small = v.cap_small;
              inside = λ i m. ground (arith, ==_iff node i, v.inside i);
              others = λ i m g. ground (arith, ==_iff node i, v.others i);
            };
            view = λ i. ground arith;
          },
        )

  -- In a valid pool `acquire` right after `release` of a live object below the capacity gives the slot that
  -- was released, and the other slots keep what they hold.
  acquire-release :
      {cap : ℕ} {p : ObjectPool T} (node : ℕ) (x y : T) {xs : List ℕ}
      → IsValid cap p xs
      → node < cap
      → view p node ≡ some x
      → (p' : ObjectPool T) × ((release (some node) p >>= acquire y) ≡ ok (some node, p'))
        × ((i : ℕ) → view p' i ≡ update (view p) node (some y) i)
  acquire-release node x y v h e =
      let (p', run, r) = release-live node x v h e in
      let (q, run', a) = acquire-cons y r.valid in
      (q, rw run run', λ i. ground (arith, a.view i, r.view i))

  -- Ending an object twice is a fault, and so is ending one that was never constructed.
  pub release-none :
      (node : ℕ) (p : ObjectPool T) → view p node ≡ none → release (some node) p ≡ fault
  unfolding release view
  release-none node p e = ground arith
