-- ===== src/Market/Messages.antt =====
-- The messages that a MarketDataSimulator makes up, and those that it replays.
use mathlib.Core.List.{append_assoc, append-nil}
use l3_lock_free_orderbook_e.Prelude.{
  ℕ, zero, suc, ◌+◌, ◌*◌, ◌^◌, ◌≤◌, ◌<◌, ◌≡◌, refl, sym, ap, ◌∙◌, subst, true, false, ◌==◌, ltb,
  length-append, Bool-cases, inl, inr, List, [], ◌∷◌, ◌++◌, ok, length, get_elem?, some, none,
  arith,
}
use l3_lock_free_orderbook_e.Prelude.Int.{pos, pos_part, ◌+ℤ◌, ◌≤ℤ◌, ltb_ℤ, fits_i64}
use l3_lock_free_orderbook_e.Prelude.Word.{add64}
use l3_lock_free_orderbook_e.Types.{Price, MarketDataMessage, is_valid}
use l3_lock_free_orderbook_e.Double.{Double}
use l3_lock_free_orderbook_e.Market.{
  Random, MarketDataSimulator, no_message, next_replay_message, random_side, random_order_type,
  walk, later, next_message, generate_batch,
}

-- Messages with the ids from `first` on, a price from 1 up, and a quantity.
abbrev pub Issued : ℕ → List MarketDataMessage → Type 0
Issued first [] = Unit
Issued first (m ∷ ms) =
    ((m.order_id ≡ first) × (pos 1 ≤ℤ m.price) × (is_valid m ≡ true)) × Issued (first + 1) ms

get_elem?-length :
    (xs : List MarketDataMessage) (y : MarketDataMessage) (ys : List MarketDataMessage)
    → get_elem? (xs ++ (y ∷ ys)) (length xs) ≡ some y
get_elem?-length [] y ys = refl
get_elem?-length (x ∷ xs) y ys = get_elem?-length xs y ys

get_elem?-end : (xs : List MarketDataMessage) → get_elem? xs (length xs) ≡ none
get_elem?-end [] = refl
get_elem?-end (x ∷ xs) = get_elem?-end xs

module _ {W G : Type 0} where
  -- `n` calls of `next_replay_message`
  unfoldable pub next_replays :
      ℕ → MarketDataSimulator W G → List MarketDataMessage × MarketDataSimulator W G
  next_replays zero s = ([], s)
  next_replays (suc n) s =
      let (m, s) = next_replay_message s in let (ms, s) = next_replays n s in (m ∷ ms, s)

  -- One call for each message that is left gives these in order, and the call after them an empty
  -- message, which changes nothing.
  next_replays-rest :
      (before rest : List MarketDataMessage) (s : MarketDataSimulator W G)
      → s.replay_buffer ≡ before ++ rest
      → s.replay_index ≡ length before
      → (s' : MarketDataSimulator W G) × (next_replays (length rest) s ≡ (rest, s'))
        × (next_replay_message s' ≡ (no_message, s'))
  unfolding next_replays next_replay_message
  next_replays-rest before [] s e i =
      let at_end : get_elem? s.replay_buffer s.replay_index ≡ none =
        rw (e, i)
          (ap (λ xs. get_elem? xs (length before)) (append-nil before) ∙ get_elem?-end before) in
      (s, refl, simp at_end refl)
  next_replays-rest before (m ∷ rest) s e i =
      let here : get_elem? s.replay_buffer s.replay_index ≡ some m =
        rw (e, i) (get_elem?-length before m rest) in
      let s₁ = record s { replay_index = s.replay_index + 1 } in
      let first : next_replay_message s ≡ (m, s₁) = simp here refl in
      let (s', run, end) =
        next_replays-rest (before ++ (m ∷ [])) rest s₁ (e ∙ sym (append_assoc before (m ∷ []) rest))
          (omega (arith, i, length-append before (m ∷ []))) in
      (
        s',
        ap (λ x. (x.0 ∷ (next_replays (length rest) x.1).0, (next_replays (length rest) x.1).1))
              first
            ∙ ap (λ x. (m ∷ x.0, x.1)) run,
        end,
      )

module _ {W G : Type 0} ⦃d : Double W⦄ (r : Random W G) where
  -- What is asked of the draws: no step of the price above `most`, no order of size zero.
  pub record IsDrawn (most : ℕ) : Type 0 where
    pub step : (g : G) → pos_part (d.to_int (r.price_dist g).0) ≤ most
    pub in_range : (g : G) → fits_i64 (d.to_int (r.price_dist g).0) ≡ true
    pub some_size : (g : G) → 0 < (r.size_dist g).0

  walk-ok :
      (current : Price) (delta : W) (most : ℕ)
      → pos 1 ≤ℤ current
      → pos_part current + most < 2 ^ 63
      → pos_part (d.to_int delta) ≤ most
      → fits_i64 (d.to_int delta) ≡ true
      → (p : Price) × (walk r current delta ≡ ok p)
        × (pos 1 ≤ℤ p)
        × (pos_part p ≤ pos_part current + most)
  unfolding walk ◌+ℤ◌
  walk-ok current delta most h small step fits =
      let p = current +ℤ d.to_int delta in
      let good : fits_i64 p ≡ true = ground (arith, h, small, step, fits) in
      elim (Bool-cases (ltb_ℤ p (pos 1))) [
        | inl a ↦ (pos 1, simp (good, a) refl, omega arith, omega arith)
        | inr a ↦ (p, simp (good, a) refl, ground (arith, a), ground (arith, step))
      ]

  next_message-ok :
      (s : MarketDataSimulator W G) (most : ℕ)
      → IsDrawn most
      → pos 1 ≤ℤ s.current_price
      → pos_part s.current_price + most < 2 ^ 63
      → 0 < s.next_order_id
      → s.next_order_id + 1 < 2 ^ 64
      → (m : MarketDataMessage) × (s' : MarketDataSimulator W G) × (next_message r s ≡ ok (m, s'))
        × (m.order_id ≡ s.next_order_id)
        × (pos 1 ≤ℤ m.price)
        × (is_valid m ≡ true)
        × (s'.next_order_id ≡ s.next_order_id + 1)
        × (s'.current_price ≡ m.price)
        × (pos_part m.price ≤ pos_part s.current_price + most)
  unfolding next_message random_side random_order_type is_valid
  next_message-ok s most h one room first ids =
      let g₁ = (r.arrival_dist s.generator).1 in
      let g₂ = (r.type_dist g₁).1 in
      let g₃ = (r.price_dist g₂).1 in
      let some_id : (s.next_order_id == 0) ≡ false = ground arith in
      let some_size : ltb 0 (r.size_dist g₃).0 ≡ true = ground (arith, h.some_size g₃) in
      let (p, run, low, high) =
        walk-ok s.current_price (r.price_dist g₂).0 most one room (h.step g₂) (h.in_range g₂) in
      let arrival = (r.arrival_dist s.generator).0 in
      let g₄ = (r.size_dist g₃).1 in
      let m : MarketDataMessage = record {
        timestamp_ns = s.next_timestamp;
        order_id = s.next_order_id;
        price = p;
        quantity = (r.size_dist g₃).0;
        side = (random_side r g₁).0;
        type = (random_order_type r s.cfg g₄).0;
      } in
      (
        m,
        record s {
          generator = (random_order_type r s.cfg g₄).1;
          current_price = p;
          next_order_id = add64 s.next_order_id 1;
          next_timestamp = later r s.cfg arrival s.next_timestamp;
        },
        simp run refl,
        refl,
        low,
        simp (some_id, some_size) refl,
        omega (arith, ids),
        refl,
        high,
      )

  -- Where no step of the price is above `most`, all fit `int64_t`, and no order is of size zero, a simulator with a price
  -- from 1 up, ids from 1 up, and room for `n` steps of the price and `n` ids, makes up `n` messages
  -- without overflow: each is valid, with a price from 1 up, and their ids are consecutive.
  pub generate_batch-Issued :
      (n : ℕ) (s : MarketDataSimulator W G) (most : ℕ)
      → IsDrawn most
      → pos 1 ≤ℤ s.current_price
      → pos_part s.current_price + n * most < 2 ^ 63
      → 0 < s.next_order_id
      → s.next_order_id + n < 2 ^ 64
      → (ms : List MarketDataMessage) × (s' : MarketDataSimulator W G) × (generate_batch r n s
          ≡ ok (ms, s'))
        × (length ms ≡ n)
        × Issued s.next_order_id ms
        × (s'.next_order_id ≡ s.next_order_id + n)
  unfolding generate_batch
  generate_batch-Issued zero s most h one room first ids = ([], s, refl, refl, tt, omega arith)
  generate_batch-Issued (suc n) s most h one room first ids =
      let (m, s₁, run, id, low, valid, next, at, high) =
        next_message-ok s most h one (omega (arith, room)) first (omega (arith, ids)) in
      let (ms, s₂, run', count, issued, last) =
        generate_batch-Issued n s₁ most h (rw at low) (ground (arith, at, high, room))
          (omega (arith, next)) (omega (arith, next, ids)) in
      (
        m ∷ ms,
        s₂,
        rw (run, run') refl,
        omega (arith, count),
        ((id, low, valid), subst (λ i. Issued i ms) next issued),
        omega (arith, last, next),
      )
