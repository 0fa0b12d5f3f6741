-- ===== src/Book/Priority/Conserve.antt =====
-- The quantities that the inner loop of matching trades.
use l3_lock_free_orderbook_e.Prelude.{
  ℕ, ◌+◌, ◌-◌, ◌≤◌, ◌<◌, ◌≡◌, ◌∙◌, ap, some, List, [], ◌∷◌, ◌++◌, ok, arith, leb, ◌==◌, ==_iff,
  length, min, Bool-cases, inl, inr,
}
use l3_lock_free_orderbook_e.Types.{Timestamp, Side, TradeReport}
use l3_lock_free_orderbook_e.Pool.FreeList.{view}
use l3_lock_free_orderbook_e.Level.{Order, PriceLevel}
use l3_lock_free_orderbook_e.Level.Links.{Entry, head_slot, total, IsQueue}
use l3_lock_free_orderbook_e.Book.State.{OrderBook}
use l3_lock_free_orderbook_e.Book.Matching.{match_level}
use l3_lock_free_orderbook_e.Book.Fill.{Matching}
use l3_lock_free_orderbook_e.Book.Priority.{left, unfilled, fills, match_level-Swept}

-- The sum of the quantities reported.
abbrev pub volume : List TradeReport → ℕ
volume [] = 0
volume (r ∷ rs) = r.quantity + volume rs

left_lem : (n : ℕ) (es : List Entry) → left n es ≡ n - total es
left_lem n [] = omega arith
left_lem n (e ∷ es) = omega (arith, left_lem (n - e.order.quantity) es)

volume-fills :
    (rdtsc : ℕ → Timestamp) (side : Side) (t n : ℕ) (es : List Entry)
    → volume (fills rdtsc side t n es) ≡ min n (total es)
volume-fills rdtsc side t n [] = omega arith
volume-fills rdtsc side t n (e ∷ es) = elim (Bool-cases (n == 0)) [
  | inl z ↦ let e : n ≡ 0 = (==_iff n 0).0 z in rw z (omega arith)
  | inr nz ↦ elim (Bool-cases (leb e.order.quantity n)) [
    | inl fits ↦
        let small : e.order.quantity ≤ n = ground arith in
        rw (nz, fits) (omega (arith, volume-fills rdtsc side (t + 1) (n - e.order.quantity) es))
    | inr larger ↦ let large : n < e.order.quantity = ground arith in rw (nz, larger) (omega arith)
  ]
]

total-unfilled : (n : ℕ) (es : List Entry) → total (unfilled n es) ≡ total es - n
total-unfilled n [] = omega arith
total-unfilled n (e ∷ es) = elim (Bool-cases (n == 0)) [
  | inl z ↦ let e : n ≡ 0 = (==_iff n 0).0 z in rw z (omega arith)
  | inr nz ↦ elim (Bool-cases (leb e.order.quantity n)) [
    | inl fits ↦
        let small : e.order.quantity ≤ n = ground arith in
        rw (nz, fits) (omega (arith, total-unfilled (n - e.order.quantity) es))
    | inr larger ↦ let large : n < e.order.quantity = ground arith in rw (nz, larger) (omega arith)
  ]
]

-- The inner loop, given fuel for more rounds than the queue has orders, trades as much as the incoming
-- order and the queue both hold: the volume of its new reports is the smaller of the two quantities, and
-- it is what the incoming order and the queue of the level lose.
pub match_level_conserves :
    (order_map_size : ℕ) (rdtsc : ℕ → Timestamp) (side : Side) (cap p lv : ℕ) (x : Order) (f : ℕ)
    {n : ℕ} {b : OrderBook} {l : PriceLevel} (es : List Entry)
    → length es < f
    → Matching cap p lv x b n l es
    → (b' : OrderBook) × (l' : PriceLevel) × (fs : List Entry) × (reports : List TradeReport)
      × (match_level order_map_size rdtsc f side p lv (head_slot es) b ≡ ok (tt, b'))
      × (b'.trades ≡ b.trades ++ reports)
      × (volume reports ≡ min n (total es))
      × (view b'.order_pool p ≡ some (record x { quantity = n - volume reports }))
      × (view b'.level_pool lv ≡ some l')
      × IsQueue lv l' (view b'.order_pool) fs
      × (total fs ≡ total es - volume reports)
match_level_conserves order_map_size rdtsc side cap p lv x f {n} {b} es h g =
    let (b', run, w) = match_level-Swept order_map_size rdtsc side cap p lv x f es h g in
    let v : volume (fills rdtsc side b.ticks n es) ≡ min n (total es) =
      volume-fills rdtsc side b.ticks n es in
    (
      b',
      w.level,
      unfilled n es,
      fills rdtsc side b.ticks n es,
      run,
      w.trades,
      v,
      w.matching.order
          ∙ ap (λ k. some (record x { quantity = k })) (omega (arith, v, left_lem n es)),
      w.matching.level,
      w.matching.queue,
      omega (arith, v, total-unfilled n es),
    )
