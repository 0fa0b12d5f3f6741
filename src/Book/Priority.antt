-- ===== src/Book/Priority.antt =====
-- The inner loop of `match_buy_order` and `match_sell_order`: time priority at one price, and what is
-- traded.
pub mod Conserve
mod Tests
use mathlib.Core.List.{append-nil, append_assoc}
use l3_lock_free_orderbook_e.Prelude.{
  ℕ, zero, suc, ◌+◌, ◌-◌, ◌<◌, ◌≤◌, ◌≡◌, ◌∙◌, sym, ap, refl, subst, Bool, true, false, none, some,
  List, [], ◌∷◌, ◌++◌, Run, ok, arith, leb, ltb, ◌==◌, ==_iff, length, if◌then◌else◌, Bool-cases,
  inl, inr, min,
}
use l3_lock_free_orderbook_e.Types.{Timestamp, Side, TradeReport}
use l3_lock_free_orderbook_e.Pool.{load}
use l3_lock_free_orderbook_e.Pool.Access.{load-view}
use l3_lock_free_orderbook_e.Level.{Order, PriceLevel}
use l3_lock_free_orderbook_e.Level.Links.{Entry, head_slot, total}
use l3_lock_free_orderbook_e.Level.Reweigh.{lower}
use l3_lock_free_orderbook_e.Book.State.{OrderBook}
use l3_lock_free_orderbook_e.Book.Matching.{match_round, match_level}
use l3_lock_free_orderbook_e.Book.Fill.{Matching, report_of}
use l3_lock_free_orderbook_e.Book.Rounds.{Rounded, match_round-Lowered, match_round-Filled}

-- What is left of `n` when the orders of a queue are filled one after the other, the first first.
abbrev pub left : ℕ → List Entry → ℕ
left n [] = n
left n (e ∷ es) = left (n - e.order.quantity) es

-- The orders that are left.
abbrev pub unfilled : ℕ → List Entry → List Entry
unfilled n [] = []
unfilled n (e ∷ es) =
    if n == 0
    then e ∷ es
    else (if leb e.order.quantity n then unfilled (n - e.order.quantity) es else lower e n ∷ es)

module _ (rdtsc : ℕ → Timestamp) (side : Side) where
  -- The reports, the first at the reading `t` of the time stamp counter.
  abbrev pub fills : (t : ℕ) → ℕ → List Entry → List TradeReport
  fills t n [] = []
  fills t n (e ∷ es) =
      if n == 0
      then []
      else (if leb e.order.quantity n
          then report_of (rdtsc t) e e.order.quantity side ∷ fills (t + 1) (n - e.order.quantity) es
          else report_of (rdtsc t) e n side ∷ [])

left_zero : (es : List Entry) → left 0 es ≡ 0
left_zero [] = refl
left_zero (e ∷ es) = ap (λ n. left n es) (omega arith) ∙ left_zero es

-- What the loop leaves behind.
pub record Swept (cap p lv : ℕ) (x : Order) (b : OrderBook) (l : PriceLevel) (n : ℕ)
    (es : List Entry) (reports : List TradeReport) (b' : OrderBook) : Type 0 where
  pub level : PriceLevel
  pub matching : Matching cap p lv x b' n level es
  pub same_level : (level.price ≡ l.price) × (level.side ≡ l.side)
  pub trades : b'.trades ≡ b.trades ++ reports
  pub trees : (b'.bid_tree ≡ b.bid_tree) × (b'.ask_tree ≡ b.ask_tree)

stopped :
    {cap p lv n : ℕ} {x : Order} {b : OrderBook} {l : PriceLevel} {es : List Entry}
    → Matching cap p lv x b n l es
    → Swept cap p lv x b l n es [] b
stopped {b = b} {l = l} g = record {
  level = l;
  matching = g;
  same_level = (refl, refl);
  trades = sym (append-nil b.trades);
  trees = (refl, refl);
}

went_on :
    {cap p lv k n : ℕ} {x : Order} {b b₁ b₂ : OrderBook} {l : PriceLevel} {es fs : List Entry}
    {report : TradeReport} {reports : List TradeReport}
    → (r : Rounded cap p lv x b l k es report b₁) → Swept cap p lv x b₁ r.level n fs reports b₂
    → Swept cap p lv x b l n fs (report ∷ reports) b₂
went_on {b = b} {report = report} {reports = reports} r w = record {
  level = w.level;
  matching = w.matching;
  same_level = (w.same_level.0 ∙ r.same_level.0, w.same_level.1 ∙ r.same_level.1);
  trades =
      w.trades ∙ ap (λ ts. ts ++ reports) r.trades ∙ append_assoc b.trades (report ∷ []) reports;
  trees = (w.trees.0 ∙ r.trees.0, w.trees.1 ∙ r.trees.1);
}

module _ (order_map_size : ℕ) (rdtsc : ℕ → Timestamp) (side : Side) (cap p lv : ℕ) (x : Order) where
  -- The loop stops where nothing is left of the incoming order, or the queue is empty.
  match_level-stop :
      (f : ℕ) {n : ℕ} {b : OrderBook} {l : PriceLevel} (es fs : List Entry)
      → Matching cap p lv x b n l es
      → n ≡ 0
      → match_level order_map_size rdtsc (suc f) side p lv (head_slot fs) b ≡ ok (tt, b)
  unfolding match_level
  match_level-stop f es [] g e = refl
  match_level-stop f {n} {b} es (c ∷ fs) g e =
      let idle : ltb 0 n ≡ false = ground arith in rw (load-view b.order_pool p g.order, idle) refl

  match_level-empty :
      (f : ℕ) {n : ℕ} {b : OrderBook} {l : PriceLevel}
      → Matching cap p lv x b n l []
      → match_level order_map_size rdtsc (suc f) side p lv none b ≡ ok (tt, b)
  unfolding match_level
  match_level-empty f g = refl

  match_level-stop_pos :
      (f : ℕ) {n : ℕ} {b : OrderBook} {l : PriceLevel} (es fs : List Entry)
      → 0 < f
      → Matching cap p lv x b n l es
      → n ≡ 0
      → match_level order_map_size rdtsc f side p lv (head_slot fs) b ≡ ok (tt, b)
  match_level-stop_pos zero es fs pos g e = absurd (omega arith)
  match_level-stop_pos (suc f) es fs pos g e = match_level-stop f es fs g e

  match_level-step :
      (f : ℕ) {n : ℕ} {b b₁ : OrderBook} {l : PriceLevel} (e : Entry) (es : List Entry)
      → Matching cap p lv x b n l (e ∷ es)
      → (n == 0) ≡ false
      → match_round order_map_size rdtsc side p lv e.slot b ≡ ok (head_slot es, b₁)
      → match_level order_map_size rdtsc (suc f) side p lv (some e.slot) b
        ≡ match_level order_map_size rdtsc f side p lv (head_slot es) b₁
  unfolding match_level
  match_level-step f {n} {b} e es g ne run =
      let busy : ltb 0 n ≡ true = ground arith in
      rw (load-view b.order_pool p g.order, busy, run) refl

  -- The inner loop, given fuel for more rounds than the queue has orders, for an incoming order of `n`
  -- against a level that holds the queue `es`: it ends without a fault. The orders have been filled one
  -- after the other, the first first, each to its whole quantity before the next one is touched, with one
  -- report for each, until nothing is left of the incoming order or of the queue; what is left of both is
  -- as it was before but for the quantity of the one order that is filled in part. The price and side of
  -- the level, the earlier reports and the two trees are kept.
  pub match_level-Swept :
      (f : ℕ) {n : ℕ} {b : OrderBook} {l : PriceLevel} (es : List Entry)
      → length es < f
      → Matching cap p lv x b n l es
      → (b' : OrderBook) × (match_level order_map_size rdtsc f side p lv (head_slot es) b
          ≡ ok (tt, b'))
        × Swept cap p lv x b l (left n es) (unfilled n es) (fills rdtsc side b.ticks n es) b'
  match_level-Swept zero es h g = absurd (omega arith)
  match_level-Swept (suc f) {n} {b} {l} [] h g = (b, match_level-empty f g, stopped g)
  match_level-Swept (suc f) {n} {b} {l} (e ∷ es) h g = elim (Bool-cases (n == 0)) [
    | inl z ↦
        let none_left : n ≡ 0 = (==_iff n 0).0 z in
        let same : n ≡ left n (e ∷ es) =
          none_left ∙ sym (ap (λ k. left k (e ∷ es)) none_left ∙ left_zero (e ∷ es)) in
        (
          b,
          match_level-stop f (e ∷ es) (e ∷ es) g none_left,
          rw z (subst (λ k. Swept cap p lv x b l k (e ∷ es) [] b) same (stopped g)),
        )
    | inr nz ↦ elim (Bool-cases (leb e.order.quantity n)) [
      | inl fits ↦
          let (b₁, run, r) = match_round-Filled order_map_size rdtsc side e es g (ground arith) in
          let (b', runs, w) = match_level-Swept f es (omega arith) r.matching in
          (
            b',
            match_level-step f e es g nz run ∙ runs,
            rw (nz, fits)
                (went_on r (
                  subst
                    (λ t.
                      Swept cap p lv x b₁ r.level (left (n - e.order.quantity) es)
                        (unfilled (n - e.order.quantity) es)
                        (fills rdtsc side t (n - e.order.quantity) es) b')
                    r.ticks w)),
          )
      | inr larger ↦
          let (b₁, run, r) = match_round-Lowered order_map_size rdtsc side e es g (ground arith) in
          let same : 0 ≡ left n (e ∷ es) =
            sym (ap (λ k. left k es) (ground arith) ∙ left_zero es) in
          (
            b₁,
            match_level-step f e es g nz run
                ∙ match_level-stop_pos f (lower e n ∷ es) es (omega arith) r.matching refl,
            rw (nz, larger)
                (went_on r (
                  subst (λ k. Swept cap p lv x b₁ r.level k (lower e n ∷ es) [] b₁) same
                    (stopped r.matching))),
          )
    ]
  ]
