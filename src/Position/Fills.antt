-- ===== src/Position/Fills.antt =====
-- The quantity of a Position over its fills, and what a fill does to the realized profit.
use l3_lock_free_orderbook_e.Prelude.{
  ℕ, zero, suc, ◌+◌, ◌^◌, ◌<◌, ◌≡◌, ◌==◌, leb, refl, sym, ap, not, ◌&&◌, if◌then◌else◌, Run, ok,
  ◌>>=◌, ReturnsOr, ◌∙◌, Bool, true, false, ==_iff, Bool-cases, inl, inr, List, [], ◌∷◌, arith,
}
use l3_lock_free_orderbook_e.Prelude.Int.{ℤ, pos, sub_ℕ, ◌+ℤ◌, ◌-ℤ◌, ◌*ℤ◌, negsuc, leb_ℤ, fits_i64}
use l3_lock_free_orderbook_e.Prelude.Word.{u32}
use l3_lock_free_orderbook_e.Types.{Price, Quantity, Side, buy, sell}
use l3_lock_free_orderbook_e.Double.{Double}
use l3_lock_free_orderbook_e.Position.Profit.{short, turn-qty, is_with, against, gain}
use l3_lock_free_orderbook_e.Position.{
  Position, new, open_fill, close_fill, buy_fill, sell_fill, fill_side, add_fill,
}

pub record Fill (W : Type 0) : Type 0 where
  pub side : Side
  pub price : Price
  pub quantity : Quantity
  pub commission : W

-- The quantity after a fill.
abbrev pub moved : Side → Quantity → ℤ → ℤ
moved buy n q = q +ℤ pos n
moved sell n q = q -ℤ pos n

pub moved-zero : (s : Side) (q : ℤ) → moved s 0 q ≡ q
unfolding ◌+ℤ◌ ◌-ℤ◌
moved-zero buy q = ground arith
moved-zero sell q = ground arith

pub moved-moved : (s : Side) (n m : ℕ) (q : ℤ) → moved s m (moved s n q) ≡ moved s (n + m) q
unfolding ◌+ℤ◌ ◌-ℤ◌
moved-moved buy n m q = ground arith
moved-moved sell n m q = ground arith

moved-sub_ℕ_buy : (n a b : ℕ) → moved buy n (sub_ℕ a b) ≡ sub_ℕ (a + n) b
unfolding ◌+ℤ◌
moved-sub_ℕ_buy n a b = ground arith

moved-sub_ℕ_sell : (n a b : ℕ) → moved sell n (sub_ℕ a b) ≡ sub_ℕ a (b + n)
unfolding ◌-ℤ◌
moved-sub_ℕ_sell n a b = ground arith

abbrev on_side : Side → Side → ℕ → ℕ
on_side buy buy n = n
on_side sell sell n = n
on_side _ _ n = 0

moved-sub_ℕ :
    (s : Side) (n a b : ℕ)
    → moved s n (sub_ℕ a b) ≡ sub_ℕ (a + on_side buy s n) (b + on_side sell s n)
moved-sub_ℕ buy n a b = moved-sub_ℕ_buy n a b ∙ ap (sub_ℕ (a + n)) (omega arith)
moved-sub_ℕ sell n a b = moved-sub_ℕ_sell n a b ∙ ap (λ x. sub_ℕ x (b + n)) (omega arith)

module _ {W : Type 0} where
  -- What was bought or sold in all.
  abbrev pub total : Side → List (Fill W) → ℕ
  total s [] = 0
  total s (f ∷ fs) = on_side s f.side f.quantity + total s fs

-- How much of a position of the quantity `q` a fill of `n` against it closes; the size of the position
-- is cut to 32 bits for the comparison.
abbrev pub size : ℤ → ℕ
size (pos n) = n
size (negsuc n) = suc n

abbrev pub closed_of : ℕ → ℤ → ℕ
closed_of n q = if leb (u32 (size q)) n then size q else n

-- The gain of a fill against a position leaves the range of `int64_t`: the difference of the prices
-- does, or its product with what is closed.
abbrev pub gain_overflows : Side → Price → ℕ → (q : ℤ) (entry : Price) → Bool
gain_overflows s price n q entry =
    not (n == 0)
    && (not (is_with s q)
        && not
            (fits_i64 (gain s entry price) && fits_i64 (gain s entry price *ℤ pos (closed_of n q))))

module _ {W : Type 0} ⦃d : Double W⦄ where
  unfoldable pub add_fills : List (Fill W) → Position W → Run (Position W)
  add_fills [] p = ok p
  add_fills (f ∷ fs) p = add_fill f.side f.price f.quantity f.commission p >>= λ p'. add_fills fs p'

  -- One of the fills comes to a position where its gain overflows.
  pub data Overflows : List (Fill W) → Position W → Type 0 where
    now :
        {f : Fill W} {fs : List (Fill W)} {p : Position W}
        → gain_overflows f.side f.price f.quantity p.qty p.avg_entry_price ≡ true
        → Overflows (f ∷ fs) p
    later :
        {f : Fill W} {fs : List (Fill W)} {p p' : Position W}
        → add_fill f.side f.price f.quantity f.commission p ≡ ok p'
        → Overflows fs p'
        → Overflows (f ∷ fs) p

  -- A fill moves the quantity by its own, up for a buy and down for a sell, unless its gain overflows.
  abbrev Fills : Side → Price → ℕ → (q : ℤ) (entry : Price) → Run (Position W) → Type 0
  Fills s price n q entry =
      ReturnsOr (gain_overflows s price n q entry ≡ true) (λ p. p.qty ≡ moved s n q)

  module _ (price : Price) (n : ℕ) (c : W) (entry : Price) (r : W) where
    abbrev held : ℤ → Position W
    held q = record { qty = q; avg_entry_price = entry; realized_pnl = r }

    fill-with :
        (s : Side) (q : ℤ)
        → is_with s q ≡ true
        → Fills s price n q entry (add_fill s price n c (held q))
    unfolding add_fill fill_side buy_fill sell_fill open_fill
    fill-with buy q h = elim (Bool-cases (n == 0)) [
      | inl a ↦ simp a (sym (moved-zero buy q) ∙ ap (λ m. moved buy m q) (sym ((==_iff n 0).0 a)))
      | inr a ↦ simp (a, h) refl
    ]
    fill-with sell q h = elim (Bool-cases (n == 0)) [
      | inl a ↦ simp a (sym (moved-zero sell q) ∙ ap (λ m. moved sell m q) (sym ((==_iff n 0).0 a)))
      | inr a ↦ simp (a, h) refl
    ]

    fill-against :
        (s : Side) (m : ℕ)
        → (n == 0) ≡ false
        → Fills s price n (against s m) entry (add_fill s price n c (held (against s m)))
    unfolding add_fill fill_side buy_fill sell_fill close_fill
    fill-against buy m a =
        let opposed : leb_ℤ (pos 0) (negsuc m) ≡ false = ground arith in
        elim (Bool-cases (fits_i64 (gain buy entry price))) [
          | inr b ↦ simp (a, opposed, b) refl
          | inl b ↦ elim (Bool-cases (leb (u32 (suc m)) n)) [
            | inl e ↦ elim (Bool-cases (fits_i64 (gain buy entry price *ℤ pos (suc m)))) [
              | inl f ↦ simp (a, opposed, b, short m, e, f) (turn-qty _ _ _)
              | inr f ↦ simp (a, opposed, b, short m, e, f) refl
            ]
            | inr e ↦ elim (Bool-cases (fits_i64 (gain buy entry price *ℤ pos n))) [
              | inl f ↦ simp (a, opposed, b, e, f) refl
              | inr f ↦ simp (a, opposed, b, e, f) refl
            ]
          ]
        ]
    fill-against sell m a =
        let opposed : leb_ℤ (pos (suc m)) (pos 0) ≡ false = ground arith in
        elim (Bool-cases (fits_i64 (gain sell entry price))) [
          | inr b ↦ simp (a, opposed, b) refl
          | inl b ↦ elim (Bool-cases (leb (u32 (suc m)) n)) [
            | inl e ↦ elim (Bool-cases (fits_i64 (gain sell entry price *ℤ pos (suc m)))) [
              | inl f ↦ simp (a, opposed, b, e, f) (turn-qty _ _ _)
              | inr f ↦ simp (a, opposed, b, e, f) refl
            ]
            | inr e ↦ elim (Bool-cases (fits_i64 (gain sell entry price *ℤ pos n))) [
              | inl f ↦ simp (a, opposed, b, e, f) refl
              | inr f ↦ simp (a, opposed, b, e, f) refl
            ]
          ]
        ]

    fill-zero :
        (s : Side) (q : ℤ)
        → (n == 0) ≡ true
        → Fills s price n q entry (add_fill s price n c (held q))
    unfolding add_fill
    fill-zero s q a = simp a (sym (moved-zero s q) ∙ ap (λ m. moved s m q) (sym ((==_iff n 0).0 a)))

    fill-Fills : (s : Side) (q : ℤ) → Fills s price n q entry (add_fill s price n c (held q))
    fill-Fills buy (pos k) = fill-with buy (pos k) (ground arith)
    fill-Fills sell (negsuc k) = fill-with sell (negsuc k) (ground arith)
    fill-Fills sell (pos zero) = fill-with sell (pos zero) (ground arith)
    fill-Fills buy (negsuc m) = elim (Bool-cases (n == 0)) [
      | inl a ↦ fill-zero buy (negsuc m) a
      | inr a ↦ fill-against buy m a
    ]
    fill-Fills sell (pos (suc m)) = elim (Bool-cases (n == 0)) [
      | inl a ↦ fill-zero sell (pos (suc m)) a
      | inr a ↦ fill-against sell m a
    ]

  -- Where the fills go on from a first one, if that has not run into a fault.
  abbrev Nets : (a b : ℕ) → List (Fill W) → Position W → Run (Position W) → Type 0
  Nets a b fs p =
      ReturnsOr (Overflows fs p) (λ p'. p'.qty ≡ sub_ℕ (a + total buy fs) (b + total sell fs))

  Nets-later :
      (a a' b b' : ℕ) (f : Fill W) (fs : List (Fill W)) (p p' : Position W) (run : Run (Position W))
      → add_fill f.side f.price f.quantity f.commission p ≡ ok p'
      → a' + total buy fs ≡ a + total buy (f ∷ fs)
      → b' + total sell fs ≡ b + total sell (f ∷ fs)
      → Nets a' b' fs p' run
      → Nets a b (f ∷ fs) p run
  Nets-later a a' b b' f fs p p' (ok q) one x y h =
      h ∙ ap (λ z. sub_ℕ z (b' + total sell fs)) x ∙ ap (sub_ℕ (a + total buy (f ∷ fs))) y
  Nets-later a a' b b' f fs p p' Run.fault one x y h = Overflows.later one h
  Nets-later a a' b b' f fs p p' Run.out_of_fuel one x y h = h

  add_fills-Nets :
      (fs : List (Fill W)) (p : Position W) (a b : ℕ)
      → p.qty ≡ sub_ℕ a b
      → Nets a b fs p (add_fills fs p)
  unfolding add_fills
  add_fills-Nets [] p a b e =
      e ∙ ap (λ x. sub_ℕ x b) (omega arith) ∙ ap (sub_ℕ (a + 0)) (omega arith)
  add_fills-Nets (f ∷ fs) p a b e =
      by_first (add_fill f.side f.price f.quantity f.commission p) refl
        (fill-Fills f.price f.quantity f.commission p.avg_entry_price p.realized_pnl f.side p.qty)
        (λ p' e'.
          add_fills-Nets fs p' (a + on_side buy f.side f.quantity)
            (b + on_side sell f.side f.quantity) e')
    where
      by_first :
          (run : Run (Position W))
          → add_fill f.side f.price f.quantity f.commission p ≡ run
          → Fills f.side f.price f.quantity p.qty p.avg_entry_price run
          → ((p' : Position W)
              → p'.qty
                ≡ sub_ℕ (a + on_side buy f.side f.quantity) (b + on_side sell f.side f.quantity)
              → Nets
                  (a + on_side buy f.side f.quantity)
                  (b + on_side sell f.side f.quantity)
                  fs
                  p'
                  (add_fills fs p'))
          → Nets a b (f ∷ fs) p (run >>= λ p'. add_fills fs p')
      by_first (ok p') one h rest =
          Nets-later a (a + on_side buy f.side f.quantity) b (b + on_side sell f.side f.quantity) f
            fs p p' (add_fills fs p') one (omega arith) (omega arith)
            (rest p' (h ∙ ap (moved f.side f.quantity) e ∙ moved-sub_ℕ f.side f.quantity a b))
      by_first Run.fault one h rest = Overflows.now h
      by_first Run.out_of_fuel one h rest = h

  -- After fills of a new position, whatever their prices and commissions, its quantity is what was
  -- bought less what was sold, and it fits `int64_t`, if both are below 2^63, unless the gain of one of
  -- the fills overflows `int64_t`.
  pub add_fills-net :
      (fs : List (Fill W))
      → total buy fs < 2 ^ 63
      → total sell fs < 2 ^ 63
      → ReturnsOr
          (Overflows fs new)
          (λ p. (p.qty ≡ sub_ℕ (total buy fs) (total sell fs)) × (fits_i64 p.qty ≡ true))
          (add_fills fs new)
  add_fills-net fs b s = by_run (add_fills fs new) (add_fills-Nets fs new 0 0 refl)
    where
      by_run :
          (run : Run (Position W))
          → Nets 0 0 fs new run
          → ReturnsOr
              (Overflows fs new)
              (λ p. (p.qty ≡ sub_ℕ (total buy fs) (total sell fs)) × (fits_i64 p.qty ≡ true))
              run
      by_run (ok p) h =
          let net : p.qty ≡ sub_ℕ (total buy fs) (total sell fs) =
            h
            ∙ ap (λ x. sub_ℕ x (0 + total sell fs)) (omega arith)
            ∙ ap (sub_ℕ (total buy fs)) (omega arith) in
          (net, rw net (ground (arith, b, s)))
      by_run Run.fault h = h
      by_run Run.out_of_fuel h = h
