-- ===== src/Position/Profit.antt =====
-- What a fill of a Position realizes.
use l3_lock_free_orderbook_e.Prelude.{
  ℕ, suc, min, ◌%◌, ◌^◌, ◌<◌, ◌≡◌, ◌==◌, ltb, leb, if◌then◌else◌, refl, ap, sym, Returns, ok, ◌∙◌,
  Bool, true, false, Bool-cases, inl, inr, arith,
}
use l3_lock_free_orderbook_e.Prelude.Int.{
  ℤ, pos, negsuc, sub_ℕ, ◌+ℤ◌, ◌-ℤ◌, ◌*ℤ◌, ltb_ℤ, leb_ℤ, fits_i64,
}
use l3_lock_free_orderbook_e.Prelude.Word.{u32}
use l3_lock_free_orderbook_e.Types.{Price, Quantity, Side, buy, sell}
use l3_lock_free_orderbook_e.Double.{Double}
use l3_lock_free_orderbook_e.Position.{
  Position, open_fill, close_fill, turn, buy_fill, sell_fill, fill_side, add_fill,
}

-- A position on the side of the fill, or flat.
abbrev pub is_with : Side → ℤ → Bool
is_with buy q = leb_ℤ (pos 0) q
is_with sell q = leb_ℤ q (pos 0)

-- A position of `suc m` against the fill.
abbrev pub against : Side → ℕ → ℤ
against buy m = negsuc m
against sell m = pos (suc m)

-- The gain of closing one that was entered at `entry`.
abbrev pub gain : Side → (entry price : Price) → ℤ
gain buy entry price = entry -ℤ price
gain sell entry price = price -ℤ entry

pub short : (m : ℕ) → pos 0 -ℤ negsuc m ≡ pos (suc m)
unfolding ◌-ℤ◌
short m = ground arith

after_buy : (m n : ℕ) → negsuc m +ℤ pos n ≡ sub_ℕ n (suc m)
unfolding ◌+ℤ◌
after_buy m n = ground arith

turned_buy : (m n : ℕ) → ltb_ℤ (pos 0) (negsuc m +ℤ pos n) ≡ ltb (suc m) n
unfolding ◌+ℤ◌
turned_buy m n = ground arith

turned_sell : (m n : ℕ) → ltb_ℤ (pos (suc m) -ℤ pos n) (pos 0) ≡ ltb (suc m) n
unfolding ◌-ℤ◌
turned_sell m n = ground arith

module _ {W : Type 0} ⦃d : Double W⦄ where
  pub turn-qty : (b : Bool) (price : Price) (p : Position W) → (turn b price p).qty ≡ p.qty
  unfolding turn
  turn-qty true price p = refl
  turn-qty false price p = refl

  turn-realized_pnl :
      (b : Bool) (price : Price) (p : Position W) → (turn b price p).realized_pnl ≡ p.realized_pnl
  unfolding turn
  turn-realized_pnl true price p = refl
  turn-realized_pnl false price p = refl

  turn-avg_entry_price :
      (b : Bool) (price : Price) (p : Position W)
      → (turn b price p).avg_entry_price ≡ (if b then price else p.avg_entry_price)
  unfolding turn
  turn-avg_entry_price true price p = refl
  turn-avg_entry_price false price p = refl

  -- A fill that opens a position or adds to it realizes nothing, and its commission has no effect.
  pub add_fill-opens :
      (s : Side) (price : Price) (n : Quantity) (c c' : W) (p : Position W)
      → is_with s p.qty ≡ true
      → Returns
          (λ p'. (p'.realized_pnl ≡ p.realized_pnl) × (add_fill s price n c' p ≡ ok p'))
          (add_fill s price n c p)
  unfolding add_fill fill_side buy_fill sell_fill open_fill
  add_fill-opens buy price n c c' p h = elim (Bool-cases (n == 0)) [
    | inl a ↦ simp a (refl, refl)
    | inr a ↦ simp (a, h) (refl, refl)
  ]
  add_fill-opens sell price n c c' p h = elim (Bool-cases (n == 0)) [
    | inl a ↦ simp a (refl, refl)
    | inr a ↦ simp (a, h) (refl, refl)
  ]

  -- What is realized when `closed` of the position are closed by a fill of `n`.
  abbrev pub realized : Side → (entry price : Price) (closed n : ℕ) → W → W → W
  realized s entry price closed n c r =
      d.plus r
        (d.minus (d.of_int (gain s entry price *ℤ pos closed)) (d.times c (d.of_int (pos n))))

  -- A fill against a position of less than 2^32, where the price difference, and that times the smaller
  -- of the two quantities, are in the range of `int64_t`: there is no fault, what is closed is the
  -- smaller of the two quantities, at the price difference for each, less the commission on the whole
  -- fill; the entry price becomes that of the fill if the fill is the larger, and is kept else.
  pub add_fill-closes :
      (s : Side) (price entry : Price) (n m : ℕ) (c r : W)
      → 0 < n
      → suc m < 2 ^ 32
      → fits_i64 (gain s entry price) ≡ true
      → fits_i64 (gain s entry price *ℤ pos (min n (suc m))) ≡ true
      → Returns
          (λ p.
            (p.realized_pnl ≡ realized s entry price (min n (suc m)) n c r)
            × (p.avg_entry_price ≡ (if ltb (suc m) n then price else entry)))
          (add_fill s price n c
            (record { qty = against s m; avg_entry_price = entry; realized_pnl = r }))
  unfolding add_fill fill_side buy_fill sell_fill close_fill
  add_fill-closes buy price entry n m c r some small fits all_fits =
      let positive : (n == 0) ≡ false = ground arith in
      let whole : u32 (suc m) ≡ suc m = ground arith in
      let opposed : leb_ℤ (pos 0) (against buy m) ≡ false = ground arith in
      let within : (k : ℕ) → min n (suc m) ≡ k → fits_i64 (gain buy entry price *ℤ pos k) ≡ true =
        λ k e. ap (λ j. fits_i64 (gain buy entry price *ℤ pos j)) (sym e) ∙ all_fits in
      elim (Bool-cases (leb (suc m) n)) [
        | inl b ↦
            let least : min n (suc m) ≡ suc m = ground (arith, b) in
            simp (positive, whole, opposed, b, least, turned_buy m n, short m, fits, within _ least)
              (turn-realized_pnl _ _ _, turn-avg_entry_price _ _ _)
        | inr b ↦
            let least : min n (suc m) ≡ n = ground (arith, b) in
            let smaller : ltb (suc m) n ≡ false = ground (arith, b) in
            simp (positive, whole, opposed, b, least, smaller, fits, within _ least) (refl, refl)
      ]
  add_fill-closes sell price entry n m c r some small fits all_fits =
      let positive : (n == 0) ≡ false = ground arith in
      let whole : u32 (suc m) ≡ suc m = ground arith in
      let opposed : leb_ℤ (against sell m) (pos 0) ≡ false = ground arith in
      let within : (k : ℕ) → min n (suc m) ≡ k → fits_i64 (gain sell entry price *ℤ pos k) ≡ true =
        λ k e. ap (λ j. fits_i64 (gain sell entry price *ℤ pos j)) (sym e) ∙ all_fits in
      elim (Bool-cases (leb (suc m) n)) [
        | inl b ↦
            let least : min n (suc m) ≡ suc m = ground (arith, b) in
            simp (positive, whole, opposed, b, least, turned_sell m n, fits, within _ least)
              (turn-realized_pnl _ _ _, turn-avg_entry_price _ _ _)
        | inr b ↦
            let least : min n (suc m) ≡ n = ground (arith, b) in
            let smaller : ltb (suc m) n ≡ false = ground (arith, b) in
            simp (positive, whole, opposed, b, least, smaller, fits, within _ least) (refl, refl)
      ]

  -- A short position of a positive multiple of 2^32, and a buy, where the price difference, and that
  -- times the position, are in the range of `int64_t`: the size is cut to 32 bits for the comparison, so
  -- the profit is realized on the whole position, though only the fill is closed.
  add_fill-truncates :
      (price entry : Price) (n m : ℕ) (c r : W)
      → 0 < n
      → suc m % 2 ^ 32 ≡ 0
      → fits_i64 (gain buy entry price) ≡ true
      → fits_i64 (gain buy entry price *ℤ pos (suc m)) ≡ true
      → Returns
          (λ p.
            (p.realized_pnl ≡ realized buy entry price (suc m) n c r) × (p.qty ≡ sub_ℕ n (suc m)))
          (add_fill buy price n c
            (record { qty = negsuc m; avg_entry_price = entry; realized_pnl = r }))
  unfolding add_fill fill_side buy_fill close_fill
  add_fill-truncates price entry n m c r some cut fits all_fits =
      let positive : (n == 0) ≡ false = ground arith in
      let opposed : leb_ℤ (pos 0) (negsuc m) ≡ false = ground arith in
      let b : leb (u32 (suc m)) n ≡ true = ground (arith, cut) in
      simp (positive, opposed, b, short m, fits, all_fits)
        (turn-realized_pnl _ _ _, turn-qty _ _ _ ∙ after_buy m n)
