-- ===== src/Level/Unlink.antt =====
-- `PriceLevel::remove_order` takes any order out of the queue.
use l3_lock_free_orderbook_e.Prelude.{
  ℕ, ◌≡◌, ap, ◌∙◌, true, false, Option, some, List, [], ◌∷◌, ◌++◌, mem, Distinct, Ptr, same, arith,
  ◌==◌, ==_iff, ==_comm, ne_of_mem,
}
use l3_lock_free_orderbook_e.Level.{Order}
use l3_lock_free_orderbook_e.Level.Links.{
  Entry, slots, head_slot, last_slot, Linked, relink, relink_id, relink_back, relink_forward,
  middle_out, ==_refl, NotIn, NotIn-same, head_slot-ne, last_slot-ne,
}

rest_mem :
    (i : ℕ) (e f : Entry) (es : List Entry)
    → mem i (slots es) ≡ true
    → mem i (slots (e ∷ f ∷ es)) ≡ true
rest_mem i e f es m = ground arith

module _ (this : ℕ) where
  -- A segment without the two neighbours stays as it was.
  Linked-relink :
      (v v' : ℕ → Option Order) (pv nx q : Ptr) (es : List Entry)
      → ((i : ℕ) (y : Order)
          → mem i (slots es) ≡ true
          → v i ≡ some y
          → v' i ≡ some (relink pv nx i y))
      → ((i : ℕ)
          → mem i (slots es) ≡ true
          → (same pv (some i) ≡ false) × (same nx (some i) ≡ false))
      → Linked this v q es
      → Linked this v' q es
  Linked-relink v v' pv nx q [] h out l = tt
  Linked-relink v v' pv nx q (e ∷ es) h out l =
      let m : mem e.slot (slots (e ∷ es)) ≡ true = ground (arith, ==_iff e.slot e.slot) in
      (
        h e.slot _ m l.0 ∙ ap some (relink_id pv nx e.slot _ (out e.slot m).0 (out e.slot m).1),
        Linked-relink v v' pv nx (some e.slot) es (λ i y k. h i y (ground arith))
            (λ i k. out i (ground arith)) l.1,
      )

  -- The queue without the entry `e`, once its neighbours are linked to one another.
  pub Linked-erase :
      (v v' : ℕ → Option Order) (q : Ptr) (ds : List Entry) (e : Entry) (es : List Entry)
      → ((i : ℕ) (y : Order)
          → (e.slot == i) ≡ false
          → v i ≡ some y
          → v' i ≡ some (relink (last_slot q ds) (head_slot es) i y))
      → Distinct (slots (ds ++ e ∷ es))
      → NotIn q (slots (ds ++ e ∷ es))
      → Linked this v q (ds ++ e ∷ es)
      → Linked this v' q (ds ++ es)
  Linked-erase v v' q [] e [] h d n l = tt
  Linked-erase v v' q [] e (f ∷ es) h d n l =
      let apart = middle_out e.slot [] f es d.0 in
      let all = slots (e ∷ f ∷ es) in
      let at : mem f.slot all ≡ true = ground (arith, ==_refl f.slot) in
      (
        h f.slot _ (==_comm e.slot f.slot ∙ apart.1) l.1.0
            ∙ ap some (
                relink_back q (some f.slot) f.slot _ (NotIn-same q all f.slot n at)
                  (==_refl f.slot)),
        Linked-relink v v' q (some f.slot) (some f.slot) es
            (λ i y m. h i y (==_comm e.slot i ∙ ne_of_mem i e.slot (slots es) m apart.2))
            (λ i m. (
              NotIn-same q all i n (rest_mem i e f es m),
              ==_comm f.slot i ∙ ne_of_mem i f.slot (slots es) m d.1.0,
            ))
            l.1.1,
      )
  Linked-erase v v' q (c ∷ []) e es h d n l =
      let apart = middle_out c.slot [] e es d.0 in
      (
        h c.slot _ apart.1 l.0
            ∙ ap some (
                relink_forward (some c.slot) (head_slot es) c.slot _ (==_refl c.slot)
                  (head_slot-ne es c.slot apart.2)),
        Linked-erase v v' (some c.slot) [] e es h d.1 d.0 l.1,
      )
  Linked-erase v v' q (c ∷ f ∷ ds) e es h d n l =
      let apart = middle_out c.slot (f ∷ ds) e es d.0 in
      (
        h c.slot _ apart.1 l.0
            ∙ ap some (
                relink_id (last_slot (some f.slot) ds) (head_slot es) c.slot _
                  (last_slot-ne f.slot ds c.slot apart.0) (head_slot-ne es c.slot apart.2)),
        Linked-erase v v' (some c.slot) (f ∷ ds) e es h d.1 d.0 l.1,
      )
