-- ===== src/Tree/Insert.antt =====
-- `insert` and `insert_fixup`.
use l3_lock_free_orderbook_e.Prelude.{
  ℕ, zero, suc, Bool, true, false, none, some, Option, ok, Ptr, same, if◌then◌else◌,
}
use l3_lock_free_orderbook_e.Prelude.Word.{add64}
use l3_lock_free_orderbook_e.Tree.Memory.{
  red, black, M, ◌>>=◌, ◌>>◌, pure, get_parent, get_left, get_right, get_root, set_left, set_right,
  set_root, set_color, present_and_red, with_fuel, no_fuel, modify,
}
use l3_lock_free_orderbook_e.Tree.Rotate.{rotate_left, rotate_right}

-- The parent and the uncle become black, the grandparent red.
unfoldable pub recolor : (p y g : Ptr) → M (Unit {0})
recolor p y g = do set_color p black; set_color y black; set_color g red

-- The parent takes the place of the grandparent.
unfoldable pub rise_left : Ptr → M (Unit {0})
rise_left z = do
  p ← get_parent z
  set_color p black
  g ← get_parent p
  set_color g red
  rotate_right g

unfoldable pub rise_right : Ptr → M (Unit {0})
rise_right z = do
  p ← get_parent z
  set_color p black
  g ← get_parent p
  set_color g red
  rotate_left g

-- One round of `insert_fixup` where the parent of `z` is a left child; the new `z`.
unfoldable pub insert_fixup_left : Ptr → M Ptr
insert_fixup_left z = do
  p ← get_parent z
  g ← get_parent p
  y ← get_right g
  y_red ← present_and_red y
  if y_red then (do recolor p y g; pure g) else (do
    p_right ← get_right p
    z ← (if same z p_right then (do rotate_left p; pure p) else pure z)
    rise_left z
    pure z)

-- The other half of the round, left and right exchanged.
unfoldable pub insert_fixup_right : Ptr → M Ptr
insert_fixup_right z = do
  p ← get_parent z
  g ← get_parent p
  y ← get_left g
  y_red ← present_and_red y
  if y_red then (do recolor p y g; pure g) else (do
    p_left ← get_left p
    z ← (if same z p_left then (do rotate_right p; pure p) else pure z)
    rise_right z
    pure z)

unfoldable pub insert_fixup_round : Ptr → M Ptr
insert_fixup_round z = do
  p ← get_parent z
  g ← get_parent p
  g_left ← get_left g
  if same p g_left then insert_fixup_left z else insert_fixup_right z

-- the test of the loop: `z->parent != nullptr && z->parent->is_red()`
unfoldable pub parent_is_red : Ptr → M Bool
parent_is_red z = do p ← get_parent z; present_and_red p

unfoldable pub insert_fixup_loop : ℕ → Ptr → M (Unit {0})
insert_fixup_loop zero z = no_fuel
insert_fixup_loop (suc f) z = do
  again ← parent_is_red z
  if again then (do z ← insert_fixup_round z; insert_fixup_loop f z) else pure tt

unfoldable pub insert_fixup : Ptr → M (Unit {0})
insert_fixup z = do with_fuel (λ f. insert_fixup_loop f z); root ← get_root; set_color root black

-- `++size_`
unfoldable pub grow : M (Unit {0})
grow t = ok (tt, record t { size = add64 t.size 1 })

module _ {ℓ} {K : Type ℓ} (key : ℕ → K) (less : K → K → Bool) where
  -- The walk down from `current`, whose parent is `parent`: the new node's parent, or `none` if the
  -- key is in the tree.
  unfoldable pub descend : ℕ → K → Ptr → Ptr → M (Option Ptr)
  descend zero k parent current = no_fuel
  descend (suc f) k parent none = pure (some parent)
  descend (suc f) k parent (some c) =
      if less k (key c)
      then (do l ← get_left (some c); descend f k (some c) l)
      else (if less (key c) k
          then (do r ← get_right (some c); descend f k (some c) r)
          else pure none)

  -- The new leaf hung below its parent.
  unfoldable pub attach : ℕ → Ptr → M (Unit {0})
  attach value parent = do
    modify (some value) λ _. record { parent = parent; left = none; right = none; color = red }
    elim parent [
      | none ↦ set_root (some value)
      | some p ↦
          if less (key value) (key p)
          then set_left (some p) (some value)
          else set_right (some p) (some value)
    ]

  unfoldable pub insert : ℕ → M Bool
  insert value = do
    root ← get_root
    place ← with_fuel (λ f. descend f (key value) none root)
    elim place [
      | none ↦ pure false
      | some parent ↦ do attach value parent; grow; insert_fixup (some value); pure true
    ]
