-- ===== src/Tree/Remove.antt =====
-- `remove`, `delete_fixup` and `clear`.
use l3_lock_free_orderbook_e.Prelude.{
  ℕ, zero, suc, ◌&&◌, Bool, false, not, none, some, ok, Ptr, same, if◌then◌else◌,
}
use l3_lock_free_orderbook_e.Prelude.Word.{sub64}
use l3_lock_free_orderbook_e.Tree.Memory.{
  Color, red, black, is_red_color, new_node, M, ◌>>=◌, ◌>>◌, pure, get_parent, get_left, get_right,
  get_color, get_root, set_parent, set_left, set_right, set_color, is_red, absent_or_black,
  unless_null, with_fuel, no_fuel, modify,
}
use l3_lock_free_orderbook_e.Tree.Rotate.{rotate_left, rotate_right, transplant}
use l3_lock_free_orderbook_e.Tree.Walk.{minimum_node}

-- One round of `delete_fixup` where `x` is a left child; the new `x`.
unfoldable pub delete_fixup_left : Ptr → M Ptr
delete_fixup_left x = do
  p ← get_parent x
  w ← get_right p
  w_red ← is_red w
  w ←
      (if w_red
        then (do set_color w black; set_color p red; rotate_left p; p ← get_parent x; get_right p)
        else pure w)
  w_left ← get_left w
  left_black ← absent_or_black w_left
  w_right ← get_right w
  right_black ← absent_or_black w_right
  if left_black && right_black then (do set_color w red; get_parent x) else (do
    w ←
        (if right_black
          then (do
            unless_null w_left (set_color w_left black)
            set_color w red
            rotate_right w
            p ← get_parent x
            get_right p)
          else pure w)
    p ← get_parent x
    c ← get_color p
    set_color w c
    set_color p black
    w_right ← get_right w
    unless_null w_right (set_color w_right black)
    rotate_left p
    get_root)

-- The other half of the round, left and right exchanged.
unfoldable pub delete_fixup_right : Ptr → M Ptr
delete_fixup_right x = do
  p ← get_parent x
  w ← get_left p
  w_red ← is_red w
  w ←
      (if w_red
        then (do set_color w black; set_color p red; rotate_right p; p ← get_parent x; get_left p)
        else pure w)
  w_right ← get_right w
  right_black ← absent_or_black w_right
  w_left ← get_left w
  left_black ← absent_or_black w_left
  if right_black && left_black then (do set_color w red; get_parent x) else (do
    w ←
        (if left_black
          then (do
            unless_null w_right (set_color w_right black)
            set_color w red
            rotate_left w
            p ← get_parent x
            get_left p)
          else pure w)
    p ← get_parent x
    c ← get_color p
    set_color w c
    set_color p black
    w_left ← get_left w
    unless_null w_left (set_color w_left black)
    rotate_right p
    get_root)

unfoldable pub delete_fixup_round : Ptr → M Ptr
delete_fixup_round x = do
  p ← get_parent x
  p_left ← get_left p
  if same x p_left then delete_fixup_left x else delete_fixup_right x

-- the test of the loop: `x != root_ && x->is_black()`
unfoldable pub black_below_root : Ptr → M Bool
black_below_root x = do
  root ← get_root
  if same x root then pure false else (do c ← get_color x; pure (not (is_red_color c)))

unfoldable pub delete_fixup_loop : ℕ → Ptr → M Ptr
delete_fixup_loop zero x = no_fuel
delete_fixup_loop (suc f) x = do
  again ← black_below_root x
  if again then (do x ← delete_fixup_round x; delete_fixup_loop f x) else pure x

unfoldable pub delete_fixup : Ptr → M (Unit {0})
delete_fixup x = do x ← with_fuel (λ f. delete_fixup_loop f x); set_color x black

-- `--size_`
unfoldable pub shrink : M (Unit {0})
shrink t = ok (tt, record t { size = sub64 t.size 1 })

-- The node `y`, the least behind `z`, is made the root of all that is behind `z`: its right child `x`
-- takes its place, unless it stands just below `z`.
unfoldable pub lift_least : (z y x y_parent : Ptr) → M (Unit {0})
lift_least z y x y_parent = if same y_parent z then unless_null x (set_parent x y) else (do
  transplant y x
  z_right ← get_right z
  set_right y z_right
  y_right ← get_right y
  set_parent y_right y)

-- It takes the place of `z`, with the left child and the color of `z`.
unfoldable pub supersede : (z y : Ptr) → M (Unit {0})
supersede z y = do
  transplant z y
  z_left ← get_left z
  set_left y z_left
  y_left ← get_left y
  set_parent y_left y
  z_color ← get_color z
  set_color y z_color

-- The node `z` with two children is replaced by `y`, the least node behind it. The result is `x` and
-- the color that `y` had.
unfoldable pub splice : Ptr → Ptr → M (Ptr × Color)
splice z z_right = do
  y ← with_fuel (λ f. minimum_node f z_right)
  y_original_color ← get_color y
  x ← get_right y
  y_parent ← get_parent y
  lift_least z y x y_parent
  supersede z y
  pure (x, y_original_color)

-- The node `z` taken out of the tree, in the three cases of `remove`.
unfoldable pub detach : Ptr → M (Ptr × Color)
detach z = do
  z_color ← get_color z
  z_left ← get_left z
  z_right ← get_right z
  elim z_left [
    | none ↦ do transplant z z_right; pure (z_right, z_color)
    | some l ↦ elim z_right [
      | none ↦ do transplant z (some l); pure (some l, z_color)
      | some r ↦ splice z (some r)
    ]
  ]

-- `delete_fixup`, where a black node has gone and its child has moved up.
unfoldable pub repair : Ptr → Color → M (Unit {0})
repair none y_original_color = pure tt
repair (some x) y_original_color =
    if is_red_color y_original_color then pure tt else delete_fixup (some x)

unfoldable pub blacken_root : M (Unit {0})
blacken_root = do root ← get_root; unless_null root (set_color root black)

unfoldable pub remove : ℕ → M (Unit {0})
remove value = do
  (x, y_original_color) ← detach (some value)
  modify (some value) λ _. new_node
  shrink
  repair x y_original_color
  blacken_root

unfoldable pub clear : M (Unit {0})
clear t = ok (tt, record t { root = none; size = 0 })
