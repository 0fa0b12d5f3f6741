-- ===== src/Tree/Rotate.antt =====
-- `rotate_left`, `rotate_right` and `transplant`.
use l3_lock_free_orderbook_e.Prelude.{none, some, Ptr, same, if◌then◌else◌}
use l3_lock_free_orderbook_e.Tree.Memory.{
  M, ◌>>=◌, ◌>>◌, get_parent, get_left, get_right, set_parent, set_left, set_right, set_root,
  unless_null,
}

-- `if (v != nullptr) v->parent = u`
unfoldable pub adopt : (v u : Ptr) → M (Unit {0})
adopt v u = unless_null v (set_parent v u)

-- `v` takes the place of `u` below its parent `p`, or at the root: as `rotate_left` and `transplant`
-- have it, where the test is for a left child,
unfoldable pub replace_left : (p u v : Ptr) → M (Unit {0})
replace_left none u v = set_root v
replace_left (some p) u v = do
  l ← get_left (some p)
  if same u l then set_left (some p) v else set_right (some p) v

-- and as `rotate_right` has it, where it is for a right child.
unfoldable pub replace_right : (p u v : Ptr) → M (Unit {0})
replace_right none u v = set_root v
replace_right (some p) u v = do
  r ← get_right (some p)
  if same u r then set_right (some p) v else set_left (some p) v

unfoldable pub rotate_left : Ptr → M (Unit {0})
rotate_left x = do
  y ← get_right x
  y_left ← get_left y
  set_right x y_left
  adopt y_left x
  x_parent ← get_parent x
  set_parent y x_parent
  replace_left x_parent x y
  set_left y x
  set_parent x y

unfoldable pub rotate_right : Ptr → M (Unit {0})
rotate_right y = do
  x ← get_left y
  x_right ← get_right x
  set_left y x_right
  adopt x_right y
  y_parent ← get_parent y
  set_parent x y_parent
  replace_right y_parent y x
  set_right x y
  set_parent y x

unfoldable pub transplant : Ptr → Ptr → M (Unit {0})
transplant u v = do u_parent ← get_parent u; replace_left u_parent u v; adopt v u_parent
