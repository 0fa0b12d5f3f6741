-- ===== src/Tree/Memory.antt =====
-- The nodes of an `IntrusiveRBTree`, its two members, and reads and writes through pointers.
use l3_lock_free_orderbook_e.Prelude.{
  ℕ, ◌+◌, none, some, Bool, true, false, not, Run, ok, fault, Ptr, update,
}

pub data Color : Type 0 where
  red black : Color

pub record RbTreeNodeBase : Type 0 where
  pub parent : Ptr
  pub left : Ptr
  pub right : Ptr
  pub color : Color

abbrev pub is_red_color : Color → Bool
is_red_color red = true
is_red_color black = false

pub record IntrusiveRbTree : Type 0 where
  pub nodes : ℕ → RbTreeNodeBase
  pub root : Ptr
  pub size : ℕ

-- the constructor of a node, and that of a tree
abbrev pub new_node : RbTreeNodeBase
new_node = record { parent = none; left = none; right = none; color = red }

abbrev pub new : IntrusiveRbTree
new = record { nodes = λ _. new_node; root = none; size = 0 }

abbrev pub M : Type 0 → Type 0
M A = IntrusiveRbTree → Run (A × IntrusiveRbTree)

abbrev pub pure : {A : Type 0} → A → M A
pure a t = ok (a, t)

abbrev pub and_then :
    {A B : Type 0} → Run (A × IntrusiveRbTree) → (A → M B) → Run (B × IntrusiveRbTree)
and_then (ok r) f = f r.0 r.1
and_then Run.fault f = Run.fault
and_then Run.out_of_fuel f = Run.out_of_fuel

infixl 5 ◌>>=◌ ◌>>◌
abbrev pub ◌>>=◌ : {A B : Type 0} → M A → (A → M B) → M B
◌>>=◌ m f t = and_then (m t) f

abbrev pub ◌>>◌ : {B : Type 0} → M (Unit {0}) → M B → M B
m >> k = m >>= λ _. k

-- `*p`
unfoldable pub node : Ptr → M RbTreeNodeBase
node none t = fault
node (some p) t = ok (t.nodes p, t)

-- A write of one member of `*p`.
unfoldable pub modify : Ptr → (RbTreeNodeBase → RbTreeNodeBase) → M (Unit {0})
modify none f t = fault
modify (some p) f t = ok (tt, record t { nodes = update t.nodes p (f (t.nodes p)) })

abbrev pub get_parent : Ptr → M Ptr
get_parent p = node p >>= λ n. pure n.parent

abbrev pub get_left : Ptr → M Ptr
get_left p = node p >>= λ n. pure n.left

abbrev pub get_right : Ptr → M Ptr
get_right p = node p >>= λ n. pure n.right

abbrev pub get_color : Ptr → M Color
get_color p = node p >>= λ n. pure n.color

abbrev pub is_red : Ptr → M Bool
is_red p = node p >>= λ n. pure (is_red_color n.color)

abbrev pub set_parent : Ptr → Ptr → M (Unit {0})
set_parent p q = modify p λ n. record n { parent = q }

abbrev pub set_left : Ptr → Ptr → M (Unit {0})
set_left p q = modify p λ n. record n { left = q }

abbrev pub set_right : Ptr → Ptr → M (Unit {0})
set_right p q = modify p λ n. record n { right = q }

abbrev pub set_color : Ptr → Color → M (Unit {0})
set_color p c = modify p λ n. record n { color = c }

abbrev pub get_root : M Ptr
get_root t = ok (t.root, t)

abbrev pub set_root : Ptr → M (Unit {0})
set_root p t = ok (tt, record t { root = p })

-- `if (p != nullptr)` before an action
abbrev pub unless_null : Ptr → M (Unit {0}) → M (Unit {0})
unless_null none m = pure tt
unless_null (some p) m = m

-- `p != nullptr && p->is_red()`, and `p == nullptr || p->is_black()`
abbrev pub present_and_red : Ptr → M Bool
present_and_red none = pure false
present_and_red (some p) = is_red (some p)

abbrev pub absent_or_black : Ptr → M Bool
absent_or_black none = pure true
absent_or_black (some p) = get_color (some p) >>= λ c. pure (not (is_red_color c))

-- A loop with the fuel that it is given: one round more than the tree has nodes.
abbrev pub with_fuel : {A : Type 0} → (ℕ → M A) → M A
with_fuel m t = m (t.size + 1) t

abbrev pub no_fuel : {A : Type 0} → M A
no_fuel t = Run.out_of_fuel
