-- ===== src/Tree.antt =====
-- class IntrusiveRBTree of include/orderbook/intrusive_tree.hpp. A `RBTreeNodeBase*` is the number of
-- the object that the node stands in, so `to_node` and `from_node` are the identity; `key` reads the
-- object's key (`KeyOfValue`), and `less` is `Compare`. A member of a null pointer is undefined
-- behaviour, a fault. A `while` loop takes fuel, `size_ + 1` rounds.
pub mod Memory
pub mod Rotate
pub mod Insert
pub mod Remove
pub mod Walk
pub mod Machine
pub mod Shape
pub mod Cells
pub mod Turn
pub mod Rotation
pub mod Paint
pub mod Balance
pub mod Family
pub mod Height
pub mod Round
pub mod RoundLeft
pub mod RoundRight
pub mod Ascent
pub mod Fixup
pub mod Order
pub mod Seek
pub mod SeekBalance
pub mod Under
pub mod Attach
pub mod Sorted
pub mod Lookup
pub mod Erase
pub mod SortedErase
pub mod Transplant
pub mod Supersede
pub mod Lift
pub mod Detach
pub mod Repair
pub mod Removed
mod Tests
mod Examples
