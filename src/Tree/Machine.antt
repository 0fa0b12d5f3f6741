-- ===== src/Tree/Machine.antt =====
-- All the definitions of the tree, for a run to unfold together.
use l3_lock_free_orderbook_e.Tree.Memory.{node, modify}
use l3_lock_free_orderbook_e.Tree.Rotate.{
  adopt, replace_left, replace_right, rotate_left, rotate_right, transplant,
}
use l3_lock_free_orderbook_e.Tree.Walk.{
  minimum_node, maximum_node, minimum, maximum, predecessor_loop, predecessor, successor_loop,
  successor, inorder_traversal, inorder, find_loop, find_node,
}
use l3_lock_free_orderbook_e.Tree.Insert.{
  recolor, rise_left, rise_right, insert_fixup_left, insert_fixup_right, insert_fixup_round,
  parent_is_red, insert_fixup_loop, insert_fixup, grow, descend, attach, insert,
}
use l3_lock_free_orderbook_e.Tree.Remove.{
  delete_fixup_left, delete_fixup_right, delete_fixup_round, black_below_root, delete_fixup_loop,
  delete_fixup, shrink, lift_least, supersede, splice, detach, repair, blacken_root, remove, clear,
}

unfoldable pub machine : Unit {0}
unfolding node modify adopt replace_left replace_right rotate_left rotate_right transplant
    minimum_node maximum_node minimum maximum predecessor_loop predecessor successor_loop successor
    inorder_traversal inorder find_loop find_node recolor rise_left rise_right insert_fixup_left
    insert_fixup_right insert_fixup_round parent_is_red insert_fixup_loop insert_fixup grow descend
    attach insert delete_fixup_left delete_fixup_right delete_fixup_round black_below_root
    delete_fixup_loop delete_fixup shrink lift_least supersede splice detach repair blacken_root
    remove clear
machine = tt
