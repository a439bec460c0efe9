-- ===== src/RbTree.antt =====
-- libyod/rbtree.c: a red-black tree whose nodes also stand in one list in order of their keys.
-- A pointer is a number and NULL is 0; each field of the nodes is a map from addresses. `self` is
-- not NULL: that guard is the caller's. `none` is a loop that ran out of fuel.
pub mod Shape
pub mod State
pub mod Balance
pub mod Insert
pub mod Fixup
pub mod Remove
pub mod Visit
pub mod Tree
pub mod Rotate
pub mod Holds
pub mod Colors
pub mod Rebalance
pub mod Order
pub mod Valid
pub mod Place
pub mod Add
pub mod Del
pub mod Depth
pub mod Repair
pub mod Extract
pub mod Cursor
mod Tests
