-- ===== src/RbTree/Extract.antt =====
-- libyod/rbtree.c: del takes a node out of the tree.
pub mod Lift
pub mod Least
pub mod Rename
pub mod Single
pub mod Double
pub mod Node
pub mod Chosen
