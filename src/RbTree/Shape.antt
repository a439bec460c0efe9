-- ===== src/RbTree/Shape.antt =====
-- libyod/rbtree.c: the part of the memory that the balancing of the tree looks at, the two rotations,
-- and when it represents a tree.
use libyod.Prelude.{ℕ, Bool, ◌==◌, if◌then◌else◌}
use libyod.Links.{update}

-- `self->root` and `self->leaf`, and these fields of all nodes. A node is red where its color is 1.
pub record Shape : Type 0 where
  pub root : ℕ
  pub leaf : ℕ
  pub left : ℕ → ℕ
  pub right : ℕ → ℕ
  pub parent : ℕ → ℕ
  pub red : ℕ → Bool

-- `if (node == self->root) self->root = p; else if (node == node->parent->left)
-- node->parent->left = p; else node->parent->right = p;`
unfoldable pub replace_left : Shape → ℕ → ℕ → Shape
replace_left s node p =
    let q = s.parent node in
    record s {
      root = if node == s.root then p else s.root;
      left =
          if node == s.root then s.left else if node == s.left q then update s.left q p else s.left;
      right =
          if node == s.root
          then s.right
          else if node == s.left q
          then s.right
          else update s.right q p;
    }

-- The same with the other test: `node == node->parent->right`.
unfoldable pub replace_right : Shape → ℕ → ℕ → Shape
replace_right s node p =
    let q = s.parent node in
    record s {
      root = if node == s.root then p else s.root;
      right =
          if node == s.root
          then s.right
          else if node == s.right q
          then update s.right q p
          else s.right;
      left =
          if node == s.root
          then s.left
          else if node == s.right q
          then s.left
          else update s.left q p;
    }

-- `p` is the child that comes up, and `q` its child that changes sides.
unfoldable pub left_rotate_at : Shape → ℕ → ℕ → ℕ → Shape
left_rotate_at s node p q =
    let parent' = if q == s.leaf then s.parent else update s.parent q node in
    let s' =
      replace_left
        (record s { right = update s.right node q; parent = update parent' p (parent' node) }) node
        p in
    record s' { left = update s'.left p node; parent = update s'.parent node p }

unfoldable pub left_rotate : Shape → ℕ → Shape
left_rotate s node = let p = s.right node in left_rotate_at s node p (s.left p)

unfoldable pub right_rotate_at : Shape → ℕ → ℕ → ℕ → Shape
right_rotate_at s node p q =
    let parent' = if q == s.leaf then s.parent else update s.parent q node in
    let s' =
      replace_right
        (record s { left = update s.left node q; parent = update parent' p (parent' node) }) node
        p in
    record s' { right = update s'.right p node; parent = update s'.parent node p }

unfoldable pub right_rotate : Shape → ℕ → Shape
right_rotate s node = let p = s.left node in right_rotate_at s node p (s.right p)

-- `node->color = ...`
unfoldable pub paint : Shape → ℕ → Bool → Shape
paint s node c = record s { red = update s.red node c }
