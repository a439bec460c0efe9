-- ===== src/RbTree/Balance.antt =====
-- libyod/rbtree.c: the loop of add that restores the balance.
use libyod.Prelude.{ℕ, zero, suc, true, false, not, ◌&&◌, Option, none, some, ◌==◌, if◌then◌else◌}
use libyod.RbTree.Shape.{Shape, left_rotate, right_rotate, paint}

-- The parent, the child of the grandparent `g` on the other side and the grandparent change color.
unfoldable pub recolor : Shape → ℕ → ℕ → ℕ → Shape
recolor s p u g = paint (paint (paint s p false) u false) g true

-- `node = node->parent; yod_rbtree_left_rotate(self, node);`
unfoldable pub straighten_left : Shape → ℕ → Shape × ℕ
straighten_left s node =
    let p = s.parent node in if node == s.right p then (left_rotate s p, p) else (s, node)

unfoldable pub straighten_right : Shape → ℕ → Shape × ℕ
straighten_right s node =
    let p = s.parent node in
    if not (p == 0) && (node == s.left p) then (right_rotate s p, p) else (s, node)

-- `node->parent->color = 0; node->parent->parent->color = 1;`
unfoldable pub paint_above : Shape → ℕ → Shape
paint_above s node =
    let s' = paint s (s.parent node) false in paint s' (s'.parent (s'.parent node)) true

-- The parent is the left child of the grandparent.
unfoldable pub rebalance_left : Shape → ℕ → Shape × ℕ
rebalance_left s node =
    let g = s.parent (s.parent node) in
    let p = s.right g in
    let (s', node') = straighten_left s node in
    let s'' = paint_above s' node' in
    if s.red p
    then (recolor s (s.parent node) p g, g)
    else (right_rotate s'' (s''.parent (s''.parent node')), node')

unfoldable pub rebalance_right : Shape → ℕ → Shape × ℕ
rebalance_right s node =
    let g = s.parent (s.parent node) in
    let p = if g == 0 then 0 else s.left g in
    let (s', node') = straighten_right s node in
    let s'' = paint_above s' node' in
    if s.red p
    then (recolor s (s.parent node) p g, g)
    else (left_rotate s'' (s''.parent (s''.parent node')), node')

unfoldable pub rebalance_step : Shape → ℕ → Shape × ℕ
rebalance_step s node =
    let p = s.parent node in
    if p == s.left (s.parent p) then rebalance_left s node else rebalance_right s node

-- `while (node != self->root && node->parent->color == 1)`
unfoldable pub rebalance : ℕ → Shape → ℕ → Option Shape
rebalance zero s node = none
rebalance (suc fuel) s node = elim (node == s.root) [
  | true ↦ some s
  | false ↦ elim (s.red (s.parent node)) [
    | false ↦ some s
    | true ↦ let (s', node') = rebalance_step s node in rebalance fuel s' node'
  ]
]
