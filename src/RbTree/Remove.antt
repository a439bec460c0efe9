-- ===== src/RbTree/Remove.antt =====
-- libyod/rbtree.c: `_yod_rbtree_del`.
use libyod.Prelude.{
  ℕ, zero, suc, ◌+◌, ◌-◌, ◌%◌, ◌^◌, false, not, Option, none, some, ◌==◌, if◌then◌else◌, ◌>>=◌, Ret,
  fail, ok,
}
use libyod.Links.{update}
use libyod.RbTree.Shape.{Shape, paint, replace_left}
use libyod.RbTree.State.{RbTree, locate, released_with}
use libyod.RbTree.Fixup.{fixup}

-- `-- self->count;` and the block behind it.
unfoldable pub unlink : RbTree → ℕ → RbTree
unlink t node =
    let prev' = if t.next node == 0 then t.prev else update t.prev (t.next node) (t.prev node) in
    record t {
      count = (t.count + 2 ^ 64 - 1) % 2 ^ 64;
      head = if node == t.head then t.next node else t.head;
      tail = if node == t.tail then t.prev node else t.tail;
      curr = if node == t.curr then t.next node else t.curr;
      prev = prev';
      next = if prev' node == 0 then t.next else update t.next (prev' node) (t.next node);
      released = released_with t node;
    }

-- `while (t->left != self->leaf) t = t->left;`
unfoldable pub leftmost : ℕ → Shape → ℕ → Option ℕ
leftmost zero s t = none
leftmost (suc fuel) s t =
    let rest = leftmost fuel s (s.left t) in if s.left t == s.leaf then some t else rest

-- `p`, which moves up, and `t`, which is cut out.
unfoldable pub choose : ℕ → Shape → ℕ → Option (ℕ × ℕ)
choose fuel s node =
    if s.left node == s.leaf
    then some (s.right node, node)
    else if s.right node == s.leaf
    then some (s.left node, node)
    else leftmost fuel s (s.right node) >>= λ t.
        some (if not (s.left t == s.leaf) then s.left t else s.right t, t)

-- `if (t == t->parent->left) t->parent->left = p; else t->parent->right = p;`
unfoldable pub cut : Shape → ℕ → ℕ → Shape
cut s t p =
    let q = s.parent t in
    let is_left = t == s.left q in
    record s {
      left = if is_left then update s.left q p else s.left;
      right = if is_left then s.right else update s.right q p;
    }

-- `t` takes the links and the color of `node`.
unfoldable pub take_links : Shape → ℕ → ℕ → Shape
take_links s node t = record s {
  left = update s.left t (s.left node);
  right = update s.right t (s.right node);
  parent = update s.parent t (s.parent node);
  red = update s.red t (s.red node);
}

-- `if (t->left != self->leaf) t->left->parent = t;` and the same on the right.
unfoldable pub adopt : Shape → ℕ → Shape
adopt s t =
    let parent' = if not (s.left t == s.leaf) then update s.parent (s.left t) t else s.parent in
    record s {
      parent = if not (s.right t == s.leaf) then update parent' (s.right t) t else parent';
    }

-- The tree is closed behind `t`, and `t` is put into the place of `node`.
unfoldable pub splice : Shape → ℕ → ℕ → ℕ → Shape
splice s node t p =
    let s' = cut s t p in
    let q = if s'.parent t == node then t else s'.parent t in
    let s'' = take_links (record s' { parent = update s'.parent p q }) node t in
    if t == node
    then record s' { parent = update s'.parent p (s'.parent t) }
    else adopt (replace_left s'' node t) t

-- The node is taken out of the tree.
unfoldable pub extract : ℕ → Shape → ℕ → Option Shape
extract fuel s node = do
  (p, t) ← choose fuel s node
  if t == s.root
      then some (paint (record s { root = p }) p false)
      else if s.red t
      then some (splice s node t p)
      else fixup fuel (splice s node t p) p

unfoldable pub del : RbTree → ℕ → Option (RbTree × Ret)
del t k =
    if t.shape.root == 0
    then some (t, fail)
    else locate t k >>= λ node.
        if node == 0
        then some (t, fail)
        else extract (suc t.count) t.shape node >>= λ s.
            some (record (unlink t node) { shape = s }, ok)
