-- ===== src/RbTree/Insert.antt =====
-- libyod/rbtree.c: `_yod_rbtree_add`.
use libyod.Prelude.{
  ℕ, zero, suc, ◌+◌, ◌%◌, ◌^◌, Bool, true, false, not, Option, none, some, ltb, leb, ◌==◌,
  if◌then◌else◌, ◌>>=◌, Ret, ok, fail,
}
use libyod.Links.{update}
use libyod.RbTree.Shape.{paint}
use libyod.RbTree.State.{RbTree, locate, released_with}
use libyod.RbTree.Balance.{rebalance}

-- `if (self->vfree) self->vfree(node->value); node->value = value;`
unfoldable pub overwrite : RbTree → ℕ → ℕ → RbTree
overwrite t node v = record t { released = released_with t node; value = update t.value node v }

-- The fields of the new node, and `++ self->count;`
unfoldable pub fill_node : RbTree → ℕ → ℕ → ℕ → RbTree
fill_node t node k v =
    let s = t.shape in
    record t {
      key = update t.key node k;
      shape = record s {
        left = update s.left node s.leaf;
        right = update s.right node s.leaf;
        parent = update s.parent node s.root;
        red = update s.red node true;
      };
      next = update t.next node 0;
      prev = update t.prev node 0;
      value = update t.value node v;
      count = (t.count + 1) % 2 ^ 64;
    }

-- The branch of an empty tree.
unfoldable pub plant : RbTree → ℕ → RbTree
plant t node =
    let s = paint t.shape node false in
    record t { shape = record s { root = node }; head = node; tail = node }

-- `if (node->key < self->head->key) self->head = node;`
-- `else if (node->key >= self->tail->key) self->tail = node;`
unfoldable pub extend_ends : RbTree → ℕ → RbTree
extend_ends t node =
    let first = ltb (t.key node) (t.key t.head) in
    record t {
      head = if first then node else t.head;
      tail = if first then t.tail else if leb (t.key t.tail) (t.key node) then node else t.tail;
    }

-- `for (p = self->root; p != self->leaf;) { node->parent = p; p = ...; }`: `q` is `node->parent`,
-- which the loop only writes.
unfoldable pub descend : ℕ → RbTree → ℕ → ℕ → ℕ → Option ℕ
descend zero t node p q = none
descend (suc fuel) t node p q =
    let rest =
      descend fuel t node (if ltb (t.key node) (t.key p) then t.shape.left p else t.shape.right p)
        p in
    if p == t.shape.leaf then some q else rest

-- The node becomes a child of `p`, and gets its neighbours in the list.
unfoldable pub attach : RbTree → ℕ → ℕ → RbTree
attach t node p =
    let s = t.shape in
    let before = ltb (t.key node) (t.key p) in
    record t {
      shape = record s {
        parent = update s.parent node p;
        left = if before then update s.left p node else s.left;
        right = if before then s.right else update s.right p node;
      };
      next = update t.next node (if before then p else t.next p);
      prev = update t.prev node (if before then t.prev p else p);
    }

-- `if (node->next) node->next->prev = node; if (node->prev) node->prev->next = node;`
unfoldable pub link_neighbours : RbTree → ℕ → RbTree
link_neighbours t node =
    let prev' = if t.next node == 0 then t.prev else update t.prev (t.next node) node in
    record t {
      prev = prev';
      next = if prev' node == 0 then t.next else update t.next (prev' node) node;
    }

-- The balance is restored, and the root is made black.
unfoldable pub settle : RbTree → ℕ → Option RbTree
settle t node = do
  s ← rebalance (suc t.count) t.shape node
  some (record t { shape = paint s s.root false })

-- The branch of a tree that is not empty.
unfoldable pub graft : RbTree → ℕ → Option RbTree
graft t node = do
  let t' = extend_ends t node
  p ← descend (suc t.count) t' node t'.shape.root (t'.shape.parent node)
  settle (link_neighbours (attach t' node p) node) node

-- `fresh` is what `malloc` returns for the node, NULL where it fails.
unfoldable pub add : ℕ → RbTree → ℕ → ℕ → Bool → Option (RbTree × Ret)
add fresh t k v force = do
  node ← if force then locate t k else some 0
  let t' = fill_node t fresh k v
  if not (node == 0)
      then some (overwrite t node v, ok)
      else if fresh == 0
      then some (t, fail)
      else if t'.shape.root == t'.shape.leaf
      then some (plant t' fresh, ok)
      else graft t' fresh >>= λ t''. some (t'', ok)
