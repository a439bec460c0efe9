-- ===== src/RbTree/Visit.antt =====
-- libyod/rbtree.c: the cursor operations, and `_yod_rbtree_free`.
use libyod.Prelude.{
  ℕ, zero, suc, ◌+◌, true, false, Option, none, some, List, [], ◌∷◌, ◌++◌, ◌==◌, if◌then◌else◌,
  ◌>>=◌,
}
use libyod.RbTree.State.{RbTree, released_with}

-- What the cursor operations write through `key`, and return.
abbrev pub Entry : Type 0
Entry = ℕ × ℕ

abbrev pub entry_of : RbTree → ℕ → Entry
entry_of t node = (t.key node, t.value node)

-- The cursor moves to `node` and its entry is returned; at NULL nothing happens.
unfoldable pub visit : RbTree → ℕ → RbTree × Option Entry
visit t node = if node == 0 then (t, none) else (record t { curr = node }, some (entry_of t node))

unfoldable pub to_head : RbTree → RbTree × Option Entry
to_head t = if t.shape.root == 0 then (t, none) else visit t t.head

unfoldable pub to_tail : RbTree → RbTree × Option Entry
to_tail t = if t.shape.root == 0 then (t, none) else visit t t.tail

unfoldable pub to_next : RbTree → RbTree × Option Entry
to_next t =
    if t.shape.root == 0
    then (t, none)
    else if t.curr == 0
    then (t, none)
    else visit t (t.next t.curr)

unfoldable pub to_prev : RbTree → RbTree × Option Entry
to_prev t =
    if t.shape.root == 0
    then (t, none)
    else if t.curr == 0
    then (t, none)
    else visit t (t.prev t.curr)

-- `for (node = self->head; node != NULL; node = self->curr)`: the tree that is freed behind it.
unfoldable pub release : ℕ → RbTree → ℕ → Option RbTree
release zero t node = none
release (suc fuel) t node = elim (node == 0) [
  | true ↦ some t
  | false ↦
      release fuel (record t { curr = t.next node; released = released_with t node }) (t.next node)
]

unfoldable pub free : RbTree → Option RbTree
free t = release (suc t.count) t t.head

-- `_yod_rbtree_print`, which is called with the root: what it prints, the keys of red nodes in
-- brackets and behind two tabs for each level. The leaf's links are NULL.
pub data Line : Type 0 where
  plain : ℕ → ℕ → Line
  bracketed : ℕ → ℕ → Line

unfoldable pub print : ℕ → RbTree → ℕ → ℕ → Option (List Line)
print zero t node n = none
print (suc fuel) t node n = elim (node == 0) [
  | true ↦ some []
  | false ↦ do
    before ← print fuel t (t.shape.left node) (n + 1)
    after ← print fuel t (t.shape.right node) (n + 1)
    let line = if t.shape.red node then bracketed n (t.key node) else plain n (t.key node)
    some (before ++ (line ∷ after))
]
