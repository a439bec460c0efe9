-- ===== src/RbTree/State.antt =====
-- libyod/rbtree.c: the tree, `_yod_rbtree_new`, the search that add, del and find share, find and count.
use libyod.Prelude.{
  ℕ, zero, suc, Bool, false, not, Option, none, some, List, [], ◌∷◌, ◌++◌, ltb, ◌==◌, if◌then◌else◌,
  ◌>>=◌,
}
use libyod.RbTree.Shape.{Shape}

pub record RbTree : Type 0 where
  pub count : ℕ
  pub shape : Shape
  pub head : ℕ
  pub tail : ℕ
  pub curr : ℕ
  pub key : ℕ → ℕ
  pub next : ℕ → ℕ
  pub prev : ℕ → ℕ
  pub value : ℕ → ℕ
  -- whether `vfree` is given, and the values that it was called with, oldest first
  pub vfree : Bool
  pub released : List ℕ

-- The fields of the leaf and of all nodes are 0 at first; color 0 is black.
unfoldable pub empty : ℕ → Bool → RbTree
empty leaf vfree = record {
  count = 0;
  shape = record {
    root = leaf;
    leaf = leaf;
    left = λ _. 0;
    right = λ _. 0;
    parent = λ _. 0;
    red = λ _. false;
  };
  head = 0;
  tail = 0;
  curr = 0;
  key = λ _. 0;
  next = λ _. 0;
  prev = λ _. 0;
  value = λ _. 0;
  vfree = vfree;
  released = [];
}

-- `room` and `locked`: the tree is allocated and its mutex initialised. `leaf` is what `malloc`
-- returns for the leaf, NULL where it fails. `none` is the result NULL.
unfoldable pub new : Bool → Bool → ℕ → Bool → Option RbTree
new room locked leaf vfree =
    if not room
    then none
    else if not locked
    then none
    else if leaf == 0
    then none
    else some (empty leaf vfree)

-- `for (p = ...; p != self->leaf;) { if (p->key == key) { node = p; break; } p = ...; }`, where
-- `node` is NULL before.
unfoldable pub search : ℕ → RbTree → ℕ → ℕ → Option ℕ
search zero t k p = none
search (suc fuel) t k p =
    let rest = search fuel t k (if ltb k (t.key p) then t.shape.left p else t.shape.right p) in
    if p == t.shape.leaf then some 0 else if t.key p == k then some p else rest

unfoldable pub locate : RbTree → ℕ → Option ℕ
locate t k = search (suc t.count) t k t.shape.root

-- `vfree` gets the value of a node, if it is given.
abbrev pub released_with : RbTree → ℕ → List ℕ
released_with t node = if t.vfree then t.released ++ (t.value node ∷ []) else t.released

unfoldable pub find : RbTree → ℕ → Option ℕ
find t k =
    if t.shape.root == 0
    then some 0
    else locate t k >>= λ node. some (if node == 0 then 0 else t.value node)

unfoldable pub count_of : RbTree → ℕ
count_of t = t.count
