-- ===== src/RbTree/Tests.antt =====
-- The tree of libyod/rbtree.c at a concrete input: a tree of one node, and one of three in a row.
use libyod.Links.{In}
use libyod.Prelude.{
  All, ◌≢◌, ◌<◌, ℕ, ◌≡◌, refl, ◌⊎◌, inl, true, false, Option, some, List, [], ◌∷◌, ◌++◌, arith,
  ◌==◌, if◌then◌else◌, ◌>>=◌, ok, fail,
}
use libyod.RbTree.Shape.{Shape, paint, left_rotate, left_rotate_at, replace_left}
use libyod.RbTree.State.{RbTree, empty, search, locate, find}
use libyod.RbTree.Balance.{
  rebalance, rebalance_step, rebalance_right, straighten_right, paint_above, recolor,
}
use libyod.RbTree.Insert.{
  fill_node, plant, extend_ends, descend, attach, link_neighbours, settle, graft, add,
}
use libyod.RbTree.Visit.{Entry}
use libyod.RbTree.Tree.{Tree, tip, fork, down_right, Way}
use libyod.RbTree.Holds.{Holds}
use libyod.RbTree.Rebalance.Loop.{Rebalanced, rebalance_lem}
use libyod.RbTree.Fixup.{fixup}
use libyod.RbTree.Remove.{unlink, extract, choose, leftmost, splice, cut, take_links, adopt, del}
use libyod.RbTree.Del.{del_lem}
use libyod.RbTree.Valid.{IsRbTree, entries, Has, Lacks, find-entries}
use libyod.RbTree.Add.{plant_lem, add-insert_entry, add-force}
use libyod.RbTree.Depth.{locate-rounds}

-- The tree with a leaf at 50, and with the node 10, which has the key 5 and the value 7.
abbrev start : RbTree
start = empty 50 true

start-IsRbTree : IsRbTree start tip
unfolding empty
start-IsRbTree = record {
  holds = record {
    at = (tt, tt, refl);
    once = (λ x. omega arith, refl);
    dark = refl;
    leaf_pos = omega arith;
    non_null = refl;
  };
  bal = tt;
  calm = tt;
  black_root = refl;
  sorted = tt;
  linked = tt;
  head_first = refl;
  tail_last = refl;
  counted = refl;
}

abbrev one : RbTree
one = plant (fill_node start 10 5 7) 10

abbrev one_node : Tree
one_node = fork false tip 10 tip

one-IsRbTree : IsRbTree one one_node
unfolding empty
one-IsRbTree =
    (plant_lem start start-IsRbTree 10 5 7 (omega arith) (λ e. omega arith) (omega arith)).0

find-entries_example :
    (v : ℕ) × (find one 5 ≡ some v) × (Has 5 v ((5, 7) ∷ []) ⊎ ((v ≡ 0) × Lacks 5 ((5, 7) ∷ [])))
unfolding plant fill_node
find-entries_example = find-entries one one_node one-IsRbTree 5

-- The new entry stands behind the one with the same key.
add-insert_entry_example :
    (t' : RbTree) × (n' : Tree) × (add 11 one 5 8 false ≡ some (t', ok))
    × IsRbTree t' n'
    × (entries t' n' ≡ (5, 7) ∷ (5, 8) ∷ [])
unfolding plant fill_node empty paint
add-insert_entry_example =
    add-insert_entry one one_node one-IsRbTree 11 5 8 false (omega arith) (λ e. omega arith) refl
      (omega arith) (λ e. ground arith)

add-force_example :
    (t' : RbTree) × (es : List Entry) × (old' : ℕ) × (es' : List Entry) × (add 0 one 5 9 true
      ≡ some (t', ok))
    × IsRbTree t' one_node
    × (entries one one_node ≡ es ++ ((5, old') ∷ es'))
    × (entries t' one_node ≡ es ++ ((5, 9) ∷ es'))
    × (t'.released ≡ [] ++ (old' ∷ []))
unfolding plant fill_node empty
add-force_example = add-force one one_node one-IsRbTree 0 5 9 7 (inl (refl, refl))

locate-rounds_example :
    (a : ℕ) × (search 3 one 5 one.shape.root ≡ some a)
    × (locate one 5 ≡ some a)
    × (((a ≡ 0) × All (λ b. one.key b ≢ 5) (10 ∷ []))
        ⊎ ((0 < a) × In a (10 ∷ []) × (one.key a ≡ 5)))
unfolding plant fill_node empty
locate-rounds_example = locate-rounds one one_node one-IsRbTree 5 1 (omega arith)

-- The nodes 10, 11 and 12 in a row to the right; 11 and 12 are red.
abbrev row : Shape
row = record {
  root = 10;
  leaf = 50;
  left = λ _. 50;
  right = λ a. if a == 10 then 11 else if a == 11 then 12 else 50;
  parent = λ a. if a == 12 then 11 else 10;
  red = λ a. if a == 11 then true else a == 12;
}

abbrev row_path : Way
row_path = down_right true tip 11 ∷ down_right false tip 10 ∷ []

row-Holds : Holds row row_path (fork true tip 12 tip)
row-Holds = record {
  at = (
    ((refl, refl, refl), (λ ne. absurd (ne refl), λ ne. absurd (ne refl)), (tt, tt)),
    λ ne. refl,
    (
      (refl, refl, refl),
      (λ ne. absurd (ne refl), λ ne. refl),
      (tt, ((refl, refl, refl), (λ ne. absurd (ne refl), tt), (tt, refl))),
    ),
  );
  once = (λ x. ground arith, refl);
  dark = refl;
  leaf_pos = omega arith;
  non_null = refl;
}

rebalance_lem_example :
    Rebalanced (rebalance 3 row 12) (fork false tip 10 (fork true tip 11 (fork true tip 12 tip)))
rebalance_lem_example =
    rebalance_lem row_path 3 row tip 12 tip row-Holds ((refl, tt, tt), (refl, tt, (refl, tt, tt)))
      (((refl, refl), tt, tt), ((refl, refl), tt, ((refl, refl), tt, refl))) (omega arith)

-- The only entry is taken out.
del_lem_example :
    ((t' : RbTree) × (n' : Tree) × (es : List Entry) × (v : ℕ) × (es' : List Entry) × (del one 5
        ≡ some (t', ok))
      × IsRbTree t' n'
      × ((5, 7) ∷ [] ≡ es ++ ((5, v) ∷ es'))
      × (entries t' n' ≡ es ++ es')
      × (t'.released ≡ (if one.vfree then one.released ++ (v ∷ []) else one.released)))
    ⊎ ((del one 5 ≡ some (one, fail)) × Lacks 5 ((5, 7) ∷ []))
unfolding plant fill_node empty
del_lem_example = del_lem one one_node one-IsRbTree 5 (omega arith)

-- The keys 1, 2 and 3 in this order: the second node is the root.
three : Option ℕ
three = do
  (t1, _) ← add 10 start 1 0 true
  (t2, _) ← add 11 t1 2 0 true
  (t3, _) ← add 12 t2 3 0 true
  some t3.shape.root

three_root : three ≡ some 11
unfolding three add empty locate search fill_node plant graft extend_ends descend attach
    link_neighbours settle rebalance rebalance_step rebalance_right straighten_right paint_above
    recolor left_rotate left_rotate_at replace_left paint
three_root = refl

-- Then 2 is taken out, whose node has two children: the node of 3 takes its place.
two_left : Option (ℕ × ℕ)
two_left = do
  (t1, _) ← add 10 start 1 0 true
  (t2, _) ← add 11 t1 2 0 true
  (t3, _) ← add 12 t2 3 0 true
  (t4, _) ← del t3 2
  some (t4.shape.root, t4.shape.left t4.shape.root)

two_left_root : two_left ≡ some (12, 10)
unfolding two_left add empty locate search fill_node plant graft extend_ends descend attach
    link_neighbours settle rebalance rebalance_step rebalance_right straighten_right paint_above
    recolor left_rotate left_rotate_at replace_left paint del unlink extract choose leftmost splice
    cut take_links adopt fixup
two_left_root = refl
