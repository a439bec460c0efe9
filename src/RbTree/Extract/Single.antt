-- ===== src/RbTree/Extract/Single.antt =====
-- libyod/rbtree.c: del of a node with at most one child.
use libyod.Prelude.{
  ℕ, ◌+◌, ◌≤◌, ◌<◌, ◌≡◌, refl, sym, ◌∙◌, subst, Bool, true, false, some, [], ◌∷◌, arith, ◌==◌,
  if◌then◌else◌, length, ◌>>=◌,
}
use libyod.RbTree.Shape.{Shape, paint}
use libyod.RbTree.Fixup.{fixup}
use libyod.RbTree.Remove.{splice, choose, extract}
use libyod.RbTree.Tree.{
  Tree, tip, fork, Step, down_left, down_right, Way, plug, ids, occ, hit, occ_path, top, Sub, UpTo,
}
use libyod.RbTree.Rotate.{Once, hang-leaf, hang-outside}
use libyod.RbTree.Holds.{Holds, Holds-plug, is_red, node_of, red_top, root_top, below, parent_top}
use libyod.RbTree.Colors.{
  black, height, Bal, BalPath, Calm, CalmPath, Quiet, Bal-plug, Calm-plug, blacken, Bal-blacken,
  Calm-blacken, is_red-blacken,
}
use libyod.RbTree.Add.Grown.{Holds-blacken, ids-blacken}
use libyod.RbTree.Repair.{Back}
use libyod.RbTree.Repair.Ends.{Repaired, CalmPath-lower, BalPath-at}
use libyod.RbTree.Repair.Loop.{fixup_lem}
use libyod.RbTree.Extract.Lift.{lifted, cut_lem, Holds-lifted, up_top}

-- The tree `m` stands where a node of color `d` was the only one above it.
pub rest_lem :
    (s : Shape) (path : Way) (fuel : ℕ) (m : Tree) (d : Bool)
    → Holds s path m
    → Back s path m
    → Bal m
    → BalPath (height m + black d) path
    → Calm m
    → CalmPath d path
    → Quiet d (is_red m)
    → length path < fuel
    → Repaired (if d then some s else fixup fuel s (top s.leaf m)) (ids (plug path m))
rest_lem s path fuel m true h back bal bal_path calm calm_path quiet enough =
    let after =
      Calm-plug path m calm
        (subst (λ b. CalmPath b path) (sym quiet) (CalmPath-lower true path calm_path)) in
    record {
      shape = s;
      tree = plug path m;
      ends = refl;
      holds = Holds-plug s path m h;
      same = refl;
      bal = Bal-plug path m bal (BalPath-at path _ _ (omega arith) bal_path);
      calm = after.0;
      dark = after.1;
    }
rest_lem s path fuel m false h back bal bal_path calm calm_path quiet enough =
    fixup_lem path fuel s m h back bal bal_path calm calm_path enough

-- One of the subtrees takes the place of the node.
pub UpTo-node :
    (leaf : ℕ) (s : Shape) (step : Step) (path : Way) (x : ℕ)
    → s.parent x ≡ node_of step
    → UpTo leaf s (step ∷ path) x
UpTo-node leaf s (down_left c a r) path x e = λ ne. e
UpTo-node leaf s (down_right c l a) path x e = λ ne. e

pub Back-node :
    (s : Shape) (step : Step) (path : Way) (m : Tree)
    → s.parent (top s.leaf m) ≡ node_of step
    → Back s (step ∷ path) m
Back-node s step path tip e = e
Back-node s step path (fork c l a r) e = tt

-- A subtree of the node.
abbrev pub Part : Tree → Tree → Tree → Type 0
Part l r m =
    ((s : Shape) (leaf : ℕ) → Sub leaf s l → Sub leaf s r → Sub leaf s m)
    × ((x : ℕ) → occ x m ≤ occ x l + occ x r)

module _ (s : Shape) (step : Step) (path : Way) (d : Bool) (l : Tree) (a : ℕ) (r : Tree) (m : Tree)
    (h : Holds s (step ∷ path) (fork d l a r)) (part : Part l r m) where
  abbrev pub closed : Shape
  closed = lifted s (step ∷ path) (top s.leaf m) (node_of step)

  Sub-m : Sub s.leaf s m
  Sub-m = part.0 s s.leaf h.at.0.2.0 h.at.0.2.1

  Once-m : Once s.leaf (step ∷ path) m
  Once-m = (
    λ x. let o = h.once.0 x in let le = part.1 x in omega arith,
    let o = h.once.1 in let le = part.1 s.leaf in omega arith,
  )

  null_m : occ 0 m + occ_path 0 (step ∷ path) ≡ 0
  null_m = let o = h.non_null in let le = part.1 0 in omega arith

  closed_top : closed.parent (top s.leaf m) ≡ node_of step
  closed_top =
      up_top s (step ∷ path) a (node_of step) m Sub-m h.at.2 Once-m h.dark h.leaf_pos null_m

  pub Holds-closed : Holds closed (step ∷ path) m
  Holds-closed =
      Holds-lifted s (step ∷ path) a (node_of step) m Sub-m h.at.2 Once-m h.dark h.leaf_pos null_m
        (UpTo-node s.leaf closed step path (top s.leaf m) closed_top)

  pub closed_leaf : closed.leaf ≡ s.leaf
  closed_leaf = hang-leaf s (step ∷ path) (top s.leaf m)

  pub closed-Back : Back closed (step ∷ path) m
  closed-Back =
      Back-node closed step path m
        (subst (λ z. closed.parent (top z m) ≡ node_of step) (sym closed_leaf) closed_top)

  out : occ_path a (step ∷ path) ≡ 0
  out = let o = h.once.0 a in let self : hit a a ≡ 1 = ground arith in omega arith

  pub splice-closed : splice s a a (top s.leaf m) ≡ closed
  unfolding splice
  splice-closed =
      let same : (a == a) ≡ true = ground arith in
      let up =
        (hang-outside s (step ∷ path) (top s.leaf m) a out).3 ∙ parent_top s step path d l a r h in
      rw (same, cut_lem s step path d l a r (top s.leaf m) h, up) refl

  -- The node is not the root.
  pub single_lem :
      (fuel : ℕ)
      → choose fuel s a ≡ some (top s.leaf m, a)
      → Bal m
      → BalPath (height m + black d) (step ∷ path)
      → Calm m
      → CalmPath d (step ∷ path)
      → Quiet d (is_red m)
      → length (step ∷ path) < fuel
      → Repaired (extract fuel s a) (ids (plug (step ∷ path) m))
  unfolding extract
  single_lem fuel chosen bal bal_path calm calm_path quiet enough =
      let not_root : (a == s.root) ≡ false =
        let ne = below s step path (fork d l a r) h in ground arith in
      let color = red_top s (step ∷ path) (fork d l a r) h in
      let rest =
        rest_lem closed (step ∷ path) fuel m d Holds-closed closed-Back bal bal_path calm calm_path
          quiet enough in
      let run : extract fuel s a
          ≡ (if d then some closed else fixup fuel closed (top closed.leaf m)) =
        rw (chosen, ◌>>=◌, not_root, color, splice-closed, closed_leaf) refl in
      subst (λ o. Repaired o (ids (plug (step ∷ path) m))) (sym run) rest

-- The node is the root.
pub root_lem :
    (s : Shape) (d : Bool) (l : Tree) (a : ℕ) (r : Tree) (m : Tree) (fuel : ℕ)
    → Holds s [] (fork d l a r)
    → Part l r m
    → choose fuel s a ≡ some (top s.leaf m, a)
    → Bal m
    → Calm m
    → Repaired (extract fuel s a) (ids m)
unfolding extract
root_lem s d l a r m fuel h part chosen bal calm =
    let s' = record s { root = top s.leaf m } in
    let h' : Holds s' [] m = record {
      at = (part.0 s' s.leaf h.at.0.2.0 h.at.0.2.1, tt, refl);
      once = (
        λ x. let o = h.once.0 x in let le = part.1 x in omega arith,
        let o = h.once.1 in let le = part.1 s.leaf in omega arith,
      );
      dark = h.dark;
      leaf_pos = h.leaf_pos;
      non_null = let o = h.non_null in let le = part.1 0 in omega arith;
    } in
    let here : (a == s.root) ≡ true = let e = root_top s (fork d l a r) h in ground arith in
    record {
      shape = paint s' (top s.leaf m) false;
      tree = blacken m;
      ends = rw (chosen, ◌>>=◌, here) refl;
      holds = Holds-blacken s' m h';
      same = ids-blacken m;
      bal = Bal-blacken m bal;
      calm = Calm-blacken m calm;
      dark = is_red-blacken m;
    }
