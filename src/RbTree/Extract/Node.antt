-- ===== src/RbTree/Extract/Node.antt =====
-- libyod/rbtree.c: del takes a node, whatever children it has, out of the tree.
use libyod.Prelude.{
  ℕ, ◌+◌, ◌<◌, ◌≡◌, refl, sym, ap, ◌∙◌, subst, ◌≢◌, Bool, false, some, [], ◌∷◌, ◌++◌, arith, ◌==◌,
  if◌then◌else◌, length, ◌>>=◌,
}
use libyod.RbTree.Shape.{Shape}
use libyod.RbTree.Fixup.{fixup}
use libyod.RbTree.Remove.{splice, choose, extract}
use libyod.RbTree.Tree.{Tree, tip, fork, down_right, Way, plug, ids, top}
use libyod.RbTree.Holds.{Holds, is_red, red_top, below}
use libyod.RbTree.Colors.{
  black, height, Bal, BalPath, Calm, CalmPath, Quiet, Bal-plug, Calm-plug, BalPath-unplug,
  CalmPath-unplug,
}
use libyod.RbTree.Repair.Ends.{Repaired, BalPath-at}
use libyod.RbTree.Extract.Least.{plug-append}
use libyod.RbTree.Extract.Rename.{renamed_run, renamed_leaf}
use libyod.RbTree.Extract.Double.{
  next, renamed-rest, near, child, near-Ready, near-Back, splice-near, least, far, far_leaf,
  far-Ready, far-Back, splice-far,
}

-- What del does behind the choice of the node that is cut.
extract_run :
    (fuel : ℕ) (s s' : Shape) (a t : ℕ) (m : Tree) (e : Bool)
    → choose fuel s a ≡ some (top s.leaf m, t)
    → t ≢ s.root
    → s.red t ≡ e
    → splice s a t (top s.leaf m) ≡ s'
    → s'.leaf ≡ s.leaf
    → extract fuel s a ≡ (if e then some s' else fixup fuel s' (top s'.leaf m))
unfolding extract
extract_run fuel s s' a t m e chosen apart color splice leaf =
    let not_root : (t == s.root) ≡ false = ground arith in
    rw (chosen, ◌>>=◌, not_root, color, splice, leaf) refl

-- The place that the tree behind the least node has, once that node stands above it.
abbrev pub moved : Way → Bool → Tree → ℕ → Way → Way
moved q c l t path = q ++ (down_right c l t ∷ path)

module _ (s : Shape) (path : Way) (c : Bool) (l : Tree) (a : ℕ) (e : Bool) (t : ℕ) (m : Tree)
    (fuel : ℕ) where
  double_lem :
      (q : Way)
      → Holds s path (fork c l a (plug q (fork e tip t m)))
      → choose fuel s a ≡ some (top s.leaf m, t)
      → Bal m
      → BalPath (height m + black e) (moved q c l t path)
      → Calm m
      → CalmPath e (moved q c l t path)
      → Quiet e (is_red m)
      → length (moved q c l t path) < fuel
      → Repaired (extract fuel s a) (ids (plug (moved q c l t path) m))
  double_lem [] h chosen bal bal_path calm calm_path quiet enough =
      let ready = near-Ready s path c l a e t m h in
      let s0 = near s path c l a e t m h in
      let rest =
        renamed-rest s0 path c l a [] m t ready fuel e (near-Back s path c l a e t m h) bal bal_path
          calm calm_path quiet enough in
      let h_t = child s path c l a e t m h in
      let run =
        extract_run fuel s (next s0 path c l a [] m t ready) a t m e chosen
          (below s (down_right c l a) path (fork e tip t m) h_t)
          (red_top s (down_right c l a ∷ path) (fork e tip t m) h_t)
          (splice-near s path c l a e t m h ∙ renamed_run s0 path c l a m t ready)
          (renamed_leaf s0 path c l a m t ready) in
      subst (λ o. Repaired o (ids (plug (moved [] c l t path) m))) (sym run) rest
  double_lem (step ∷ q) h chosen bal bal_path calm calm_path quiet enough =
      let ready = far-Ready s path c l a step q e t m h in
      let s0 = far s path c l a step q e t m h in
      let rest =
        renamed-rest s0 path c l a (step ∷ q) m t ready fuel e
          (far-Back s path c l a step q e t m h) bal bal_path calm calm_path quiet enough in
      let h_t = least s path c l a step q e t m h in
      let run =
        extract_run fuel s (next s0 path c l a (step ∷ q) m t ready) a t m e chosen
          (below s step (q ++ (down_right c l a ∷ path)) (fork e tip t m) h_t)
          (red_top s (step ∷ q ++ (down_right c l a ∷ path)) (fork e tip t m) h_t)
          (splice-far s path c l a step q e t m h
            ∙ renamed_run s0 path c l a (plug (step ∷ q) m) t ready)
          (renamed_leaf s0 path c l a (plug (step ∷ q) m) t ready
            ∙ far_leaf s path c l a step q e t m h) in
      subst (λ o. Repaired o (ids (plug (moved (step ∷ q) c l t path) m))) (sym run) rest

  -- The colors of the whole tree are those that double_lem asks for.
  pub whole_lem :
      (q : Way)
      → Holds s path (fork c l a (plug q (fork e tip t m)))
      → choose fuel s a ≡ some (top s.leaf m, t)
      → Bal (plug path (fork c l a (plug q (fork e tip t m))))
      → Calm (plug path (fork c l a (plug q (fork e tip t m))))
      → is_red (plug path (fork c l a (plug q (fork e tip t m)))) ≡ false
      → length (moved q c l t path) < fuel
      → Repaired (extract fuel s a) (ids (plug (moved q c l t path) m))
  whole_lem q h chosen bal calm dark enough =
      let (bal_a, bal_up) = BalPath-unplug path (fork c l a (plug q (fork e tip t m))) bal in
      let (calm_a, calm_up) =
        CalmPath-unplug path (fork c l a (plug q (fork e tip t m))) calm dark in
      let same = plug-append q (down_right c l t ∷ path) (fork e tip t m) in
      let bal' : Bal (plug (moved q c l t path) (fork e tip t m)) =
        subst Bal (sym same) (Bal-plug path (fork c l t (plug q (fork e tip t m))) bal_a bal_up) in
      let both = Calm-plug path (fork c l t (plug q (fork e tip t m))) calm_a calm_up in
      let calm' : Calm (plug (moved q c l t path) (fork e tip t m)) =
        subst Calm (sym same) both.0 in
      let dark' : is_red (plug (moved q c l t path) (fork e tip t m)) ≡ false =
        ap is_red same ∙ both.1 in
      let ((eq, _, bal_m), bal_path) = BalPath-unplug (moved q c l t path) (fork e tip t m) bal' in
      let (((_, quiet), _, calm_m), calm_path) =
        CalmPath-unplug (moved q c l t path) (fork e tip t m) calm' dark' in
      double_lem q h chosen bal_m (BalPath-at (moved q c l t path) _ _ (omega arith) bal_path)
        calm_m calm_path quiet enough
