-- ===== src/RbTree/Extract/Chosen.antt =====
-- libyod/rbtree.c: del takes a node out of the tree, and the others stay in order.
use libyod.Prelude.{
  ℕ, ◌+◌, ◌<◌, ◌≡◌, refl, sym, ap, ◌∙◌, subst, ◌≢◌, Bool, true, false, some, List, [], ◌∷◌, ◌++◌,
  append-nil, arith, ◌==◌, length, length-append, ◌>>=◌,
}
use libyod.RbTree.Shape.{Shape}
use libyod.RbTree.Remove.{choose, leftmost, extract}
use libyod.RbTree.Tree.{
  Tree, tip, fork, down_left, down_right, Way, plug, ids, ids-plug, before, after, top,
}
use libyod.RbTree.Holds.{
  Holds, Holds-into_left, Holds-into_right, is_red, real, left_top, right_top,
}
use libyod.RbTree.Colors.{
  black, height, Bal, BalPath, Calm, CalmPath, Quiet, BalPath-unplug, CalmPath-unplug,
}
use libyod.RbTree.Add.Grown.{length-path}
use libyod.RbTree.Repair.Ends.{Repaired, BalPath-at}
use libyod.RbTree.Extract.Least.{Holds-unplug, plug-append, leftmost_lem}
use libyod.RbTree.Extract.Single.{Part, single_lem, root_lem}
use libyod.RbTree.Extract.Node.{moved, whole_lem}

module _ (fuel : ℕ) (s : Shape) (a : ℕ) where
  choose_right : s.left a ≡ s.leaf → choose fuel s a ≡ some (s.right a, a)
  unfolding choose
  choose_right e = let here : (s.left a == s.leaf) ≡ true = ground arith in rw here refl

  choose_left : s.left a ≢ s.leaf → s.right a ≡ s.leaf → choose fuel s a ≡ some (s.left a, a)
  unfolding choose
  choose_left ne e =
      let there : (s.left a == s.leaf) ≡ false = ground arith in
      let here : (s.right a == s.leaf) ≡ true = ground arith in rw (there, here) refl

  choose_least :
      (b t : ℕ)
      → s.left a ≢ s.leaf
      → s.right a ≡ b
      → b ≢ s.leaf
      → leftmost fuel s b ≡ some t
      → s.left t ≡ s.leaf
      → choose fuel s a ≡ some (s.right t, t)
  unfolding choose
  choose_least b t nl e nr run last =
      let there : (s.left a == s.leaf) ≡ false = ground arith in
      let there' : (b == s.leaf) ≡ false = ground arith in
      let here : (s.left t == s.leaf) ≡ true = ground arith in
      rw (there, e, there', run, ◌>>=◌, here) refl

-- A node with at most one child.
one_lem :
    (s : Shape) (path : Way) (d : Bool) (l : Tree) (a : ℕ) (r : Tree) (m : Tree) (fuel : ℕ)
    → Holds s path (fork d l a r)
    → Part l r m
    → choose fuel s a ≡ some (top s.leaf m, a)
    → Bal m
    → BalPath (height m + black d) path
    → Calm m
    → CalmPath d path
    → Quiet d (is_red m)
    → length path < fuel
    → Repaired (extract fuel s a) (ids (plug path m))
one_lem s [] d l a r m fuel h part chosen bal bal_path calm calm_path quiet enough =
    root_lem s d l a r m fuel h part chosen bal calm
one_lem s (step ∷ path) d l a r m fuel h part chosen bal bal_path calm calm_path quiet enough =
    single_lem s step path d l a r m h part fuel chosen bal bal_path calm calm_path quiet enough

plugged :
    (path : Way) (m : Tree) (xs : List ℕ)
    → ids m ≡ xs
    → ids (plug path m) ≡ before path ++ (xs ++ after path)
plugged path m xs e = ids-plug path m ∙ ap (λ z. before path ++ (z ++ after path)) e

length-plug :
    (path : Way) (m : Tree)
    → length (ids (plug path m)) ≡ length (before path) + (length (ids m) + length (after path))
length-plug path m =
    ap length (ids-plug path m)
    ∙ length-append (before path) (ids m ++ after path)
    ∙ ap (λ n. length (before path) + n) (length-append (ids m) (after path))

least_first :
    (q : Way) (e : Bool) (t : ℕ) (m : Tree)
    → before q ≡ []
    → ids (plug q (fork e tip t m)) ≡ t ∷ ids (plug q m)
least_first q e t m first =
    ids-plug q (fork e tip t m)
    ∙ ap (λ z. z ++ (t ∷ (ids m ++ after q))) first
    ∙ sym (ap (λ z. t ∷ z) (ids-plug q m ∙ ap (λ z. z ++ (ids m ++ after q)) first))

moved_order :
    (q : Way) (c : Bool) (l : Tree) (e : Bool) (t : ℕ) (path : Way) (m : Tree)
    → before q ≡ []
    → ids (plug (moved q c l t path) m)
      ≡ before path ++ ((ids l ++ ids (plug q (fork e tip t m))) ++ after path)
moved_order q c l e t path m first =
    ap ids (plug-append q (down_right c l t ∷ path) m)
    ∙ plugged path (fork c l t (plug q m)) (ids l ++ ids (plug q (fork e tip t m)))
        (ap (λ z. ids l ++ z) (sym (least_first q e t m first)))

above : (fuel : ℕ) (path : Way) (m : Tree) → length (ids (plug path m)) < fuel → length path < fuel
above fuel path m enough = let le = length-path path in let size = length-plug path m in omega arith

-- A way is shorter than the tree has nodes.
room :
    (fuel : ℕ) (q : Way) (m : Tree) (path : Way) (c : Bool) (l : Tree) (a : ℕ) (r : Tree)
    → ids (plug q m) ≡ before path ++ ((ids l ++ ids r) ++ after path)
    → length (ids (plug path (fork c l a r))) < fuel
    → length q < fuel
room fuel q m path c l a r order enough =
    let le = length-path q in
    let size = length-plug q m in
    let same = ap length order in
    let n = length-append (before path) ((ids l ++ ids r) ++ after path) in
    let n' = length-append (ids l ++ ids r) (after path) in
    let n'' = length-append (ids l) (ids r) in
    let old = length-plug path (fork c l a r) in
    let old' = length-append (ids l) (a ∷ ids r) in omega arith

module _ (s : Shape) (path : Way) (c : Bool) (a : ℕ) (fuel : ℕ) where
  no_left :
      (r : Tree)
      → Holds s path (fork c tip a r)
      → Bal (plug path (fork c tip a r))
      → Calm (plug path (fork c tip a r))
      → is_red (plug path (fork c tip a r)) ≡ false
      → length path < fuel
      → Repaired (extract fuel s a) (before path ++ (ids r ++ after path))
  no_left r h bal calm dark enough =
      let ((e, _, bal_m), bal_path) = BalPath-unplug path (fork c tip a r) bal in
      let (((_, quiet), _, calm_m), calm_path) = CalmPath-unplug path (fork c tip a r) calm dark in
      let chosen =
        choose_right fuel s a (left_top s path c tip a r h)
        ∙ ap (λ p. some (p, a)) (right_top s path c tip a r h) in
      subst (λ xs. Repaired (extract fuel s a) xs) (plugged path r (ids r) refl)
        (one_lem s path c tip a r r fuel h (λ s' leaf sub_l sub_r. sub_r, λ x. omega arith) chosen
          bal_m (BalPath-at path _ _ (omega arith) bal_path) calm_m calm_path quiet enough)

  no_right :
      (d : Bool) (l1 : Tree) (b : ℕ) (l2 : Tree)
      → Holds s path (fork c (fork d l1 b l2) a tip)
      → Bal (plug path (fork c (fork d l1 b l2) a tip))
      → Calm (plug path (fork c (fork d l1 b l2) a tip))
      → is_red (plug path (fork c (fork d l1 b l2) a tip)) ≡ false
      → length path < fuel
      → Repaired (extract fuel s a) (before path ++ (ids (fork d l1 b l2) ++ after path))
  no_right d l1 b l2 h bal calm dark enough =
      let ((_, bal_m, _), bal_path) = BalPath-unplug path (fork c (fork d l1 b l2) a tip) bal in
      let (((quiet, _), calm_m, _), calm_path) =
        CalmPath-unplug path (fork c (fork d l1 b l2) a tip) calm dark in
      let on_left = left_top s path c (fork d l1 b l2) a tip h in
      let real_b =
        real s (down_left c a tip ∷ path) d l1 b l2
          (Holds-into_left s c a path (fork d l1 b l2) tip h) in
      let chosen =
        choose_left fuel s a (λ eq. real_b (sym on_left ∙ eq))
          (right_top s path c (fork d l1 b l2) a tip h)
        ∙ ap (λ p. some (p, a)) on_left in
      subst (λ xs. Repaired (extract fuel s a) xs)
        (plugged path (fork d l1 b l2) (ids (fork d l1 b l2)) refl)
        (one_lem s path c (fork d l1 b l2) a tip (fork d l1 b l2) fuel h
          (λ s' leaf sub_l sub_r. sub_l, λ x. omega arith) chosen bal_m bal_path calm_m calm_path
          quiet enough)

  two :
      (d : Bool) (l1 : Tree) (b : ℕ) (l2 : Tree) (q : Way) (e : Bool) (t : ℕ) (m : Tree) (b' : ℕ)
      (r : Tree)
      → (plug q (fork e tip t m) ≡ r)
      → top s.leaf r ≡ b'
      → b' ≢ s.leaf
      → before q ≡ []
      → leftmost fuel s b' ≡ some t
      → Holds s path (fork c (fork d l1 b l2) a r)
      → Bal (plug path (fork c (fork d l1 b l2) a r))
      → Calm (plug path (fork c (fork d l1 b l2) a r))
      → is_red (plug path (fork c (fork d l1 b l2) a r)) ≡ false
      → length (ids (plug path (fork c (fork d l1 b l2) a r))) < fuel
      → Repaired (extract fuel s a) (before path ++ ((ids (fork d l1 b l2) ++ ids r) ++ after path))
  two d l1 b l2 q e t m b' r split at real_r first run h bal calm dark enough =
      let h' = subst (λ r'. Holds s path (fork c (fork d l1 b l2) a r')) (sym split) h in
      let on_left = left_top s path c (fork d l1 b l2) a r h in
      let real_b =
        real s (down_left c a r ∷ path) d l1 b l2
          (Holds-into_left s c a path (fork d l1 b l2) r h) in
      let h_t =
        Holds-unplug s q (down_right c (fork d l1 b l2) a ∷ path) (fork e tip t m)
          (Holds-into_right s c a path (fork d l1 b l2) (plug q (fork e tip t m)) h') in
      let chosen =
        choose_least fuel s a b' t (λ eq. real_b (sym on_left ∙ eq))
          (right_top s path c (fork d l1 b l2) a r h ∙ at) real_r run
          (left_top s (q ++ (down_right c (fork d l1 b l2) a ∷ path)) e tip t m h_t)
        ∙ ap (λ p. some (p, t))
            (right_top s (q ++ (down_right c (fork d l1 b l2) a ∷ path)) e tip t m h_t) in
      let order : ids (plug (moved q c (fork d l1 b l2) t path) m)
          ≡ before path ++ ((ids (fork d l1 b l2) ++ ids r) ++ after path) =
        moved_order q c (fork d l1 b l2) e t path m first
        ∙ ap (λ r'. before path ++ ((ids (fork d l1 b l2) ++ ids r') ++ after path)) split in
      let rest : length (moved q c (fork d l1 b l2) t path) < fuel =
        room fuel (moved q c (fork d l1 b l2) t path) m path c (fork d l1 b l2) a r order enough in
      let done =
        whole_lem s path c (fork d l1 b l2) a e t m fuel q h' chosen
          (subst (λ r'. Bal (plug path (fork c (fork d l1 b l2) a r'))) (sym split) bal)
          (subst (λ r'. Calm (plug path (fork c (fork d l1 b l2) a r'))) (sym split) calm)
          (ap (λ r'. is_red (plug path (fork c (fork d l1 b l2) a r'))) split ∙ dark) rest in
      subst (λ xs. Repaired (extract fuel s a) xs) order done

-- The node is taken out, the others stay, and the tree is a red-black tree.
pub extract_lem :
    (s : Shape) (path : Way) (c : Bool) (l : Tree) (a : ℕ) (r : Tree) (fuel : ℕ)
    → Holds s path (fork c l a r)
    → Bal (plug path (fork c l a r))
    → Calm (plug path (fork c l a r))
    → is_red (plug path (fork c l a r)) ≡ false
    → length (ids (plug path (fork c l a r))) < fuel
    → Repaired (extract fuel s a) (before path ++ ((ids l ++ ids r) ++ after path))
extract_lem s path c tip a r fuel h bal calm dark enough =
    no_left s path c a fuel r h bal calm dark (above fuel path (fork c tip a r) enough)
extract_lem s path c (fork d l1 b l2) a tip fuel h bal calm dark enough =
    subst (λ xs. Repaired (extract fuel s a) (before path ++ (xs ++ after path)))
      (sym (append-nil (ids (fork d l1 b l2))))
      (no_right s path c a fuel d l1 b l2 h bal calm dark
        (above fuel path (fork c (fork d l1 b l2) a tip) enough))
extract_lem s path c (fork d l1 b l2) a (fork d' r1 b' r2) fuel h bal calm dark enough =
    let child = Holds-into_right s c a path (fork d l1 b l2) (fork d' r1 b' r2) h in
    let size = length-plug path (fork c (fork d l1 b l2) a (fork d' r1 b' r2)) in
    let n = length-append (ids (fork d l1 b l2)) (a ∷ ids (fork d' r1 b' r2)) in
    let n' = length-append (ids r1) (b' ∷ ids r2) in
    let (q, e, t, m, run, split, first) =
      leftmost_lem r1 d' b' r2 fuel s (down_right c (fork d l1 b l2) a ∷ path) child
        (omega arith) in
    two s path c a fuel d l1 b l2 q e t m b' (fork d' r1 b' r2) (sym split) refl
      (real s (down_right c (fork d l1 b l2) a ∷ path) d' r1 b' r2 child) first run h bal calm dark
      enough
