-- ===== src/RbTree/Extract/Lift.antt =====
-- libyod/rbtree.c: a node with at most one child is cut out, and the child takes its place.
use libyod.Prelude.{
  ℕ, ◌+◌, ◌<◌, ◌≡◌, refl, sym, ap, ◌∙◌, subst, ◌≢◌, inl, inr, Bool, true, false, ◌∷◌, arith, ◌==◌,
}
use libyod.Links.{update, update_ne, update_self}
use libyod.RbTree.Shape.{Shape}
use libyod.RbTree.Remove.{cut}
use libyod.RbTree.Tree.{
  Tree, fork, Step, down_left, down_right, Way, occ, occ_path, occ_below-le, top, top-occ, Sub,
  UpTo, Around, AtLeaf, Sub-frame, Around-frame,
}
use libyod.RbTree.Rotate.{Once, hang, hang-leaf, hang-outside, Around-hang}
use libyod.RbTree.Rotate.Left.{below-ne-top}
use libyod.RbTree.Holds.{Holds, Holds-up_right, parent_top, other_left}

-- The tree `r` is put into the hole, and its root, or the leaf, points at `v`.
abbrev pub lifted : Shape → Way → ℕ → ℕ → Shape
lifted s path p v = record (hang s path p) { parent = update (hang s path p).parent p v }

eq_refl : (n : ℕ) → (n == n) ≡ true
eq_refl n = ground arith

ne_eq : (m n : ℕ) → m ≢ n → (m == n) ≡ false
ne_eq m n ne = ground arith

-- `cut` finds the place of the node.
pub cut_lem :
    (s : Shape) (step : Step) (path : Way) (c : Bool) (l : Tree) (a : ℕ) (r : Tree) (p : ℕ)
    → Holds s (step ∷ path) (fork c l a r)
    → cut s a p ≡ hang s (step ∷ path) p
unfolding cut
cut_lem s (down_left d q m) path c l a r p h =
    let up = parent_top s (down_left d q m) path c l a r h in
    let child : s.left q ≡ a = h.at.2.0.0 in
    let e : (a == s.left (s.parent a)) ≡ true = rw (up, child) (eq_refl a) in rw (e, up) refl
cut_lem s (down_right d m q) path c l a r p h =
    let up = parent_top s (down_right d m q) path c l a r h in
    let ne = other_left s path d q m c l a r (Holds-up_right s d q path m (fork c l a r) h) in
    let e : (a == s.left (s.parent a)) ≡ false = rw up (ne_eq a (s.left q) ne) in rw (e, up) refl

module _ (s : Shape) (path : Way) (a v : ℕ) (r : Tree) (sub : Sub s.leaf s r)
    (around : Around s.leaf s path a) (once : Once s.leaf path r) (dark : s.red s.leaf ≡ false)
    (leaf_pos : 0 < s.leaf) (non_null : occ 0 r + occ_path 0 path ≡ 0) where
  abbrev p : ℕ
  p = top s.leaf r

  abbrev up : Shape
  up = lifted s path p v

  top_out : occ_path p path ≡ 0
  top_out = elim (top-occ s.leaf r) [
    | inl e ↦ let z = once.1 in subst (λ x. occ_path x path ≡ 0) (sym e) (omega arith)
    | inr inside ↦ let o = once.0 p in omega arith
  ]

  outside_top : (x : ℕ) → 0 < occ_path x path → x ≢ p
  outside_top x inside e =
      let z = subst (λ y. 0 < occ_path y path) e inside in let o = top_out in omega arith

  pub up-Sub : Sub s.leaf up r
  up-Sub =
      Sub-frame s up s.leaf r
        (λ x inside.
          let o = once.0 x in
          let same = hang-outside s path p x (omega arith) in (same.0, same.1, same.2))
        (λ x inside.
          let o = once.0 x in
          let le = occ_below-le x r in
          update_ne (hang s path p).parent p v x (below-ne-top s.leaf x r inside (omega arith))
          ∙ (hang-outside s path p x (omega arith)).3)
        sub

  pub up-Around : Around s.leaf up path p
  up-Around =
      Around-frame (hang s path p) up s.leaf path p refl (λ x inside. (refl, refl, refl))
        (λ x inside. update_ne (hang s path p).parent p v x (outside_top x inside))
        (Around-hang s.leaf s path a p (λ x. let o = once.0 x in omega arith) around)

  pub up_top : up.parent p ≡ v
  up_top = update_self (hang s path p).parent p v

  up_leaf : up.leaf ≡ s.leaf
  up_leaf = hang-leaf s path p

  pub Holds-lifted : UpTo s.leaf up path p → Holds up path r
  Holds-lifted up_to = record {
    at = subst (λ z. AtLeaf z up path r) (sym up_leaf) (up-Sub, up_to, up-Around);
    once = subst (λ z. Once z path r) (sym up_leaf) once;
    dark =
        ap up.red up_leaf ∙ (hang-outside s path p s.leaf (let z = once.1 in omega arith)).2 ∙ dark;
    leaf_pos = subst (λ z. 0 < z) (sym up_leaf) leaf_pos;
    non_null = non_null;
  }
