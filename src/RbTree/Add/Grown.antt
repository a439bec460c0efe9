-- ===== src/RbTree/Add/Grown.antt =====
-- libyod/rbtree.c: the tree that add leaves, from the place of the new node on.
use libyod.Prelude.{
  ℕ, ◌+◌, ◌≤◌, ◌<◌, ◌≡◌, refl, sym, subst, ◌≢◌, true, false, [], ◌∷◌, ◌++◌, arith, length,
  length-append,
}
use libyod.RbTree.Shape.{Shape, paint}
use libyod.RbTree.Balance.{rebalance}
use libyod.RbTree.Tree.{
  Tree, tip, fork, Step, down_left, down_right, Way, plug, ids, before, after, occ_path,
}
use libyod.RbTree.Holds.{Holds, is_red, Holds-paint, root_top}
use libyod.RbTree.Colors.{Bal, BalPath, Calm, BalPath-unplug, CalmPath-unplug, blacken}
use libyod.RbTree.Rebalance.Loop.{Rebalanced, rebalance_lem}
use libyod.RbTree.Place.{hung, Holds-hung}

pub length-path : (path : Way) → length path ≤ length (before path) + length (after path)
length-path [] = omega arith
length-path (down_left c a r ∷ path) =
    omega (arith, length-path path, length-append (a ∷ ids r) (after path))
length-path (down_right c l a ∷ path) = omega (
  arith,
  length-path path,
  length-append (before path) (ids l ++ (a ∷ [])),
  length-append (ids l) (a ∷ []),
)

-- The root is made black.
pub Holds-blacken :
    (s : Shape) (n : Tree) → Holds s [] n → Holds (paint s s.root false) [] (blacken n)
unfolding paint
Holds-blacken s tip h = record {
  at = (tt, tt, h.at.2);
  once = h.once;
  dark = let e = root_top s tip h in ground arith;
  leaf_pos = h.leaf_pos;
  non_null = h.non_null;
}
Holds-blacken s (fork c l a r) h =
    subst (λ p. Holds (paint s p false) [] (fork false l a r)) (sym (root_top s (fork c l a r) h))
      (Holds-paint s [] c l a r h false)

pub ids-blacken : (n : Tree) → ids (blacken n) ≡ ids n
ids-blacken tip = refl
ids-blacken (fork c l a r) = refl

module _ (s : Shape) (step : Step) (path : Way) (x : ℕ) (h : Holds s (step ∷ path) tip)
    (pos : 0 < x) (real_x : x ≢ s.leaf) (out : occ_path x (step ∷ path) ≡ 0)
    (left_x : s.left x ≡ s.leaf) (right_x : s.right x ≡ s.leaf) (red_x : s.red x ≡ true)
    (bal : Bal (plug (step ∷ path) tip)) (calm : Calm (plug (step ∷ path) tip))
    (black : is_red (plug (step ∷ path) tip) ≡ false) where
  pub grown :
      (fuel : ℕ)
      → length (step ∷ path) < fuel
      → Rebalanced
          (rebalance fuel (hung s step path x) x)
          (plug (step ∷ path) (fork true tip x tip))
  grown fuel enough =
      let (_, bal_path) = BalPath-unplug (step ∷ path) tip bal in
      let (_, calm_path) = CalmPath-unplug (step ∷ path) tip calm black in
      rebalance_lem (step ∷ path) fuel (hung s step path x) tip x tip
        (Holds-hung s step path x h pos real_x out left_x right_x red_x)
        ((refl, tt, tt), subst (λ m. BalPath m (step ∷ path)) (omega arith) bal_path)
        (((refl, refl), tt, tt), calm_path) enough
