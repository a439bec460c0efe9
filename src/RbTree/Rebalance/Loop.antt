-- ===== src/RbTree/Rebalance/Loop.antt =====
-- libyod/rbtree.c: the loop of add that restores the balance ends, and leaves a red-black tree.
use libyod.Prelude.{
  ℕ, zero, suc, ◌<◌, ◌≡◌, refl, sym, ap, ◌∙◌, subst, Bool, true, false, Option, some, [], ◌∷◌, ◌++◌,
  arith, ◌==◌, length,
}
use libyod.RbTree.Shape.{Shape}
use libyod.RbTree.Tree.{
  Tree, tip, fork, Step, down_left, down_right, Way, plug, ids, ids-plug_congr, ids-turn,
}
use libyod.RbTree.Holds.{
  is_red, Holds, Holds-up_left, Holds-up_right, Holds-into_left, Holds-into_right, parent_top,
  Holds-plug, node_of, below, root_top,
}
use libyod.RbTree.Colors.{height, Bal, BalPath, Calm, CalmPath, Bal-plug, Calm-plug}
use libyod.RbTree.Balance.{rebalance_step, rebalance}
use libyod.RbTree.Rebalance.Left.{straight_left, bent_left, recolored_left}
use libyod.RbTree.Rebalance.Right.{straight_right, bent_right, recolored_right}

-- The loop ends, and leaves a red-black tree with the same nodes, but for the color of the root.
pub record Rebalanced (run : Option Shape) (old : Tree) : Type 0 where
  pub shape : Shape
  pub tree : Tree
  pub ends : run ≡ some shape
  pub holds : Holds shape [] tree
  pub same : ids tree ≡ ids old
  pub bal : Bal tree
  pub calm : Calm tree

abbrev color_of : Step → Bool
color_of (down_left c a r) = c
color_of (down_right c l a) = c

color_above :
    (s : Shape) (step : Step) (path : Way) (t : Tree)
    → Holds s (step ∷ path) t
    → s.red (node_of step) ≡ color_of step
color_above s (down_left c a r) path t h = h.at.2.0.2
color_above s (down_right c l a) path t h = h.at.2.0.2

module _ (fuel : ℕ) (s : Shape) where
  stop_root : (x : ℕ) → x ≡ s.root → rebalance (suc fuel) s x ≡ some s
  unfolding rebalance
  stop_root x e = let here : (x == s.root) ≡ true = ground arith in rw (rebalance, here)

  module _ (step : Step) (path : Way) (c : Bool) (l : Tree) (x : ℕ) (r : Tree)
      (h : Holds s (step ∷ path) (fork c l x r)) where
    not_root : (x == s.root) ≡ false
    not_root = let ne = below s step path (fork c l x r) h in ground arith

    parent_color : s.red (s.parent x) ≡ color_of step
    parent_color =
        ap s.red (parent_top s step path c l x r h) ∙ color_above s step path (fork c l x r) h

    stop_black : color_of step ≡ false → rebalance (suc fuel) s x ≡ some s
    unfolding rebalance
    stop_black e = rw (rebalance, not_root, parent_color, e)

    round :
        color_of step ≡ true
        → (s' : Shape) (x' : ℕ) → rebalance_step s x ≡ (s', x')
        → rebalance (suc fuel) s x ≡ rebalance fuel s' x'
    unfolding rebalance
    round e s' x' run = rw (rebalance, not_root, parent_color, e, run)

stop_below :
    (fuel : ℕ) (s : Shape) (step : Step) (path : Way) (c : Bool) (l : Tree) (x : ℕ) (r : Tree)
    → 0 < fuel
    → color_of step ≡ false
    → Holds s (step ∷ path) (fork c l x r)
    → rebalance fuel s x ≡ some s
stop_below zero s step path c l x r pos e h = absurd (omega arith)
stop_below (suc fuel) s step path c l x r pos e h = stop_black fuel s step path c l x r h e

-- Where the loop has stopped.
stopped :
    (run : Option Shape) (s : Shape) (path : Way) (t old : Tree)
    → run ≡ some s
    → Holds s path t
    → ids (plug path t) ≡ ids old
    → Bal t × BalPath (height t) path
    → Calm t × CalmPath (is_red t) path
    → Rebalanced run old
stopped run s path t old e h same (bal, bal_path) (calm, calm_path) = record {
  shape = s;
  tree = plug path t;
  ends = e;
  holds = Holds-plug s path t h;
  same = same;
  bal = Bal-plug path t bal bal_path;
  calm = (Calm-plug path t calm calm_path).0;
}

-- A run that goes on in another one.
resumed :
    (run run' : Option Shape) (old old' : Tree)
    → run ≡ run'
    → ids old' ≡ ids old
    → Rebalanced run' old'
    → Rebalanced run old
resumed run run' old old' e same h = record {
  shape = h.shape;
  tree = h.tree;
  ends = e ∙ h.ends;
  holds = h.holds;
  same = h.same ∙ same;
  bal = h.bal;
  calm = h.calm;
}

red_black : true ≡ false → ⊥
red_black e = ground arith

BalPath-at : (path : Way) (m n : ℕ) → m ≡ n → BalPath m path → BalPath n path
BalPath-at path m n e h = subst (λ k. BalPath k path) e h

-- The uncle `u` is black: the node `x` stands on one side of its parent `p`, and that on one side of `g`.
module _ (path : Way) (fuel : ℕ) (pos : 0 < fuel) (s : Shape) (l : Tree) (x : ℕ) (r : Tree) (p : ℕ)
    (b : Tree) (g : ℕ) (u : Tree) (black_u : is_red u ≡ false) where
  stopped_left_left :
      Holds s (down_left true p b ∷ down_left false g u ∷ path) (fork true l x r)
      → Bal (fork true l x r)
        × BalPath (height (fork true l x r)) (down_left true p b ∷ down_left false g u ∷ path)
      → Calm (fork true l x r) × CalmPath false (down_left true p b ∷ down_left false g u ∷ path)
      → Rebalanced
          (rebalance (suc fuel) s x)
          (plug path (fork false (fork true (fork true l x r) p b) g u))
  stopped_left_left h ((e_t, bal_l, bal_r), (e_b, bal_b, (e_u, bal_u, bal_path)))
        ((quiet_t, calm_l, calm_r), ((_, quiet_b), calm_b, (_, calm_u, calm_path))) =
      let h1 = Holds-up_left s true p (down_left false g u ∷ path) (fork true l x r) b h in
      let h2 = Holds-up_left s false g path (fork true (fork true l x r) p b) u h1 in
      let (s', run, h') = straight_left s path true p false g u true l x r black_u b h2 in
      let below' = Holds-into_left s' false p path (fork true l x r) (fork true b g u) h' in
      stopped (rebalance (suc fuel) s x) s' path (fork false (fork true l x r) p (fork true b g u))
        (plug path (fork false (fork true (fork true l x r) p b) g u))
        (round fuel s (down_left true p b) (down_left false g u ∷ path) true l x r h refl s' x run
          ∙ stop_below fuel s' (down_left false p (fork true b g u)) path true l x r pos refl
              below')
        h'
        (ids-plug_congr path (fork false (fork true l x r) p (fork true b g u))
          (fork false (fork true (fork true l x r) p b) g u)
          (sym (ids-turn false true false true (fork true l x r) p b g u)))
        (
          (omega arith, (e_t, bal_l, bal_r), (omega arith, bal_b, bal_u)),
          BalPath-at path _ _ (omega arith) bal_path,
        )
        (((refl, refl), (quiet_t, calm_l, calm_r), ((quiet_b, black_u), calm_b, calm_u)), calm_path)

  stopped_left_right :
      Holds s (down_right true b p ∷ down_left false g u ∷ path) (fork true l x r)
      → Bal (fork true l x r)
        × BalPath (height (fork true l x r)) (down_right true b p ∷ down_left false g u ∷ path)
      → Calm (fork true l x r) × CalmPath false (down_right true b p ∷ down_left false g u ∷ path)
      → Rebalanced
          (rebalance (suc fuel) s x)
          (plug path (fork false (fork true b p (fork true l x r)) g u))
  stopped_left_right h ((e_t, bal_l, bal_r), (e_b, bal_b, (e_u, bal_u, bal_path)))
        ((quiet_t, calm_l, calm_r), ((quiet_b, _), calm_b, (_, calm_u, calm_path))) =
      let h1 = Holds-up_right s true p (down_left false g u ∷ path) b (fork true l x r) h in
      let h2 = Holds-up_left s false g path (fork true b p (fork true l x r)) u h1 in
      let (s', run, h') = bent_left s path true p false g u true l x r black_u b h2 in
      let below' = Holds-into_left s' false x path (fork true b p l) (fork true r g u) h' in
      stopped (rebalance (suc fuel) s x) s' path (fork false (fork true b p l) x (fork true r g u))
        (plug path (fork false (fork true b p (fork true l x r)) g u))
        (round fuel s (down_right true b p) (down_left false g u ∷ path) true l x r h refl s' p run
          ∙ stop_below fuel s' (down_left false x (fork true r g u)) path true b p l pos refl
              below')
        h'
        (ids-plug_congr path (fork false (fork true b p l) x (fork true r g u))
          (fork false (fork true b p (fork true l x r)) g u)
          (sym (ids-turn false true false true (fork true b p l) x r g u)
            ∙ ap (λ i. i ++ (g ∷ ids u)) (ids-turn true true true true b p l x r)))
        (
          (omega arith, (omega arith, bal_b, bal_l), (omega arith, bal_r, bal_u)),
          BalPath-at path _ _ (omega arith) bal_path,
        )
        (
          (
            (refl, refl),
            ((quiet_b, quiet_t.0), calm_b, calm_l),
            ((quiet_t.1, black_u), calm_r, calm_u),
          ),
          calm_path,
        )

  stopped_right_left :
      Holds s (down_left true p b ∷ down_right false u g ∷ path) (fork true l x r)
      → Bal (fork true l x r)
        × BalPath (height (fork true l x r)) (down_left true p b ∷ down_right false u g ∷ path)
      → Calm (fork true l x r) × CalmPath false (down_left true p b ∷ down_right false u g ∷ path)
      → Rebalanced
          (rebalance (suc fuel) s x)
          (plug path (fork false u g (fork true (fork true l x r) p b)))
  stopped_right_left h ((e_t, bal_l, bal_r), (e_b, bal_b, (e_u, bal_u, bal_path)))
        ((quiet_t, calm_l, calm_r), ((_, quiet_b), calm_b, (_, calm_u, calm_path))) =
      let h1 = Holds-up_left s true p (down_right false u g ∷ path) (fork true l x r) b h in
      let h2 = Holds-up_right s false g path u (fork true (fork true l x r) p b) h1 in
      let (s', run, h') = bent_right s path true p false g u true l x r black_u b h2 in
      let below' = Holds-into_right s' false x path (fork true u g l) (fork true r p b) h' in
      stopped (rebalance (suc fuel) s x) s' path (fork false (fork true u g l) x (fork true r p b))
        (plug path (fork false u g (fork true (fork true l x r) p b)))
        (round fuel s (down_left true p b) (down_right false u g ∷ path) true l x r h refl s' p run
          ∙ stop_below fuel s' (down_right false (fork true u g l) x) path true r p b pos refl
              below')
        h'
        (ids-plug_congr path (fork false (fork true u g l) x (fork true r p b))
          (fork false u g (fork true (fork true l x r) p b))
          (ids-turn false true false true u g l x (fork true r p b)
            ∙ ap (λ i. ids u ++ (g ∷ i)) (sym (ids-turn true true true true l x r p b))))
        (
          (omega arith, (omega arith, bal_u, bal_l), (omega arith, bal_r, bal_b)),
          BalPath-at path _ _ (omega arith) bal_path,
        )
        (
          (
            (refl, refl),
            ((black_u, quiet_t.0), calm_u, calm_l),
            ((quiet_t.1, quiet_b), calm_r, calm_b),
          ),
          calm_path,
        )

  stopped_right_right :
      Holds s (down_right true b p ∷ down_right false u g ∷ path) (fork true l x r)
      → Bal (fork true l x r)
        × BalPath (height (fork true l x r)) (down_right true b p ∷ down_right false u g ∷ path)
      → Calm (fork true l x r) × CalmPath false (down_right true b p ∷ down_right false u g ∷ path)
      → Rebalanced
          (rebalance (suc fuel) s x)
          (plug path (fork false u g (fork true b p (fork true l x r))))
  stopped_right_right h ((e_t, bal_l, bal_r), (e_b, bal_b, (e_u, bal_u, bal_path)))
        ((quiet_t, calm_l, calm_r), ((quiet_b, _), calm_b, (_, calm_u, calm_path))) =
      let h1 = Holds-up_right s true p (down_right false u g ∷ path) b (fork true l x r) h in
      let h2 = Holds-up_right s false g path u (fork true b p (fork true l x r)) h1 in
      let (s', run, h') = straight_right s path true p false g u true l x r black_u b h2 in
      let below' = Holds-into_right s' false p path (fork true u g b) (fork true l x r) h' in
      stopped (rebalance (suc fuel) s x) s' path (fork false (fork true u g b) p (fork true l x r))
        (plug path (fork false u g (fork true b p (fork true l x r))))
        (round fuel s (down_right true b p) (down_right false u g ∷ path) true l x r h refl s' x run
          ∙ stop_below fuel s' (down_right false (fork true u g b) p) path true l x r pos refl
              below')
        h'
        (ids-plug_congr path (fork false (fork true u g b) p (fork true l x r))
          (fork false u g (fork true b p (fork true l x r)))
          (ids-turn false true false true u g b p (fork true l x r)))
        (
          (omega arith, (omega arith, bal_u, bal_b), (e_t, bal_l, bal_r)),
          BalPath-at path _ _ (omega arith) bal_path,
        )
        (((refl, refl), ((black_u, quiet_b), calm_u, calm_b), (quiet_t, calm_l, calm_r)), calm_path)

pub rebalance_lem :
    (path : Way) (fuel : ℕ) (s : Shape) (l : Tree) (x : ℕ) (r : Tree)
    → Holds s path (fork true l x r)
    → Bal (fork true l x r) × BalPath (height (fork true l x r)) path
    → Calm (fork true l x r) × CalmPath false path
    → length path < fuel
    → Rebalanced (rebalance fuel s x) (plug path (fork true l x r))
rebalance_lem path zero s l x r h bal calm enough = absurd (omega arith)
rebalance_lem [] (suc fuel) s l x r h (bal, _) (calm, _) enough = record {
  shape = s;
  tree = fork true l x r;
  ends = stop_root fuel s x (sym (root_top s (fork true l x r) h));
  holds = h;
  same = refl;
  bal = bal;
  calm = calm;
}
rebalance_lem (down_left false p b ∷ path) (suc fuel) s l x r h bal calm enough =
    stopped (rebalance (suc fuel) s x) s (down_left false p b ∷ path) (fork true l x r)
      (plug (down_left false p b ∷ path) (fork true l x r))
      (stop_black fuel s (down_left false p b) path true l x r h refl) h refl bal calm
rebalance_lem (down_right false b p ∷ path) (suc fuel) s l x r h bal calm enough =
    stopped (rebalance (suc fuel) s x) s (down_right false b p ∷ path) (fork true l x r)
      (plug (down_right false b p ∷ path) (fork true l x r))
      (stop_black fuel s (down_right false b p) path true l x r h refl) h refl bal calm
rebalance_lem (down_left true p b ∷ []) (suc fuel) s l x r h bal (_, (_, _, red)) enough =
    absurd (red_black red)
rebalance_lem (down_right true b p ∷ []) (suc fuel) s l x r h bal (_, (_, _, red)) enough =
    absurd (red_black red)
rebalance_lem (down_left true p b ∷ down_left true g u ∷ path) (suc fuel) s l x r h bal
      (_, (_, _, ((red, _), _, _))) enough =
    absurd (red_black red)
rebalance_lem (down_left true p b ∷ down_left false g tip ∷ path) (suc fuel) s l x r h bal calm
      enough =
    stopped_left_left path fuel (omega arith) s l x r p b g tip refl h bal calm
rebalance_lem (down_left true p b ∷ down_left false g (fork false a' v b') ∷ path) (suc fuel) s l x
      r h bal calm enough =
    stopped_left_left path fuel (omega arith) s l x r p b g (fork false a' v b') refl h bal calm
rebalance_lem (down_left true p b ∷ down_left false g (fork true a' v b') ∷ path) (suc fuel) s l x r
      h ((e_t, bal_l, bal_r), (e_b, bal_b, (e_u, (e_v, bal_a, bal_b'), bal_path)))
      ((quiet_t, calm_l, calm_r), (_, calm_b, (_, (_, calm_a, calm_b'), calm_path))) enough =
    let h1 =
      Holds-up_left s true p (down_left false g (fork true a' v b') ∷ path) (fork true l x r) b h in
    let h2 =
      Holds-up_left s false g path (fork true (fork true l x r) p b) (fork true a' v b') h1 in
    let (s', run, h') = recolored_left s path true (fork true l x r) p b false g a' v b' h2 x (
      parent_top s (down_left true p b) (down_left false g (fork true a' v b') ∷ path) true l x r
        h) in
    resumed (rebalance (suc fuel) s x) (rebalance fuel s' g)
      (plug path (fork false (fork true (fork true l x r) p b) g (fork true a' v b')))
      (plug path (fork true (fork false (fork true l x r) p b) g (fork false a' v b')))
      (round fuel s (down_left true p b) (down_left false g (fork true a' v b') ∷ path) true l x r h
        refl s' g run)
      (ids-plug_congr path (fork true (fork false (fork true l x r) p b) g (fork false a' v b'))
        (fork false (fork true (fork true l x r) p b) g (fork true a' v b')) refl)
      (rebalance_lem path fuel s' (fork false (fork true l x r) p b) g (fork false a' v b') h'
        (
          (omega arith, (e_b, (e_t, bal_l, bal_r), bal_b), (e_v, bal_a, bal_b')),
          BalPath-at path _ _ (omega arith) bal_path,
        )
        (
          (
            (refl, refl),
            ((refl, refl), (quiet_t, calm_l, calm_r), calm_b),
            ((refl, refl), calm_a, calm_b'),
          ),
          calm_path,
        )
        (omega arith))
rebalance_lem (down_right true b p ∷ down_left true g u ∷ path) (suc fuel) s l x r h bal
      (_, (_, _, ((red, _), _, _))) enough =
    absurd (red_black red)
rebalance_lem (down_right true b p ∷ down_left false g tip ∷ path) (suc fuel) s l x r h bal calm
      enough =
    stopped_left_right path fuel (omega arith) s l x r p b g tip refl h bal calm
rebalance_lem (down_right true b p ∷ down_left false g (fork false a' v b') ∷ path) (suc fuel) s l x
      r h bal calm enough =
    stopped_left_right path fuel (omega arith) s l x r p b g (fork false a' v b') refl h bal calm
rebalance_lem (down_right true b p ∷ down_left false g (fork true a' v b') ∷ path) (suc fuel) s l x
      r h ((e_t, bal_l, bal_r), (e_b, bal_b, (e_u, (e_v, bal_a, bal_b'), bal_path)))
      ((quiet_t, calm_l, calm_r), (_, calm_b, (_, (_, calm_a, calm_b'), calm_path))) enough =
    let h1 =
      Holds-up_right s true p (down_left false g (fork true a' v b') ∷ path) b (fork true l x r)
        h in
    let h2 =
      Holds-up_left s false g path (fork true b p (fork true l x r)) (fork true a' v b') h1 in
    let (s', run, h') = recolored_left s path true b p (fork true l x r) false g a' v b' h2 x (
      parent_top s (down_right true b p) (down_left false g (fork true a' v b') ∷ path) true l x r
        h) in
    resumed (rebalance (suc fuel) s x) (rebalance fuel s' g)
      (plug path (fork false (fork true b p (fork true l x r)) g (fork true a' v b')))
      (plug path (fork true (fork false b p (fork true l x r)) g (fork false a' v b')))
      (round fuel s (down_right true b p) (down_left false g (fork true a' v b') ∷ path) true l x r
        h refl s' g run)
      (ids-plug_congr path (fork true (fork false b p (fork true l x r)) g (fork false a' v b'))
        (fork false (fork true b p (fork true l x r)) g (fork true a' v b')) refl)
      (rebalance_lem path fuel s' (fork false b p (fork true l x r)) g (fork false a' v b') h'
        (
          (omega arith, (e_b, bal_b, (e_t, bal_l, bal_r)), (e_v, bal_a, bal_b')),
          BalPath-at path _ _ (omega arith) bal_path,
        )
        (
          (
            (refl, refl),
            ((refl, refl), calm_b, (quiet_t, calm_l, calm_r)),
            ((refl, refl), calm_a, calm_b'),
          ),
          calm_path,
        )
        (omega arith))
rebalance_lem (down_left true p b ∷ down_right true u g ∷ path) (suc fuel) s l x r h bal
      (_, (_, _, ((_, red), _, _))) enough =
    absurd (red_black red)
rebalance_lem (down_left true p b ∷ down_right false tip g ∷ path) (suc fuel) s l x r h bal calm
      enough =
    stopped_right_left path fuel (omega arith) s l x r p b g tip refl h bal calm
rebalance_lem (down_left true p b ∷ down_right false (fork false a' v b') g ∷ path) (suc fuel) s l x
      r h bal calm enough =
    stopped_right_left path fuel (omega arith) s l x r p b g (fork false a' v b') refl h bal calm
rebalance_lem (down_left true p b ∷ down_right false (fork true a' v b') g ∷ path) (suc fuel) s l x
      r h ((e_t, bal_l, bal_r), (e_b, bal_b, (e_u, (e_v, bal_a, bal_b'), bal_path)))
      ((quiet_t, calm_l, calm_r), (_, calm_b, (_, (_, calm_a, calm_b'), calm_path))) enough =
    let h1 =
      Holds-up_left s true p (down_right false (fork true a' v b') g ∷ path) (fork true l x r) b
        h in
    let h2 =
      Holds-up_right s false g path (fork true a' v b') (fork true (fork true l x r) p b) h1 in
    let (s', run, h') = recolored_right s path true (fork true l x r) p b false g a' v b' h2 x (
      parent_top s (down_left true p b) (down_right false (fork true a' v b') g ∷ path) true l x r
        h) in
    resumed (rebalance (suc fuel) s x) (rebalance fuel s' g)
      (plug path (fork false (fork true a' v b') g (fork true (fork true l x r) p b)))
      (plug path (fork true (fork false a' v b') g (fork false (fork true l x r) p b)))
      (round fuel s (down_left true p b) (down_right false (fork true a' v b') g ∷ path) true l x r
        h refl s' g run)
      (ids-plug_congr path (fork true (fork false a' v b') g (fork false (fork true l x r) p b))
        (fork false (fork true a' v b') g (fork true (fork true l x r) p b)) refl)
      (rebalance_lem path fuel s' (fork false a' v b') g (fork false (fork true l x r) p b) h'
        (
          (omega arith, (e_v, bal_a, bal_b'), (e_b, (e_t, bal_l, bal_r), bal_b)),
          BalPath-at path _ _ (omega arith) bal_path,
        )
        (
          (
            (refl, refl),
            ((refl, refl), calm_a, calm_b'),
            ((refl, refl), (quiet_t, calm_l, calm_r), calm_b),
          ),
          calm_path,
        )
        (omega arith))
rebalance_lem (down_right true b p ∷ down_right true u g ∷ path) (suc fuel) s l x r h bal
      (_, (_, _, ((_, red), _, _))) enough =
    absurd (red_black red)
rebalance_lem (down_right true b p ∷ down_right false tip g ∷ path) (suc fuel) s l x r h bal calm
      enough =
    stopped_right_right path fuel (omega arith) s l x r p b g tip refl h bal calm
rebalance_lem (down_right true b p ∷ down_right false (fork false a' v b') g ∷ path) (suc fuel) s l
      x r h bal calm enough =
    stopped_right_right path fuel (omega arith) s l x r p b g (fork false a' v b') refl h bal calm
rebalance_lem (down_right true b p ∷ down_right false (fork true a' v b') g ∷ path) (suc fuel) s l x
      r h ((e_t, bal_l, bal_r), (e_b, bal_b, (e_u, (e_v, bal_a, bal_b'), bal_path)))
      ((quiet_t, calm_l, calm_r), (_, calm_b, (_, (_, calm_a, calm_b'), calm_path))) enough =
    let h1 =
      Holds-up_right s true p (down_right false (fork true a' v b') g ∷ path) b (fork true l x r)
        h in
    let h2 =
      Holds-up_right s false g path (fork true a' v b') (fork true b p (fork true l x r)) h1 in
    let (s', run, h') = recolored_right s path true b p (fork true l x r) false g a' v b' h2 x (
      parent_top s (down_right true b p) (down_right false (fork true a' v b') g ∷ path) true l x r
        h) in
    resumed (rebalance (suc fuel) s x) (rebalance fuel s' g)
      (plug path (fork false (fork true a' v b') g (fork true b p (fork true l x r))))
      (plug path (fork true (fork false a' v b') g (fork false b p (fork true l x r))))
      (round fuel s (down_right true b p) (down_right false (fork true a' v b') g ∷ path) true l x r
        h refl s' g run)
      (ids-plug_congr path (fork true (fork false a' v b') g (fork false b p (fork true l x r)))
        (fork false (fork true a' v b') g (fork true b p (fork true l x r))) refl)
      (rebalance_lem path fuel s' (fork false a' v b') g (fork false b p (fork true l x r)) h'
        (
          (omega arith, (e_v, bal_a, bal_b'), (e_b, bal_b, (e_t, bal_l, bal_r))),
          BalPath-at path _ _ (omega arith) bal_path,
        )
        (
          (
            (refl, refl),
            ((refl, refl), calm_a, calm_b'),
            ((refl, refl), calm_b, (quiet_t, calm_l, calm_r)),
          ),
          calm_path,
        )
        (omega arith))
