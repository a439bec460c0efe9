-- ===== src/RbTree/Rebalance/Right.antt =====
-- libyod/rbtree.c: the rounds where the parent is the right child of the grandparent.
use libyod.Prelude.{
  ℕ, ◌≡◌, refl, ap, ◌∙◌, ◌≢◌, Bool, true, false, not, ◌&&◌, ◌∷◌, arith, ◌==◌, if◌then◌else◌,
}
use libyod.RbTree.Shape.{Shape, right_rotate, left_rotate, paint}
use libyod.RbTree.Tree.{Tree, fork, down_left, down_right, Way, top}
use libyod.RbTree.Holds.{
  is_red, Holds, Holds-into_left, Holds-into_right, parent_top, left_top, red_top, Holds-paint,
  Holds-up_right, Holds-rotate_left, Holds-rotate_right, other_left, node_pos,
}
use libyod.RbTree.Balance.{recolor, straighten_right, paint_above, rebalance_right, rebalance_step}
use libyod.RbTree.Rebalance.{StepTo, Holds-recolor_right}

-- What the round reads at the parent `p` and the grandparent `g`; `u` is the uncle.
module _ (s : Shape) (path : Way) (d : Bool) (b : Tree) (p : ℕ) (a : Tree) (c : Bool) (u : Tree)
    (g : ℕ) (h : Holds s path (fork c u g (fork d b p a))) where
  grandparent : s.parent p ≡ g
  grandparent =
      parent_top s (down_right c u g) path d b p a (Holds-into_right s c g path u (fork d b p a) h)

  uncle : s.left g ≡ top s.leaf u
  uncle = left_top s path c u g (fork d b p a) h

  uncle_red : s.red (top s.leaf u) ≡ is_red u
  uncle_red =
      red_top s (down_left c g (fork d b p a) ∷ path) u
        (Holds-into_left s c g path u (fork d b p a) h)

  read_uncle : (if g == 0 then 0 else s.left g) ≡ top s.leaf u
  read_uncle =
      let pos = node_pos s path c u g (fork d b p a) h in
      let real : (g == 0) ≡ false = ground arith in rw real uncle

  module _ (x : ℕ) (up : s.parent x ≡ p) where
    to_right : rebalance_step s x ≡ rebalance_right s x
    unfolding rebalance_step
    to_right =
        let other = other_left s path c g u d b p a h in
        let e' : s.left (s.parent (s.parent x)) ≡ s.left g =
          ap (λ n. s.left (s.parent n)) up ∙ ap s.left grandparent in
        let e : (s.parent x == s.left (s.parent (s.parent x))) ≡ false =
          rw (e', up) (ground arith) in
        rw e

    red_uncle : is_red u ≡ true → rebalance_right s x ≡ (recolor s p (top s.leaf u) g, g)
    unfolding rebalance_right
    red_uncle e = rw (up, grandparent, read_uncle, uncle_red, e)

    black_uncle :
        is_red u ≡ false
        → (s' : Shape) (x' : ℕ) → straighten_right s x ≡ (s', x')
        → rebalance_right s x ≡ (
          left_rotate
              (paint_above s' x')
              ((paint_above s' x').parent ((paint_above s' x').parent x')),
          x',
        )
    unfolding rebalance_right
    black_uncle e s' x' run = rw (up, grandparent, read_uncle, uncle_red, e, run)

-- The two nodes change color, and the grandparent is rotated.
module _ (s : Shape) (path : Way) (t : Tree) (d : Bool) (p : ℕ) (b : Tree) (c : Bool) (g : ℕ)
    (u : Tree) (h : Holds s path (fork c u g (fork d b p t))) (x : ℕ) (up : s.parent x ≡ p) where
  abbrev raised : Shape
  raised = paint (paint s p false) g true

  raise :
      left_rotate (paint_above s x) ((paint_above s x).parent ((paint_above s x).parent x))
      ≡ left_rotate raised g
  unfolding paint_above paint
  raise = rw (up, grandparent s path d b p t c u g h)

  Holds-raised : Holds (left_rotate raised g) path (fork false (fork true u g b) p t)
  Holds-raised =
      let h1 =
        Holds-paint s (down_right c u g ∷ path) d b p t
          (Holds-into_right s c g path u (fork d b p t) h) false in
      let h2 = Holds-up_right (paint s p false) c g path u (fork false b p t) h1 in
      Holds-rotate_left raised path true u g false b p t
        (Holds-paint (paint s p false) path c u g (fork false b p t) h2 true)

module _ (s : Shape) (path : Way) (d : Bool) (p : ℕ) (c : Bool) (g : ℕ) (u : Tree) (e : Bool)
    (l : Tree) (x : ℕ) (r : Tree) (black : is_red u ≡ false) where
  pub straight_right :
      (b : Tree)
      → Holds s path (fork c u g (fork d b p (fork e l x r)))
      → StepTo (rebalance_step s x) x path (fork false (fork true u g b) p (fork e l x r))
  unfolding straighten_right
  straight_right b h =
      let h1 = Holds-into_right s c g path u (fork d b p (fork e l x r)) h in
      let h2 = Holds-into_right s d p (down_right c u g ∷ path) b (fork e l x r) h1 in
      let up = parent_top s (down_right d b p) (down_right c u g ∷ path) e l x r h2 in
      let apart : x ≢ s.left p = other_left s (down_right c u g ∷ path) d p b e l x r h1 in
      let other : (not (p == 0) && (x == s.left p)) ≡ false = ground arith in
      (
        left_rotate (raised s path (fork e l x r) d p b c g u h x up) g,
        to_right s path d b p (fork e l x r) c u g h x up
            ∙ black_uncle s path d b p (fork e l x r) c u g h x up black s x (rw (up, other))
            ∙ ap {B = Shape × ℕ} (λ s'. (s', x)) (raise s path (fork e l x r) d p b c g u h x up),
        Holds-raised s path (fork e l x r) d p b c g u h x up,
      )

  pub bent_right :
      (b : Tree)
      → Holds s path (fork c u g (fork d (fork e l x r) p b))
      → StepTo (rebalance_step s x) p path (fork false (fork true u g l) x (fork d r p b))
  unfolding straighten_right
  bent_right b h =
      let h1 = Holds-into_right s c g path u (fork d (fork e l x r) p b) h in
      let h2 = Holds-into_left s d p (down_right c u g ∷ path) (fork e l x r) b h1 in
      let up = parent_top s (down_left d p b) (down_right c u g ∷ path) e l x r h2 in
      let below = left_top s (down_right c u g ∷ path) d (fork e l x r) p b h1 in
      let pos = node_pos s (down_right c u g ∷ path) d (fork e l x r) p b h1 in
      let here : (not (p == 0) && (x == s.left p)) ≡ true = ground arith in
      let s' = right_rotate s p in
      let h3 = Holds-rotate_right s (down_right c u g ∷ path) d e l x r p b h1 in
      let h4 = Holds-up_right s' c g path u (fork e l x (fork d r p b)) h3 in
      let h5 = Holds-into_right s' e x (down_right c u g ∷ path) l (fork d r p b) h3 in
      let up' = parent_top s' (down_right e l x) (down_right c u g ∷ path) d r p b h5 in
      (
        left_rotate (raised s' path (fork d r p b) e x l c g u h4 p up') g,
        to_right s path d (fork e l x r) p b c u g h x up
            ∙ black_uncle s path d (fork e l x r) p b c u g h x up black s' p (rw (up, here))
            ∙ ap {B = Shape × ℕ} (λ s''. (s'', p))
                (raise s' path (fork d r p b) e x l c g u h4 p up'),
        Holds-raised s' path (fork d r p b) e x l c g u h4 p up',
      )

-- The red uncle, whichever child the node is.
module _ (s : Shape) (path : Way) (d : Bool) (b : Tree) (p : ℕ) (a : Tree) (c : Bool) (g : ℕ)
    (a' : Tree) (v : ℕ) (b' : Tree) (h : Holds s path (fork c (fork true a' v b') g (fork d b p a)))
    (x : ℕ) (up : s.parent x ≡ p) where
  pub recolored_right :
      StepTo (rebalance_step s x) g path (fork true (fork false a' v b') g (fork false b p a))
  recolored_right = (
    recolor s p v g,
    to_right s path d b p a c (fork true a' v b') g h x up
        ∙ red_uncle s path d b p a c (fork true a' v b') g h x up refl,
    Holds-recolor_right s path b p a g a' v b' c d true h,
  )
