-- ===== src/RbTree/Rebalance/Left.antt =====
-- libyod/rbtree.c: the rounds where the parent is the left child of the grandparent.
use libyod.Prelude.{ℕ, ◌≡◌, ap, ◌∙◌, Bool, true, false, ◌∷◌, arith, ◌==◌, ◌≢◌, refl}
use libyod.RbTree.Shape.{Shape, right_rotate, left_rotate, paint}
use libyod.RbTree.Tree.{Tree, fork, down_left, down_right, Way, top}
use libyod.RbTree.Holds.{
  is_red, Holds, Holds-into_left, Holds-into_right, parent_top, left_top, right_top, red_top,
  Holds-paint, Holds-up_left, Holds-rotate_left, Holds-rotate_right, other_right,
}
use libyod.RbTree.Balance.{recolor, straighten_left, paint_above, rebalance_left, rebalance_step}
use libyod.RbTree.Rebalance.{StepTo, Holds-recolor_left}

-- What the round reads at the parent `p` and the grandparent `g`; `u` is the uncle.
module _ (s : Shape) (path : Way) (d : Bool) (a : Tree) (p : ℕ) (b : Tree) (c : Bool) (g : ℕ)
    (u : Tree) (h : Holds s path (fork c (fork d a p b) g u)) where
  grandparent : s.parent p ≡ g
  grandparent =
      parent_top s (down_left c g u) path d a p b (Holds-into_left s c g path (fork d a p b) u h)

  uncle : s.right g ≡ top s.leaf u
  uncle = right_top s path c (fork d a p b) g u h

  uncle_red : s.red (top s.leaf u) ≡ is_red u
  uncle_red =
      red_top s (down_right c (fork d a p b) g ∷ path) u
        (Holds-into_right s c g path (fork d a p b) u h)

  module _ (x : ℕ) (up : s.parent x ≡ p) where
    to_left : rebalance_step s x ≡ rebalance_left s x
    unfolding rebalance_step
    to_left =
        let below : s.left (s.parent (s.parent x)) ≡ p =
          ap (λ n. s.left (s.parent n)) up
          ∙ ap s.left grandparent
          ∙ left_top s path c (fork d a p b) g u h in
        let e : (s.parent x == s.left (s.parent (s.parent x))) ≡ true = ground arith in rw e

    red_uncle : is_red u ≡ true → rebalance_left s x ≡ (recolor s p (top s.leaf u) g, g)
    unfolding rebalance_left
    red_uncle e = rw (up, grandparent, uncle, uncle_red, e)

    black_uncle :
        is_red u ≡ false
        → (s' : Shape) (x' : ℕ) → straighten_left s x ≡ (s', x')
        → rebalance_left s x ≡ (
          right_rotate
              (paint_above s' x')
              ((paint_above s' x').parent ((paint_above s' x').parent x')),
          x',
        )
    unfolding rebalance_left
    black_uncle e s' x' run = rw (up, grandparent, uncle, uncle_red, e, run)

-- The two nodes change color, and the grandparent is rotated.
module _ (s : Shape) (path : Way) (t : Tree) (d : Bool) (p : ℕ) (b : Tree) (c : Bool) (g : ℕ)
    (u : Tree) (h : Holds s path (fork c (fork d t p b) g u)) (x : ℕ) (up : s.parent x ≡ p) where
  abbrev raised : Shape
  raised = paint (paint s p false) g true

  raise :
      right_rotate (paint_above s x) ((paint_above s x).parent ((paint_above s x).parent x))
      ≡ right_rotate raised g
  unfolding paint_above paint
  raise = rw (up, grandparent s path d t p b c g u h)

  Holds-raised : Holds (right_rotate raised g) path (fork false t p (fork true b g u))
  Holds-raised =
      let h1 =
        Holds-paint s (down_left c g u ∷ path) d t p b
          (Holds-into_left s c g path (fork d t p b) u h) false in
      let h2 = Holds-up_left (paint s p false) c g path (fork false t p b) u h1 in
      Holds-rotate_right raised path true false t p b g u
        (Holds-paint (paint s p false) path c (fork false t p b) g u h2 true)

module _ (s : Shape) (path : Way) (d : Bool) (p : ℕ) (c : Bool) (g : ℕ) (u : Tree) (e : Bool)
    (l : Tree) (x : ℕ) (r : Tree) (black : is_red u ≡ false) where
  pub straight_left :
      (b : Tree)
      → Holds s path (fork c (fork d (fork e l x r) p b) g u)
      → StepTo (rebalance_step s x) x path (fork false (fork e l x r) p (fork true b g u))
  unfolding straighten_left
  straight_left b h =
      let h1 = Holds-into_left s c g path (fork d (fork e l x r) p b) u h in
      let h2 = Holds-into_left s d p (down_left c g u ∷ path) (fork e l x r) b h1 in
      let up = parent_top s (down_left d p b) (down_left c g u ∷ path) e l x r h2 in
      let apart : x ≢ s.right p = other_right s (down_left c g u ∷ path) d p b e l x r h1 in
      let other : (x == s.right p) ≡ false = ground arith in
      (
        right_rotate (raised s path (fork e l x r) d p b c g u h x up) g,
        to_left s path d (fork e l x r) p b c g u h x up
            ∙ black_uncle s path d (fork e l x r) p b c g u h x up black s x (rw (up, other))
            ∙ ap {B = Shape × ℕ} (λ s'. (s', x)) (raise s path (fork e l x r) d p b c g u h x up),
        Holds-raised s path (fork e l x r) d p b c g u h x up,
      )

  pub bent_left :
      (b : Tree)
      → Holds s path (fork c (fork d b p (fork e l x r)) g u)
      → StepTo (rebalance_step s x) p path (fork false (fork d b p l) x (fork true r g u))
  unfolding straighten_left
  bent_left b h =
      let h1 = Holds-into_left s c g path (fork d b p (fork e l x r)) u h in
      let h2 = Holds-into_right s d p (down_left c g u ∷ path) b (fork e l x r) h1 in
      let up = parent_top s (down_right d b p) (down_left c g u ∷ path) e l x r h2 in
      let below = right_top s (down_left c g u ∷ path) d b p (fork e l x r) h1 in
      let here : (x == s.right p) ≡ true = ground arith in
      let s' = left_rotate s p in
      let h3 = Holds-rotate_left s (down_left c g u ∷ path) d b p e l x r h1 in
      let h4 = Holds-up_left s' c g path (fork e (fork d b p l) x r) u h3 in
      let h5 = Holds-into_left s' e x (down_left c g u ∷ path) (fork d b p l) r h3 in
      let up' = parent_top s' (down_left e x r) (down_left c g u ∷ path) d b p l h5 in
      (
        right_rotate (raised s' path (fork d b p l) e x r c g u h4 p up') g,
        to_left s path d b p (fork e l x r) c g u h x up
            ∙ black_uncle s path d b p (fork e l x r) c g u h x up black s' p (rw (up, here))
            ∙ ap {B = Shape × ℕ} (λ s''. (s'', p))
                (raise s' path (fork d b p l) e x r c g u h4 p up'),
        Holds-raised s' path (fork d b p l) e x r c g u h4 p up',
      )

-- The red uncle, whichever child the node is.
module _ (s : Shape) (path : Way) (d : Bool) (a : Tree) (p : ℕ) (b : Tree) (c : Bool) (g : ℕ)
    (a' : Tree) (v : ℕ) (b' : Tree) (h : Holds s path (fork c (fork d a p b) g (fork true a' v b')))
    (x : ℕ) (up : s.parent x ≡ p) where
  pub recolored_left :
      StepTo (rebalance_step s x) g path (fork true (fork false a p b) g (fork false a' v b'))
  recolored_left = (
    recolor s p v g,
    to_left s path d a p b c g (fork true a' v b') h x up
        ∙ red_uncle s path d a p b c g (fork true a' v b') h x up refl,
    Holds-recolor_left s path a p b g a' v b' c d true h,
  )
