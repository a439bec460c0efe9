-- ===== src/RbTree/Rebalance.antt =====
-- libyod/rbtree.c: the rounds of the loop of add that restores the balance.
pub mod Left
pub mod Right
pub mod Loop
use libyod.Prelude.{
  ℕ, zero, suc, ◌+◌, ◌-◌, ◌*◌, ◌/◌, ◌%◌, ◌^◌, ◌≤◌, ◌<◌, bit_and, bit_or, bit_xor, ◌≡◌, refl, sym,
  ap, ◌∙◌, subst, ◌≢◌, ◌↔◌, ◌⊎◌, inl, inr, Bool, true, false, not, ◌&&◌, ◌||◌, Option, none, some,
  List, [], ◌∷◌, ◌++◌, map, append-nil, append_assoc, arith, dec_lt, ℕ_discrete, ltb, leb, ◌==◌,
  if◌then◌else◌, ltb→lt, lt→ltb, leb→le, ==_iff, tests, Bool-cases, Option-cases, length, get_elem?,
  set, length-append, length-snoc, length-set, get_elem?-set_self, get_elem?-set_ne, get_or, take,
  drop, drop-append, take-append, take-append_le, drop-append_le, take-append_ge, drop-append_ge,
  length-take, length-drop, replicate, length-replicate, get_elem?-replicate, ◌>>=◌, IsByte, All,
  store, store_at, store-append, store-drop, drop-drop, get_elem?-drop,
}
use libyod.RbTree.Shape.{Shape, paint}
use libyod.RbTree.Tree.{Tree, tip, fork, Step, down_left, down_right, Way, plug, ids, top}
use libyod.RbTree.Holds.{
  is_red, Holds, Holds-up_left, Holds-up_right, Holds-into_left, Holds-into_right, Holds-paint,
  parent_top,
}
use libyod.RbTree.Balance.{recolor, paint_above, rebalance}

-- What the red uncle's case does to the memory.
module _ (s : Shape) (path : Way) (a : Tree) (p : ℕ) (b : Tree) (g : ℕ) (a' : Tree) (v : ℕ)
    (b' : Tree) (c d e : Bool) where
  pub Holds-recolor_left :
      Holds s path (fork c (fork d a p b) g (fork e a' v b'))
      → Holds (recolor s p v g) path (fork true (fork false a p b) g (fork false a' v b'))
  unfolding recolor
  Holds-recolor_left h =
      let h1 =
        Holds-paint s (down_left c g (fork e a' v b') ∷ path) d a p b
          (Holds-into_left s c g path (fork d a p b) (fork e a' v b') h) false in
      let h2 = Holds-up_left (paint s p false) c g path (fork false a p b) (fork e a' v b') h1 in
      let h3 =
        Holds-paint (paint s p false) (down_right c (fork false a p b) g ∷ path) e a' v b'
          (Holds-into_right (paint s p false) c g path (fork false a p b) (fork e a' v b') h2)
          false in
      let h4 =
        Holds-up_right (paint (paint s p false) v false) c g path (fork false a p b)
          (fork false a' v b') h3 in
      Holds-paint (paint (paint s p false) v false) path c (fork false a p b) g (fork false a' v b')
        h4 true

  pub Holds-recolor_right :
      Holds s path (fork c (fork e a' v b') g (fork d a p b))
      → Holds (recolor s p v g) path (fork true (fork false a' v b') g (fork false a p b))
  unfolding recolor
  Holds-recolor_right h =
      let h1 =
        Holds-paint s (down_right c (fork e a' v b') g ∷ path) d a p b
          (Holds-into_right s c g path (fork e a' v b') (fork d a p b) h) false in
      let h2 = Holds-up_right (paint s p false) c g path (fork e a' v b') (fork false a p b) h1 in
      let h3 =
        Holds-paint (paint s p false) (down_left c g (fork false a p b) ∷ path) e a' v b'
          (Holds-into_left (paint s p false) c g path (fork e a' v b') (fork false a p b) h2)
          false in
      let h4 =
        Holds-up_left (paint (paint s p false) v false) c g path (fork false a' v b')
          (fork false a p b) h3 in
      Holds-paint (paint (paint s p false) v false) path c (fork false a' v b') g (fork false a p b)
        h4 true

-- Where a round leaves the loop.
abbrev pub StepTo : Shape × ℕ → ℕ → Way → Tree → Type 0
StepTo run x path t = (s' : Shape) × (run ≡ (s', x)) × Holds s' path t
