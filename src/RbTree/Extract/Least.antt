-- ===== src/RbTree/Extract/Least.antt =====
-- libyod/rbtree.c: the least node of a subtree, which del looks for, and the ways to it.
use libyod.Prelude.{
  ℕ, zero, suc, ◌<◌, ◌≡◌, refl, sym, ap, ◌∙◌, ◌≢◌, Bool, true, false, some, [], ◌∷◌, ◌++◌,
  append-nil, append_assoc, arith, ◌==◌, length, length-append,
}
use libyod.RbTree.Shape.{Shape}
use libyod.RbTree.Remove.{leftmost}
use libyod.RbTree.Tree.{Tree, tip, fork, down_left, down_right, Way, plug, ids, before}
use libyod.RbTree.Holds.{Holds, left_top, real, Holds-into_left, Holds-into_right}

pub plug-append : (q path : Way) (t : Tree) → plug (q ++ path) t ≡ plug path (plug q t)
plug-append [] path t = refl
plug-append (down_left c a r ∷ q) path t = plug-append q path (fork c t a r)
plug-append (down_right c l a ∷ q) path t = plug-append q path (fork c l a t)

pub before-append : (q path : Way) → before (q ++ path) ≡ before path ++ before q
before-append [] path = sym (append-nil (before path))
before-append (down_left c a r ∷ q) path = before-append q path
before-append (down_right c l a ∷ q) path =
    ap (λ z. z ++ (ids l ++ (a ∷ []))) (before-append q path)
    ∙ append_assoc (before path) (before q) (ids l ++ (a ∷ []))

-- The memory seen from a node further down.
pub Holds-unplug :
    (s : Shape) (q path : Way) (t : Tree) → Holds s path (plug q t) → Holds s (q ++ path) t
Holds-unplug s [] path t h = h
Holds-unplug s (down_left c a r ∷ q) path t h =
    Holds-into_left s c a (q ++ path) t r (Holds-unplug s q path (fork c t a r) h)
Holds-unplug s (down_right c l a ∷ q) path t h =
    Holds-into_right s c a (q ++ path) l t (Holds-unplug s q path (fork c l a t) h)

module _ (s : Shape) (fuel b : ℕ) where
  least_here : s.left b ≡ s.leaf → leftmost (suc fuel) s b ≡ some b
  unfolding leftmost
  least_here e = let here : (s.left b == s.leaf) ≡ true = ground arith in rw here

  least_below : (a : ℕ) → s.left b ≡ a → a ≢ s.leaf → leftmost (suc fuel) s b ≡ leftmost fuel s a
  unfolding leftmost
  least_below a e ne = let there : (s.left b == s.leaf) ≡ false = ground arith in rw (there, e)

-- The least node of a subtree with the root `b`: it has no left child, and nothing stands before it.
pub leftmost_lem :
    (l : Tree) (d : Bool) (b : ℕ) (m : Tree) (fuel : ℕ) (s : Shape) (path : Way)
    → Holds s path (fork d l b m)
    → length (ids l) < fuel
    → (q : Way) × (e : Bool) × (t : ℕ) × (m' : Tree) × (leftmost fuel s b ≡ some t)
      × (fork d l b m ≡ plug q (fork e tip t m'))
      × (before q ≡ [])
leftmost_lem l d b m zero s path h enough = absurd (omega arith)
leftmost_lem tip d b m (suc fuel) s path h enough =
    ([], d, b, m, least_here s fuel b (left_top s path d tip b m h), refl, refl)
leftmost_lem (fork c l a r) d b m (suc fuel) s path h enough =
    let child = Holds-into_left s d b path (fork c l a r) m h in
    let size = length-append (ids l) (a ∷ ids r) in
    let (q, e, t, m', run, split, first) =
      leftmost_lem l c a r fuel s (down_left d b m ∷ path) child (omega arith) in
    (
      q ++ (down_left d b m ∷ []),
      e,
      t,
      m',
      least_below s fuel b a (left_top s path d (fork c l a r) b m h)
            (real s (down_left d b m ∷ path) c l a r child)
          ∙ run,
      ap (λ n. fork d n b m) split ∙ sym (plug-append q (down_left d b m ∷ []) (fork e tip t m')),
      before-append q (down_left d b m ∷ []) ∙ first,
    )
