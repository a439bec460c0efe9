-- ===== src/RbTree/Repair.antt =====
-- libyod/rbtree.c: what the rounds of the loop of del do to the memory.
pub mod Left
pub mod Right
pub mod Ends
pub mod Loop
pub mod LeftCases
pub mod RightCases
use libyod.Prelude.{
  ℕ, zero, suc, ◌+◌, ◌-◌, ◌*◌, ◌/◌, ◌%◌, ◌^◌, ◌≤◌, ◌<◌, bit_and, bit_or, bit_xor, ◌≡◌, refl, sym,
  ap, ◌∙◌, subst, ◌≢◌, ◌↔◌, ◌⊎◌, inl, inr, Bool, true, false, not, ◌&&◌, ◌||◌, Option, none, some,
  List, [], ◌∷◌, ◌++◌, map, append-nil, append_assoc, arith, dec_lt, ℕ_discrete, ltb, leb, ◌==◌,
  if◌then◌else◌, ltb→lt, lt→ltb, leb→le, ==_iff, tests, Bool-cases, Option-cases, length, get_elem?,
  set, length-append, length-snoc, length-set, get_elem?-set_self, get_elem?-set_ne, get_or, take,
  drop, drop-append, take-append, take-append_le, drop-append_le, take-append_ge, drop-append_ge,
  length-take, length-drop, replicate, length-replicate, get_elem?-replicate, ◌>>=◌, IsByte, All,
  store, store_at, store-append, store-drop, drop-drop, get_elem?-drop,
}
use libyod.Links.{update, update_ne}
use libyod.RbTree.Shape.{
  Shape, paint, left_rotate, left_rotate_at, right_rotate, right_rotate_at, replace_left,
  replace_right,
}
use libyod.RbTree.Tree.{Tree, tip, fork, Step, down_left, down_right, Way, top}
use libyod.RbTree.Holds.{
  other_left, is_red, Holds, node_of, parent_top, real, left_top, right_top, Holds-into_left,
  Holds-into_right,
}

-- Where a leaf stands below a node, it points at the node.
abbrev pub Back : Shape → Way → Tree → Type 0
Back s [] t = Unit {0}
Back s (step ∷ path) tip = s.parent s.leaf ≡ node_of step
Back s (step ∷ path) (fork c l a r) = Unit {0}

pub Back-top :
    (s : Shape) (step : Step) (path : Way) (t : Tree)
    → Holds s (step ∷ path) t
    → Back s (step ∷ path) t
    → s.parent (top s.leaf t) ≡ node_of step
Back-top s step path tip h back = back
Back-top s step path (fork c l a r) h back = parent_top s step path c l a r h

pub Back-keep :
    (s s' : Shape) (step step' : Step) (path path' : Way) (t : Tree)
    → s'.leaf ≡ s.leaf
    → s'.parent s.leaf ≡ s.parent s.leaf
    → node_of step' ≡ node_of step
    → Back s (step ∷ path) t
    → Back s' (step' ∷ path') t
Back-keep s s' step step' path path' tip leaf same node back =
    ap s'.parent leaf ∙ same ∙ back ∙ sym node
Back-keep s s' step step' path path' (fork c l a r) leaf same node back = tt

-- The node is not its sibling.
pub apart_sibling :
    (s : Shape) (path : Way) (c d : Bool) (l : Tree) (w : ℕ) (r : Tree) (q : ℕ) (t : Tree)
    → Holds s path (fork c (fork d l w r) q t)
    → top s.leaf t ≢ w
apart_sibling s path c d l w r q tip h e =
    real s (down_left c q tip ∷ path) d l w r (Holds-into_left s c q path (fork d l w r) tip h)
      (sym e)
apart_sibling s path c d l w r q (fork c' l' x r') h e =
    other_left s path c q (fork d l w r) c' l' x r' h
      (e ∙ sym (left_top s path c (fork d l w r) q (fork c' l' x r') h))

-- A rotation leaves the parent of the leaf alone.
leaf_parent :
    (parent : ℕ → ℕ) (leaf a b q v w : ℕ)
    → leaf ≢ a
    → leaf ≢ b
    → update (update (if q == leaf then parent else update parent q a) b v) a w leaf ≡ parent leaf
leaf_parent parent leaf a b q v w na nb =
    update_ne (update (if q == leaf then parent else update parent q a) b v) a w leaf na
    ∙ update_ne (if q == leaf then parent else update parent q a) b v leaf nb
    ∙ ground arith

module _ (s : Shape) (path : Way) where
  pub leaf_parent-left_rotate :
      (c : Bool) (l : Tree) (a : ℕ) (d : Bool) (m : Tree) (b : ℕ) (r : Tree)
      → Holds s path (fork c l a (fork d m b r))
      → (left_rotate s a).parent s.leaf ≡ s.parent s.leaf
  unfolding left_rotate left_rotate_at replace_left
  leaf_parent-left_rotate c l a d m b r h =
      let real_b =
        real s (down_right c l a ∷ path) d m b r (Holds-into_right s c a path l (fork d m b r) h) in
      leaf_parent s.parent s.leaf a (s.right a) (s.left (s.right a)) _ (s.right a)
        (λ e. real s path c l a (fork d m b r) h (sym e))
        (λ e. real_b (sym (right_top s path c l a (fork d m b r) h) ∙ sym e))

  pub leaf_parent-right_rotate :
      (c d : Bool) (l : Tree) (b : ℕ) (m : Tree) (a : ℕ) (r : Tree)
      → Holds s path (fork c (fork d l b m) a r)
      → (right_rotate s a).parent s.leaf ≡ s.parent s.leaf
  unfolding right_rotate right_rotate_at replace_right
  leaf_parent-right_rotate c d l b m a r h =
      let real_b =
        real s (down_left c a r ∷ path) d l b m (Holds-into_left s c a path (fork d l b m) r h) in
      leaf_parent s.parent s.leaf a (s.left a) (s.right (s.left a)) _ (s.left a)
        (λ e. real s path c (fork d l b m) a r h (sym e))
        (λ e. real_b (sym (left_top s path c (fork d l b m) a r h) ∙ sym e))

-- The round is the last one, and the loop goes on from the root.
abbrev pub Done : Shape × ℕ → Way → Tree → Type 0
Done run path t = (s' : Shape) × (run ≡ (s', s'.root)) × Holds s' path t
