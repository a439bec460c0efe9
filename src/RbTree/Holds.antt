-- ===== src/RbTree/Holds.antt =====
-- libyod/rbtree.c: a memory that has a tree whose nodes are apart, seen from one of its nodes. What
-- a node's fields hold there, and what painting and rotating do.
use libyod.Prelude.{
  ℕ, ◌+◌, ◌<◌, ◌≡◌, refl, ◌≢◌, inl, inr, Bool, false, [], ◌∷◌, arith, subst, sym, ◌∙◌,
}
use libyod.RbTree.Shape.{
  Shape, left_rotate, left_rotate_at, replace_left, right_rotate, right_rotate_at, replace_right,
  paint,
}
use libyod.RbTree.Tree.{
  Tree, tip, fork, Step, down_left, down_right, Way, plug, occ, hit, occ_path, top, top-occ,
  Sub-frame, Around-frame, UpTo-frame, At, apart_top,
}
use libyod.RbTree.Rotate.{Once, root-occ}
use libyod.RbTree.Rotate.Left.{left_rotate-At}
use libyod.RbTree.Rotate.Mirror.{right_rotate-At}

abbrev pub is_red : Tree → Bool
is_red tip = false
is_red (fork c l a r) = c

-- The leaf is black and not NULL, and no node is NULL.
pub record Holds (s : Shape) (path : Way) (t : Tree) : Type 0 where
  pub at : At s path t
  pub once : Once s.leaf path t
  pub dark : s.red s.leaf ≡ false
  pub leaf_pos : 0 < s.leaf
  pub non_null : occ 0 t + occ_path 0 path ≡ 0

abbrev pub node_of : Step → ℕ
node_of (down_left c a r) = a
node_of (down_right c l a) = a

module _ (s : Shape) (c : Bool) (a : ℕ) (path : Way) where
  pub Holds-up_left :
      (t r : Tree) → Holds s (down_left c a r ∷ path) t → Holds s path (fork c t a r)
  Holds-up_left t r h =
      let (sub, up, (links, (up_r, up_a), (sub_r, around))) = h.at in
      record {
        at = ((links, (up, up_r), (sub, sub_r)), up_a, around);
        once = (λ x. omega (arith, h.once.0 x), omega (arith, h.once.1));
        dark = h.dark;
        leaf_pos = h.leaf_pos;
        non_null = omega (arith, h.non_null);
      }

  pub Holds-up_right :
      (l t : Tree) → Holds s (down_right c l a ∷ path) t → Holds s path (fork c l a t)
  Holds-up_right l t h =
      let (sub, up, (links, (up_l, up_a), (sub_l, around))) = h.at in
      record {
        at = ((links, (up_l, up), (sub_l, sub)), up_a, around);
        once = (λ x. omega (arith, h.once.0 x), omega (arith, h.once.1));
        dark = h.dark;
        leaf_pos = h.leaf_pos;
        non_null = omega (arith, h.non_null);
      }

  pub Holds-into_left :
      (t r : Tree) → Holds s path (fork c t a r) → Holds s (down_left c a r ∷ path) t
  Holds-into_left t r h =
      let ((links, (up, up_r), (sub, sub_r)), up_a, around) = h.at in
      record {
        at = (sub, up, (links, (up_r, up_a), (sub_r, around)));
        once = (λ x. omega (arith, h.once.0 x), omega (arith, h.once.1));
        dark = h.dark;
        leaf_pos = h.leaf_pos;
        non_null = omega (arith, h.non_null);
      }

  pub Holds-into_right :
      (l t : Tree) → Holds s path (fork c l a t) → Holds s (down_right c l a ∷ path) t
  Holds-into_right l t h =
      let ((links, (up_l, up), (sub_l, sub)), up_a, around) = h.at in
      record {
        at = (sub, up, (links, (up_l, up_a), (sub_l, around)));
        once = (λ x. omega (arith, h.once.0 x), omega (arith, h.once.1));
        dark = h.dark;
        leaf_pos = h.leaf_pos;
        non_null = omega (arith, h.non_null);
      }

hit_at : (x y : ℕ) → x ≡ y → hit x y ≡ 1
hit_at x y e = ground arith

pub Holds-plug : (s : Shape) (path : Way) (t : Tree) → Holds s path t → Holds s [] (plug path t)
Holds-plug s [] t h = h
Holds-plug s (down_left c a r ∷ path) t h =
    Holds-plug s path (fork c t a r) (Holds-up_left s c a path t r h)
Holds-plug s (down_right c l a ∷ path) t h =
    Holds-plug s path (fork c l a t) (Holds-up_right s c a path l t h)

pub red_top : (s : Shape) (path : Way) (t : Tree) → Holds s path t → s.red (top s.leaf t) ≡ is_red t
red_top s path tip h = h.dark
red_top s path (fork c l a r) h = h.at.0.0.2

pub root_top : (s : Shape) (t : Tree) → Holds s [] t → s.root ≡ top s.leaf t
root_top s t h = h.at.2

pub parent_top :
    (s : Shape) (step : Step) (path : Way) (c : Bool) (l : Tree) (a : ℕ) (r : Tree)
    → Holds s (step ∷ path) (fork c l a r)
    → s.parent a ≡ node_of step
parent_top s (down_left d p m) path c l a r h = h.at.1 (λ e. let z = h.once.1 in ground arith)
parent_top s (down_right d m p) path c l a r h = h.at.1 (λ e. let z = h.once.1 in ground arith)

module _ (s : Shape) (path : Way) (c : Bool) (l : Tree) (a : ℕ) (r : Tree)
    (h : Holds s path (fork c l a r)) where
  pub left_top : s.left a ≡ top s.leaf l
  left_top = h.at.0.0.0

  pub right_top : s.right a ≡ top s.leaf r
  right_top = h.at.0.0.1

  pub real : a ≢ s.leaf
  real e = let z = h.once.1 in ground arith

  pub node_pos : 0 < a
  node_pos = let z = h.non_null in ground arith

  pub Holds-paint : (c' : Bool) → Holds (paint s a c') path (fork c' l a r)
  unfolding paint
  Holds-paint c' =
      let ((links, ups, (hl, hr)), up_a, around) = h.at in
      let other : (x : ℕ) → 0 < occ x l + (occ x r + occ_path x path) → x ≢ a =
        λ x inside e. let o = h.once.0 x in let self : hit x a ≡ 1 = ground arith in omega arith in
      record {
        at = (
          (
            (links.0, links.1, ground arith),
            ups,
            (
              Sub-frame s (paint s a c') s.leaf l
                  (λ x inside. (refl, refl, let ne = other x (omega arith) in ground arith))
                  (λ x inside. refl) hl,
              Sub-frame s (paint s a c') s.leaf r
                  (λ x inside. (refl, refl, let ne = other x (omega arith) in ground arith))
                  (λ x inside. refl) hr,
            ),
          ),
          UpTo-frame s (paint s a c') s.leaf path a refl up_a,
          Around-frame s (paint s a c') s.leaf path a refl
              (λ x inside. (refl, refl, let ne = other x (omega arith) in ground arith))
              (λ x inside. refl) around,
        );
        once = h.once;
        dark = let ne = real in let dark' = h.dark in ground arith;
        leaf_pos = h.leaf_pos;
        non_null = omega (arith, h.non_null);
      }

-- One child is not the other.
module _ (s : Shape) (path : Way) (c : Bool) (p : ℕ) (b : Tree) (d : Bool) (l : Tree) (x : ℕ)
    (r : Tree) where
  pub other_right : Holds s path (fork c (fork d l x r) p b) → x ≢ s.right p
  other_right h e =
      let o = h.once.0 x in
      let child =
        real s (down_left c p b ∷ path) d l x r (Holds-into_left s c p path (fork d l x r) b h) in
      apart_top s.leaf x b child (omega (arith, hit_at x x refl))
        (e ∙ right_top s path c (fork d l x r) p b h)

  pub other_left : Holds s path (fork c b p (fork d l x r)) → x ≢ s.left p
  other_left h e =
      let o = h.once.0 x in
      let child =
        real s (down_right c b p ∷ path) d l x r (Holds-into_right s c p path b (fork d l x r) h) in
      apart_top s.leaf x b child (omega (arith, hit_at x x refl))
        (e ∙ left_top s path c b p (fork d l x r) h)

-- Above a node that is not the root stands the root.
root_above :
    (s : Shape) (step : Step) (path : Way) (t : Tree)
    → Holds s (step ∷ path) t
    → 0 < occ_path s.root (step ∷ path)
root_above s (down_left c a r) path t h = elim (root-occ s.leaf s path a h.at.2.2.1) [
  | inl e ↦ omega (arith, hit_at s.root a e)
  | inr inside ↦ omega arith
]
root_above s (down_right c l a) path t h = elim (root-occ s.leaf s path a h.at.2.2.1) [
  | inl e ↦ omega (arith, hit_at s.root a e)
  | inr inside ↦ omega arith
]

pub below :
    (s : Shape) (step : Step) (path : Way) (t : Tree)
    → Holds s (step ∷ path) t
    → top s.leaf t ≢ s.root
below s step path t h e =
    let inside : 0 < occ_path (top s.leaf t) (step ∷ path) =
      subst (λ x. 0 < occ_path x (step ∷ path)) (sym e) (root_above s step path t h) in
    elim (top-occ s.leaf t) [
      | inl leaf' ↦
          let z = h.once.1 in
          let inside' : 0 < occ_path s.leaf (step ∷ path) =
            subst (λ x. 0 < occ_path x (step ∷ path)) leaf' inside in
          omega arith
      | inr at ↦ let o = h.once.0 (top s.leaf t) in omega arith
    ]

module _ (s : Shape) (path : Way) where
  pub Holds-rotate_left :
      (c : Bool) (l : Tree) (a : ℕ) (d : Bool) (m : Tree) (b : ℕ) (r : Tree)
      → Holds s path (fork c l a (fork d m b r))
      → Holds (left_rotate s a) path (fork d (fork c l a m) b r)
  unfolding left_rotate left_rotate_at replace_left
  Holds-rotate_left c l a d m b r h = record {
    at = left_rotate-At s path c l a d m b r h.at h.once;
    once = (λ x. omega (arith, h.once.0 x), omega (arith, h.once.1));
    dark = h.dark;
    leaf_pos = h.leaf_pos;
    non_null = omega (arith, h.non_null);
  }

  pub Holds-rotate_right :
      (c d : Bool) (l : Tree) (b : ℕ) (m : Tree) (a : ℕ) (r : Tree)
      → Holds s path (fork c (fork d l b m) a r)
      → Holds (right_rotate s a) path (fork d l b (fork c m a r))
  unfolding right_rotate right_rotate_at replace_right
  Holds-rotate_right c d l b m a r h = record {
    at = right_rotate-At s path c d l b m a r h.at h.once;
    once = (λ x. omega (arith, h.once.0 x), omega (arith, h.once.1));
    dark = h.dark;
    leaf_pos = h.leaf_pos;
    non_null = omega (arith, h.non_null);
  }
