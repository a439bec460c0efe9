-- ===== src/RbTree/Rotate/Mirror.antt =====
-- libyod/rbtree.c: `_yod_rbtree_right_rotate` is the left rotation with the sides exchanged.
use libyod.Prelude.{ℕ, ◌≡◌, refl, sym, ◌∙◌, subst, Bool, [], ◌∷◌, arith}
use libyod.RbTree.Shape.{
  Shape, left_rotate_at, left_rotate, replace_left, right_rotate, right_rotate_at, replace_right,
}
use libyod.RbTree.Tree.{
  Tree, tip, fork, down_left, down_right, Way, occ, occ_path, top, Up, Sub, UpTo, Around, At,
}
use libyod.RbTree.Rotate.{Once}
use libyod.RbTree.Rotate.Left.{left_rotate-At}

abbrev mirror : Shape → Shape
mirror s = record s { left = s.right; right = s.left }

abbrev mirror_tree : Tree → Tree
mirror_tree tip = tip
mirror_tree (fork c l a r) = fork c (mirror_tree r) a (mirror_tree l)

abbrev mirror_path : Way → Way
mirror_path [] = []
mirror_path (down_left c a r ∷ path) = down_right c (mirror_tree r) a ∷ mirror_path path
mirror_path (down_right c l a ∷ path) = down_left c a (mirror_tree l) ∷ mirror_path path

mirror_tree-involutive : (t : Tree) → mirror_tree (mirror_tree t) ≡ t
mirror_tree-involutive tip = refl
mirror_tree-involutive (fork c l a r) = rw (mirror_tree-involutive l, mirror_tree-involutive r)

mirror_path-involutive : (path : Way) → mirror_path (mirror_path path) ≡ path
mirror_path-involutive [] = refl
mirror_path-involutive (down_left c a r ∷ path) =
    rw (mirror_tree-involutive r, mirror_path-involutive path)
mirror_path-involutive (down_right c l a ∷ path) =
    rw (mirror_tree-involutive l, mirror_path-involutive path)

occ-mirror : (x : ℕ) (t : Tree) → occ x (mirror_tree t) ≡ occ x t
occ-mirror x tip = refl
occ-mirror x (fork c l a r) = omega (arith, occ-mirror x l, occ-mirror x r)

occ_path-mirror : (x : ℕ) (path : Way) → occ_path x (mirror_path path) ≡ occ_path x path
occ_path-mirror x [] = refl
occ_path-mirror x (down_left c a r ∷ path) = omega (arith, occ-mirror x r, occ_path-mirror x path)
occ_path-mirror x (down_right c l a ∷ path) = omega (arith, occ-mirror x l, occ_path-mirror x path)

Once-mirror :
    (leaf : ℕ) (path : Way) (t : Tree)
    → Once leaf path t
    → Once leaf (mirror_path path) (mirror_tree t)
Once-mirror leaf path t once = (
  λ x. let o = once.0 x in omega (arith, occ-mirror x t, occ_path-mirror x path),
  let z = once.1 in omega (arith, occ-mirror leaf t, occ_path-mirror leaf path),
)

top-mirror : (leaf : ℕ) (t : Tree) → top leaf (mirror_tree t) ≡ top leaf t
top-mirror leaf tip = refl
top-mirror leaf (fork c l a r) = refl

module _ (leaf : ℕ) (s : Shape) where
  Up-mirror :
      (p : ℕ) (t : Tree)
      → Up leaf s p (top leaf t)
      → Up leaf (mirror s) p (top leaf (mirror_tree t))
  Up-mirror p t up = subst (λ x. Up leaf s p x) (sym (top-mirror leaf t)) up

  Sub-mirror : (t : Tree) → Sub leaf s t → Sub leaf (mirror s) (mirror_tree t)
  Sub-mirror tip h = tt
  Sub-mirror (fork c l a r) ((el, er, ec), (ul, ur), (hl, hr)) = (
    (er ∙ sym (top-mirror leaf r), el ∙ sym (top-mirror leaf l), ec),
    (Up-mirror a r ur, Up-mirror a l ul),
    (Sub-mirror r hr, Sub-mirror l hl),
  )

  UpTo-mirror :
      (path : Way) (x : ℕ) → UpTo leaf s path x → UpTo leaf (mirror s) (mirror_path path) x
  UpTo-mirror [] x up = tt
  UpTo-mirror (down_left c a r ∷ path) x up = up
  UpTo-mirror (down_right c l a ∷ path) x up = up

  Around-mirror :
      (path : Way) (t : ℕ) → Around leaf s path t → Around leaf (mirror s) (mirror_path path) t
  Around-mirror [] t h = h
  Around-mirror (down_left c a r ∷ path) t ((el, er, ec), (ur, ua), (hr, h)) = (
    (er ∙ sym (top-mirror leaf r), el, ec),
    (Up-mirror a r ur, UpTo-mirror path a ua),
    (Sub-mirror r hr, Around-mirror path a h),
  )
  Around-mirror (down_right c l a ∷ path) t ((el, er, ec), (ul, ua), (hl, h)) = (
    (er, el ∙ sym (top-mirror leaf l), ec),
    (Up-mirror a l ul, UpTo-mirror path a ua),
    (Sub-mirror l hl, Around-mirror path a h),
  )

At-mirror :
    (s : Shape) (path : Way) (t : Tree)
    → At s path t
    → At (mirror s) (mirror_path path) (mirror_tree t)
At-mirror s path t (sub, up, around) = (
  Sub-mirror s.leaf s t sub,
  subst (λ x. UpTo s.leaf (mirror s) (mirror_path path) x) (sym (top-mirror s.leaf t))
      (UpTo-mirror s.leaf s path (top s.leaf t) up),
  subst (λ x. Around s.leaf (mirror s) (mirror_path path) x) (sym (top-mirror s.leaf t))
      (Around-mirror s.leaf s path (top s.leaf t) around),
)

right_rotate-mirror : (s : Shape) (a : ℕ) → right_rotate s a ≡ mirror (left_rotate (mirror s) a)
unfolding right_rotate right_rotate_at replace_right left_rotate left_rotate_at replace_left
right_rotate-mirror s a = refl

pub right_rotate-At :
    (s : Shape) (path : Way) (c : Bool) (d : Bool) (l : Tree) (b : ℕ) (m : Tree) (a : ℕ) (r : Tree)
    → At s path (fork c (fork d l b m) a r)
    → Once s.leaf path (fork c (fork d l b m) a r)
    → At (right_rotate s a) path (fork d l b (fork c m a r))
right_rotate-At s path c d l b m a r h once =
    let turned : At (left_rotate (mirror s) a) (mirror_path path)
        (fork d (fork c (mirror_tree r) a (mirror_tree m)) b (mirror_tree l)) =
      left_rotate-At (mirror s) (mirror_path path) c (mirror_tree r) a d (mirror_tree m) b
        (mirror_tree l) (At-mirror s path (fork c (fork d l b m) a r) h)
        (Once-mirror s.leaf path (fork c (fork d l b m) a r) once) in
    let back =
      At-mirror (left_rotate (mirror s) a) (mirror_path path)
        (fork d (fork c (mirror_tree r) a (mirror_tree m)) b (mirror_tree l)) turned in
    subst (λ s'. At s' path (fork d l b (fork c m a r))) (sym (right_rotate-mirror s a))
      (subst (λ path'. At (mirror (left_rotate (mirror s) a)) path' (fork d l b (fork c m a r)))
        (mirror_path-involutive path)
        (subst (λ t. At (mirror (left_rotate (mirror s) a)) (mirror_path (mirror_path path)) t)
          (mirror_tree-involutive (fork d l b (fork c m a r))) back))
