-- ===== src/RbTree/Rotate.antt =====
-- libyod/rbtree.c: a rotation of the memory is the rotation of the tree that it has.
pub mod Left
pub mod Mirror
use libyod.Prelude.{
  ℕ, ◌+◌, ◌≤◌, ◌<◌, ◌≡◌, refl, sym, ap, ◌∙◌, ◌≢◌, ◌⊎◌, inl, inr, Bool, true, false, [], ◌∷◌, arith,
  ◌==◌,
}
use libyod.Links.{update}
use libyod.RbTree.Shape.{Shape, replace_left}
use libyod.RbTree.Tree.{
  Tree, down_left, down_right, Way, occ, hit, occ_path, top, top-occ, UpTo, Around, Sub-frame,
  Around-frame, UpTo-frame,
}

-- No address stands twice, and the leaf is none of them.
abbrev pub Once : ℕ → Way → Tree → Type 0
Once leaf path t = ((x : ℕ) → occ x t + occ_path x path ≤ 1) × (occ leaf t + occ_path leaf path ≡ 0)

pub root-occ :
    (leaf : ℕ) (s : Shape) (path : Way) (t : ℕ)
    → Around leaf s path t
    → (s.root ≡ t) ⊎ (0 < occ_path s.root path)
root-occ leaf s [] t h = inl h
root-occ leaf s (down_left c a r ∷ path) t (_, _, (_, h)) = elim (root-occ leaf s path a h) [
  | inl e ↦ inr (rw e (ground arith))
  | inr inside ↦ inr (omega arith)
]
root-occ leaf s (down_right c l a ∷ path) t (_, _, (_, h)) = elim (root-occ leaf s path a h) [
  | inl e ↦ inr (rw e (ground arith))
  | inr inside ↦ inr (omega arith)
]

below_root :
    (leaf : ℕ) (s : Shape) (path : Way) (a p : ℕ)
    → hit a p + occ_path a path ≡ 0
    → Around leaf s path p
    → a ≢ s.root
below_root leaf s path a p out h e = elim (root-occ leaf s path p h) [
  | inl at ↦ ground arith
  | inr inside ↦ let inside' : 0 < occ_path a path = rw e inside in omega arith
]

-- Another address is put into the hole.
abbrev pub hang_left : Shape → ℕ → ℕ → Shape
hang_left s p b = record s { left = update s.left p b }

abbrev pub hang_right : Shape → ℕ → ℕ → Shape
hang_right s p b = record s { right = update s.right p b }

module _ (leaf : ℕ) (s : Shape) (c : Bool) (p : ℕ) (path : Way) (t b : ℕ) where
  pub Around-hang_left :
      (r : Tree)
      → ((x : ℕ) → occ_path x (down_left c p r ∷ path) ≤ 1)
      → Around leaf s (down_left c p r ∷ path) t
      → Around leaf (hang_left s p b) (down_left c p r ∷ path) b
  Around-hang_left r once ((el, er, ec), (ur, up), (sub, h)) = (
    (ground arith, er, ec),
    (ur, UpTo-frame s (hang_left s p b) leaf path p refl up),
    (
      Sub-frame s (hang_left s p b) leaf r (λ x m. let o = once x in (ground arith, refl, refl))
          (λ x m. refl) sub,
      Around-frame s (hang_left s p b) leaf path p refl
          (λ x m. let o = once x in (ground arith, refl, refl)) (λ x m. refl) h,
    ),
  )

  pub Around-hang_right :
      (l : Tree)
      → ((x : ℕ) → occ_path x (down_right c l p ∷ path) ≤ 1)
      → Around leaf s (down_right c l p ∷ path) t
      → Around leaf (hang_right s p b) (down_right c l p ∷ path) b
  Around-hang_right l once ((el, er, ec), (ul, up), (sub, h)) = (
    (el, ground arith, ec),
    (ul, UpTo-frame s (hang_right s p b) leaf path p refl up),
    (
      Sub-frame s (hang_right s p b) leaf l (λ x m. let o = once x in (refl, ground arith, refl))
          (λ x m. refl) sub,
      Around-frame s (hang_right s p b) leaf path p refl
          (λ x m. let o = once x in (refl, ground arith, refl)) (λ x m. refl) h,
    ),
  )

-- What a replacement writes.
abbrev pub hang : Shape → Way → ℕ → Shape
hang s [] b = record s { root = b }
hang s (down_left c p r ∷ path) b = hang_left s p b
hang s (down_right c l p ∷ path) b = hang_right s p b

pub hang-leaf : (s : Shape) (path : Way) (b : ℕ) → (hang s path b).leaf ≡ s.leaf
hang-leaf s [] b = refl
hang-leaf s (down_left c p r ∷ path) b = refl
hang-leaf s (down_right c l p ∷ path) b = refl

pub Around-hang :
    (leaf : ℕ) (s : Shape) (path : Way) (t b : ℕ)
    → ((x : ℕ) → occ_path x path ≤ 1)
    → Around leaf s path t
    → Around leaf (hang s path b) path b
Around-hang leaf s [] t b once h = refl
Around-hang leaf s (down_left c p r ∷ path) t b once h =
    Around-hang_left leaf s c p path t b r once h
Around-hang leaf s (down_right c l p ∷ path) t b once h =
    Around-hang_right leaf s c p path t b l once h

-- The nodes that do not stand above the hole keep their fields.
pub hang-outside :
    (s : Shape) (path : Way) (b x : ℕ)
    → occ_path x path ≡ 0
    → ((hang s path b).left x ≡ s.left x)
      × ((hang s path b).right x ≡ s.right x)
      × ((hang s path b).red x ≡ s.red x)
      × ((hang s path b).parent x ≡ s.parent x)
hang-outside s [] b x out = (refl, refl, refl, refl)
hang-outside s (down_left c p r ∷ path) b x out = (ground arith, refl, refl, refl)
hang-outside s (down_right c l p ∷ path) b x out = (refl, ground arith, refl, refl)

module _ (s : Shape) (a b : ℕ) where
  replace_root : a ≡ s.root → replace_left s a b ≡ record s { root = b }
  unfolding replace_left
  replace_root e = let here : (a == s.root) ≡ true = ground arith in rw here

  replace_on_left :
      a ≢ s.root → s.left (s.parent a) ≡ a → replace_left s a b ≡ hang_left s (s.parent a) b
  unfolding replace_left
  replace_on_left ne e =
      let below : (a == s.root) ≡ false = ground arith in
      let here : (a == s.left (s.parent a)) ≡ true = ground arith in rw (below, here)

  replace_on_right :
      a ≢ s.root → s.left (s.parent a) ≢ a → replace_left s a b ≡ hang_right s (s.parent a) b
  unfolding replace_left
  replace_on_right ne ne' =
      let below : (a == s.root) ≡ false = ground arith in
      let there : (a == s.left (s.parent a)) ≡ false = ground arith in rw (below, there)

-- The code that puts `b` into the place of `a` finds that place.
pub replace_left_lem :
    (s : Shape) (path : Way) (a b : ℕ)
    → a ≢ s.leaf
    → occ_path a path ≡ 0
    → UpTo s.leaf s path a
    → Around s.leaf s path a
    → replace_left s a b ≡ hang s path b
replace_left_lem s [] a b real out up h = replace_root s a b (sym h)
replace_left_lem s (down_left c p r ∷ path) a b real out up ((el, _, _), _, (_, h)) =
    let at : s.parent a ≡ p = up real in
    replace_on_left s a b (below_root s.leaf s path a p (omega arith) h) (rw at el)
    ∙ ap (λ q. hang_left s q b) at
replace_left_lem s (down_right c l p ∷ path) a b real out up ((el, _, _), _, (_, h)) =
    let at : s.parent a ≡ p = up real in
    replace_on_right s a b (below_root s.leaf s path a p (omega arith) h) (λ e.
      let el' : top s.leaf l ≡ a = sym el ∙ ap s.left (sym at) ∙ e in
      elim (top-occ s.leaf l) [
        | inl tip' ↦ real (sym el' ∙ tip')
        | inr inside ↦ let inside' : 0 < occ a l = rw⁻¹ el' inside in omega arith
      ])
    ∙ ap (λ q. hang_right s q b) at
