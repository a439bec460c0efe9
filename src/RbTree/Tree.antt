-- ===== src/RbTree/Tree.antt =====
-- libyod/rbtree.c: binary trees of addresses, trees with a hole, and which memory represents them.
use libyod.Prelude.{
  ℕ, ◌+◌, ◌≤◌, ◌<◌, ◌≡◌, refl, sym, ap, ◌∙◌, ◌≢◌, ◌⊎◌, inl, inr, Bool, List, [], ◌∷◌, ◌++◌,
  append-nil, append_assoc, arith, ◌==◌, if◌then◌else◌,
}
use libyod.RbTree.Shape.{Shape}

-- The color tells whether the node is red.
pub data Tree : Type 0 where
  tip : Tree
  fork : Bool → Tree → ℕ → Tree → Tree

-- A node above the hole: the hole is its left child, or its right child.
pub data Step : Type 0 where
  down_left : Bool → ℕ → Tree → Step
  down_right : Bool → Tree → ℕ → Step

-- The nodes above the hole, the nearest first.
abbrev pub Way : Type 0
Way = List Step

abbrev pub plug : Way → Tree → Tree
plug [] t = t
plug (down_left c a r ∷ path) t = plug path (fork c t a r)
plug (down_right c l a ∷ path) t = plug path (fork c l a t)

-- The addresses from left to right.
abbrev pub ids : Tree → List ℕ
ids tip = []
ids (fork c l a r) = ids l ++ (a ∷ ids r)

abbrev pub before : Way → List ℕ
before [] = []
before (down_left c a r ∷ path) = before path
before (down_right c l a ∷ path) = before path ++ (ids l ++ (a ∷ []))

abbrev pub after : Way → List ℕ
after [] = []
after (down_left c a r ∷ path) = (a ∷ ids r) ++ after path
after (down_right c l a ∷ path) = after path

pub ids-plug : (path : Way) (t : Tree) → ids (plug path t) ≡ before path ++ (ids t ++ after path)
ids-plug [] t = sym (append-nil (ids t))
ids-plug (down_left c a r ∷ path) t =
    ids-plug path (fork c t a r)
    ∙ ap (λ l. before path ++ l) (append_assoc (ids t) (a ∷ ids r) (after path))
ids-plug (down_right c l a ∷ path) t =
    ids-plug path (fork c l a t)
    ∙ ap (λ l. before path ++ l)
        (append_assoc (ids l) (a ∷ ids t) (after path)
          ∙ sym (append_assoc (ids l) (a ∷ []) (ids t ++ after path)))
    ∙ sym (append_assoc (before path) (ids l ++ (a ∷ [])) (ids t ++ after path))

-- A subtree with the same nodes in the same order.
pub ids-plug_congr :
    (path : Way) (t t' : Tree) → ids t ≡ ids t' → ids (plug path t) ≡ ids (plug path t')
ids-plug_congr path t t' e =
    ids-plug path t ∙ ap (λ l. before path ++ (l ++ after path)) e ∙ sym (ids-plug path t')

-- A rotation keeps the order.
pub ids-turn :
    (c d c' d' : Bool) (l : Tree) (a : ℕ) (m : Tree) (b : ℕ) (r : Tree)
    → ids (fork c (fork d l a m) b r) ≡ ids (fork c' l a (fork d' m b r))
ids-turn c d c' d' l a m b r = append_assoc (ids l) (a ∷ ids m) (b ∷ ids r)

abbrev pub hit : ℕ → ℕ → ℕ
hit x a = if x == a then 1 else 0

-- How often an address stands in a tree, in the nodes below its root, and above a hole.
abbrev pub occ : ℕ → Tree → ℕ
occ x tip = 0
occ x (fork c l a r) = occ x l + (hit x a + occ x r)

abbrev pub occ_below : ℕ → Tree → ℕ
occ_below x tip = 0
occ_below x (fork c l a r) = occ x l + occ x r

abbrev pub occ_path : ℕ → Way → ℕ
occ_path x [] = 0
occ_path x (down_left c a r ∷ path) = hit x a + occ x r + occ_path x path
occ_path x (down_right c l a ∷ path) = occ x l + hit x a + occ_path x path

pub occ-plug : (x : ℕ) (path : Way) (t : Tree) → occ x (plug path t) ≡ occ x t + occ_path x path
occ-plug x [] t = omega arith
occ-plug x (down_left c a r ∷ path) t = omega (arith, occ-plug x path (fork c t a r))
occ-plug x (down_right c l a ∷ path) t = omega (arith, occ-plug x path (fork c l a t))

abbrev pub count_in : ℕ → List ℕ → ℕ
count_in x [] = 0
count_in x (a ∷ xs) = hit x a + count_in x xs

pub count_in-append :
    (x : ℕ) (xs ys : List ℕ) → count_in x (xs ++ ys) ≡ count_in x xs + count_in x ys
count_in-append x [] ys = omega arith
count_in-append x (a ∷ xs) ys = omega (arith, count_in-append x xs ys)

pub occ-count_in : (x : ℕ) (t : Tree) → occ x t ≡ count_in x (ids t)
occ-count_in x tip = refl
occ-count_in x (fork c l a r) =
    omega (arith, occ-count_in x l, occ-count_in x r, count_in-append x (ids l) (a ∷ ids r))

abbrev pub top : ℕ → Tree → ℕ
top leaf tip = leaf
top leaf (fork c l a r) = a

pub top-occ : (leaf : ℕ) (t : Tree) → (top leaf t ≡ leaf) ⊎ (0 < occ (top leaf t) t)
top-occ leaf tip = inl refl
top-occ leaf (fork c l a r) = inr (ground arith)

-- An address that is not in a tree is not at its top.
pub apart_top : (leaf x : ℕ) (t : Tree) → x ≢ leaf → occ x t ≡ 0 → x ≢ top leaf t
apart_top leaf x tip real out e = real e
apart_top leaf x (fork c l a r) real out e = ground arith

pub occ_below-le : (x : ℕ) (t : Tree) → occ_below x t ≤ occ x t
occ_below-le x tip = omega arith
occ_below-le x (fork c l a r) = omega arith

-- A child at `x`, if there is one, points back at its parent.
abbrev pub Up : ℕ → Shape → ℕ → ℕ → Type 0
Up leaf s p x = x ≢ leaf → s.parent x ≡ p

-- The memory has the nodes of the tree; where the root's parent points is left open.
abbrev pub Sub : ℕ → Shape → Tree → Type 0
Sub leaf s tip = Unit {0}
Sub leaf s (fork c l a r) =
    ((s.left a ≡ top leaf l) × (s.right a ≡ top leaf r) × (s.red a ≡ c))
    × (Up leaf s a (top leaf l) × Up leaf s a (top leaf r))
    × (Sub leaf s l × Sub leaf s r)

-- The node next to the hole is the parent of `x`; where the root points is left open.
abbrev pub UpTo : ℕ → Shape → Way → ℕ → Type 0
UpTo leaf s [] x = Unit {0}
UpTo leaf s (down_left c p r ∷ path) x = Up leaf s p x
UpTo leaf s (down_right c l p ∷ path) x = Up leaf s p x

-- The memory has the nodes above the hole, where `t` stands in the hole.
abbrev pub Around : ℕ → Shape → Way → ℕ → Type 0
Around leaf s [] t = s.root ≡ t
Around leaf s (down_left c a r ∷ path) t =
    ((s.left a ≡ t) × (s.right a ≡ top leaf r) × (s.red a ≡ c))
    × (Up leaf s a (top leaf r) × UpTo leaf s path a)
    × (Sub leaf s r × Around leaf s path a)
Around leaf s (down_right c l a ∷ path) t =
    ((s.left a ≡ top leaf l) × (s.right a ≡ t) × (s.red a ≡ c))
    × (Up leaf s a (top leaf l) × UpTo leaf s path a)
    × (Sub leaf s l × Around leaf s path a)

-- The memory has the tree `t` in the hole of `path`.
abbrev pub AtLeaf : ℕ → Shape → Way → Tree → Type 0
AtLeaf leaf s path t =
    Sub leaf s t × UpTo leaf s path (top leaf t) × Around leaf s path (top leaf t)

abbrev pub At : Shape → Way → Tree → Type 0
At s = AtLeaf s.leaf s

-- From a whole tree up from a part of it.
pub At-plug : (s : Shape) (path : Way) (t : Tree) → At s path t → At s [] (plug path t)
At-plug s [] t h = h
At-plug s (down_left c a r ∷ path) t (sub, up, (links, (up_r, up_a), (sub_r, around))) =
    At-plug s path (fork c t a r) ((links, (up, up_r), (sub, sub_r)), up_a, around)
At-plug s (down_right c l a ∷ path) t (sub, up, (links, (up_l, up_a), (sub_l, around))) =
    At-plug s path (fork c l a t) ((links, (up_l, up), (sub_l, sub)), up_a, around)

-- Memories that agree on some fields of the nodes that a predicate picks.
module _ (s s' : Shape) where
  abbrev pub SameLinks : (ℕ → ℕ) → Type 0
  SameLinks n =
      (b : ℕ) → 0 < n b → (s'.left b ≡ s.left b) × (s'.right b ≡ s.right b) × (s'.red b ≡ s.red b)

  abbrev pub SameParent : (ℕ → ℕ) → Type 0
  SameParent n = (b : ℕ) → 0 < n b → s'.parent b ≡ s.parent b

  pub Up-frame :
      (leaf p : ℕ) (t : Tree)
      → SameParent (λ b. occ b t)
      → Up leaf s p (top leaf t)
      → Up leaf s' p (top leaf t)
  Up-frame leaf p t same up ne = elim (top-occ leaf t) [
    | inl e ↦ absurd (ne e)
    | inr inside ↦ same (top leaf t) inside ∙ up ne
  ]

  pub Sub-frame :
      (leaf : ℕ) (t : Tree)
      → SameLinks (λ b. occ b t)
      → SameParent (λ b. occ_below b t)
      → Sub leaf s t
      → Sub leaf s' t
  Sub-frame leaf tip links parents h = tt
  Sub-frame leaf (fork c l a r) links parents ((el, er, ec), (ul, ur), (hl, hr)) =
      let (fl, fr, fc) = links a (ground arith) in
      (
        (fl ∙ el, fr ∙ er, fc ∙ ec),
        (
          Up-frame leaf a l (λ b m. parents b (omega arith)) ul,
          Up-frame leaf a r (λ b m. parents b (omega arith)) ur,
        ),
        (
          Sub-frame leaf l (λ b m. links b (omega arith))
              (λ b m. parents b (omega (arith, occ_below-le b l))) hl,
          Sub-frame leaf r (λ b m. links b (omega arith))
              (λ b m. parents b (omega (arith, occ_below-le b r))) hr,
        ),
      )

  pub UpTo-frame :
      (leaf : ℕ) (path : Way) (x : ℕ)
      → s'.parent x ≡ s.parent x
      → UpTo leaf s path x
      → UpTo leaf s' path x
  UpTo-frame leaf [] x e up = tt
  UpTo-frame leaf (down_left c p r ∷ path) x e up = λ ne. e ∙ up ne
  UpTo-frame leaf (down_right c l p ∷ path) x e up = λ ne. e ∙ up ne

  pub Around-frame :
      (leaf : ℕ) (path : Way) (t : ℕ)
      → s'.root ≡ s.root
      → SameLinks (λ b. occ_path b path)
      → SameParent (λ b. occ_path b path)
      → Around leaf s path t
      → Around leaf s' path t
  Around-frame leaf [] t root links parents h = root ∙ h
  Around-frame leaf (down_left c a r ∷ path) t root links parents
        ((el, er, ec), (ur, ua), (hr, h)) =
      let (fl, fr, fc) = links a (ground arith) in
      (
        (fl ∙ el, fr ∙ er, fc ∙ ec),
        (
          Up-frame leaf a r (λ b m. parents b (omega arith)) ur,
          UpTo-frame leaf path a (parents a (ground arith)) ua,
        ),
        (
          Sub-frame leaf r (λ b m. links b (omega arith))
              (λ b m. parents b (omega (arith, occ_below-le b r))) hr,
          Around-frame leaf path a root (λ b m. links b (omega arith))
              (λ b m. parents b (omega arith)) h,
        ),
      )
  Around-frame leaf (down_right c l a ∷ path) t root links parents
        ((el, er, ec), (ul, ua), (hl, h)) =
      let (fl, fr, fc) = links a (ground arith) in
      (
        (fl ∙ el, fr ∙ er, fc ∙ ec),
        (
          Up-frame leaf a l (λ b m. parents b (omega arith)) ul,
          UpTo-frame leaf path a (parents a (ground arith)) ua,
        ),
        (
          Sub-frame leaf l (λ b m. links b (omega arith))
              (λ b m. parents b (omega (arith, occ_below-le b l))) hl,
          Around-frame leaf path a root (λ b m. links b (omega arith))
              (λ b m. parents b (omega arith)) h,
        ),
      )
