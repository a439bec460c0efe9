-- ===== src/RbTree/Rotate/Left.antt =====
-- libyod/rbtree.c: `_yod_rbtree_left_rotate`.
use libyod.Prelude.{
  ℕ, ◌+◌, ◌≤◌, ◌<◌, ◌≡◌, refl, sym, ap, ◌∙◌, subst, ◌≢◌, inl, inr, Bool, [], ◌∷◌, arith, ◌==◌,
  if◌then◌else◌,
}
use libyod.Links.{update, update_ne, update_self}
use libyod.RbTree.Shape.{Shape, left_rotate_at, left_rotate}
use libyod.RbTree.Tree.{
  Tree, tip, fork, down_left, down_right, Way, occ, occ_below, hit, occ_path, top, top-occ, Up,
  UpTo, Around, AtLeaf, At, SameLinks, SameParent, occ_below-le, Sub-frame, Around-frame, Up-frame,
  UpTo-frame,
}
use libyod.RbTree.Rotate.{Once, hang, hang-leaf, Around-hang, hang-outside, replace_left_lem}

pub below-ne-top : (leaf x : ℕ) (t : Tree) → 0 < occ_below x t → occ x t ≤ 1 → x ≢ top leaf t
below-ne-top leaf x tip inside once e = omega arith
below-ne-top leaf x (fork c l a r) inside once e = ground arith

pub UpTo-move :
    (leaf : ℕ) (s s' : Shape) (path : Way) (x y : ℕ)
    → x ≢ leaf
    → s'.parent y ≡ s.parent x
    → UpTo leaf s path x
    → UpTo leaf s' path y
UpTo-move leaf s s' [] x y real e up = tt
UpTo-move leaf s s' (down_left c p r ∷ path) x y real e up = λ ne. e ∙ up real
UpTo-move leaf s s' (down_right c l p ∷ path) x y real e up = λ ne. e ∙ up real

module _ (s : Shape) (path : Way) (c : Bool) (l : Tree) (a : ℕ) (d : Bool) (m : Tree) (b : ℕ)
    (r : Tree) (h : At s path (fork c l a (fork d m b r)))
    (once : Once s.leaf path (fork c l a (fork d m b r))) where
  abbrev q : ℕ
  q = top s.leaf m

  a_real : a ≢ s.leaf
  a_real e = let z = once.1 in ground arith

  b_real : b ≢ s.leaf
  b_real e = let z = once.1 in ground arith

  apart : a ≢ b
  apart e =
      let o = once.0 a in
      let here : hit a b ≡ 1 = ground arith in let self : hit a a ≡ 1 = ground arith in omega arith

  a_out : occ_path a path ≡ 0
  a_out = let o = once.0 a in ground arith

  b_out : occ_path b path ≡ 0
  b_out = let o = once.0 b in ground arith

  -- The child that changes sides is neither of the two, nor the parent, nor in the other subtrees.
  q-ne : (x : ℕ) → x ≢ s.leaf → occ x m ≡ 0 → x ≢ q
  q-ne x real out e = elim (top-occ s.leaf m) [
    | inl leaf' ↦ real (e ∙ leaf')
    | inr inside ↦ let inside' : 0 < occ x m = rw e inside in omega arith
  ]

  -- The parents after the child has changed sides.
  abbrev moved : ℕ → ℕ
  moved = if q == s.leaf then s.parent else update s.parent q a

  moved_ne : (x : ℕ) → x ≢ q → moved x ≡ s.parent x
  moved_ne x ne = ground arith

  moved_top : q ≢ s.leaf → moved q ≡ a
  moved_top ne = ground arith

  abbrev detached : Shape
  detached = record s { right = update s.right a q; parent = update moved b (moved a) }

  -- Above the hole nothing has changed yet.
  above : (x : ℕ) → 0 < occ_path x path → (x ≢ a) × (x ≢ b) × (x ≢ q)
  above x inside =
      let o = once.0 x in
      let z = once.1 in
      let real : x ≢ s.leaf =
        λ e. let inside' : 0 < occ_path s.leaf path = rw⁻¹ e inside in omega arith in
      (λ e. ground arith, λ e. ground arith, q-ne x real (omega arith))

  detached-Around : Around s.leaf detached path a
  detached-Around =
      Around-frame s detached s.leaf path a refl
        (λ x inside. let (na, nb, nq) = above x inside in (refl, ground arith, refl))
        (λ x inside.
          let (na, nb, nq) = above x inside in update_ne moved b (moved a) x nb ∙ moved_ne x nq)
        h.2

  abbrev turned : Shape
  turned = record (hang detached path b) {
    left = update (hang detached path b).left b a;
    parent = update (hang detached path b).parent a b;
  }

  detached-parent : detached.parent a ≡ s.parent a
  detached-parent =
      update_ne moved b (moved a) a apart
      ∙ moved_ne a (q-ne a a_real (let o = once.0 a in ground arith))

  detached-UpTo : UpTo s.leaf detached path a
  detached-UpTo = UpTo-frame s detached s.leaf path a detached-parent h.1

  left_rotate-eq : left_rotate s a ≡ turned
  unfolding left_rotate left_rotate_at
  left_rotate-eq =
      ap (λ p. left_rotate_at s a p (s.left p)) h.0.0.1
      ∙ ap (left_rotate_at s a b) h.0.2.1.0.0
      ∙ ap {B = Shape}
          (λ s'. record s' { left = update s'.left b a; parent = update s'.parent a b })
          (replace_left_lem detached path a b a_real a_out detached-UpTo detached-Around)

  hung : Around s.leaf (hang detached path b) path b
  hung = Around-hang s.leaf detached path a b (λ x. let o = once.0 x in omega arith) detached-Around

  turned-Around : Around s.leaf turned path b
  turned-Around =
      Around-frame (hang detached path b) turned s.leaf path b refl
        (λ x inside.
          let (na, nb, nq) = above x inside in
          (update_ne (hang detached path b).left b a x nb, refl, refl))
        (λ x inside.
          let (na, nb, nq) = above x inside in update_ne (hang detached path b).parent a b x na)
        hung

  -- Nodes of the focus.
  turned_left : (x : ℕ) → occ_path x path ≡ 0 → x ≢ b → turned.left x ≡ s.left x
  turned_left x out ne =
      update_ne (hang detached path b).left b a x ne ∙ (hang-outside detached path b x out).0

  turned_right : (x : ℕ) → occ_path x path ≡ 0 → x ≢ a → turned.right x ≡ s.right x
  turned_right x out ne = (hang-outside detached path b x out).1 ∙ update_ne s.right a q x ne

  turned_red : (x : ℕ) → occ_path x path ≡ 0 → turned.red x ≡ s.red x
  turned_red x out = (hang-outside detached path b x out).2

  turned_parent : (x : ℕ) → occ_path x path ≡ 0 → x ≢ a → turned.parent x ≡ detached.parent x
  turned_parent x out ne =
      update_ne (hang detached path b).parent a b x ne ∙ (hang-outside detached path b x out).3

  -- The nodes of the three subtrees are neither of the two, and not above the hole.
  focus : (x : ℕ) → 0 < occ x l + (occ x m + occ x r) → (x ≢ a) × (x ≢ b) × (occ_path x path ≡ 0)
  focus x inside =
      let o = once.0 x in
      (
        λ e. let self : hit x a ≡ 1 = ground arith in omega arith,
        λ e. let self : hit x b ≡ 1 = ground arith in omega arith,
        omega arith,
      )

  focus-real : (x : ℕ) → 0 < occ x l + (occ x m + occ x r) → x ≢ s.leaf
  focus-real x inside e =
      let z = once.1 in
      let inside' : 0 < occ s.leaf l + (occ s.leaf m + occ s.leaf r) = rw⁻¹ e inside in omega arith

  turned-links :
      (n : ℕ → ℕ) → ((x : ℕ) → n x ≤ occ x l + (occ x m + occ x r)) → SameLinks s turned n
  turned-links n part x inside =
      let le = part x in
      let (na, nb, out) = focus x (omega arith) in
      (turned_left x out nb, turned_right x out na, turned_red x out)

  turned-parents :
      (n : ℕ → ℕ)
      → ((x : ℕ) → n x ≤ occ x l + (occ x m + occ x r))
      → ((x : ℕ) → 0 < n x → x ≢ q)
      → SameParent s turned n
  turned-parents n part apart_q x inside =
      let le = part x in
      let (na, nb, out) = focus x (omega arith) in
      turned_parent x out na ∙ update_ne moved b (moved a) x nb ∙ moved_ne x (apart_q x inside)

  turned-l : SameParent s turned (λ x. occ x l)
  turned-l =
      turned-parents (λ x. occ x l) (λ x. omega arith)
        (λ x inside. q-ne x (focus-real x (omega arith)) (let o = once.0 x in omega arith))

  turned-r : SameParent s turned (λ x. occ x r)
  turned-r =
      turned-parents (λ x. occ x r) (λ x. omega arith)
        (λ x inside. q-ne x (focus-real x (omega arith)) (let o = once.0 x in omega arith))

  turned-m : SameParent s turned (λ x. occ_below x m)
  turned-m =
      turned-parents (λ x. occ_below x m) (λ x. omega (arith, occ_below-le x m))
        (λ x inside. below-ne-top s.leaf x m inside (let o = once.0 x in omega arith))

  turned-q : Up s.leaf turned a q
  turned-q ne = elim (top-occ s.leaf m) [
    | inl e ↦ absurd (ne e)
    | inr inside ↦
        let (na, nb, out) = focus q (omega arith) in
        turned_parent q out na ∙ update_ne moved b (moved a) q nb ∙ moved_top ne
  ]

  turned_b : turned.parent b ≡ s.parent a
  turned_b =
      turned_parent b b_out (λ e. apart (sym e))
      ∙ update_self moved b (moved a)
      ∙ moved_ne a (q-ne a a_real (let o = once.0 a in ground arith))

  turned-At : AtLeaf s.leaf turned path (fork d (fork c l a m) b r)
  turned-At =
      let ((ea, eb, ec), (ul, ub), (hl, ((fa, fb, fc), (um, ur), (hm, hr)))) = h.0 in
      (
        (
          (
            update_self (hang detached path b).left b a,
            turned_right b b_out (λ e. apart (sym e)) ∙ fb,
            turned_red b b_out ∙ fc,
          ),
          (
            λ ne. update_self (hang detached path b).parent a b,
            Up-frame s turned s.leaf b r turned-r ur,
          ),
          (
            (
              (
                turned_left a a_out apart ∙ ea,
                (hang-outside detached path b a a_out).1 ∙ update_self s.right a q,
                turned_red a a_out ∙ ec,
              ),
              (Up-frame s turned s.leaf a l turned-l ul, turned-q),
              (
                Sub-frame s turned s.leaf l (turned-links (λ x. occ x l) (λ x. omega arith))
                    (λ x inside. turned-l x (omega (arith, occ_below-le x l))) hl,
                Sub-frame s turned s.leaf m (turned-links (λ x. occ x m) (λ x. omega arith))
                    turned-m hm,
              ),
            ),
            Sub-frame s turned s.leaf r (turned-links (λ x. occ x r) (λ x. omega arith))
                (λ x inside. turned-r x (omega (arith, occ_below-le x r))) hr,
          ),
        ),
        UpTo-move s.leaf s turned path a b a_real turned_b h.1,
        turned-Around,
      )

  pub left_rotate-At : At (left_rotate s a) path (fork d (fork c l a m) b r)
  left_rotate-At =
      subst (λ s'. At s' path (fork d (fork c l a m) b r)) (sym left_rotate-eq)
        (subst (λ leaf. AtLeaf leaf turned path (fork d (fork c l a m) b r))
          (sym (hang-leaf detached path b)) turned-At)
