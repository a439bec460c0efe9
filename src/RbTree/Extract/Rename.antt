-- ===== src/RbTree/Extract/Rename.antt =====
-- libyod/rbtree.c: another node takes the place of the one that del takes out.
use libyod.Prelude.{
  ℕ, ◌+◌, ◌<◌, ◌≡◌, refl, sym, ap, ◌∙◌, subst, ◌≢◌, inl, inr, Bool, false, not, arith, ℕ_discrete,
  ◌==◌, if◌then◌else◌,
}
use libyod.Links.{update, update_ne, update_self}
use libyod.RbTree.Shape.{Shape, replace_left}
use libyod.RbTree.Remove.{take_links, adopt}
use libyod.RbTree.Tree.{
  Tree, fork, Way, occ, hit, occ_path, occ_below-le, top, top-occ, apart_top, Sub, Up, UpTo, Around,
  AtLeaf, Sub-frame, Around-frame, UpTo-frame,
}
use libyod.RbTree.Rotate.{Once, hang, hang-leaf, hang-outside, Around-hang, replace_left_lem}
use libyod.RbTree.Rotate.Left.{below-ne-top, UpTo-move}
use libyod.RbTree.Holds.{Holds}

-- `if (q != self->leaf) q->parent = t;`
guard_other :
    (f : ℕ → ℕ) (q leaf t x : ℕ) → x ≢ q → (if not (q == leaf) then update f q t else f) x ≡ f x
guard_other f q leaf t x ne = ground arith

guard_self :
    (f : ℕ → ℕ) (q leaf t : ℕ) → q ≢ leaf → (if not (q == leaf) then update f q t else f) q ≡ t
guard_self f q leaf t ne = ground arith

guard_leaf :
    (f : ℕ → ℕ) (q leaf t : ℕ) → (if not (q == leaf) then update f q t else f) leaf ≡ f leaf
guard_leaf f q leaf t = ground arith

hit_ne : (x a : ℕ) → x ≢ a → hit x a ≡ 0
hit_ne x a ne = ground arith

-- What is used of the memory: all around the node `a`, but not that its children point at it.
pub record Ready (s : Shape) (path : Way) (c : Bool) (l : Tree) (a : ℕ) (r : Tree) (t : ℕ)
    : Type 0 where
  pub links : (s.left a ≡ top s.leaf l) × (s.right a ≡ top s.leaf r) × (s.red a ≡ c)
  pub sub_l : Sub s.leaf s l
  pub sub_r : Sub s.leaf s r
  pub up : UpTo s.leaf s path a
  pub around : Around s.leaf s path a
  pub once : Once s.leaf path (fork c l a r)
  pub dark : s.red s.leaf ≡ false
  pub leaf_pos : 0 < s.leaf
  pub non_null : occ 0 (fork c l a r) + occ_path 0 path ≡ 0
  pub new_t : occ t (fork c l a r) + occ_path t path ≡ 0
  pub real_t : t ≢ s.leaf
  pub t_pos : 0 < t

module _ (s : Shape) (path : Way) (c : Bool) (l : Tree) (a : ℕ) (r : Tree) (t : ℕ)
    (ready : Ready s path c l a r t) where
  abbrev taken : Shape
  taken = record s {
    left = update s.left t (s.left a);
    right = update s.right t (s.right a);
    parent = update s.parent t (s.parent a);
    red = update s.red t (s.red a);
  }

  abbrev placed : Shape
  placed = hang taken path t

  -- The nodes of the two subtrees and above are not `t`, nor `a`.
  node_ne : (x : ℕ) → 0 < occ x l + (occ x r + occ_path x path) → (x ≢ t) × (x ≢ a)
  node_ne x inside =
      let o = ready.once.0 x in
      (
        λ e.
            let z = subst (λ y. 0 < occ y l + (occ y r + occ_path y path)) e inside in
            let o' = ready.new_t in omega arith,
        λ e. let self : hit x a ≡ 1 = ground arith in omega arith,
      )

  a_ne_t : a ≢ t
  a_ne_t e = let o = ready.new_t in let self : hit t a ≡ 1 = ground arith in omega arith

  a_real : a ≢ s.leaf
  a_real e = let o = ready.once.1 in let self : hit s.leaf a ≡ 1 = ground arith in omega arith

  taken-Around : Around s.leaf taken path a
  taken-Around =
      Around-frame s taken s.leaf path a refl
        (λ x inside.
          let (ne, _) = node_ne x (omega arith) in
          (
            update_ne s.left t (s.left a) x ne,
            update_ne s.right t (s.right a) x ne,
            update_ne s.red t (s.red a) x ne,
          ))
        (λ x inside.
          let (ne, _) = node_ne x (omega arith) in update_ne s.parent t (s.parent a) x ne)
        ready.around

  taken-UpTo : UpTo s.leaf taken path a
  taken-UpTo =
      UpTo-frame s taken s.leaf path a (update_ne s.parent t (s.parent a) a a_ne_t) ready.up

  replaced : replace_left taken a t ≡ placed
  replaced =
      replace_left_lem taken path a t a_real
        (let o = ready.once.0 a in let self : hit a a ≡ 1 = ground arith in omega arith) taken-UpTo
        taken-Around

  -- The children are made to point at `t`.
  abbrev after_left : ℕ → ℕ
  after_left =
      if not (top s.leaf l == s.leaf) then update placed.parent (top s.leaf l) t else placed.parent

  abbrev pub renamed : Shape
  renamed = record placed {
    parent =
        if not (top s.leaf r == s.leaf) then update after_left (top s.leaf r) t else after_left;
  }

  outside :
      (x : ℕ)
      → occ_path x path ≡ 0
      → (placed.left x ≡ taken.left x)
        × (placed.right x ≡ taken.right x)
        × (placed.red x ≡ taken.red x)
        × (placed.parent x ≡ taken.parent x)
  outside x out = hang-outside taken path t x out

  t_out : occ_path t path ≡ 0
  t_out = let o = ready.new_t in omega arith

  placed_links :
      (placed.left t ≡ top s.leaf l)
      × (placed.right t ≡ top s.leaf r)
      × (placed.red t ≡ c)
      × (placed.parent t ≡ s.parent a)
  placed_links =
      let same = outside t t_out in
      (
        same.0 ∙ update_self s.left t (s.left a) ∙ ready.links.0,
        same.1 ∙ update_self s.right t (s.right a) ∙ ready.links.1,
        same.2 ∙ update_self s.red t (s.red a) ∙ ready.links.2,
        same.3 ∙ update_self s.parent t (s.parent a),
      )

  adopted : adopt placed t ≡ renamed
  unfolding adopt
  adopted = rw (placed_links.0, placed_links.1, hang-leaf taken path t) refl

  pub renamed_run : adopt (replace_left (take_links s a t) a t) t ≡ renamed
  unfolding take_links
  renamed_run = ap (λ s'. adopt s' t) replaced ∙ adopted

  -- The parents of all other nodes stay.
  other_parent : (x : ℕ) → x ≢ top s.leaf l → x ≢ top s.leaf r → renamed.parent x ≡ placed.parent x
  other_parent x nl nr =
      guard_other after_left (top s.leaf r) s.leaf t x nr
      ∙ guard_other placed.parent (top s.leaf l) s.leaf t x nl

  node_real : (x : ℕ) → 0 < occ x l + (occ x r + occ_path x path) → x ≢ s.leaf
  node_real x inside e =
      let z = subst (λ y. 0 < occ y l + (occ y r + occ_path y path)) e inside in
      let o = ready.once.1 in omega arith

  kept :
      (x : ℕ)
      → 0 < occ x l + occ x r
      → (renamed.left x ≡ s.left x) × (renamed.right x ≡ s.right x) × (renamed.red x ≡ s.red x)
  kept x inside =
      let (ne, _) = node_ne x (omega arith) in
      let o = ready.once.0 x in
      let same = outside x (omega arith) in
      (
        same.0 ∙ update_ne s.left t (s.left a) x ne,
        same.1 ∙ update_ne s.right t (s.right a) x ne,
        same.2 ∙ update_ne s.red t (s.red a) x ne,
      )

  kept_parent :
      (x : ℕ)
      → 0 < occ x l + occ x r
      → x ≢ top s.leaf l
      → x ≢ top s.leaf r
      → renamed.parent x ≡ s.parent x
  kept_parent x inside nl nr =
      let (ne, _) = node_ne x (omega arith) in
      let o = ready.once.0 x in
      other_parent x nl nr ∙ (outside x (omega arith)).3 ∙ update_ne s.parent t (s.parent a) x ne

  renamed-Sub_l : Sub s.leaf renamed l
  renamed-Sub_l =
      Sub-frame s renamed s.leaf l (λ x inside. kept x (omega arith))
        (λ x inside.
          let le = occ_below-le x l in
          let o = ready.once.0 x in
          kept_parent x (omega arith) (below-ne-top s.leaf x l inside (omega arith))
            (apart_top s.leaf x r (node_real x (omega arith)) (omega arith)))
        ready.sub_l

  renamed-Sub_r : Sub s.leaf renamed r
  renamed-Sub_r =
      Sub-frame s renamed s.leaf r (λ x inside. kept x (omega arith))
        (λ x inside.
          let le = occ_below-le x r in
          let o = ready.once.0 x in
          kept_parent x (omega arith)
            (apart_top s.leaf x l (node_real x (omega arith)) (omega arith))
            (below-ne-top s.leaf x r inside (omega arith)))
        ready.sub_r

  Up-l : Up s.leaf renamed t (top s.leaf l)
  Up-l ne = elim (top-occ s.leaf l) [
    | inl e ↦ absurd (ne e)
    | inr inside ↦
        let o = ready.once.0 (top s.leaf l) in
        guard_other after_left (top s.leaf r) s.leaf t (top s.leaf l)
          (apart_top s.leaf (top s.leaf l) r ne (omega arith))
        ∙ guard_self placed.parent (top s.leaf l) s.leaf t ne
  ]

  Up-r : Up s.leaf renamed t (top s.leaf r)
  Up-r ne = guard_self after_left (top s.leaf r) s.leaf t ne

  renamed-Around : Around s.leaf renamed path t
  renamed-Around =
      Around-frame placed renamed s.leaf path t refl (λ x inside. (refl, refl, refl))
        (λ x inside.
          let o = ready.once.0 x in
          let real_x = node_real x (omega arith) in
          other_parent x (apart_top s.leaf x l real_x (omega arith))
            (apart_top s.leaf x r real_x (omega arith)))
        (Around-hang s.leaf taken path a t (λ x. let o = ready.once.0 x in omega arith)
          taken-Around)

  renamed_t : renamed.parent t ≡ s.parent a
  renamed_t =
      let o = ready.new_t in
      other_parent t (apart_top s.leaf t l ready.real_t (omega arith))
        (apart_top s.leaf t r ready.real_t (omega arith))
      ∙ placed_links.3

  -- The leaf points where it did.
  pub renamed_leaf_parent : renamed.parent s.leaf ≡ s.parent s.leaf
  renamed_leaf_parent =
      let o = ready.once.1 in
      guard_leaf after_left (top s.leaf r) s.leaf t
      ∙ guard_leaf placed.parent (top s.leaf l) s.leaf t
      ∙ (outside s.leaf (omega arith)).3
      ∙ update_ne s.parent t (s.parent a) s.leaf (λ e. ready.real_t (sym e))

  pub renamed_leaf : renamed.leaf ≡ s.leaf
  renamed_leaf = hang-leaf taken path t

  Once-t : Once s.leaf path (fork c l t r)
  Once-t = (
    λ y. elim (ℕ_discrete y t) [
      | yes e ↦
          let z = subst (λ x. occ x (fork c l a r) + occ_path x path ≡ 0) (sym e) ready.new_t in
          let here : hit y t ≡ 1 = ground arith in omega arith
      | no ne ↦ let there : hit y t ≡ 0 = ground arith in let o = ready.once.0 y in omega arith
    ],
    let o = ready.once.1 in
        let there : hit s.leaf t ≡ 0 = hit_ne s.leaf t (λ e. ready.real_t (sym e)) in omega arith,
  )

  pub Holds-renamed : Holds renamed path (fork c l t r)
  Holds-renamed = record {
    at =
        subst (λ z. AtLeaf z renamed path (fork c l t r)) (sym renamed_leaf)
          (
            (
              (placed_links.0, placed_links.1, placed_links.2),
              (Up-l, Up-r),
              (renamed-Sub_l, renamed-Sub_r),
            ),
            UpTo-move s.leaf s renamed path a t a_real renamed_t ready.up,
            renamed-Around,
          );
    once = subst (λ z. Once z path (fork c l t r)) (sym renamed_leaf) Once-t;
    dark =
        let o = ready.once.1 in
        ap renamed.red renamed_leaf
        ∙ (outside s.leaf (omega arith)).2
        ∙ update_ne s.red t (s.red a) s.leaf (λ e. ready.real_t (sym e))
        ∙ ready.dark;
    leaf_pos = subst (λ z. 0 < z) (sym renamed_leaf) ready.leaf_pos;
    non_null =
        let o = ready.non_null in
        let there : hit 0 t ≡ 0 = hit_ne 0 t (let pos = ready.t_pos in λ e. omega arith) in
        omega arith;
  }
