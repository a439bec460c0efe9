-- ===== src/RbTree/Place.antt =====
-- libyod/rbtree.c: the descent of add, and the new node below the place where it ends.
use libyod.Prelude.{
  ℕ, zero, suc, ◌+◌, ◌≤◌, ◌<◌, ◌≡◌, refl, sym, ap, ◌∙◌, subst, ◌≢◌, inl, inr, true, false, some, [],
  ◌∷◌, arith, ℕ_discrete, ltb, ◌==◌, if◌then◌else◌, Bool-cases, length, length-append,
}
use libyod.Links.{update, update_ne, update_self}
use libyod.RbTree.Shape.{Shape}
use libyod.RbTree.State.{RbTree}
use libyod.RbTree.Insert.{descend}
use libyod.RbTree.Tree.{
  Tree, tip, fork, Step, down_left, down_right, Way, ids, occ, hit, occ_path, occ_below-le, top,
  Sub-frame, UpTo-frame, Around-frame, AtLeaf, UpTo, apart_top,
}
use libyod.RbTree.Rotate.{Once, hang, hang-leaf, hang-outside, Around-hang}
use libyod.RbTree.Holds.{
  Holds, Holds-into_left, Holds-into_right, left_top, right_top, real, node_of,
}
use libyod.RbTree.Order.{into}

-- The nearest node above a hole, `q` where there is none.
abbrev pub near : ℕ → Way → ℕ
near q [] = q
near q (step ∷ path) = node_of step

module _ (t : RbTree) (node fuel p q : ℕ) where
  descend_end : p ≡ t.shape.leaf → descend (suc fuel) t node p q ≡ some q
  unfolding descend
  descend_end e = let here : (p == t.shape.leaf) ≡ true = ground arith in rw here

  descend_on :
      (next : ℕ)
      → p ≢ t.shape.leaf
      → (if ltb (t.key node) (t.key p) then t.shape.left p else t.shape.right p) ≡ next
      → descend (suc fuel) t node p q ≡ descend fuel t node next p
  unfolding descend
  descend_on next ne e = let here : (p == t.shape.leaf) ≡ false = ground arith in rw (here, e)

-- The descent ends at the place.
pub descend_lem :
    (t : RbTree) (node q : ℕ) (n : Tree) (fuel : ℕ) (path : Way)
    → Holds t.shape path n
    → length (ids n) < fuel
    → descend fuel t node (top t.shape.leaf n) (near q path)
      ≡ some (near q (into t.key (t.key node) path n))
descend_lem t node q n zero path h enough = absurd (omega arith)
descend_lem t node q tip (suc fuel) path h enough =
    descend_end t node fuel t.shape.leaf (near q path) refl
descend_lem t node q (fork c l a r) (suc fuel) path h enough =
    let size = length-append (ids l) (a ∷ ids r) in
    let real_a = real t.shape path c l a r h in
    let run_l =
      descend_lem t node q l fuel (down_left c a r ∷ path) (Holds-into_left t.shape c a path l r h)
        (omega arith) in
    let run_r =
      descend_lem t node q r fuel (down_right c l a ∷ path)
        (Holds-into_right t.shape c a path l r h) (omega arith) in
    elim (Bool-cases (ltb (t.key node) (t.key a))) [
      | inl e ↦
          descend_on t node fuel a (near q path) (top t.shape.leaf l) real_a
            (rw e (left_top t.shape path c l a r h))
          ∙ run_l
          ∙ ap some (rw e refl)
      | inr e ↦
          descend_on t node fuel a (near q path) (top t.shape.leaf r) real_a
            (rw e (right_top t.shape path c l a r h))
          ∙ run_r
          ∙ ap some (rw e refl)
    ]

-- The same tree in a memory that differs at addresses that are no nodes.
pub Holds-elsewhere :
    (s s' : Shape) (path : Way) (t : Tree) (x : ℕ)
    → x ≢ s.leaf
    → occ x t + occ_path x path ≡ 0
    → (s'.root ≡ s.root) × (s'.leaf ≡ s.leaf)
    → ((b : ℕ) → b ≢ x → (s'.left b ≡ s.left b) × (s'.right b ≡ s.right b) × (s'.red b ≡ s.red b))
    → ((b : ℕ) → b ≢ x → s'.parent b ≡ s.parent b)
    → Holds s path t
    → Holds s' path t
Holds-elsewhere s s' path t x real out (root, leaf) links parents h =
    let ne : (b : ℕ) → 0 < occ b t + occ_path b path → b ≢ x = λ b inside e.
      let inside' = subst (λ y. 0 < occ y t + occ_path y path) e inside in omega arith in
    let (sub, up, around) = h.at in
    let up' =
      UpTo-frame s s' s.leaf path (top s.leaf t)
        (parents (top s.leaf t) (λ e. apart_top s.leaf x t real (omega arith) (sym e))) up in
    record {
      at =
          subst (λ z. AtLeaf z s' path t) (sym leaf)
            (
              Sub-frame s s' s.leaf t (λ b m. links b (ne b (omega arith)))
                  (λ b m. parents b (ne b (omega (arith, occ_below-le b t)))) sub,
              up',
              Around-frame s s' s.leaf path (top s.leaf t) root
                  (λ b m. links b (ne b (omega arith))) (λ b m. parents b (ne b (omega arith)))
                  around,
            );
      once = subst (λ z. Once z path t) (sym leaf) h.once;
      dark = ap s'.red leaf ∙ (links s.leaf (λ e. real (sym e))).2 ∙ h.dark;
      leaf_pos = subst (λ z. 0 < z) (sym leaf) h.leaf_pos;
      non_null = h.non_null;
    }

-- A node is put below a place.
abbrev pub hung : Shape → Step → Way → ℕ → Shape
hung s step path x = hang (record s { parent = update s.parent x (node_of step) }) (step ∷ path) x

-- The node has no children.
module _ (s : Shape) (step : Step) (path : Way) (x : ℕ) (h : Holds s (step ∷ path) tip)
    (pos : 0 < x) (real_x : x ≢ s.leaf) (out : occ_path x (step ∷ path) ≡ 0)
    (left_x : s.left x ≡ s.leaf) (right_x : s.right x ≡ s.leaf) (red_x : s.red x ≡ true) where
  abbrev below_step : Shape
  below_step = record s { parent = update s.parent x (node_of step) }

  step-Holds : Holds below_step (step ∷ path) tip
  step-Holds =
      Holds-elsewhere s below_step (step ∷ path) tip x real_x (omega arith) (refl, refl)
        (λ b ne. (refl, refl, refl)) (λ b ne. update_ne s.parent x (node_of step) b ne) h

  hung_fields :
      ((hung s step path x).left x ≡ s.leaf)
      × ((hung s step path x).right x ≡ s.leaf)
      × ((hung s step path x).red x ≡ true)
      × ((hung s step path x).parent x ≡ node_of step)
  hung_fields =
      let same = hang-outside below_step (step ∷ path) x x out in
      (
        same.0 ∙ left_x,
        same.1 ∙ right_x,
        same.2 ∙ red_x,
        same.3 ∙ update_self s.parent x (node_of step),
      )

  hung-UpTo :
      (step' : Step)
      → (hung s step path x).parent x ≡ node_of step'
      → UpTo s.leaf (hung s step path x) (step' ∷ path) x
  hung-UpTo (down_left c a r) e = λ ne. e
  hung-UpTo (down_right c l a) e = λ ne. e

  hung-At : AtLeaf s.leaf (hung s step path x) (step ∷ path) (fork true tip x tip)
  hung-At = (
    (
      (hung_fields.0, hung_fields.1, hung_fields.2),
      (λ ne. absurd (ne refl), λ ne. absurd (ne refl)),
      (tt, tt),
    ),
    hung-UpTo step hung_fields.3,
    Around-hang s.leaf below_step (step ∷ path) s.leaf x (λ y. let o = h.once.0 y in omega arith)
        step-Holds.at.2,
  )

  once_x : (y : ℕ) → occ y (fork true tip x tip) + occ_path y (step ∷ path) ≤ 1
  once_x y = elim (ℕ_discrete y x) [
    | yes e ↦
        let away = subst (λ w. occ_path w (step ∷ path) ≡ 0) (sym e) out in
        let here : hit y x ≡ 1 = ground arith in omega arith
    | no ne ↦ let there : hit y x ≡ 0 = ground arith in let o = h.once.0 y in omega arith
  ]

  once_leaf : occ s.leaf (fork true tip x tip) + occ_path s.leaf (step ∷ path) ≡ 0
  once_leaf = let there : hit s.leaf x ≡ 0 = ground arith in let o = h.once.1 in omega arith

  null_x : occ 0 (fork true tip x tip) + occ_path 0 (step ∷ path) ≡ 0
  null_x = let there : hit 0 x ≡ 0 = ground arith in let o = h.non_null in omega arith

  dark_leaf : (hung s step path x).red (hung s step path x).leaf ≡ false
  dark_leaf =
      let o = h.once.1 in
      ap (hung s step path x).red (hang-leaf below_step (step ∷ path) x)
      ∙ (hang-outside below_step (step ∷ path) x s.leaf (omega arith)).2
      ∙ h.dark

  pub Holds-hung : Holds (hung s step path x) (step ∷ path) (fork true tip x tip)
  Holds-hung =
      let leaf' = hang-leaf below_step (step ∷ path) x in
      record {
        at =
            subst (λ z. AtLeaf z (hung s step path x) (step ∷ path) (fork true tip x tip))
              (sym leaf') hung-At;
        once =
            subst (λ z. Once z (step ∷ path) (fork true tip x tip)) (sym leaf') (once_x, once_leaf);
        dark = dark_leaf;
        leaf_pos = subst (λ z. 0 < z) (sym leaf') h.leaf_pos;
        non_null = null_x;
      }
