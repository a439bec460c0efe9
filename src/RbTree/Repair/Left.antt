-- ===== src/RbTree/Repair/Left.antt =====
-- libyod/rbtree.c: the rounds of the loop of del where the node is a left child.
use libyod.Prelude.{
  ℕ, ◌≡◌, refl, sym, ap, ◌∙◌, subst, Bool, true, false, not, ◌&&◌, ◌∷◌, arith, ◌==◌, if◌then◌else◌,
}
use libyod.RbTree.Shape.{
  Shape, paint, left_rotate, left_rotate_at, right_rotate, right_rotate_at, replace_left,
  replace_right,
}
use libyod.RbTree.Fixup.{red_sibling_left, turn_sibling_left, finish_left, fixup_left, fixup_step}
use libyod.RbTree.Tree.{Tree, fork, down_left, down_right, Way, top}
use libyod.RbTree.Holds.{
  is_red, Holds, left_top, right_top, red_top, Holds-paint, Holds-up_left, Holds-up_right,
  Holds-into_left, Holds-into_right, Holds-rotate_left, Holds-rotate_right,
}
use libyod.RbTree.Rebalance.{StepTo}
use libyod.RbTree.Repair.{
  Done, Back, Back-top, Back-keep, leaf_parent-left_rotate, leaf_parent-right_rotate,
}

eq_refl : (n : ℕ) → (n == n) ≡ true
eq_refl n = ground arith

-- The last rotation.
module _ (s : Shape) (path : Way) (t : Tree) (c : Bool) (q : ℕ) (d : Bool) (l : Tree) (w : ℕ)
    (e : Bool) (a : Tree) (v : ℕ) (b : Tree)
    (h : Holds s path (fork c t q (fork d l w (fork e a v b)))) (p : ℕ) (up : s.parent p ≡ q) where
  abbrev finished : Shape
  finished = left_rotate (paint (paint (paint s w c) q false) v false) q

  sibling : Holds s (down_right c t q ∷ path) (fork d l w (fork e a v b))
  sibling = Holds-into_right s c q path t (fork d l w (fork e a v b)) h

  finish : finish_left s p w ≡ finished
  unfolding finish_left paint
  finish =
      rw (up, h.at.0.0.2, right_top s (down_right c t q ∷ path) d l w (fork e a v b) sibling) refl

  Holds-finished : Holds finished path (fork c (fork false t q l) w (fork false a v b))
  Holds-finished =
      let s1 = paint s w c in
      let s2 = paint s1 q false in
      let s3 = paint s2 v false in
      let h1 = Holds-paint s (down_right c t q ∷ path) d l w (fork e a v b) sibling c in
      let h2 =
        Holds-paint s1 path c t q (fork c l w (fork e a v b))
          (Holds-up_right s1 c q path t (fork c l w (fork e a v b)) h1) false in
      let h3 = Holds-into_right s2 false q path t (fork c l w (fork e a v b)) h2 in
      let h4 = Holds-into_right s2 c w (down_right false t q ∷ path) l (fork e a v b) h3 in
      let h5 = Holds-paint s2 (down_right c l w ∷ down_right false t q ∷ path) e a v b h4 false in
      let h6 = Holds-up_right s3 c w (down_right false t q ∷ path) l (fork false a v b) h5 in
      let h7 = Holds-up_right s3 false q path t (fork c l w (fork false a v b)) h6 in
      Holds-rotate_left s3 path false t q c l w (fork false a v b) h7

-- A round behind the case of a red sibling.
abbrev after_left : Shape → ℕ → ℕ → Shape × ℕ
after_left s p w =
    let (s', w') = turn_sibling_left s p w in
    let s3 = finish_left s' p w' in
    if not (s.red (s.left w)) && not (s.red (s.right w))
    then (paint s w true, s.parent p)
    else (s3, s3.root)

module _ (s : Shape) (path : Way) (t : Tree) (c : Bool) (q : ℕ) (l : Tree) (w : ℕ) (r : Tree)
    (h : Holds s path (fork c t q (fork false l w r))) (p : ℕ) (up : s.parent p ≡ q) where
  sibling' : Holds s (down_right c t q ∷ path) (fork false l w r)
  sibling' = Holds-into_right s c q path t (fork false l w r) h

  near_red : s.red (s.left w) ≡ is_red l
  near_red =
      ap s.red (left_top s (down_right c t q ∷ path) false l w r sibling')
      ∙ red_top s (down_left false w r ∷ down_right c t q ∷ path) l
          (Holds-into_left s false w (down_right c t q ∷ path) l r sibling')

  far_red : s.red (s.right w) ≡ is_red r
  far_red =
      ap s.red (right_top s (down_right c t q ∷ path) false l w r sibling')
      ∙ red_top s (down_right false l w ∷ down_right c t q ∷ path) r
          (Holds-into_right s false w (down_right c t q ∷ path) l r sibling')

  both_black : is_red l ≡ false → is_red r ≡ false → after_left s p w ≡ (paint s w true, q)
  both_black el er = rw (near_red, far_red, el, er, up) refl

  Holds-both_black : Holds (paint s w true) path (fork c t q (fork true l w r))
  Holds-both_black =
      Holds-up_right (paint s w true) c q path t (fork true l w r)
        (Holds-paint s (down_right c t q ∷ path) false l w r sibling' true)

  one_red :
      (s' : Shape) (w' : ℕ) (s3 : Shape)
      → (not (is_red l) && not (is_red r)) ≡ false
      → turn_sibling_left s p w ≡ (s', w')
      → finish_left s' p w' ≡ s3
      → after_left s p w ≡ (s3, s3.root)
  one_red s' w' s3 which run run' = rw (near_red, far_red, which, run, run') refl

-- The farther child of the sibling is red.
module _ (s : Shape) (path : Way) (t : Tree) (c : Bool) (q : ℕ) (l : Tree) (w : ℕ) (a : Tree)
    (v : ℕ) (b : Tree) (h : Holds s path (fork c t q (fork false l w (fork true a v b)))) (p : ℕ)
    (up : s.parent p ≡ q) where
  far_done :
      (s' : Shape) × (after_left s p w ≡ (s', s'.root))
      × Holds s' path (fork c (fork false t q l) w (fork false a v b))
  unfolding turn_sibling_left
  far_done =
      let s3 = finished s path t c q false l w true a v b h p up in
      let far = far_red s path t c q l w (fork true a v b) h p up in
      (
        s3,
        one_red s path t c q l w (fork true a v b) h p up s w s3 (ground arith) (rw far refl)
            (finish s path t c q false l w true a v b h p up),
        Holds-finished s path t c q false l w true a v b h p up,
      )

-- The nearer child of the sibling is red, and the farther one is black.
module _ (s : Shape) (path : Way) (t : Tree) (c : Bool) (q : ℕ) (a : Tree) (v : ℕ) (b : Tree)
    (w : ℕ) (r : Tree) (h : Holds s path (fork c t q (fork false (fork true a v b) w r)))
    (back : Back s (down_left c q (fork false (fork true a v b) w r) ∷ path) t)
    (black_r : is_red r ≡ false) where
  abbrev p : ℕ
  p = top s.leaf t

  here : Holds s (down_left c q (fork false (fork true a v b) w r) ∷ path) t
  here = Holds-into_left s c q path t (fork false (fork true a v b) w r) h

  up : s.parent p ≡ q
  up = Back-top s (down_left c q (fork false (fork true a v b) w r)) path t here back

  abbrev turned : Shape
  turned = right_rotate (paint (paint s v false) w true) w

  Holds-painted :
      Holds
        (paint (paint s v false) w true)
        (down_right c t q ∷ path)
        (fork true (fork false a v b) w r)
  Holds-painted =
      let s1 = paint s v false in
      let h1 = Holds-into_right s c q path t (fork false (fork true a v b) w r) h in
      let h2 = Holds-into_left s false w (down_right c t q ∷ path) (fork true a v b) r h1 in
      let h3 = Holds-paint s (down_left false w r ∷ down_right c t q ∷ path) true a v b h2 false in
      let h4 = Holds-up_left s1 false w (down_right c t q ∷ path) (fork false a v b) r h3 in
      Holds-paint s1 (down_right c t q ∷ path) false (fork false a v b) w r h4 true

  Holds-turned : Holds turned path (fork c t q (fork false a v (fork true b w r)))
  Holds-turned = Holds-up_right turned c q path t (fork false a v (fork true b w r)) (
      Holds-rotate_right (paint (paint s v false) w true) (down_right c t q ∷ path) true false a v b
        w r Holds-painted)

  turned_leaf : turned.leaf ≡ s.leaf
  unfolding right_rotate right_rotate_at replace_right paint
  turned_leaf = refl

  turned_parent : turned.parent s.leaf ≡ s.parent s.leaf
  unfolding paint
  turned_parent =
      leaf_parent-right_rotate (paint (paint s v false) w true) (down_right c t q ∷ path) true false
        a v b w r Holds-painted

  turned_up : turned.parent p ≡ q
  turned_up =
      let step = down_left c q (fork false a v (fork true b w r)) in
      let keep =
        Back-keep s turned (down_left c q (fork false (fork true a v b) w r)) step path path t
          turned_leaf turned_parent refl back in
      subst (λ x. turned.parent (top x t) ≡ q) turned_leaf
        (Back-top turned step path t
          (Holds-into_left turned c q path t (fork false a v (fork true b w r)) Holds-turned) keep)

  turn : turn_sibling_left s p w ≡ (turned, v)
  unfolding turn_sibling_left
  turn =
      let far = far_red s path t c q (fork true a v b) w r h p up in
      let near =
        left_top s (down_right c t q ∷ path) false (fork true a v b) w r
          (Holds-into_right s c q path t (fork false (fork true a v b) w r) h) in
      let new = right_top turned path c t q (fork false a v (fork true b w r)) Holds-turned in
      rw (far, black_r, near, turned_up, new) refl

  near_done :
      (s' : Shape) × (after_left s p w ≡ (s', s'.root))
      × Holds s' path (fork c (fork false t q a) v (fork false b w r))
  near_done =
      let s3 = finished turned path t c q false a v true b w r Holds-turned p turned_up in
      (
        s3,
        one_red s path t c q (fork true a v b) w r h p up turned v s3 (ground arith) turn
            (finish turned path t c q false a v true b w r Holds-turned p turned_up),
        Holds-finished turned path t c q false a v true b w r Holds-turned p turned_up,
      )

-- The rest of a round follows the case of a red sibling.
module _ (s : Shape) (path : Way) (t : Tree) (c : Bool) (q : ℕ) (d : Bool) (l : Tree) (w : ℕ)
    (r : Tree) (h : Holds s path (fork c t q (fork d l w r)))
    (back : Back s (down_left c q (fork d l w r) ∷ path) t) where
  abbrev p' : ℕ
  p' = top s.leaf t

  up' : s.parent p' ≡ q
  up' =
      Back-top s (down_left c q (fork d l w r)) path t
        (Holds-into_left s c q path t (fork d l w r) h) back

  to_left : fixup_step s p' ≡ fixup_left s p'
  unfolding fixup_step
  to_left =
      let child = left_top s path c t q (fork d l w r) h in
      let e : (p' == s.left (s.parent p')) ≡ true = rw (up', child) (eq_refl p') in rw e refl

  sibling_red : s.red w ≡ d
  sibling_red = (Holds-into_right s c q path t (fork d l w r) h).at.0.0.2

  kept : d ≡ false → red_sibling_left s p' ≡ (s, w)
  unfolding red_sibling_left
  kept e = rw (up', right_top s path c t q (fork d l w r) h, sibling_red, e) refl

  black_sibling : d ≡ false → fixup_left s p' ≡ after_left s p' w
  unfolding fixup_left
  black_sibling e = rw (kept e) refl

  abbrev lowered : Shape
  lowered = left_rotate (paint (paint s w false) q true) q

  Holds-repainted : Holds (paint (paint s w false) q true) path (fork true t q (fork false l w r))
  Holds-repainted =
      let s1 = paint s w false in
      let h1 = Holds-into_right s c q path t (fork d l w r) h in
      let h2 = Holds-paint s (down_right c t q ∷ path) d l w r h1 false in
      Holds-paint s1 path c t q (fork false l w r)
        (Holds-up_right s1 c q path t (fork false l w r) h2) true

  pub Holds-lowered : Holds lowered (down_left false w r ∷ path) (fork true t q l)
  Holds-lowered =
      Holds-into_left lowered false w path (fork true t q l) r (
        Holds-rotate_left (paint (paint s w false) q true) path true t q false l w r
          Holds-repainted)

  lowered_leaf : lowered.leaf ≡ s.leaf
  unfolding left_rotate left_rotate_at replace_left paint
  lowered_leaf = refl

  lowered_parent : lowered.parent s.leaf ≡ s.parent s.leaf
  unfolding paint
  lowered_parent =
      leaf_parent-left_rotate (paint (paint s w false) q true) path true t q false l w r
        Holds-repainted

  pub lowered-Back : Back lowered (down_left true q l ∷ down_left false w r ∷ path) t
  lowered-Back =
      Back-keep s lowered (down_left c q (fork d l w r)) (down_left true q l) path
        (down_left false w r ∷ path) t lowered_leaf lowered_parent refl back

  lowered_up : lowered.parent p' ≡ q
  lowered_up =
      subst (λ x. lowered.parent (top x t) ≡ q) lowered_leaf
        (Back-top lowered (down_left true q l) (down_left false w r ∷ path) t
          (Holds-into_left lowered true q (down_left false w r ∷ path) t l Holds-lowered)
          lowered-Back)

  red_sibling : d ≡ true → fixup_left s p' ≡ after_left lowered p' (top s.leaf l)
  unfolding fixup_left red_sibling_left
  red_sibling e =
      let new = right_top lowered (down_left false w r ∷ path) true t q l Holds-lowered in
      rw
        (
          up',
          right_top s path c t q (fork d l w r) h,
          sibling_red,
          e,
          lowered_up,
          new,
          lowered_leaf,
        )
        refl

-- What a round of the loop leads to.
module _ (s : Shape) (path : Way) (t : Tree) (c : Bool) (q : ℕ) where
  pub moved_left :
      (l : Tree) (w : ℕ) (r : Tree)
      → Holds s path (fork c t q (fork false l w r))
      → Back s (down_left c q (fork false l w r) ∷ path) t
      → is_red l ≡ false
      → is_red r ≡ false
      → StepTo (fixup_step s (top s.leaf t)) q path (fork c t q (fork true l w r))
  moved_left l w r h back el er =
      let up = up' s path t c q false l w r h back in
      (
        paint s w true,
        to_left s path t c q false l w r h back
            ∙ black_sibling s path t c q false l w r h back refl
            ∙ both_black s path t c q l w r h (top s.leaf t) up el er,
        Holds-both_black s path t c q l w r h (top s.leaf t) up,
      )

  pub far_left :
      (l : Tree) (w : ℕ) (a : Tree) (v : ℕ) (b : Tree)
      → Holds s path (fork c t q (fork false l w (fork true a v b)))
      → Back s (down_left c q (fork false l w (fork true a v b)) ∷ path) t
      → Done (fixup_step s (top s.leaf t)) path (fork c (fork false t q l) w (fork false a v b))
  far_left l w a v b h back =
      let (s', run, h') =
        far_done s path t c q l w a v b h (top s.leaf t)
          (up' s path t c q false l w (fork true a v b) h back) in
      (
        s',
        to_left s path t c q false l w (fork true a v b) h back
            ∙ black_sibling s path t c q false l w (fork true a v b) h back refl
            ∙ run,
        h',
      )

  pub near_left :
      (a : Tree) (v : ℕ) (b : Tree) (w : ℕ) (r : Tree)
      → Holds s path (fork c t q (fork false (fork true a v b) w r))
      → Back s (down_left c q (fork false (fork true a v b) w r) ∷ path) t
      → is_red r ≡ false
      → Done (fixup_step s (top s.leaf t)) path (fork c (fork false t q a) v (fork false b w r))
  near_left a v b w r h back er =
      let (s', run, h') = near_done s path t c q a v b w r h back er in
      (
        s',
        to_left s path t c q false (fork true a v b) w r h back
            ∙ black_sibling s path t c q false (fork true a v b) w r h back refl
            ∙ run,
        h',
      )

-- The same behind a red sibling, whose nearer child is the new sibling.
module _ (s : Shape) (path : Way) (t : Tree) (c : Bool) (q : ℕ) (w : ℕ) (r : Tree) where
  pub moved_red_left :
      (l : Tree) (v : ℕ) (m : Tree)
      → Holds s path (fork c t q (fork true (fork false l v m) w r))
      → Back s (down_left c q (fork true (fork false l v m) w r) ∷ path) t
      → is_red l ≡ false
      → is_red m ≡ false
      → StepTo
          (fixup_step s (top s.leaf t))
          q
          (down_left false w r ∷ path)
          (fork true t q (fork true l v m))
  moved_red_left l v m h back el em =
      let s' = lowered s path t c q true (fork false l v m) w r h back in
      let h' = Holds-lowered s path t c q true (fork false l v m) w r h back in
      let up = lowered_up s path t c q true (fork false l v m) w r h back in
      (
        paint s' v true,
        to_left s path t c q true (fork false l v m) w r h back
            ∙ red_sibling s path t c q true (fork false l v m) w r h back refl
            ∙ both_black s' (down_left false w r ∷ path) t true q l v m h' (top s.leaf t) up el em,
        Holds-both_black s' (down_left false w r ∷ path) t true q l v m h' (top s.leaf t) up,
      )

  pub far_red_left :
      (l : Tree) (v : ℕ) (a : Tree) (u : ℕ) (b : Tree)
      → Holds s path (fork c t q (fork true (fork false l v (fork true a u b)) w r))
      → Back s (down_left c q (fork true (fork false l v (fork true a u b)) w r) ∷ path) t
      → Done
          (fixup_step s (top s.leaf t))
          (down_left false w r ∷ path)
          (fork true (fork false t q l) v (fork false a u b))
  far_red_left l v a u b h back =
      let x = fork false l v (fork true a u b) in
      let (s', run, h') =
        far_done (lowered s path t c q true x w r h back) (down_left false w r ∷ path) t true q l v
          a u b (Holds-lowered s path t c q true x w r h back) (top s.leaf t)
          (lowered_up s path t c q true x w r h back) in
      (
        s',
        to_left s path t c q true x w r h back
            ∙ red_sibling s path t c q true x w r h back refl
            ∙ run,
        h',
      )

  pub near_red_left :
      (a : Tree) (u : ℕ) (b : Tree) (v : ℕ) (m : Tree)
      → Holds s path (fork c t q (fork true (fork false (fork true a u b) v m) w r))
      → Back s (down_left c q (fork true (fork false (fork true a u b) v m) w r) ∷ path) t
      → is_red m ≡ false
      → Done
          (fixup_step s (top s.leaf t))
          (down_left false w r ∷ path)
          (fork true (fork false t q a) u (fork false b v m))
  near_red_left a u b v m h back em =
      let x = fork false (fork true a u b) v m in
      let s0 = lowered s path t c q true x w r h back in
      let (s', run, h') =
        near_done s0 (down_left false w r ∷ path) t true q a u b v m
          (Holds-lowered s path t c q true x w r h back)
          (lowered-Back s path t c q true x w r h back) em in
      (
        s',
        to_left s path t c q true x w r h back
            ∙ red_sibling s path t c q true x w r h back refl
            ∙ ap (λ leaf. after_left s0 (top leaf t) v)
                (sym (lowered_leaf s path t c q true x w r h back))
            ∙ run,
        h',
      )
