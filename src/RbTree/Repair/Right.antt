-- ===== src/RbTree/Repair/Right.antt =====
-- libyod/rbtree.c: the rounds of the loop of del where the node is a right child.
use libyod.Prelude.{
  ℕ, ◌≡◌, refl, sym, ap, ◌∙◌, subst, ◌≢◌, Bool, true, false, not, ◌&&◌, ◌∷◌, arith, ◌==◌,
  if◌then◌else◌,
}
use libyod.RbTree.Shape.{
  Shape, paint, right_rotate, right_rotate_at, left_rotate, left_rotate_at, replace_right,
  replace_left,
}
use libyod.RbTree.Fixup.{
  red_sibling_right, turn_sibling_right, finish_right, fixup_right, fixup_step,
}
use libyod.RbTree.Tree.{Tree, fork, down_right, down_left, Way, top}
use libyod.RbTree.Holds.{
  is_red, Holds, right_top, left_top, red_top, Holds-paint, Holds-up_right, Holds-up_left,
  Holds-into_right, Holds-into_left, Holds-rotate_right, Holds-rotate_left,
}
use libyod.RbTree.Rebalance.{StepTo}
use libyod.RbTree.Repair.{
  apart_sibling, Done, Back, Back-top, Back-keep, leaf_parent-right_rotate, leaf_parent-left_rotate,
}

ne_eq : (m n : ℕ) → m ≢ n → (m == n) ≡ false
ne_eq m n ne = ground arith

-- The last rotation.
module _ (s : Shape) (path : Way) (t : Tree) (c : Bool) (q : ℕ) (d : Bool) (l : Tree) (w : ℕ)
    (e : Bool) (a : Tree) (v : ℕ) (b : Tree)
    (h : Holds s path (fork c (fork d (fork e b v a) w l) q t)) (p : ℕ) (up : s.parent p ≡ q) where
  abbrev finished : Shape
  finished = right_rotate (paint (paint (paint s w c) q false) v false) q

  sibling : Holds s (down_left c q t ∷ path) (fork d (fork e b v a) w l)
  sibling = Holds-into_left s c q path (fork d (fork e b v a) w l) t h

  finish : finish_right s p w ≡ finished
  unfolding finish_right paint
  finish =
      rw (up, h.at.0.0.2, left_top s (down_left c q t ∷ path) d (fork e b v a) w l sibling) refl

  Holds-finished : Holds finished path (fork c (fork false b v a) w (fork false l q t))
  Holds-finished =
      let s1 = paint s w c in
      let s2 = paint s1 q false in
      let s3 = paint s2 v false in
      let h1 = Holds-paint s (down_left c q t ∷ path) d (fork e b v a) w l sibling c in
      let h2 =
        Holds-paint s1 path c (fork c (fork e b v a) w l) q t
          (Holds-up_left s1 c q path (fork c (fork e b v a) w l) t h1) false in
      let h3 = Holds-into_left s2 false q path (fork c (fork e b v a) w l) t h2 in
      let h4 = Holds-into_left s2 c w (down_left false q t ∷ path) (fork e b v a) l h3 in
      let h5 = Holds-paint s2 (down_left c w l ∷ down_left false q t ∷ path) e b v a h4 false in
      let h6 = Holds-up_left s3 c w (down_left false q t ∷ path) (fork false b v a) l h5 in
      let h7 = Holds-up_left s3 false q path (fork c (fork false b v a) w l) t h6 in
      Holds-rotate_right s3 path false c (fork false b v a) w l q t h7

-- A round behind the case of a red sibling.
abbrev after_right : Shape → ℕ → ℕ → Shape × ℕ
after_right s p w =
    let (s', w') = turn_sibling_right s p w in
    let s3 = finish_right s' p w' in
    if not (s.red (s.left w)) && not (s.red (s.right w))
    then (paint s w true, s.parent p)
    else (s3, s3.root)

module _ (s : Shape) (path : Way) (t : Tree) (c : Bool) (q : ℕ) (l : Tree) (w : ℕ) (r : Tree)
    (h : Holds s path (fork c (fork false r w l) q t)) (p : ℕ) (up : s.parent p ≡ q) where
  sibling' : Holds s (down_left c q t ∷ path) (fork false r w l)
  sibling' = Holds-into_left s c q path (fork false r w l) t h

  near_red : s.red (s.right w) ≡ is_red l
  near_red =
      ap s.red (right_top s (down_left c q t ∷ path) false r w l sibling')
      ∙ red_top s (down_right false r w ∷ down_left c q t ∷ path) l
          (Holds-into_right s false w (down_left c q t ∷ path) r l sibling')

  far_red : s.red (s.left w) ≡ is_red r
  far_red =
      ap s.red (left_top s (down_left c q t ∷ path) false r w l sibling')
      ∙ red_top s (down_left false w l ∷ down_left c q t ∷ path) r
          (Holds-into_left s false w (down_left c q t ∷ path) r l sibling')

  both_black : is_red l ≡ false → is_red r ≡ false → after_right s p w ≡ (paint s w true, q)
  both_black el er = rw (near_red, far_red, el, er, up) refl

  Holds-both_black : Holds (paint s w true) path (fork c (fork true r w l) q t)
  Holds-both_black =
      Holds-up_left (paint s w true) c q path (fork true r w l) t
        (Holds-paint s (down_left c q t ∷ path) false r w l sibling' true)

  one_red :
      (s' : Shape) (w' : ℕ) (s3 : Shape)
      → (not (is_red r) && not (is_red l)) ≡ false
      → turn_sibling_right s p w ≡ (s', w')
      → finish_right s' p w' ≡ s3
      → after_right s p w ≡ (s3, s3.root)
  one_red s' w' s3 which run run' = rw (near_red, far_red, which, run, run') refl

-- The farther child of the sibling is red.
module _ (s : Shape) (path : Way) (t : Tree) (c : Bool) (q : ℕ) (l : Tree) (w : ℕ) (a : Tree)
    (v : ℕ) (b : Tree) (h : Holds s path (fork c (fork false (fork true b v a) w l) q t)) (p : ℕ)
    (up : s.parent p ≡ q) where
  far_done :
      (s' : Shape) × (after_right s p w ≡ (s', s'.root))
      × Holds s' path (fork c (fork false b v a) w (fork false l q t))
  unfolding turn_sibling_right
  far_done =
      let s3 = finished s path t c q false l w true a v b h p up in
      let far = far_red s path t c q l w (fork true b v a) h p up in
      (
        s3,
        one_red s path t c q l w (fork true b v a) h p up s w s3 (ground arith) (rw far refl)
            (finish s path t c q false l w true a v b h p up),
        Holds-finished s path t c q false l w true a v b h p up,
      )

-- The nearer child of the sibling is red, and the farther one is black.
module _ (s : Shape) (path : Way) (t : Tree) (c : Bool) (q : ℕ) (a : Tree) (v : ℕ) (b : Tree)
    (w : ℕ) (r : Tree) (h : Holds s path (fork c (fork false r w (fork true b v a)) q t))
    (back : Back s (down_right c (fork false r w (fork true b v a)) q ∷ path) t)
    (black_r : is_red r ≡ false) where
  abbrev p : ℕ
  p = top s.leaf t

  here : Holds s (down_right c (fork false r w (fork true b v a)) q ∷ path) t
  here = Holds-into_right s c q path (fork false r w (fork true b v a)) t h

  up : s.parent p ≡ q
  up = Back-top s (down_right c (fork false r w (fork true b v a)) q) path t here back

  abbrev turned : Shape
  turned = left_rotate (paint (paint s v false) w true) w

  Holds-painted :
      Holds
        (paint (paint s v false) w true)
        (down_left c q t ∷ path)
        (fork true r w (fork false b v a))
  Holds-painted =
      let s1 = paint s v false in
      let h1 = Holds-into_left s c q path (fork false r w (fork true b v a)) t h in
      let h2 = Holds-into_right s false w (down_left c q t ∷ path) r (fork true b v a) h1 in
      let h3 = Holds-paint s (down_right false r w ∷ down_left c q t ∷ path) true b v a h2 false in
      let h4 = Holds-up_right s1 false w (down_left c q t ∷ path) r (fork false b v a) h3 in
      Holds-paint s1 (down_left c q t ∷ path) false r w (fork false b v a) h4 true

  Holds-turned : Holds turned path (fork c (fork false (fork true r w b) v a) q t)
  Holds-turned = Holds-up_left turned c q path (fork false (fork true r w b) v a) t (
      Holds-rotate_left (paint (paint s v false) w true) (down_left c q t ∷ path) true r w false b v
        a Holds-painted)

  turned_leaf : turned.leaf ≡ s.leaf
  unfolding left_rotate left_rotate_at replace_left paint
  turned_leaf = refl

  turned_parent : turned.parent s.leaf ≡ s.parent s.leaf
  unfolding paint
  turned_parent =
      leaf_parent-left_rotate (paint (paint s v false) w true) (down_left c q t ∷ path) true r w
        false b v a Holds-painted

  turned_up : turned.parent p ≡ q
  turned_up =
      let step = down_right c (fork false (fork true r w b) v a) q in
      let keep =
        Back-keep s turned (down_right c (fork false r w (fork true b v a)) q) step path path t
          turned_leaf turned_parent refl back in
      subst (λ x. turned.parent (top x t) ≡ q) turned_leaf
        (Back-top turned step path t
          (Holds-into_right turned c q path (fork false (fork true r w b) v a) t Holds-turned) keep)

  turn : turn_sibling_right s p w ≡ (turned, v)
  unfolding turn_sibling_right
  turn =
      let far = far_red s path t c q (fork true b v a) w r h p up in
      let near =
        right_top s (down_left c q t ∷ path) false r w (fork true b v a)
          (Holds-into_left s c q path (fork false r w (fork true b v a)) t h) in
      let new = left_top turned path c (fork false (fork true r w b) v a) q t Holds-turned in
      rw (far, black_r, near, turned_up, new) refl

  near_done :
      (s' : Shape) × (after_right s p w ≡ (s', s'.root))
      × Holds s' path (fork c (fork false r w b) v (fork false a q t))
  near_done =
      let s3 = finished turned path t c q false a v true b w r Holds-turned p turned_up in
      (
        s3,
        one_red s path t c q (fork true b v a) w r h p up turned v s3 (ground arith) turn
            (finish turned path t c q false a v true b w r Holds-turned p turned_up),
        Holds-finished turned path t c q false a v true b w r Holds-turned p turned_up,
      )

-- The rest of a round follows the case of a red sibling.
module _ (s : Shape) (path : Way) (t : Tree) (c : Bool) (q : ℕ) (d : Bool) (l : Tree) (w : ℕ)
    (r : Tree) (h : Holds s path (fork c (fork d r w l) q t))
    (back : Back s (down_right c (fork d r w l) q ∷ path) t) where
  abbrev p' : ℕ
  p' = top s.leaf t

  up' : s.parent p' ≡ q
  up' =
      Back-top s (down_right c (fork d r w l) q) path t
        (Holds-into_right s c q path (fork d r w l) t h) back

  to_right : fixup_step s p' ≡ fixup_right s p'
  unfolding fixup_step
  to_right =
      let child = left_top s path c (fork d r w l) q t h in
      let e : (p' == s.left (s.parent p')) ≡ false =
        rw (up', child) (ne_eq (top s.leaf t) w (apart_sibling s path c d r w l q t h)) in
      rw e refl

  sibling_red : s.red w ≡ d
  sibling_red = (Holds-into_left s c q path (fork d r w l) t h).at.0.0.2

  kept : d ≡ false → red_sibling_right s p' ≡ (s, w)
  unfolding red_sibling_right
  kept e = rw (up', left_top s path c (fork d r w l) q t h, sibling_red, e) refl

  black_sibling : d ≡ false → fixup_right s p' ≡ after_right s p' w
  unfolding fixup_right
  black_sibling e = rw (kept e) refl

  abbrev lowered : Shape
  lowered = right_rotate (paint (paint s w false) q true) q

  Holds-repainted : Holds (paint (paint s w false) q true) path (fork true (fork false r w l) q t)
  Holds-repainted =
      let s1 = paint s w false in
      let h1 = Holds-into_left s c q path (fork d r w l) t h in
      let h2 = Holds-paint s (down_left c q t ∷ path) d r w l h1 false in
      Holds-paint s1 path c (fork false r w l) q t
        (Holds-up_left s1 c q path (fork false r w l) t h2) true

  pub Holds-lowered : Holds lowered (down_right false r w ∷ path) (fork true l q t)
  Holds-lowered = Holds-into_right lowered false w path r (fork true l q t) (
      Holds-rotate_right (paint (paint s w false) q true) path true false r w l q t Holds-repainted)

  lowered_leaf : lowered.leaf ≡ s.leaf
  unfolding right_rotate right_rotate_at replace_right paint
  lowered_leaf = refl

  lowered_parent : lowered.parent s.leaf ≡ s.parent s.leaf
  unfolding paint
  lowered_parent =
      leaf_parent-right_rotate (paint (paint s w false) q true) path true false r w l q t
        Holds-repainted

  pub lowered-Back : Back lowered (down_right true l q ∷ down_right false r w ∷ path) t
  lowered-Back =
      Back-keep s lowered (down_right c (fork d r w l) q) (down_right true l q) path
        (down_right false r w ∷ path) t lowered_leaf lowered_parent refl back

  lowered_up : lowered.parent p' ≡ q
  lowered_up =
      subst (λ x. lowered.parent (top x t) ≡ q) lowered_leaf
        (Back-top lowered (down_right true l q) (down_right false r w ∷ path) t
          (Holds-into_right lowered true q (down_right false r w ∷ path) l t Holds-lowered)
          lowered-Back)

  red_sibling : d ≡ true → fixup_right s p' ≡ after_right lowered p' (top s.leaf l)
  unfolding fixup_right red_sibling_right
  red_sibling e =
      let new = left_top lowered (down_right false r w ∷ path) true l q t Holds-lowered in
      rw
        (up', left_top s path c (fork d r w l) q t h, sibling_red, e, lowered_up, new, lowered_leaf)
        refl

-- What a round of the loop leads to.
module _ (s : Shape) (path : Way) (t : Tree) (c : Bool) (q : ℕ) where
  pub moved_right :
      (l : Tree) (w : ℕ) (r : Tree)
      → Holds s path (fork c (fork false r w l) q t)
      → Back s (down_right c (fork false r w l) q ∷ path) t
      → is_red l ≡ false
      → is_red r ≡ false
      → StepTo (fixup_step s (top s.leaf t)) q path (fork c (fork true r w l) q t)
  moved_right l w r h back el er =
      let up = up' s path t c q false l w r h back in
      (
        paint s w true,
        to_right s path t c q false l w r h back
            ∙ black_sibling s path t c q false l w r h back refl
            ∙ both_black s path t c q l w r h (top s.leaf t) up el er,
        Holds-both_black s path t c q l w r h (top s.leaf t) up,
      )

  pub far_right :
      (l : Tree) (w : ℕ) (a : Tree) (v : ℕ) (b : Tree)
      → Holds s path (fork c (fork false (fork true b v a) w l) q t)
      → Back s (down_right c (fork false (fork true b v a) w l) q ∷ path) t
      → Done (fixup_step s (top s.leaf t)) path (fork c (fork false b v a) w (fork false l q t))
  far_right l w a v b h back =
      let (s', run, h') =
        far_done s path t c q l w a v b h (top s.leaf t)
          (up' s path t c q false l w (fork true b v a) h back) in
      (
        s',
        to_right s path t c q false l w (fork true b v a) h back
            ∙ black_sibling s path t c q false l w (fork true b v a) h back refl
            ∙ run,
        h',
      )

  pub near_right :
      (a : Tree) (v : ℕ) (b : Tree) (w : ℕ) (r : Tree)
      → Holds s path (fork c (fork false r w (fork true b v a)) q t)
      → Back s (down_right c (fork false r w (fork true b v a)) q ∷ path) t
      → is_red r ≡ false
      → Done (fixup_step s (top s.leaf t)) path (fork c (fork false r w b) v (fork false a q t))
  near_right a v b w r h back er =
      let (s', run, h') = near_done s path t c q a v b w r h back er in
      (
        s',
        to_right s path t c q false (fork true b v a) w r h back
            ∙ black_sibling s path t c q false (fork true b v a) w r h back refl
            ∙ run,
        h',
      )

-- The same behind a red sibling, whose nearer child is the new sibling.
module _ (s : Shape) (path : Way) (t : Tree) (c : Bool) (q : ℕ) (w : ℕ) (r : Tree) where
  pub moved_red_right :
      (l : Tree) (v : ℕ) (m : Tree)
      → Holds s path (fork c (fork true r w (fork false m v l)) q t)
      → Back s (down_right c (fork true r w (fork false m v l)) q ∷ path) t
      → is_red l ≡ false
      → is_red m ≡ false
      → StepTo
          (fixup_step s (top s.leaf t))
          q
          (down_right false r w ∷ path)
          (fork true (fork true m v l) q t)
  moved_red_right l v m h back el em =
      let s' = lowered s path t c q true (fork false m v l) w r h back in
      let h' = Holds-lowered s path t c q true (fork false m v l) w r h back in
      let up = lowered_up s path t c q true (fork false m v l) w r h back in
      (
        paint s' v true,
        to_right s path t c q true (fork false m v l) w r h back
            ∙ red_sibling s path t c q true (fork false m v l) w r h back refl
            ∙ both_black s' (down_right false r w ∷ path) t true q l v m h' (top s.leaf t) up el em,
        Holds-both_black s' (down_right false r w ∷ path) t true q l v m h' (top s.leaf t) up,
      )

  pub far_red_right :
      (l : Tree) (v : ℕ) (a : Tree) (u : ℕ) (b : Tree)
      → Holds s path (fork c (fork true r w (fork false (fork true b u a) v l)) q t)
      → Back s (down_right c (fork true r w (fork false (fork true b u a) v l)) q ∷ path) t
      → Done
          (fixup_step s (top s.leaf t))
          (down_right false r w ∷ path)
          (fork true (fork false b u a) v (fork false l q t))
  far_red_right l v a u b h back =
      let x = fork false (fork true b u a) v l in
      let (s', run, h') =
        far_done (lowered s path t c q true x w r h back) (down_right false r w ∷ path) t true q l v
          a u b (Holds-lowered s path t c q true x w r h back) (top s.leaf t)
          (lowered_up s path t c q true x w r h back) in
      (
        s',
        to_right s path t c q true x w r h back
            ∙ red_sibling s path t c q true x w r h back refl
            ∙ run,
        h',
      )

  pub near_red_right :
      (a : Tree) (u : ℕ) (b : Tree) (v : ℕ) (m : Tree)
      → Holds s path (fork c (fork true r w (fork false m v (fork true b u a))) q t)
      → Back s (down_right c (fork true r w (fork false m v (fork true b u a))) q ∷ path) t
      → is_red m ≡ false
      → Done
          (fixup_step s (top s.leaf t))
          (down_right false r w ∷ path)
          (fork true (fork false m v b) u (fork false a q t))
  near_red_right a u b v m h back em =
      let x = fork false m v (fork true b u a) in
      let s0 = lowered s path t c q true x w r h back in
      let (s', run, h') =
        near_done s0 (down_right false r w ∷ path) t true q a u b v m
          (Holds-lowered s path t c q true x w r h back)
          (lowered-Back s path t c q true x w r h back) em in
      (
        s',
        to_right s path t c q true x w r h back
            ∙ red_sibling s path t c q true x w r h back refl
            ∙ ap (λ leaf. after_right s0 (top leaf t) v)
                (sym (lowered_leaf s path t c q true x w r h back))
            ∙ run,
        h',
      )
