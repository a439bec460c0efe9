-- ===== src/RbTree/Fixup.antt =====
-- libyod/rbtree.c: the loop of del that restores the balance.
use libyod.Prelude.{
  ℕ, zero, suc, true, false, not, ◌&&◌, Option, none, some, ◌==◌, if◌then◌else◌, ◌>>=◌,
}
use libyod.RbTree.Shape.{Shape, left_rotate, right_rotate, paint}

-- `if (w->color)`, where `w` is the sibling on the right: the tree and the sibling behind it.
unfoldable pub red_sibling_left : Shape → ℕ → Shape × ℕ
red_sibling_left s p =
    let q = s.parent p in
    let w = s.right q in
    let s' = left_rotate (paint (paint s w false) q true) q in
    if s.red w then (s', s'.right (s'.parent p)) else (s, w)

unfoldable pub red_sibling_right : Shape → ℕ → Shape × ℕ
red_sibling_right s p =
    let q = s.parent p in
    let w = s.left q in
    let s' = right_rotate (paint (paint s w false) q true) q in
    if s.red w then (s', s'.left (s'.parent p)) else (s, w)

-- `if (!w->right->color)`
unfoldable pub turn_sibling_left : Shape → ℕ → ℕ → Shape × ℕ
turn_sibling_left s p w =
    let s' = right_rotate (paint (paint s (s.left w) false) w true) w in
    if s.red (s.right w) then (s, w) else (s', s'.right (s'.parent p))

-- `if (!w->left->color)`
unfoldable pub turn_sibling_right : Shape → ℕ → ℕ → Shape × ℕ
turn_sibling_right s p w =
    let s' = left_rotate (paint (paint s (s.right w) false) w true) w in
    if s.red (s.left w) then (s, w) else (s', s'.left (s'.parent p))

-- The last rotation, behind which `p` is the root.
unfoldable pub finish_left : Shape → ℕ → ℕ → Shape
finish_left s p w =
    let s1 = paint s w (s.red (s.parent p)) in
    let s2 = paint s1 (s1.parent p) false in
    let s3 = paint s2 (s2.right w) false in left_rotate s3 (s3.parent p)

unfoldable pub finish_right : Shape → ℕ → ℕ → Shape
finish_right s p w =
    let s1 = paint s w (s.red (s.parent p)) in
    let s2 = paint s1 (s1.parent p) false in
    let s3 = paint s2 (s2.left w) false in right_rotate s3 (s3.parent p)

-- One round, where `p` is the left child.
unfoldable pub fixup_left : Shape → ℕ → Shape × ℕ
fixup_left s p =
    let (s', w) = red_sibling_left s p in
    let (s'', w') = turn_sibling_left s' p w in
    let s3 = finish_left s'' p w' in
    if not (s'.red (s'.left w)) && not (s'.red (s'.right w))
    then (paint s' w true, s'.parent p)
    else (s3, s3.root)

unfoldable pub fixup_right : Shape → ℕ → Shape × ℕ
fixup_right s p =
    let (s', w) = red_sibling_right s p in
    let (s'', w') = turn_sibling_right s' p w in
    let s3 = finish_right s'' p w' in
    if not (s'.red (s'.left w)) && not (s'.red (s'.right w))
    then (paint s' w true, s'.parent p)
    else (s3, s3.root)

unfoldable pub fixup_step : Shape → ℕ → Shape × ℕ
fixup_step s p = if p == s.left (s.parent p) then fixup_left s p else fixup_right s p

-- `while (p != self->root && !p->color)`
unfoldable pub fixup_loop : ℕ → Shape → ℕ → Option (Shape × ℕ)
fixup_loop zero s p = none
fixup_loop (suc fuel) s p = elim (p == s.root) [
  | true ↦ some (s, p)
  | false ↦ elim (s.red p) [
    | true ↦ some (s, p)
    | false ↦ let (s', p') = fixup_step s p in fixup_loop fuel s' p'
  ]
]

-- The loop, and `if (p != NULL) p->color = 0;`
unfoldable pub fixup : ℕ → Shape → ℕ → Option Shape
fixup fuel s p = do (s', p') ← fixup_loop fuel s p; some (if p' == 0 then s' else paint s' p' false)
