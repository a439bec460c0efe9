-- ===== src/RbTree/Repair/Loop.antt =====
-- libyod/rbtree.c: the loop of del that restores the balance ends, and leaves a red-black tree.
use libyod.Prelude.{
  ℕ, zero, suc, ◌+◌, ◌<◌, ◌≡◌, refl, subst, Bool, true, false, ◌&&◌, [], ◌∷◌, arith, length,
}
use libyod.RbTree.Shape.{Shape}
use libyod.RbTree.Tree.{Tree, tip, fork, down_left, down_right, Way, plug, ids, ids-plug_congr, top}
use libyod.RbTree.Holds.{is_red, Holds, root_top}
use libyod.RbTree.Colors.{black, height, Bal, BalPath, Calm, CalmPath}
use libyod.RbTree.Fixup.{fixup}
use libyod.RbTree.Repair.{Back}
use libyod.RbTree.Repair.Ends.{Repaired, end_root, end_red, BalPath-at}
use libyod.RbTree.Repair.LeftCases.{
  moved_case_left, far_case_left, near_case_left, moved_red_case_left, far_red_case_left,
  near_red_case_left,
}
use libyod.RbTree.Repair.RightCases.{
  moved_case_right, far_case_right, near_case_right, moved_red_case_right, far_red_case_right,
  near_red_case_right,
}

Back-fork :
    (s : Shape) (path : Way) (c : Bool) (l : Tree) (a : ℕ) (r : Tree) → Back s path (fork c l a r)
Back-fork s [] c l a r = tt
Back-fork s (step ∷ path) c l a r = tt

quiet_false : (c d : Bool) → c ≡ false → (c && d) ≡ false
quiet_false c d e = ground arith

quiet_true : (c : Bool) → (c && true) ≡ false → c ≡ false
quiet_true c e = ground arith

red_black : true ≡ false → ⊥
red_black e = ground arith

-- A red node ends the loop.
red_or :
    (s : Shape) (path : Way) (fuel : ℕ) (t : Tree)
    → 0 < fuel
    → Holds s path t
    → Bal t
    → BalPath (height t + 1) path
    → Calm t
    → CalmPath false path
    → (is_red t ≡ false → Repaired (fixup fuel s (top s.leaf t)) (ids (plug path t)))
    → Repaired (fixup fuel s (top s.leaf t)) (ids (plug path t))
red_or s path fuel tip pos h bal bal_path calm calm_path k = k refl
red_or s path fuel (fork false l a r) pos h bal bal_path calm calm_path k = k refl
red_or s path fuel (fork true l a r) pos h bal bal_path (_, calm_l, calm_r) calm_path k =
    end_red fuel pos s path true l a r (ids (plug path (fork true l a r))) refl h bal
      (BalPath-at path _ _ (omega arith) bal_path) (calm_l, calm_r) calm_path
      (ids-plug_congr path (fork false l a r) (fork true l a r) refl)

-- From a node at the top of a red-black subtree that has one black node too few on each way down, the
-- loop of `del` ends in at most as many rounds as there are nodes above the node, and one more: the
-- memory has a tree with the same nodes in the same order, equal black heights, no red child of a red
-- node and a black root. Where the subtree has no node, the leaf points at the node above it.
pub fixup_lem :
    (path : Way) (fuel : ℕ) (s : Shape) (t : Tree)
    → Holds s path t
    → Back s path t
    → Bal t
    → BalPath (height t + 1) path
    → Calm t
    → CalmPath false path
    → length path < fuel
    → Repaired (fixup fuel s (top s.leaf t)) (ids (plug path t))
fixup_lem path zero s t h back bal bal_path calm calm_path enough = absurd (omega arith)
fixup_lem [] (suc fuel) s t h back bal bal_path calm calm_path enough =
    subst (λ p. Repaired (fixup (suc fuel) s p) (ids t)) (root_top s t h)
      (end_root (suc fuel) (omega arith) s t (ids t) h bal calm refl)
fixup_lem (down_left c q tip ∷ path) (suc fuel) s t h back bal bal_path calm calm_path enough =
    absurd (let e = bal_path.0 in omega arith)
fixup_lem (down_left c q (fork true tip w r) ∷ path) (suc fuel) s t h back bal bal_path calm
      calm_path enough =
    absurd (let e = bal_path.0 in let e_w = bal_path.1.0 in omega arith)
fixup_lem (down_left c q (fork true (fork true a1 v1 b1) w r) ∷ path) (suc fuel) s t h back bal
      bal_path calm calm_path enough =
    absurd (red_black calm_path.1.0.0)
fixup_lem (down_left c q (fork true (fork false tip v tip) w r) ∷ path) (suc fuel) s t h back bal
      bal_path calm calm_path enough =
    red_or s (down_left c q (fork true (fork false tip v tip) w r) ∷ path) (suc fuel) t
      (omega arith) h bal bal_path calm calm_path
      (λ black_t.
        moved_red_case_left s path fuel (omega arith) t c q black_t bal calm tip v tip w r h back
          refl refl (quiet_true c calm_path.0.1) bal_path calm_path)
fixup_lem (down_left c q (fork true (fork false tip v (fork false a2 v2 b2)) w r) ∷ path) (suc fuel)
      s t h back bal bal_path calm calm_path enough =
    red_or s (down_left c q (fork true (fork false tip v (fork false a2 v2 b2)) w r) ∷ path)
      (suc fuel) t (omega arith) h bal bal_path calm calm_path
      (λ black_t.
        moved_red_case_left s path fuel (omega arith) t c q black_t bal calm tip v
          (fork false a2 v2 b2) w r h back refl refl (quiet_true c calm_path.0.1) bal_path
          calm_path)
fixup_lem (down_left c q (fork true (fork false (fork false a1 v1 b1) v tip) w r) ∷ path) (suc fuel)
      s t h back bal bal_path calm calm_path enough =
    red_or s (down_left c q (fork true (fork false (fork false a1 v1 b1) v tip) w r) ∷ path)
      (suc fuel) t (omega arith) h bal bal_path calm calm_path
      (λ black_t.
        moved_red_case_left s path fuel (omega arith) t c q black_t bal calm (fork false a1 v1 b1) v
          tip w r h back refl refl (quiet_true c calm_path.0.1) bal_path calm_path)
fixup_lem
      (down_left c q (fork true (fork false (fork false a1 v1 b1) v (fork false a2 v2 b2)) w r)
        ∷ path)
      (suc fuel) s t h back bal bal_path calm calm_path enough =
    red_or s
      (down_left c q (fork true (fork false (fork false a1 v1 b1) v (fork false a2 v2 b2)) w r)
        ∷ path)
      (suc fuel) t (omega arith) h bal bal_path calm calm_path
      (λ black_t.
        moved_red_case_left s path fuel (omega arith) t c q black_t bal calm (fork false a1 v1 b1) v
          (fork false a2 v2 b2) w r h back refl refl (quiet_true c calm_path.0.1) bal_path
          calm_path)
fixup_lem (down_left c q (fork true (fork false tip v (fork true a2 v2 b2)) w r) ∷ path) (suc fuel)
      s t h back bal bal_path calm calm_path enough =
    red_or s (down_left c q (fork true (fork false tip v (fork true a2 v2 b2)) w r) ∷ path)
      (suc fuel) t (omega arith) h bal bal_path calm calm_path
      (λ black_t.
        far_red_case_left s path fuel (omega arith) t c q black_t bal calm tip v a2 v2 b2 w r h back
          (quiet_true c calm_path.0.1) bal_path calm_path)
fixup_lem
      (down_left c q (fork true (fork false (fork false a1 v1 b1) v (fork true a2 v2 b2)) w r)
        ∷ path)
      (suc fuel) s t h back bal bal_path calm calm_path enough =
    red_or s
      (down_left c q (fork true (fork false (fork false a1 v1 b1) v (fork true a2 v2 b2)) w r)
        ∷ path)
      (suc fuel) t (omega arith) h bal bal_path calm calm_path
      (λ black_t.
        far_red_case_left s path fuel (omega arith) t c q black_t bal calm (fork false a1 v1 b1) v
          a2 v2 b2 w r h back (quiet_true c calm_path.0.1) bal_path calm_path)
fixup_lem
      (down_left c q (fork true (fork false (fork true a1 v1 b1) v (fork true a2 v2 b2)) w r)
        ∷ path)
      (suc fuel) s t h back bal bal_path calm calm_path enough =
    red_or s
      (down_left c q (fork true (fork false (fork true a1 v1 b1) v (fork true a2 v2 b2)) w r)
        ∷ path)
      (suc fuel) t (omega arith) h bal bal_path calm calm_path
      (λ black_t.
        far_red_case_left s path fuel (omega arith) t c q black_t bal calm (fork true a1 v1 b1) v a2
          v2 b2 w r h back (quiet_true c calm_path.0.1) bal_path calm_path)
fixup_lem (down_left c q (fork true (fork false (fork true a1 v1 b1) v tip) w r) ∷ path) (suc fuel)
      s t h back bal bal_path calm calm_path enough =
    red_or s (down_left c q (fork true (fork false (fork true a1 v1 b1) v tip) w r) ∷ path)
      (suc fuel) t (omega arith) h bal bal_path calm calm_path
      (λ black_t.
        near_red_case_left s path fuel (omega arith) t c q black_t bal calm a1 v1 b1 v tip w r h
          back refl (quiet_true c calm_path.0.1) bal_path calm_path)
fixup_lem
      (down_left c q (fork true (fork false (fork true a1 v1 b1) v (fork false a2 v2 b2)) w r)
        ∷ path)
      (suc fuel) s t h back bal bal_path calm calm_path enough =
    red_or s
      (down_left c q (fork true (fork false (fork true a1 v1 b1) v (fork false a2 v2 b2)) w r)
        ∷ path)
      (suc fuel) t (omega arith) h bal bal_path calm calm_path
      (λ black_t.
        near_red_case_left s path fuel (omega arith) t c q black_t bal calm a1 v1 b1 v
          (fork false a2 v2 b2) w r h back refl (quiet_true c calm_path.0.1) bal_path calm_path)
fixup_lem (down_left c q (fork false tip w tip) ∷ path) (suc fuel) s t h back bal bal_path calm
      calm_path enough =
    red_or s (down_left c q (fork false tip w tip) ∷ path) (suc fuel) t (omega arith) h bal bal_path
      calm calm_path
      (λ black_t.
        moved_case_left s path fuel (omega arith) t c q black_t bal calm tip w tip h back refl refl
          bal_path calm_path
          (λ s' h' dark.
            fixup_lem path fuel s' (fork c t q (fork true tip w tip)) h'
              (Back-fork s' path c t q (fork true tip w tip))
              (let e = bal_path.0 in (omega arith, bal, bal_path.1))
              (BalPath-at path (height t + 1 + black c) _ (omega arith) bal_path.2)
              (
                (quiet_false c (is_red t) dark, quiet_false c true dark),
                calm,
                ((refl, refl), calm_path.1.1, calm_path.1.2),
              )
              (subst (λ d. CalmPath d path) dark calm_path.2) (omega arith)))
fixup_lem (down_left c q (fork false tip w (fork false a2 v2 b2)) ∷ path) (suc fuel) s t h back bal
      bal_path calm calm_path enough =
    red_or s (down_left c q (fork false tip w (fork false a2 v2 b2)) ∷ path) (suc fuel) t
      (omega arith) h bal bal_path calm calm_path
      (λ black_t.
        moved_case_left s path fuel (omega arith) t c q black_t bal calm tip w (fork false a2 v2 b2)
          h back refl refl bal_path calm_path
          (λ s' h' dark.
            fixup_lem path fuel s' (fork c t q (fork true tip w (fork false a2 v2 b2))) h'
              (Back-fork s' path c t q (fork true tip w (fork false a2 v2 b2)))
              (let e = bal_path.0 in (omega arith, bal, bal_path.1))
              (BalPath-at path (height t + 1 + black c) _ (omega arith) bal_path.2)
              (
                (quiet_false c (is_red t) dark, quiet_false c true dark),
                calm,
                ((refl, refl), calm_path.1.1, calm_path.1.2),
              )
              (subst (λ d. CalmPath d path) dark calm_path.2) (omega arith)))
fixup_lem (down_left c q (fork false (fork false a1 v1 b1) w tip) ∷ path) (suc fuel) s t h back bal
      bal_path calm calm_path enough =
    red_or s (down_left c q (fork false (fork false a1 v1 b1) w tip) ∷ path) (suc fuel) t
      (omega arith) h bal bal_path calm calm_path
      (λ black_t.
        moved_case_left s path fuel (omega arith) t c q black_t bal calm (fork false a1 v1 b1) w tip
          h back refl refl bal_path calm_path
          (λ s' h' dark.
            fixup_lem path fuel s' (fork c t q (fork true (fork false a1 v1 b1) w tip)) h'
              (Back-fork s' path c t q (fork true (fork false a1 v1 b1) w tip))
              (let e = bal_path.0 in (omega arith, bal, bal_path.1))
              (BalPath-at path (height t + 1 + black c) _ (omega arith) bal_path.2)
              (
                (quiet_false c (is_red t) dark, quiet_false c true dark),
                calm,
                ((refl, refl), calm_path.1.1, calm_path.1.2),
              )
              (subst (λ d. CalmPath d path) dark calm_path.2) (omega arith)))
fixup_lem (down_left c q (fork false (fork false a1 v1 b1) w (fork false a2 v2 b2)) ∷ path)
      (suc fuel) s t h back bal bal_path calm calm_path enough =
    red_or s (down_left c q (fork false (fork false a1 v1 b1) w (fork false a2 v2 b2)) ∷ path)
      (suc fuel) t (omega arith) h bal bal_path calm calm_path
      (λ black_t.
        moved_case_left s path fuel (omega arith) t c q black_t bal calm (fork false a1 v1 b1) w
          (fork false a2 v2 b2) h back refl refl bal_path calm_path
          (λ s' h' dark.
            fixup_lem path fuel s'
              (fork c t q (fork true (fork false a1 v1 b1) w (fork false a2 v2 b2))) h'
              (Back-fork s' path c t q (fork true (fork false a1 v1 b1) w (fork false a2 v2 b2)))
              (let e = bal_path.0 in (omega arith, bal, bal_path.1))
              (BalPath-at path (height t + 1 + black c) _ (omega arith) bal_path.2)
              (
                (quiet_false c (is_red t) dark, quiet_false c true dark),
                calm,
                ((refl, refl), calm_path.1.1, calm_path.1.2),
              )
              (subst (λ d. CalmPath d path) dark calm_path.2) (omega arith)))
fixup_lem (down_left c q (fork false tip w (fork true a2 v2 b2)) ∷ path) (suc fuel) s t h back bal
      bal_path calm calm_path enough =
    red_or s (down_left c q (fork false tip w (fork true a2 v2 b2)) ∷ path) (suc fuel) t
      (omega arith) h bal bal_path calm calm_path
      (λ black_t.
        far_case_left s path fuel (omega arith) t c q black_t bal calm tip w a2 v2 b2 h back
          bal_path calm_path)
fixup_lem (down_left c q (fork false (fork false a1 v1 b1) w (fork true a2 v2 b2)) ∷ path)
      (suc fuel) s t h back bal bal_path calm calm_path enough =
    red_or s (down_left c q (fork false (fork false a1 v1 b1) w (fork true a2 v2 b2)) ∷ path)
      (suc fuel) t (omega arith) h bal bal_path calm calm_path
      (λ black_t.
        far_case_left s path fuel (omega arith) t c q black_t bal calm (fork false a1 v1 b1) w a2 v2
          b2 h back bal_path calm_path)
fixup_lem (down_left c q (fork false (fork true a1 v1 b1) w (fork true a2 v2 b2)) ∷ path) (suc fuel)
      s t h back bal bal_path calm calm_path enough =
    red_or s (down_left c q (fork false (fork true a1 v1 b1) w (fork true a2 v2 b2)) ∷ path)
      (suc fuel) t (omega arith) h bal bal_path calm calm_path
      (λ black_t.
        far_case_left s path fuel (omega arith) t c q black_t bal calm (fork true a1 v1 b1) w a2 v2
          b2 h back bal_path calm_path)
fixup_lem (down_left c q (fork false (fork true a1 v1 b1) w tip) ∷ path) (suc fuel) s t h back bal
      bal_path calm calm_path enough =
    red_or s (down_left c q (fork false (fork true a1 v1 b1) w tip) ∷ path) (suc fuel) t
      (omega arith) h bal bal_path calm calm_path
      (λ black_t.
        near_case_left s path fuel (omega arith) t c q black_t bal calm a1 v1 b1 w tip h back refl
          bal_path calm_path)
fixup_lem (down_left c q (fork false (fork true a1 v1 b1) w (fork false a2 v2 b2)) ∷ path)
      (suc fuel) s t h back bal bal_path calm calm_path enough =
    red_or s (down_left c q (fork false (fork true a1 v1 b1) w (fork false a2 v2 b2)) ∷ path)
      (suc fuel) t (omega arith) h bal bal_path calm calm_path
      (λ black_t.
        near_case_left s path fuel (omega arith) t c q black_t bal calm a1 v1 b1 w
          (fork false a2 v2 b2) h back refl bal_path calm_path)
fixup_lem (down_right c tip q ∷ path) (suc fuel) s t h back bal bal_path calm calm_path enough =
    absurd (let e = bal_path.0 in omega arith)
fixup_lem (down_right c (fork true r w tip) q ∷ path) (suc fuel) s t h back bal bal_path calm
      calm_path enough =
    absurd (let e = bal_path.0 in let e_w = bal_path.1.0 in omega arith)
fixup_lem (down_right c (fork true r w (fork true b1 v1 a1)) q ∷ path) (suc fuel) s t h back bal
      bal_path calm calm_path enough =
    absurd (red_black calm_path.1.0.1)
fixup_lem (down_right c (fork true r w (fork false tip v tip)) q ∷ path) (suc fuel) s t h back bal
      bal_path calm calm_path enough =
    red_or s (down_right c (fork true r w (fork false tip v tip)) q ∷ path) (suc fuel) t
      (omega arith) h bal bal_path calm calm_path
      (λ black_t.
        moved_red_case_right s path fuel (omega arith) t c q black_t bal calm tip v tip w r h back
          refl refl (quiet_true c calm_path.0.0) bal_path calm_path)
fixup_lem (down_right c (fork true r w (fork false (fork false b2 v2 a2) v tip)) q ∷ path)
      (suc fuel) s t h back bal bal_path calm calm_path enough =
    red_or s (down_right c (fork true r w (fork false (fork false b2 v2 a2) v tip)) q ∷ path)
      (suc fuel) t (omega arith) h bal bal_path calm calm_path
      (λ black_t.
        moved_red_case_right s path fuel (omega arith) t c q black_t bal calm tip v
          (fork false b2 v2 a2) w r h back refl refl (quiet_true c calm_path.0.0) bal_path
          calm_path)
fixup_lem (down_right c (fork true r w (fork false tip v (fork false b1 v1 a1))) q ∷ path)
      (suc fuel) s t h back bal bal_path calm calm_path enough =
    red_or s (down_right c (fork true r w (fork false tip v (fork false b1 v1 a1))) q ∷ path)
      (suc fuel) t (omega arith) h bal bal_path calm calm_path
      (λ black_t.
        moved_red_case_right s path fuel (omega arith) t c q black_t bal calm (fork false b1 v1 a1)
          v tip w r h back refl refl (quiet_true c calm_path.0.0) bal_path calm_path)
fixup_lem
      (down_right c (fork true r w (fork false (fork false b2 v2 a2) v (fork false b1 v1 a1))) q
        ∷ path)
      (suc fuel) s t h back bal bal_path calm calm_path enough =
    red_or s
      (down_right c (fork true r w (fork false (fork false b2 v2 a2) v (fork false b1 v1 a1))) q
        ∷ path)
      (suc fuel) t (omega arith) h bal bal_path calm calm_path
      (λ black_t.
        moved_red_case_right s path fuel (omega arith) t c q black_t bal calm (fork false b1 v1 a1)
          v (fork false b2 v2 a2) w r h back refl refl (quiet_true c calm_path.0.0) bal_path
          calm_path)
fixup_lem (down_right c (fork true r w (fork false (fork true b2 v2 a2) v tip)) q ∷ path) (suc fuel)
      s t h back bal bal_path calm calm_path enough =
    red_or s (down_right c (fork true r w (fork false (fork true b2 v2 a2) v tip)) q ∷ path)
      (suc fuel) t (omega arith) h bal bal_path calm calm_path
      (λ black_t.
        far_red_case_right s path fuel (omega arith) t c q black_t bal calm tip v a2 v2 b2 w r h
          back (quiet_true c calm_path.0.0) bal_path calm_path)
fixup_lem
      (down_right c (fork true r w (fork false (fork true b2 v2 a2) v (fork false b1 v1 a1))) q
        ∷ path)
      (suc fuel) s t h back bal bal_path calm calm_path enough =
    red_or s
      (down_right c (fork true r w (fork false (fork true b2 v2 a2) v (fork false b1 v1 a1))) q
        ∷ path)
      (suc fuel) t (omega arith) h bal bal_path calm calm_path
      (λ black_t.
        far_red_case_right s path fuel (omega arith) t c q black_t bal calm (fork false b1 v1 a1) v
          a2 v2 b2 w r h back (quiet_true c calm_path.0.0) bal_path calm_path)
fixup_lem
      (down_right c (fork true r w (fork false (fork true b2 v2 a2) v (fork true b1 v1 a1))) q
        ∷ path)
      (suc fuel) s t h back bal bal_path calm calm_path enough =
    red_or s
      (down_right c (fork true r w (fork false (fork true b2 v2 a2) v (fork true b1 v1 a1))) q
        ∷ path)
      (suc fuel) t (omega arith) h bal bal_path calm calm_path
      (λ black_t.
        far_red_case_right s path fuel (omega arith) t c q black_t bal calm (fork true b1 v1 a1) v
          a2 v2 b2 w r h back (quiet_true c calm_path.0.0) bal_path calm_path)
fixup_lem (down_right c (fork true r w (fork false tip v (fork true b1 v1 a1))) q ∷ path) (suc fuel)
      s t h back bal bal_path calm calm_path enough =
    red_or s (down_right c (fork true r w (fork false tip v (fork true b1 v1 a1))) q ∷ path)
      (suc fuel) t (omega arith) h bal bal_path calm calm_path
      (λ black_t.
        near_red_case_right s path fuel (omega arith) t c q black_t bal calm a1 v1 b1 v tip w r h
          back refl (quiet_true c calm_path.0.0) bal_path calm_path)
fixup_lem
      (down_right c (fork true r w (fork false (fork false b2 v2 a2) v (fork true b1 v1 a1))) q
        ∷ path)
      (suc fuel) s t h back bal bal_path calm calm_path enough =
    red_or s
      (down_right c (fork true r w (fork false (fork false b2 v2 a2) v (fork true b1 v1 a1))) q
        ∷ path)
      (suc fuel) t (omega arith) h bal bal_path calm calm_path
      (λ black_t.
        near_red_case_right s path fuel (omega arith) t c q black_t bal calm a1 v1 b1 v
          (fork false b2 v2 a2) w r h back refl (quiet_true c calm_path.0.0) bal_path calm_path)
fixup_lem (down_right c (fork false tip w tip) q ∷ path) (suc fuel) s t h back bal bal_path calm
      calm_path enough =
    red_or s (down_right c (fork false tip w tip) q ∷ path) (suc fuel) t (omega arith) h bal
      bal_path calm calm_path
      (λ black_t.
        moved_case_right s path fuel (omega arith) t c q black_t bal calm tip w tip h back refl refl
          bal_path calm_path
          (λ s' h' dark.
            fixup_lem path fuel s' (fork c (fork true tip w tip) q t) h'
              (Back-fork s' path c (fork true tip w tip) q t)
              (let e = bal_path.0 in (omega arith, bal_path.1, bal))
              (BalPath-at path (height t + 1 + black c) _ (omega arith) bal_path.2)
              (
                (quiet_false c true dark, quiet_false c (is_red t) dark),
                ((refl, refl), calm_path.1.1, calm_path.1.2),
                calm,
              )
              (subst (λ d. CalmPath d path) dark calm_path.2) (omega arith)))
fixup_lem (down_right c (fork false (fork false b2 v2 a2) w tip) q ∷ path) (suc fuel) s t h back bal
      bal_path calm calm_path enough =
    red_or s (down_right c (fork false (fork false b2 v2 a2) w tip) q ∷ path) (suc fuel) t
      (omega arith) h bal bal_path calm calm_path
      (λ black_t.
        moved_case_right s path fuel (omega arith) t c q black_t bal calm tip w
          (fork false b2 v2 a2) h back refl refl bal_path calm_path
          (λ s' h' dark.
            fixup_lem path fuel s' (fork c (fork true (fork false b2 v2 a2) w tip) q t) h'
              (Back-fork s' path c (fork true (fork false b2 v2 a2) w tip) q t)
              (let e = bal_path.0 in (omega arith, bal_path.1, bal))
              (BalPath-at path (height t + 1 + black c) _ (omega arith) bal_path.2)
              (
                (quiet_false c true dark, quiet_false c (is_red t) dark),
                ((refl, refl), calm_path.1.1, calm_path.1.2),
                calm,
              )
              (subst (λ d. CalmPath d path) dark calm_path.2) (omega arith)))
fixup_lem (down_right c (fork false tip w (fork false b1 v1 a1)) q ∷ path) (suc fuel) s t h back bal
      bal_path calm calm_path enough =
    red_or s (down_right c (fork false tip w (fork false b1 v1 a1)) q ∷ path) (suc fuel) t
      (omega arith) h bal bal_path calm calm_path
      (λ black_t.
        moved_case_right s path fuel (omega arith) t c q black_t bal calm (fork false b1 v1 a1) w
          tip h back refl refl bal_path calm_path
          (λ s' h' dark.
            fixup_lem path fuel s' (fork c (fork true tip w (fork false b1 v1 a1)) q t) h'
              (Back-fork s' path c (fork true tip w (fork false b1 v1 a1)) q t)
              (let e = bal_path.0 in (omega arith, bal_path.1, bal))
              (BalPath-at path (height t + 1 + black c) _ (omega arith) bal_path.2)
              (
                (quiet_false c true dark, quiet_false c (is_red t) dark),
                ((refl, refl), calm_path.1.1, calm_path.1.2),
                calm,
              )
              (subst (λ d. CalmPath d path) dark calm_path.2) (omega arith)))
fixup_lem (down_right c (fork false (fork false b2 v2 a2) w (fork false b1 v1 a1)) q ∷ path)
      (suc fuel) s t h back bal bal_path calm calm_path enough =
    red_or s (down_right c (fork false (fork false b2 v2 a2) w (fork false b1 v1 a1)) q ∷ path)
      (suc fuel) t (omega arith) h bal bal_path calm calm_path
      (λ black_t.
        moved_case_right s path fuel (omega arith) t c q black_t bal calm (fork false b1 v1 a1) w
          (fork false b2 v2 a2) h back refl refl bal_path calm_path
          (λ s' h' dark.
            fixup_lem path fuel s'
              (fork c (fork true (fork false b2 v2 a2) w (fork false b1 v1 a1)) q t) h'
              (Back-fork s' path c (fork true (fork false b2 v2 a2) w (fork false b1 v1 a1)) q t)
              (let e = bal_path.0 in (omega arith, bal_path.1, bal))
              (BalPath-at path (height t + 1 + black c) _ (omega arith) bal_path.2)
              (
                (quiet_false c true dark, quiet_false c (is_red t) dark),
                ((refl, refl), calm_path.1.1, calm_path.1.2),
                calm,
              )
              (subst (λ d. CalmPath d path) dark calm_path.2) (omega arith)))
fixup_lem (down_right c (fork false (fork true b2 v2 a2) w tip) q ∷ path) (suc fuel) s t h back bal
      bal_path calm calm_path enough =
    red_or s (down_right c (fork false (fork true b2 v2 a2) w tip) q ∷ path) (suc fuel) t
      (omega arith) h bal bal_path calm calm_path
      (λ black_t.
        far_case_right s path fuel (omega arith) t c q black_t bal calm tip w a2 v2 b2 h back
          bal_path calm_path)
fixup_lem (down_right c (fork false (fork true b2 v2 a2) w (fork false b1 v1 a1)) q ∷ path)
      (suc fuel) s t h back bal bal_path calm calm_path enough =
    red_or s (down_right c (fork false (fork true b2 v2 a2) w (fork false b1 v1 a1)) q ∷ path)
      (suc fuel) t (omega arith) h bal bal_path calm calm_path
      (λ black_t.
        far_case_right s path fuel (omega arith) t c q black_t bal calm (fork false b1 v1 a1) w a2
          v2 b2 h back bal_path calm_path)
fixup_lem (down_right c (fork false (fork true b2 v2 a2) w (fork true b1 v1 a1)) q ∷ path)
      (suc fuel) s t h back bal bal_path calm calm_path enough =
    red_or s (down_right c (fork false (fork true b2 v2 a2) w (fork true b1 v1 a1)) q ∷ path)
      (suc fuel) t (omega arith) h bal bal_path calm calm_path
      (λ black_t.
        far_case_right s path fuel (omega arith) t c q black_t bal calm (fork true b1 v1 a1) w a2 v2
          b2 h back bal_path calm_path)
fixup_lem (down_right c (fork false tip w (fork true b1 v1 a1)) q ∷ path) (suc fuel) s t h back bal
      bal_path calm calm_path enough =
    red_or s (down_right c (fork false tip w (fork true b1 v1 a1)) q ∷ path) (suc fuel) t
      (omega arith) h bal bal_path calm calm_path
      (λ black_t.
        near_case_right s path fuel (omega arith) t c q black_t bal calm a1 v1 b1 w tip h back refl
          bal_path calm_path)
fixup_lem (down_right c (fork false (fork false b2 v2 a2) w (fork true b1 v1 a1)) q ∷ path)
      (suc fuel) s t h back bal bal_path calm calm_path enough =
    red_or s (down_right c (fork false (fork false b2 v2 a2) w (fork true b1 v1 a1)) q ∷ path)
      (suc fuel) t (omega arith) h bal bal_path calm calm_path
      (λ black_t.
        near_case_right s path fuel (omega arith) t c q black_t bal calm a1 v1 b1 w
          (fork false b2 v2 a2) h back refl bal_path calm_path)
