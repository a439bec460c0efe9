-- ===== src/RbTree/Repair/LeftCases.antt =====
-- libyod/rbtree.c: the loop of del from a left child that is not red on.
use libyod.Prelude.{
  ℕ, suc, ◌+◌, ◌<◌, ◌≡◌, refl, sym, ap, ◌∙◌, subst, inl, inr, Bool, true, false, List, ◌∷◌, ◌++◌,
  arith, Bool-cases,
}
use libyod.RbTree.Shape.{Shape}
use libyod.RbTree.Tree.{Tree, fork, Step, down_left, Way, plug, ids, ids-plug_congr, ids-turn, top}
use libyod.RbTree.Holds.{is_red, Holds, Holds-up_left, Holds-plug}
use libyod.RbTree.Colors.{black, height, Bal, BalPath, Calm, CalmPath, Bal-plug, Calm-plug}
use libyod.RbTree.Fixup.{fixup, fixup_step}
use libyod.RbTree.Repair.{Back, Done}
use libyod.RbTree.Repair.Left.{
  moved_left, far_left, near_left, moved_red_left, far_red_left, near_red_left,
}
use libyod.RbTree.Repair.Ends.{
  Repaired, end_root, end_red, go_on, BalPath-at, and_false, CalmPath-lower,
}

module _ (s : Shape) (path : Way) (fuel : ℕ) (pos : 0 < fuel) (t : Tree) (c : Bool) (q : ℕ)
    (black_t : is_red t ≡ false) (bal_t : Bal t) (calm_t : Calm t) where
  -- The loop goes on from the root of the whole tree, where it ends.
  done :
      (step : Step) (p : Way) (n : Tree) (old : List ℕ)
      → Holds s (step ∷ path) t
      → Done (fixup_step s (top s.leaf t)) p n
      → ids (plug p n) ≡ old
      → Bal n × BalPath (height n) p
      → Calm n × CalmPath (is_red n) p
      → Repaired (fixup (suc fuel) s (top s.leaf t)) old
  done step p n old h (s', run, h') same (bal, bal_p) (calm, calm_p) =
      go_on fuel s step path t h black_t s' s'.root old run (
        end_root fuel pos s' (plug p n) old (Holds-plug s' p n h') (Bal-plug p n bal bal_p)
          (Calm-plug p n calm calm_p).0 same)

  pub moved_case_left :
      (l : Tree) (w : ℕ) (r : Tree)
      → Holds s (down_left c q (fork false l w r) ∷ path) t
      → Back s (down_left c q (fork false l w r) ∷ path) t
      → is_red l ≡ false
      → is_red r ≡ false
      → BalPath (height t + 1) (down_left c q (fork false l w r) ∷ path)
      → CalmPath false (down_left c q (fork false l w r) ∷ path)
      → ((s' : Shape)
          → Holds s' path (fork c t q (fork true l w r))
          → c ≡ false
          → Repaired (fixup fuel s' q) (ids (plug path (fork c t q (fork true l w r)))))
      → Repaired
          (fixup (suc fuel) s (top s.leaf t))
          (ids (plug path (fork c t q (fork false l w r))))
  moved_case_left l w r h back el er (e, (e_w, bal_l, bal_r), bal_path)
        (_, ((_, _), calm_l, calm_r), calm_path) rec =
      let (s', run, h') =
        moved_left s path t c q l w r (Holds-up_left s c q path t (fork false l w r) h) back el
          er in
      go_on fuel s (down_left c q (fork false l w r)) path t h black_t s' q
        (ids (plug path (fork c t q (fork false l w r)))) run
        (elim (Bool-cases c) [
          | inl red ↦
              end_red fuel pos s' path c t q (fork true l w r)
                (ids (plug path (fork c t q (fork false l w r)))) red h'
                (omega arith, bal_t, (e_w, bal_l, bal_r))
                (BalPath-at path (height t + 1 + black c) _ (rw red (omega arith)) bal_path)
                (calm_t, ((el, er), calm_l, calm_r)) (CalmPath-lower c path calm_path)
                (ids-plug_congr path (fork false t q (fork true l w r))
                  (fork c t q (fork false l w r)) refl)
          | inr dark ↦
              subst (Repaired (fixup fuel s' q))
                (ids-plug_congr path (fork c t q (fork true l w r)) (fork c t q (fork false l w r))
                  refl)
                (rec s' h' dark)
        ])

  pub far_case_left :
      (l : Tree) (w : ℕ) (a : Tree) (v : ℕ) (b : Tree)
      → Holds s (down_left c q (fork false l w (fork true a v b)) ∷ path) t
      → Back s (down_left c q (fork false l w (fork true a v b)) ∷ path) t
      → BalPath (height t + 1) (down_left c q (fork false l w (fork true a v b)) ∷ path)
      → CalmPath false (down_left c q (fork false l w (fork true a v b)) ∷ path)
      → Repaired
          (fixup (suc fuel) s (top s.leaf t))
          (ids (plug path (fork c t q (fork false l w (fork true a v b)))))
  far_case_left l w a v b h back (e, (e_w, bal_l, (e_r, bal_a, bal_b)), bal_path)
        (_, ((_, _), calm_l, ((_, _), calm_a, calm_b)), calm_path) =
      done (down_left c q (fork false l w (fork true a v b))) path
        (fork c (fork false t q l) w (fork false a v b))
        (ids (plug path (fork c t q (fork false l w (fork true a v b))))) h
        (far_left s path t c q l w a v b
          (Holds-up_left s c q path t (fork false l w (fork true a v b)) h) back)
        (ids-plug_congr path (fork c (fork false t q l) w (fork false a v b))
          (fork c t q (fork false l w (fork true a v b)))
          (ids-turn c false c false t q l w (fork true a v b)))
        (
          (omega arith, (omega arith, bal_t, bal_l), (e_r, bal_a, bal_b)),
          BalPath-at path (height t + 1 + black c) _ (omega arith) bal_path,
        )
        (
          (
            (and_false c, and_false c),
            ((refl, refl), calm_t, calm_l),
            ((refl, refl), calm_a, calm_b),
          ),
          calm_path,
        )

  pub near_case_left :
      (a : Tree) (v : ℕ) (b : Tree) (w : ℕ) (r : Tree)
      → Holds s (down_left c q (fork false (fork true a v b) w r) ∷ path) t
      → Back s (down_left c q (fork false (fork true a v b) w r) ∷ path) t
      → is_red r ≡ false
      → BalPath (height t + 1) (down_left c q (fork false (fork true a v b) w r) ∷ path)
      → CalmPath false (down_left c q (fork false (fork true a v b) w r) ∷ path)
      → Repaired
          (fixup (suc fuel) s (top s.leaf t))
          (ids (plug path (fork c t q (fork false (fork true a v b) w r))))
  near_case_left a v b w r h back er (e, (e_w, (e_l, bal_a, bal_b), bal_r), bal_path)
        (_, ((_, _), ((_, _), calm_a, calm_b), calm_r), calm_path) =
      done (down_left c q (fork false (fork true a v b) w r)) path
        (fork c (fork false t q a) v (fork false b w r))
        (ids (plug path (fork c t q (fork false (fork true a v b) w r)))) h
        (near_left s path t c q a v b w r
          (Holds-up_left s c q path t (fork false (fork true a v b) w r) h) back er)
        (ids-plug_congr path (fork c (fork false t q a) v (fork false b w r))
          (fork c t q (fork false (fork true a v b) w r))
          (ids-turn c false c false t q a v (fork false b w r)
            ∙ ap (λ i. ids t ++ (q ∷ i)) (sym (ids-turn false true false false a v b w r))))
        (
          (omega arith, (omega arith, bal_t, bal_a), (omega arith, bal_b, bal_r)),
          BalPath-at path (height t + 1 + black c) _ (omega arith) bal_path,
        )
        (
          (
            (and_false c, and_false c),
            ((refl, refl), calm_t, calm_a),
            ((refl, refl), calm_b, calm_r),
          ),
          calm_path,
        )

  pub moved_red_case_left :
      (l : Tree) (v : ℕ) (m : Tree) (w : ℕ) (r : Tree)
      → Holds s (down_left c q (fork true (fork false l v m) w r) ∷ path) t
      → Back s (down_left c q (fork true (fork false l v m) w r) ∷ path) t
      → is_red l ≡ false
      → is_red m ≡ false
      → c ≡ false
      → BalPath (height t + 1) (down_left c q (fork true (fork false l v m) w r) ∷ path)
      → CalmPath false (down_left c q (fork true (fork false l v m) w r) ∷ path)
      → Repaired
          (fixup (suc fuel) s (top s.leaf t))
          (ids (plug path (fork c t q (fork true (fork false l v m) w r))))
  moved_red_case_left l v m w r h back el em dark (e, (e_w, (e_x, bal_l, bal_m), bal_r), bal_path)
        (_, ((_, _), ((_, _), calm_l, calm_m), calm_r), calm_path) =
      let (s', run, h') =
        moved_red_left s path t c q w r l v m
          (Holds-up_left s c q path t (fork true (fork false l v m) w r) h) back el em in
      go_on fuel s (down_left c q (fork true (fork false l v m) w r)) path t h black_t s' q
        (ids (plug path (fork c t q (fork true (fork false l v m) w r)))) run
        (end_red fuel pos s' (down_left false w r ∷ path) true t q (fork true l v m)
          (ids (plug path (fork c t q (fork true (fork false l v m) w r)))) refl h'
          (omega arith, bal_t, (e_x, bal_l, bal_m))
          (
            omega arith,
            bal_r,
            BalPath-at path (height t + 1 + black c) _ (rw dark (omega arith)) bal_path,
          )
          (calm_t, ((el, em), calm_l, calm_m))
          ((refl, refl), calm_r, subst (λ d. CalmPath d path) dark calm_path)
          (ids-plug_congr path (fork false (fork false t q (fork true l v m)) w r)
            (fork c t q (fork true (fork false l v m) w r))
            (ids-turn false false c true t q (fork true l v m) w r)))

  pub far_red_case_left :
      (l : Tree) (v : ℕ) (a : Tree) (u : ℕ) (b : Tree) (w : ℕ) (r : Tree)
      → Holds s (down_left c q (fork true (fork false l v (fork true a u b)) w r) ∷ path) t
      → Back s (down_left c q (fork true (fork false l v (fork true a u b)) w r) ∷ path) t
      → c ≡ false
      → BalPath
          (height t + 1)
          (down_left c q (fork true (fork false l v (fork true a u b)) w r) ∷ path)
      → CalmPath false (down_left c q (fork true (fork false l v (fork true a u b)) w r) ∷ path)
      → Repaired
          (fixup (suc fuel) s (top s.leaf t))
          (ids (plug path (fork c t q (fork true (fork false l v (fork true a u b)) w r))))
  far_red_case_left l v a u b w r h back dark
        (e, (e_w, (e_x, bal_l, (e_r, bal_a, bal_b)), bal_r), bal_path)
        (_, ((_, _), ((_, _), calm_l, ((_, _), calm_a, calm_b)), calm_r), calm_path) =
      done (down_left c q (fork true (fork false l v (fork true a u b)) w r))
        (down_left false w r ∷ path) (fork true (fork false t q l) v (fork false a u b))
        (ids (plug path (fork c t q (fork true (fork false l v (fork true a u b)) w r)))) h
        (far_red_left s path t c q w r l v a u b
          (Holds-up_left s c q path t (fork true (fork false l v (fork true a u b)) w r) h) back)
        (ids-plug_congr path (fork false (fork true (fork false t q l) v (fork false a u b)) w r)
          (fork c t q (fork true (fork false l v (fork true a u b)) w r))
          (ap (λ i. i ++ (w ∷ ids r)) (ids-turn true false true false t q l v (fork true a u b))
            ∙ ids-turn false true c true t q (fork false l v (fork true a u b)) w r))
        (
          (omega arith, (omega arith, bal_t, bal_l), (e_r, bal_a, bal_b)),
          (
            omega arith,
            bal_r,
            BalPath-at path (height t + 1 + black c) _ (rw dark (omega arith)) bal_path,
          ),
        )
        (
          ((refl, refl), ((refl, refl), calm_t, calm_l), ((refl, refl), calm_a, calm_b)),
          ((refl, refl), calm_r, subst (λ d. CalmPath d path) dark calm_path),
        )

  pub near_red_case_left :
      (a : Tree) (u : ℕ) (b : Tree) (v : ℕ) (m : Tree) (w : ℕ) (r : Tree)
      → Holds s (down_left c q (fork true (fork false (fork true a u b) v m) w r) ∷ path) t
      → Back s (down_left c q (fork true (fork false (fork true a u b) v m) w r) ∷ path) t
      → is_red m ≡ false
      → c ≡ false
      → BalPath
          (height t + 1)
          (down_left c q (fork true (fork false (fork true a u b) v m) w r) ∷ path)
      → CalmPath false (down_left c q (fork true (fork false (fork true a u b) v m) w r) ∷ path)
      → Repaired
          (fixup (suc fuel) s (top s.leaf t))
          (ids (plug path (fork c t q (fork true (fork false (fork true a u b) v m) w r))))
  near_red_case_left a u b v m w r h back em dark
        (e, (e_w, (e_x, (e_l, bal_a, bal_b), bal_m), bal_r), bal_path)
        (_, ((_, _), ((_, _), ((_, _), calm_a, calm_b), calm_m), calm_r), calm_path) =
      done (down_left c q (fork true (fork false (fork true a u b) v m) w r))
        (down_left false w r ∷ path) (fork true (fork false t q a) u (fork false b v m))
        (ids (plug path (fork c t q (fork true (fork false (fork true a u b) v m) w r)))) h
        (near_red_left s path t c q w r a u b v m
          (Holds-up_left s c q path t (fork true (fork false (fork true a u b) v m) w r) h) back em)
        (ids-plug_congr path (fork false (fork true (fork false t q a) u (fork false b v m)) w r)
          (fork c t q (fork true (fork false (fork true a u b) v m) w r))
          (ap (λ i. i ++ (w ∷ ids r))
              (ids-turn true false true false t q a u (fork false b v m)
                ∙ ap (λ i. ids t ++ (q ∷ i)) (sym (ids-turn false true false false a u b v m)))
            ∙ ids-turn false true c true t q (fork false (fork true a u b) v m) w r))
        (
          (omega arith, (omega arith, bal_t, bal_a), (omega arith, bal_b, bal_m)),
          (
            omega arith,
            bal_r,
            BalPath-at path (height t + 1 + black c) _ (rw dark (omega arith)) bal_path,
          ),
        )
        (
          ((refl, refl), ((refl, refl), calm_t, calm_a), ((refl, refl), calm_b, calm_m)),
          ((refl, refl), calm_r, subst (λ d. CalmPath d path) dark calm_path),
        )
