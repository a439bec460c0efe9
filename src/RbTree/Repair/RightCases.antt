-- ===== src/RbTree/Repair/RightCases.antt =====
-- libyod/rbtree.c: the loop of del from a right child that is not red on.
use libyod.Prelude.{
  ℕ, suc, ◌+◌, ◌<◌, ◌≡◌, refl, sym, ap, ◌∙◌, subst, inl, inr, Bool, true, false, List, ◌∷◌, ◌++◌,
  arith, Bool-cases,
}
use libyod.RbTree.Shape.{Shape}
use libyod.RbTree.Tree.{Tree, fork, Step, down_right, Way, plug, ids, ids-plug_congr, ids-turn, top}
use libyod.RbTree.Holds.{is_red, Holds, Holds-up_right, Holds-plug}
use libyod.RbTree.Colors.{black, height, Bal, BalPath, Calm, CalmPath, Bal-plug, Calm-plug}
use libyod.RbTree.Fixup.{fixup, fixup_step}
use libyod.RbTree.Repair.{Back, Done}
use libyod.RbTree.Repair.Right.{
  moved_right, far_right, near_right, moved_red_right, far_red_right, near_red_right,
}
use libyod.RbTree.Repair.Ends.{
  Repaired, end_root, end_red, go_on, BalPath-at, and_false, CalmPath-lower,
}

module _ (s : Shape) (path : Way) (fuel : ℕ) (pos : 0 < fuel) (t : Tree) (c : Bool) (q : ℕ)
    (black_t : is_red t ≡ false) (bal_t : Bal t) (calm_t : Calm t) where
  -- The loop goes on from the root of the whole tree, where it ends.
  done :
      (step : Step) (p : Way) (n : Tree) (old : List ℕ)
      → Holds s (step ∷ path) t
      → Done (fixup_step s (top s.leaf t)) p n
      → ids (plug p n) ≡ old
      → Bal n × BalPath (height n) p
      → Calm n × CalmPath (is_red n) p
      → Repaired (fixup (suc fuel) s (top s.leaf t)) old
  done step p n old h (s', run, h') same (bal, bal_p) (calm, calm_p) =
      go_on fuel s step path t h black_t s' s'.root old run (
        end_root fuel pos s' (plug p n) old (Holds-plug s' p n h') (Bal-plug p n bal bal_p)
          (Calm-plug p n calm calm_p).0 same)

  pub moved_case_right :
      (l : Tree) (w : ℕ) (r : Tree)
      → Holds s (down_right c (fork false r w l) q ∷ path) t
      → Back s (down_right c (fork false r w l) q ∷ path) t
      → is_red l ≡ false
      → is_red r ≡ false
      → BalPath (height t + 1) (down_right c (fork false r w l) q ∷ path)
      → CalmPath false (down_right c (fork false r w l) q ∷ path)
      → ((s' : Shape)
          → Holds s' path (fork c (fork true r w l) q t)
          → c ≡ false
          → Repaired (fixup fuel s' q) (ids (plug path (fork c (fork true r w l) q t))))
      → Repaired
          (fixup (suc fuel) s (top s.leaf t))
          (ids (plug path (fork c (fork false r w l) q t)))
  moved_case_right l w r h back el er (e, (e_w, bal_r, bal_l), bal_path)
        (_, ((_, _), calm_r, calm_l), calm_path) rec =
      let (s', run, h') =
        moved_right s path t c q l w r (Holds-up_right s c q path (fork false r w l) t h) back el
          er in
      go_on fuel s (down_right c (fork false r w l) q) path t h black_t s' q
        (ids (plug path (fork c (fork false r w l) q t))) run
        (elim (Bool-cases c) [
          | inl red ↦
              end_red fuel pos s' path c (fork true r w l) q t
                (ids (plug path (fork c (fork false r w l) q t))) red h'
                (omega arith, (e_w, bal_r, bal_l), bal_t)
                (BalPath-at path (height t + 1 + black c) _ (rw red (omega arith)) bal_path)
                (((er, el), calm_r, calm_l), calm_t) (CalmPath-lower c path calm_path)
                (ids-plug_congr path (fork false (fork true r w l) q t)
                  (fork c (fork false r w l) q t) refl)
          | inr dark ↦
              subst (Repaired (fixup fuel s' q))
                (ids-plug_congr path (fork c (fork true r w l) q t) (fork c (fork false r w l) q t)
                  refl)
                (rec s' h' dark)
        ])

  pub far_case_right :
      (l : Tree) (w : ℕ) (a : Tree) (v : ℕ) (b : Tree)
      → Holds s (down_right c (fork false (fork true b v a) w l) q ∷ path) t
      → Back s (down_right c (fork false (fork true b v a) w l) q ∷ path) t
      → BalPath (height t + 1) (down_right c (fork false (fork true b v a) w l) q ∷ path)
      → CalmPath false (down_right c (fork false (fork true b v a) w l) q ∷ path)
      → Repaired
          (fixup (suc fuel) s (top s.leaf t))
          (ids (plug path (fork c (fork false (fork true b v a) w l) q t)))
  far_case_right l w a v b h back (e, (e_w, (e_r, bal_b, bal_a), bal_l), bal_path)
        (_, ((_, _), ((_, _), calm_b, calm_a), calm_l), calm_path) =
      done (down_right c (fork false (fork true b v a) w l) q) path
        (fork c (fork false b v a) w (fork false l q t))
        (ids (plug path (fork c (fork false (fork true b v a) w l) q t))) h
        (far_right s path t c q l w a v b
          (Holds-up_right s c q path (fork false (fork true b v a) w l) t h) back)
        (ids-plug_congr path (fork c (fork false b v a) w (fork false l q t))
          (fork c (fork false (fork true b v a) w l) q t)
          (sym (ids-turn c false c false (fork true b v a) w l q t)))
        (
          (omega arith, (e_r, bal_b, bal_a), (omega arith, bal_l, bal_t)),
          BalPath-at path (height t + 1 + black c) _ (omega arith) bal_path,
        )
        (
          (
            (and_false c, and_false c),
            ((refl, refl), calm_b, calm_a),
            ((refl, refl), calm_l, calm_t),
          ),
          calm_path,
        )

  pub near_case_right :
      (a : Tree) (v : ℕ) (b : Tree) (w : ℕ) (r : Tree)
      → Holds s (down_right c (fork false r w (fork true b v a)) q ∷ path) t
      → Back s (down_right c (fork false r w (fork true b v a)) q ∷ path) t
      → is_red r ≡ false
      → BalPath (height t + 1) (down_right c (fork false r w (fork true b v a)) q ∷ path)
      → CalmPath false (down_right c (fork false r w (fork true b v a)) q ∷ path)
      → Repaired
          (fixup (suc fuel) s (top s.leaf t))
          (ids (plug path (fork c (fork false r w (fork true b v a)) q t)))
  near_case_right a v b w r h back er (e, (e_w, bal_r, (e_l, bal_b, bal_a)), bal_path)
        (_, ((_, _), calm_r, ((_, _), calm_b, calm_a)), calm_path) =
      done (down_right c (fork false r w (fork true b v a)) q) path
        (fork c (fork false r w b) v (fork false a q t))
        (ids (plug path (fork c (fork false r w (fork true b v a)) q t))) h
        (near_right s path t c q a v b w r
          (Holds-up_right s c q path (fork false r w (fork true b v a)) t h) back er)
        (ids-plug_congr path (fork c (fork false r w b) v (fork false a q t))
          (fork c (fork false r w (fork true b v a)) q t)
          (sym (ids-turn c false c false (fork false r w b) v a q t)
            ∙ ap (λ i. i ++ (q ∷ ids t)) (sym (sym (ids-turn false false false true r w b v a)))))
        (
          (omega arith, (omega arith, bal_r, bal_b), (omega arith, bal_a, bal_t)),
          BalPath-at path (height t + 1 + black c) _ (omega arith) bal_path,
        )
        (
          (
            (and_false c, and_false c),
            ((refl, refl), calm_r, calm_b),
            ((refl, refl), calm_a, calm_t),
          ),
          calm_path,
        )

  pub moved_red_case_right :
      (l : Tree) (v : ℕ) (m : Tree) (w : ℕ) (r : Tree)
      → Holds s (down_right c (fork true r w (fork false m v l)) q ∷ path) t
      → Back s (down_right c (fork true r w (fork false m v l)) q ∷ path) t
      → is_red l ≡ false
      → is_red m ≡ false
      → c ≡ false
      → BalPath (height t + 1) (down_right c (fork true r w (fork false m v l)) q ∷ path)
      → CalmPath false (down_right c (fork true r w (fork false m v l)) q ∷ path)
      → Repaired
          (fixup (suc fuel) s (top s.leaf t))
          (ids (plug path (fork c (fork true r w (fork false m v l)) q t)))
  moved_red_case_right l v m w r h back el em dark (e, (e_w, bal_r, (e_x, bal_m, bal_l)), bal_path)
        (_, ((_, _), calm_r, ((_, _), calm_m, calm_l)), calm_path) =
      let (s', run, h') =
        moved_red_right s path t c q w r l v m
          (Holds-up_right s c q path (fork true r w (fork false m v l)) t h) back el em in
      go_on fuel s (down_right c (fork true r w (fork false m v l)) q) path t h black_t s' q
        (ids (plug path (fork c (fork true r w (fork false m v l)) q t))) run
        (end_red fuel pos s' (down_right false r w ∷ path) true (fork true m v l) q t
          (ids (plug path (fork c (fork true r w (fork false m v l)) q t))) refl h'
          (omega arith, (e_x, bal_m, bal_l), bal_t)
          (
            omega arith,
            bal_r,
            BalPath-at path (height t + 1 + black c) _ (rw dark (omega arith)) bal_path,
          )
          (((em, el), calm_m, calm_l), calm_t)
          ((refl, refl), calm_r, subst (λ d. CalmPath d path) dark calm_path)
          (ids-plug_congr path (fork false r w (fork false (fork true m v l) q t))
            (fork c (fork true r w (fork false m v l)) q t)
            (sym (ids-turn c true false false r w (fork true m v l) q t))))

  pub far_red_case_right :
      (l : Tree) (v : ℕ) (a : Tree) (u : ℕ) (b : Tree) (w : ℕ) (r : Tree)
      → Holds s (down_right c (fork true r w (fork false (fork true b u a) v l)) q ∷ path) t
      → Back s (down_right c (fork true r w (fork false (fork true b u a) v l)) q ∷ path) t
      → c ≡ false
      → BalPath
          (height t + 1)
          (down_right c (fork true r w (fork false (fork true b u a) v l)) q ∷ path)
      → CalmPath false (down_right c (fork true r w (fork false (fork true b u a) v l)) q ∷ path)
      → Repaired
          (fixup (suc fuel) s (top s.leaf t))
          (ids (plug path (fork c (fork true r w (fork false (fork true b u a) v l)) q t)))
  far_red_case_right l v a u b w r h back dark
        (e, (e_w, bal_r, (e_x, (e_r, bal_b, bal_a), bal_l)), bal_path)
        (_, ((_, _), calm_r, ((_, _), ((_, _), calm_b, calm_a), calm_l)), calm_path) =
      done (down_right c (fork true r w (fork false (fork true b u a) v l)) q)
        (down_right false r w ∷ path) (fork true (fork false b u a) v (fork false l q t))
        (ids (plug path (fork c (fork true r w (fork false (fork true b u a) v l)) q t))) h
        (far_red_right s path t c q w r l v a u b
          (Holds-up_right s c q path (fork true r w (fork false (fork true b u a) v l)) t h) back)
        (ids-plug_congr path (fork false r w (fork true (fork false b u a) v (fork false l q t)))
          (fork c (fork true r w (fork false (fork true b u a) v l)) q t)
          (ap (λ i. ids r ++ (w ∷ i))
              (sym (ids-turn true false true false (fork true b u a) v l q t))
            ∙ sym (ids-turn c true false true r w (fork false (fork true b u a) v l) q t)))
        (
          (omega arith, (e_r, bal_b, bal_a), (omega arith, bal_l, bal_t)),
          (
            omega arith,
            bal_r,
            BalPath-at path (height t + 1 + black c) _ (rw dark (omega arith)) bal_path,
          ),
        )
        (
          ((refl, refl), ((refl, refl), calm_b, calm_a), ((refl, refl), calm_l, calm_t)),
          ((refl, refl), calm_r, subst (λ d. CalmPath d path) dark calm_path),
        )

  pub near_red_case_right :
      (a : Tree) (u : ℕ) (b : Tree) (v : ℕ) (m : Tree) (w : ℕ) (r : Tree)
      → Holds s (down_right c (fork true r w (fork false m v (fork true b u a))) q ∷ path) t
      → Back s (down_right c (fork true r w (fork false m v (fork true b u a))) q ∷ path) t
      → is_red m ≡ false
      → c ≡ false
      → BalPath
          (height t + 1)
          (down_right c (fork true r w (fork false m v (fork true b u a))) q ∷ path)
      → CalmPath false (down_right c (fork true r w (fork false m v (fork true b u a))) q ∷ path)
      → Repaired
          (fixup (suc fuel) s (top s.leaf t))
          (ids (plug path (fork c (fork true r w (fork false m v (fork true b u a))) q t)))
  near_red_case_right a u b v m w r h back em dark
        (e, (e_w, bal_r, (e_x, bal_m, (e_l, bal_b, bal_a))), bal_path)
        (_, ((_, _), calm_r, ((_, _), calm_m, ((_, _), calm_b, calm_a))), calm_path) =
      done (down_right c (fork true r w (fork false m v (fork true b u a))) q)
        (down_right false r w ∷ path) (fork true (fork false m v b) u (fork false a q t))
        (ids (plug path (fork c (fork true r w (fork false m v (fork true b u a))) q t))) h
        (near_red_right s path t c q w r a u b v m
          (Holds-up_right s c q path (fork true r w (fork false m v (fork true b u a))) t h) back
          em)
        (ids-plug_congr path (fork false r w (fork true (fork false m v b) u (fork false a q t)))
          (fork c (fork true r w (fork false m v (fork true b u a))) q t)
          (ap (λ i. ids r ++ (w ∷ i))
              (sym (ids-turn true false true false (fork false m v b) u a q t)
                ∙ ap (λ i. i ++ (q ∷ ids t))
                    (sym (sym (ids-turn false false false true m v b u a))))
            ∙ sym (ids-turn c true false true r w (fork false m v (fork true b u a)) q t)))
        (
          (omega arith, (omega arith, bal_m, bal_b), (omega arith, bal_a, bal_t)),
          (
            omega arith,
            bal_r,
            BalPath-at path (height t + 1 + black c) _ (rw dark (omega arith)) bal_path,
          ),
        )
        (
          ((refl, refl), ((refl, refl), calm_m, calm_b), ((refl, refl), calm_a, calm_t)),
          ((refl, refl), calm_r, subst (λ d. CalmPath d path) dark calm_path),
        )
