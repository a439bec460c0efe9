-- ===== src/RbTree/Repair/Ends.antt =====
-- libyod/rbtree.c: where the loop of del ends.
use libyod.Prelude.{
  ℕ, zero, suc, ◌<◌, ◌≡◌, refl, ◌∙◌, subst, ◌≢◌, inl, inr, Bool, true, false, ◌&&◌, Option, some,
  List, [], ◌∷◌, arith, ◌==◌, Bool-cases, ◌>>=◌,
}
use libyod.RbTree.Shape.{Shape, paint}
use libyod.RbTree.Fixup.{fixup_step, fixup_loop, fixup}
use libyod.RbTree.Tree.{Tree, tip, fork, Step, down_left, down_right, Way, plug, ids, top}
use libyod.RbTree.Holds.{is_red, Holds, Holds-paint, Holds-plug, root_top, node_pos, red_top, below}
use libyod.RbTree.Colors.{
  height, Bal, BalPath, Calm, CalmPath, Bal-plug, Calm-plug, blacken, Bal-blacken, Calm-blacken,
  is_red-blacken,
}
use libyod.RbTree.Add.Grown.{Holds-blacken, ids-blacken}

-- The loop ends, and leaves a red-black tree with the nodes `old`.
pub record Repaired (run : Option Shape) (old : List ℕ) : Type 0 where
  pub shape : Shape
  pub tree : Tree
  pub ends : run ≡ some shape
  pub holds : Holds shape [] tree
  pub same : ids tree ≡ old
  pub bal : Bal tree
  pub calm : Calm tree
  pub dark : is_red tree ≡ false

module _ (s : Shape) (fuel p : ℕ) where
  stop_root : p ≡ s.root → 0 < p → fixup (suc fuel) s p ≡ some (paint s p false)
  unfolding fixup fixup_loop
  stop_root e pos =
      let here : (p == s.root) ≡ true = ground arith in
      let real : (p == 0) ≡ false = ground arith in rw (fixup_loop, here, ◌>>=◌, real) refl

  stop_red : s.red p ≡ true → 0 < p → fixup (suc fuel) s p ≡ some (paint s p false)
  unfolding fixup fixup_loop
  stop_red e pos =
      let real : (p == 0) ≡ false = ground arith in
      elim (Bool-cases (p == s.root)) [
        | inl here ↦ rw (fixup_loop, here, ◌>>=◌, real) refl
        | inr there ↦ rw (fixup_loop, there, e, ◌>>=◌, real) refl
      ]

  round :
      p ≢ s.root
      → s.red p ≡ false
      → (s' : Shape) (p' : ℕ) → fixup_step s p ≡ (s', p')
      → fixup (suc fuel) s p ≡ fixup fuel s' p'
  unfolding fixup fixup_loop
  round ne e s' p' run =
      let there : (p == s.root) ≡ false = ground arith in rw (fixup_loop, there, e, run) refl

root_pos : (s : Shape) (n : Tree) → Holds s [] n → 0 < s.root
root_pos s tip h = let e = root_top s tip h in let pos = h.leaf_pos in omega arith
root_pos s (fork c l a r) h =
    let e = root_top s (fork c l a r) h in let pos = node_pos s [] c l a r h in omega arith

-- From the root.
pub end_root :
    (fuel : ℕ)
    → 0 < fuel
    → (s : Shape) (n : Tree) (old : List ℕ) → Holds s [] n
    → Bal n
    → Calm n
    → ids n ≡ old
    → Repaired (fixup fuel s s.root) old
end_root zero pos s n old h bal calm same = absurd (omega arith)
end_root (suc fuel) pos s n old h bal calm same = record {
  shape = paint s s.root false;
  tree = blacken n;
  ends = stop_root s fuel s.root refl (root_pos s n h);
  holds = Holds-blacken s n h;
  same = ids-blacken n ∙ same;
  bal = Bal-blacken n bal;
  calm = Calm-blacken n calm;
  dark = is_red-blacken n;
}

-- From a red node, which becomes black.
pub end_red :
    (fuel : ℕ)
    → 0 < fuel
    → (s : Shape) (path : Way) (c : Bool) (l : Tree) (x : ℕ) (r : Tree) (old : List ℕ) → c ≡ true
    → Holds s path (fork c l x r)
    → Bal (fork c l x r)
    → BalPath (height (fork false l x r)) path
    → Calm l × Calm r
    → CalmPath false path
    → ids (plug path (fork false l x r)) ≡ old
    → Repaired (fixup fuel s x) old
end_red zero pos s path c l x r old red h bal bal_path calm calm_path same = absurd (omega arith)
end_red (suc fuel) pos s path c l x r old red h bal bal_path (calm_l, calm_r) calm_path same =
    let after = Calm-plug path (fork false l x r) ((refl, refl), calm_l, calm_r) calm_path in
    record {
      shape = paint s x false;
      tree = plug path (fork false l x r);
      ends = stop_red s fuel x (red_top s path (fork c l x r) h ∙ red) (node_pos s path c l x r h);
      holds =
          Holds-plug (paint s x false) path (fork false l x r) (Holds-paint s path c l x r h false);
      same = same;
      bal = Bal-plug path (fork false l x r) bal bal_path;
      calm = after.0;
      dark = after.1;
    }

-- One round more.
pub go_on :
    (fuel : ℕ) (s : Shape) (step : Step) (path : Way) (t : Tree)
    → Holds s (step ∷ path) t
    → is_red t ≡ false
    → (s' : Shape) (p' : ℕ) (old : List ℕ) → fixup_step s (top s.leaf t) ≡ (s', p')
    → Repaired (fixup fuel s' p') old
    → Repaired (fixup (suc fuel) s (top s.leaf t)) old
go_on fuel s step path t h dark s' p' old run rest = record {
  shape = rest.shape;
  tree = rest.tree;
  ends =
      round s fuel (top s.leaf t) (below s step path t h) (red_top s (step ∷ path) t h ∙ dark) s' p'
        run
      ∙ rest.ends;
  holds = rest.holds;
  same = rest.same;
  bal = rest.bal;
  calm = rest.calm;
  dark = rest.dark;
}

pub BalPath-at : (path : Way) (m n : ℕ) → m ≡ n → BalPath m path → BalPath n path
BalPath-at path m n e h = subst (λ k. BalPath k path) e h

pub and_false : (c : Bool) → (c && false) ≡ false
and_false true = refl
and_false false = refl

pub CalmPath-lower : (b : Bool) (path : Way) → CalmPath b path → CalmPath false path
CalmPath-lower b [] h = refl
CalmPath-lower b (down_left c a r ∷ path) ((_, q), calm, h) = ((and_false c, q), calm, h)
CalmPath-lower b (down_right c l a ∷ path) ((q, _), calm, h) = ((q, and_false c), calm, h)
