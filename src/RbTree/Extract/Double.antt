-- ===== src/RbTree/Extract/Double.antt =====
-- libyod/rbtree.c: del of a node with two children, whose place the least node on its right takes.
use libyod.Prelude.{
  ℕ, ◌+◌, ◌<◌, ◌≡◌, refl, ap, ◌∙◌, ◌≢◌, Bool, true, false, some, [], ◌∷◌, ◌++◌, arith, ◌==◌,
  if◌then◌else◌, length,
}
use libyod.RbTree.Shape.{Shape, replace_left}
use libyod.RbTree.Fixup.{fixup}
use libyod.RbTree.Remove.{splice, take_links, adopt}
use libyod.RbTree.Tree.{
  Tree, tip, fork, Step, down_left, down_right, Way, plug, ids, occ, occ-plug, hit, occ_path, top,
  Sub, Around,
}
use libyod.RbTree.Rotate.{Once, hang-outside}
use libyod.RbTree.Holds.{
  Holds, Holds-up_left, Holds-up_right, Holds-into_right, is_red, node_of, parent_top,
}
use libyod.RbTree.Colors.{black, height, Bal, BalPath, Calm, CalmPath, Quiet}
use libyod.RbTree.Repair.{Back, Back-keep}
use libyod.RbTree.Repair.Ends.{Repaired}
use libyod.RbTree.Extract.Lift.{lifted, cut_lem, up-Sub, up-Around, up_top}
use libyod.RbTree.Extract.Least.{Holds-unplug}
use libyod.RbTree.Extract.Rename.{Ready, renamed, renamed_leaf, renamed_leaf_parent, Holds-renamed}
use libyod.RbTree.Extract.Single.{
  rest_lem, closed, Holds-closed, closed_leaf, closed-Back, Back-node, Part,
}

Back-move :
    (s s' : Shape) (path : Way) (t : Tree)
    → s'.leaf ≡ s.leaf
    → s'.parent s.leaf ≡ s.parent s.leaf
    → Back s path t
    → Back s' path t
Back-move s s' [] t leaf same back = tt
Back-move s s' (step ∷ path) tip leaf same back = ap s'.parent leaf ∙ same ∙ back
Back-move s s' (step ∷ path) (fork c l a r) leaf same back = tt

-- The memory seen from a node further up.
Holds-plug_part :
    (s : Shape) (q path : Way) (t : Tree) → Holds s (q ++ path) t → Holds s path (plug q t)
Holds-plug_part s [] path t h = h
Holds-plug_part s (down_left c a r ∷ q) path t h =
    Holds-plug_part s q path (fork c t a r) (Holds-up_left s c a (q ++ path) t r h)
Holds-plug_part s (down_right c l a ∷ q) path t h =
    Holds-plug_part s q path (fork c l a t) (Holds-up_right s c a (q ++ path) l t h)

hit_pos : (t : ℕ) → hit 0 t ≡ 0 → 0 < t
hit_pos t e = ground arith

-- The right child alone.
pub right-Part : (m : Tree) → Part tip m m
right-Part m = (λ s leaf sub_l sub_r. sub_r, λ x. omega arith)

module _ (s0 : Shape) (path : Way) (c : Bool) (l : Tree) (a : ℕ) (q : Way) (m : Tree) (t : ℕ)
    (ready : Ready s0 path c l a (plug q m) t) where
  abbrev pub next : Shape
  next = renamed s0 path c l a (plug q m) t ready

  pub renamed-rest :
      (fuel : ℕ) (e : Bool)
      → Back s0 (q ++ (down_right c l t ∷ path)) m
      → Bal m
      → BalPath (height m + black e) (q ++ (down_right c l t ∷ path))
      → Calm m
      → CalmPath e (q ++ (down_right c l t ∷ path))
      → Quiet e (is_red m)
      → length (q ++ (down_right c l t ∷ path)) < fuel
      → Repaired
          (if e then some next else fixup fuel next (top next.leaf m))
          (ids (plug (q ++ (down_right c l t ∷ path)) m))
  renamed-rest fuel e back bal bal_path calm calm_path quiet enough =
      let whole = Holds-renamed s0 path c l a (plug q m) t ready in
      let part =
        Holds-unplug next q (down_right c l t ∷ path) m
          (Holds-into_right next c t path l (plug q m) whole) in
      rest_lem next (q ++ (down_right c l t ∷ path)) fuel m e part
        (Back-move s0 next (q ++ (down_right c l t ∷ path)) m
          (renamed_leaf s0 path c l a (plug q m) t ready)
          (renamed_leaf_parent s0 path c l a (plug q m) t ready) back)
        bal bal_path calm calm_path quiet enough

module _ (s : Shape) (path : Way) (c : Bool) (l : Tree) (a : ℕ) (q : Way) (e : Bool) (t : ℕ)
    (m : Tree) (h : Holds s path (fork c l a (plug q (fork e tip t m)))) where
  pub apart_t : t ≢ a
  apart_t eq =
      let o = h.once.0 a in
      let n = occ-plug a q (fork e tip t m) in
      let here : hit a a ≡ 1 = ground arith in let there : hit a t ≡ 1 = ground arith in omega arith

  -- The node is ready in a memory with the same leaf.
  pub ready_lem :
      (s0 : Shape)
      → s0.leaf ≡ s.leaf
      → Holds s0 path (fork c l a (plug q m))
      → Ready s0 path c l a (plug q m) t
  ready_lem s0 leaf h0 =
      let n = occ-plug t q (fork e tip t m) in
      let n' = occ-plug t q m in
      let o = h.once.0 t in
      let here : hit t t ≡ 1 = ground arith in
      let n_leaf = occ-plug s.leaf q (fork e tip t m) in
      let o_leaf = h.once.1 in
      let n_null = occ-plug 0 q (fork e tip t m) in
      let o_null = h.non_null in
      record {
        links = h0.at.0.0;
        sub_l = h0.at.0.2.0;
        sub_r = h0.at.0.2.1;
        up = h0.at.1;
        around = h0.at.2;
        once = h0.once;
        dark = h0.dark;
        leaf_pos = h0.leaf_pos;
        non_null = h0.non_null;
        new_t = omega arith;
        real_t = λ eq. let there : hit s.leaf t ≡ 1 = ground arith in omega arith;
        t_pos = hit_pos t (omega arith);
      }

node_of-occ : (step : Step) (q : Way) → 0 < occ_path (node_of step) (step ∷ q)
node_of-occ (down_left c a r) q = let self : hit a a ≡ 1 = ground arith in omega arith
node_of-occ (down_right c l a) q = let self : hit a a ≡ 1 = ground arith in omega arith

-- The least node is the right child itself.
module _ (s : Shape) (path : Way) (c : Bool) (l : Tree) (a : ℕ) (e : Bool) (t : ℕ) (m : Tree)
    (h : Holds s path (fork c l a (fork e tip t m))) where
  abbrev pub near : Shape
  near = lifted s (down_right c l a ∷ path) (top s.leaf m) t

  pub child : Holds s (down_right c l a ∷ path) (fork e tip t m)
  child = Holds-into_right s c a path l (fork e tip t m) h

  Once-m : Once s.leaf (down_right c l a ∷ path) m
  Once-m = (λ x. let o = child.once.0 x in omega arith, let o = child.once.1 in omega arith)

  null_m : occ 0 m + occ_path 0 (down_right c l a ∷ path) ≡ 0
  null_m = let o = child.non_null in omega arith

  near-Around : Around s.leaf near (down_right c l a ∷ path) (top s.leaf m)
  near-Around =
      up-Around s (down_right c l a ∷ path) t t m child.at.0.2.1 child.at.2 Once-m child.dark
        child.leaf_pos null_m

  near-Sub : Sub s.leaf near m
  near-Sub =
      up-Sub s (down_right c l a ∷ path) t t m child.at.0.2.1 child.at.2 Once-m child.dark
        child.leaf_pos null_m

  near_top : near.parent (top s.leaf m) ≡ t
  near_top =
      up_top s (down_right c l a ∷ path) t t m child.at.0.2.1 child.at.2 Once-m child.dark
        child.leaf_pos null_m

  pub near-Ready : Ready near path c l a m t
  near-Ready =
      let o = h.once.0 t in
      let here : hit t t ≡ 1 = ground arith in
      let o_leaf = h.once.1 in
      let o_null = h.non_null in
      record {
        links = near-Around.0;
        sub_l = near-Around.2.0;
        sub_r = near-Sub;
        up = near-Around.1.1;
        around = near-Around.2.1;
        once = (λ x. let o' = h.once.0 x in omega arith, omega arith);
        dark = h.dark;
        leaf_pos = h.leaf_pos;
        non_null = omega arith;
        new_t = omega arith;
        real_t = λ eq. let there : hit s.leaf t ≡ 1 = ground arith in omega arith;
        t_pos = hit_pos t (omega arith);
      }

  pub near-Back : Back near (down_right c l t ∷ path) m
  near-Back = Back-node near (down_right c l t) path m near_top

  pub splice-near : splice s a t (top s.leaf m) ≡ adopt (replace_left (take_links near a t) a t) t
  unfolding splice
  splice-near =
      let apart : (t == a) ≡ false = let ne = apart_t s path c l a [] e t m h in ground arith in
      let up = parent_top s (down_right c l a) path e tip t m child in
      let same : (a == a) ≡ true = ground arith in
      rw (apart, cut_lem s (down_right c l a) path e tip t m (top s.leaf m) child, up, same) refl

-- The least node is below the right child.
module _ (s : Shape) (path : Way) (c : Bool) (l : Tree) (a : ℕ) (step : Step) (q : Way) (e : Bool)
    (t : ℕ) (m : Tree) (h : Holds s path (fork c l a (plug (step ∷ q) (fork e tip t m)))) where
  pub least : Holds s (step ∷ q ++ (down_right c l a ∷ path)) (fork e tip t m)
  least =
      Holds-unplug s (step ∷ q) (down_right c l a ∷ path) (fork e tip t m)
        (Holds-into_right s c a path l (plug (step ∷ q) (fork e tip t m)) h)

  abbrev pub far : Shape
  far = closed s step (q ++ (down_right c l a ∷ path)) e tip t m m least (right-Part m)

  far-Holds : Holds far path (fork c l a (plug (step ∷ q) m))
  far-Holds = Holds-up_right far c a path l (plug (step ∷ q) m) (
      Holds-plug_part far (step ∷ q) (down_right c l a ∷ path) m
        (Holds-closed s step (q ++ (down_right c l a ∷ path)) e tip t m m least (right-Part m)))

  pub far_leaf : far.leaf ≡ s.leaf
  far_leaf = closed_leaf s step (q ++ (down_right c l a ∷ path)) e tip t m m least (right-Part m)

  pub far-Ready : Ready far path c l a (plug (step ∷ q) m) t
  far-Ready = ready_lem s path c l a (step ∷ q) e t m h far far_leaf far-Holds

  pub far-Back : Back far (step ∷ q ++ (down_right c l t ∷ path)) m
  far-Back =
      Back-keep far far step step (q ++ (down_right c l a ∷ path)) (q ++ (down_right c l t ∷ path))
        m refl refl refl
        (closed-Back s step (q ++ (down_right c l a ∷ path)) e tip t m m least (right-Part m))

  apart_step : node_of step ≢ a
  apart_step eq =
      let o = h.once.0 (node_of step) in
      let n = occ-plug (node_of step) (step ∷ q) (fork e tip t m) in
      let here : 0 < occ_path (node_of step) (step ∷ q) = node_of-occ step q in
      let there : hit (node_of step) a ≡ 1 = ground arith in omega arith

  pub splice-far : splice s a t (top s.leaf m) ≡ adopt (replace_left (take_links far a t) a t) t
  unfolding splice
  splice-far =
      let apart : (t == a) ≡ false =
        let ne = apart_t s path c l a (step ∷ q) e t m h in ground arith in
      let o = least.once.0 t in
      let self : hit t t ≡ 1 = ground arith in
      let up =
        (hang-outside s (step ∷ q ++ (down_right c l a ∷ path)) (top s.leaf m) t (omega arith)).3
        ∙ parent_top s step (q ++ (down_right c l a ∷ path)) e tip t m least in
      let other : (node_of step == a) ≡ false = let ne = apart_step in ground arith in
      rw
        (
          apart,
          cut_lem s step (q ++ (down_right c l a ∷ path)) e tip t m (top s.leaf m) least,
          up,
          other,
        )
        refl
