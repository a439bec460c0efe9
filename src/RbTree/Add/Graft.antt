-- ===== src/RbTree/Add/Graft.antt =====
-- libyod/rbtree.c: the branch of add for a tree that is not empty.
use libyod.Prelude.{
  ℕ, suc, ◌≤◌, ◌<◌, ◌≡◌, refl, sym, ap, ◌∙◌, subst, ◌≢◌, inl, inr, Bool, true, false, some, List,
  [], ◌∷◌, ◌++◌, arith, ltb, Bool-cases, length, length-append, ◌>>=◌, All, map,
}
use libyod.Links.{first_or, last_or, Linked, Absent, Distinct, NonNull}
use libyod.RbTree.Shape.{paint}
use libyod.RbTree.State.{RbTree}
use libyod.RbTree.Balance.{rebalance}
use libyod.RbTree.Insert.{extend_ends, descend, link_neighbours, settle, graft}
use libyod.RbTree.Tree.{
  Tree, tip, fork, Step, down_left, down_right, Way, plug, ids, before, after, ids-plug, count_in,
  occ, occ_path, occ-plug, occ-count_in,
}
use libyod.RbTree.Holds.{Holds, is_red, root_top, node_of}
use libyod.RbTree.Colors.{Bal, Calm, blacken, Bal-blacken, Calm-blacken, is_red-blacken}
use libyod.RbTree.Order.{
  SortedBy, SortedBy-append, Parted, into, plug-into, Holds-into, into-Parted, Absent-count_in,
  Distinct-count_in, NonNull-count_in, All-imp,
}
use libyod.RbTree.Rebalance.Loop.{Rebalanced}
use libyod.RbTree.Visit.{entry_of}
use libyod.RbTree.Valid.{IsRbTree, entries, insert_entry, insert_entry-nodes}
use libyod.RbTree.Place.{near, descend_lem, hung}
use libyod.RbTree.Add.Grown.{length-path, Holds-blacken, ids-blacken, grown}
use libyod.RbTree.Add.Neighbours.{attach_lem, linked_in, linked_in-Linked, extend_ends_lem}

-- The tree behind fill_node: `x` has its fields and is counted, but is linked with nothing.
pub record Filled (t : RbTree) (n : Tree) (x : ℕ) : Type 0 where
  pub holds : Holds t.shape [] n
  pub bal : Bal n
  pub calm : Calm n
  pub black_root : is_red n ≡ false
  pub sorted : SortedBy t.key (ids n)
  pub linked : Linked t.next t.prev 0 (ids n) 0
  pub head_first : t.head ≡ first_or 0 (ids n)
  pub tail_last : t.tail ≡ last_or 0 (ids n)
  pub counted : t.count ≡ suc (length (ids n))
  pub pos : 0 < x
  pub real_x : x ≢ t.shape.leaf
  pub new_x : count_in x (ids n) ≡ 0
  pub left_x : t.shape.left x ≡ t.shape.leaf
  pub right_x : t.shape.right x ≡ t.shape.leaf
  pub red_x : t.shape.red x ≡ true

-- The descent goes below at least one node.
into-cons :
    (key : ℕ → ℕ) (k : ℕ) (step : Step) (path : Way) (n : Tree)
    → (step' : Step) × (path' : Way) × (into key k (step ∷ path) n ≡ step' ∷ path')
into-cons key k step path tip = (step, path, refl)
into-cons key k step path (fork c l a r) = elim (Bool-cases (ltb k (key a))) [
  | inl e ↦ let (s, p, h) = into-cons key k (down_left c a r) (step ∷ path) l in (s, p, rw e h)
  | inr e ↦ let (s, p, h) = into-cons key k (down_right c l a) (step ∷ path) r in (s, p, rw e h)
]

into-fork :
    (key : ℕ → ℕ) (k : ℕ) (c : Bool) (l : Tree) (a : ℕ) (r : Tree)
    → (step : Step) × (path : Way) × (into key k [] (fork c l a r) ≡ step ∷ path)
into-fork key k c l a r = elim (Bool-cases (ltb k (key a))) [
  | inl e ↦ let (s, p, h) = into-cons key k (down_left c a r) [] l in (s, p, rw e h)
  | inr e ↦ let (s, p, h) = into-cons key k (down_right c l a) [] r in (s, p, rw e h)
]

All-both :
    (key : ℕ → ℕ) (k x : ℕ) (xs ys : List ℕ)
    → key x ≡ k
    → All (λ b. key b ≤ k) xs
    → All (λ a. All (λ b. key a ≤ key b) ys) xs
    → All (λ a. All (λ b. key a ≤ key b) (x ∷ ys)) xs
All-both key k x [] ys e h h' = tt
All-both key k x (a ∷ xs) ys e (le, h) (all, h') =
    ((omega arith, all), All-both key k x xs ys e h h')

-- What is known of the place that the descent ends at.
record Spot (t : RbTree) (n : Tree) (x : ℕ) (step : Step) (path : Way) : Type 0 where
  place : into t.key (t.key x) [] n ≡ step ∷ path
  whole : plug (step ∷ path) tip ≡ n
  holds : Holds t.shape (step ∷ path) tip
  parted : Parted t.key (t.key x) (step ∷ path)
  order : ids n ≡ before (step ∷ path) ++ after (step ∷ path)

module _ (t : RbTree) (c : Bool) (l : Tree) (a : ℕ) (r : Tree) (x : ℕ)
    (filled : Filled t (fork c l a r) x) where
  abbrev n : Tree
  n = fork c l a r

  spot : (step : Step) × (path : Way) × Spot t n x step path
  spot =
      let (step, path, place) = into-fork t.key (t.key x) c l a r in
      let whole = ap (λ p. plug p tip) (sym place) ∙ plug-into t.key (t.key x) [] n in
      (
        step,
        path,
        record {
          place = place;
          whole = whole;
          holds =
              subst (λ p. Holds t.shape p tip) place
                (Holds-into t.key (t.key x) t.shape [] n filled.holds);
          parted =
              subst (λ p. Parted t.key (t.key x) p) place
                (into-Parted t.key (t.key x) [] n filled.sorted (tt, tt));
          order = ap ids (sym whole) ∙ ids-plug (step ∷ path) tip;
        },
      )

  module _ (step : Step) (path : Way) (at : Spot t n x step path) where
    abbrev xs : List ℕ
    xs = before (step ∷ path)

    abbrev ys : List ℕ
    ys = after (step ∷ path)

    descended :
        descend (suc t.count) (extend_ends t x) x t.shape.root (t.shape.parent x)
        ≡ some (node_of step)
    unfolding extend_ends
    descended =
        ap (λ p. descend (suc t.count) (extend_ends t x) x p (t.shape.parent x))
          (root_top t.shape n filled.holds)
        ∙ descend_lem (extend_ends t x) x (t.shape.parent x) n (suc t.count) [] filled.holds
            (omega (arith, filled.counted))
        ∙ ap (λ p. some (near (t.shape.parent x) p)) at.place

    links : Linked t.next t.prev 0 (xs ++ ys) 0
    links = subst (λ zs. Linked t.next t.prev 0 zs 0) at.order filled.linked

    count_in-split : (y : ℕ) → count_in y (ids n) ≡ count_in y (xs ++ ys)
    count_in-split y = ap (count_in y) at.order

    once : (y : ℕ) → count_in y (xs ++ ys) ≤ 1
    once y = omega (arith, filled.holds.once.0 y, occ-count_in y n, count_in-split y)

    absent : Absent x (xs ++ ys)
    absent = Absent-count_in x (xs ++ ys) (omega (arith, filled.new_x, count_in-split x))

    out : occ_path x (step ∷ path) ≡ 0
    out =
        omega
          (arith, occ-plug x (step ∷ path) tip, occ-count_in x n, filled.new_x, ap (occ x) at.whole)

    non_null : NonNull (xs ++ ys)
    non_null =
        NonNull-count_in (xs ++ ys)
          (omega (arith, filled.holds.non_null, occ-count_in 0 n, count_in-split 0))

    distinct : Distinct (xs ++ ys)
    distinct = Distinct-count_in (xs ++ ys) once

    abbrev joined : RbTree
    joined = linked_in (extend_ends t x) x step path

    joined-Linked : Linked joined.next joined.prev 0 (xs ++ (x ∷ ys)) 0
    joined-Linked =
        linked_in-Linked (extend_ends t x) x step path filled.pos absent non_null distinct
          (unfold extend_ends in links)

    run : graft t x ≡ settle joined x
    unfolding graft extend_ends
    run =
        let place = attach_lem (extend_ends t x) x step path at.parted links in
        rw (descended, ◌>>=◌) (ap (λ t'. settle (link_neighbours t' x) x) place)

    joined_shape : joined.shape ≡ hung t.shape step path x
    unfolding link_neighbours extend_ends
    joined_shape = refl

    balanced :
        Rebalanced
          (rebalance (suc t.count) (hung t.shape step path x) x)
          (plug (step ∷ path) (fork true tip x tip))
    balanced =
        grown t.shape step path x at.holds filled.pos filled.real_x out filled.left_x filled.right_x
          filled.red_x (subst Bal (sym at.whole) filled.bal) (subst Calm (sym at.whole) filled.calm)
          (subst (λ m. is_red m ≡ false) (sym at.whole) filled.black_root) (suc t.count)
          (omega (
            arith,
            length-path (step ∷ path),
            length-append xs ys,
            ap length at.order,
            filled.counted,
          ))

    abbrev result : RbTree
    result = record joined { shape = paint balanced.shape balanced.shape.root false }

    settled : settle joined x ≡ some result
    unfolding settle link_neighbours extend_ends
    settled = rw (balanced.ends, ◌>>=◌) refl

    new_ids : ids (blacken balanced.tree) ≡ xs ++ (x ∷ ys)
    new_ids =
        ids-blacken balanced.tree ∙ balanced.same ∙ ids-plug (step ∷ path) (fork true tip x tip)

    new_sorted : SortedBy t.key (xs ++ (x ∷ ys))
    new_sorted =
        let (front, back, apart) =
          (SortedBy-append t.key xs ys).0 (subst (SortedBy t.key) at.order filled.sorted) in
        (SortedBy-append t.key xs (x ∷ ys)).1 (
          front,
          (
            All-imp (λ b. t.key x < t.key b) (λ b. t.key x ≤ t.key b) ys (λ b h. omega arith)
                at.parted.1,
            back,
          ),
          All-both t.key (t.key x) x xs ys refl at.parted.0 apart,
        )

    result-IsRbTree : IsRbTree result (blacken balanced.tree)
    unfolding link_neighbours extend_ends paint
    result-IsRbTree =
        let ends =
          extend_ends_lem t x xs ys at.parted.0 at.parted.1
            (omega
              (arith, length-append xs ys, ap length at.order, length-append (ids l) (a ∷ ids r)))
            (filled.head_first ∙ ap (first_or 0) at.order)
            (filled.tail_last ∙ ap (last_or 0) at.order) in
        record {
          holds = Holds-blacken balanced.shape balanced.tree balanced.holds;
          bal = Bal-blacken balanced.tree balanced.bal;
          calm = Calm-blacken balanced.tree balanced.calm;
          black_root = is_red-blacken balanced.tree;
          sorted = subst (SortedBy t.key) (sym new_ids) new_sorted;
          linked = subst (λ zs. Linked joined.next joined.prev 0 zs 0) (sym new_ids) joined-Linked;
          head_first = ends.0 ∙ ap (first_or 0) (sym new_ids);
          tail_last = ends.1 ∙ ap (last_or 0) (sym new_ids);
          counted =
              filled.counted
              ∙ omega (
                arith,
                ap length new_ids,
                length-append xs (x ∷ ys),
                length-append xs ys,
                ap length at.order,
              );
        }

-- The branch ends. It puts the node behind the others whose keys are at most its key.
pub graft_lem :
    (t : RbTree) (c : Bool) (l : Tree) (a : ℕ) (r : Tree) (x : ℕ)
    → Filled t (fork c l a r) x
    → (t' : RbTree) × (n' : Tree) × (graft t x ≡ some t')
      × IsRbTree t' n'
      × (entries t' n' ≡ insert_entry (entry_of t x) (entries t (fork c l a r)))
unfolding link_neighbours extend_ends
graft_lem t c l a r x filled =
    let (step, path, at) = spot t c l a r x filled in
    (
      result t c l a r x filled step path at,
      blacken (balanced t c l a r x filled step path at).tree,
      run t c l a r x filled step path at ∙ settled t c l a r x filled step path at,
      result-IsRbTree t c l a r x filled step path at,
      ap (map (entry_of t)) (new_ids t c l a r x filled step path at)
          ∙ insert_entry-nodes t x (before (step ∷ path)) (after (step ∷ path)) at.parted.0
              at.parted.1
          ∙ ap (λ zs. insert_entry (entry_of t x) (map (entry_of t) zs)) (sym at.order),
    )
