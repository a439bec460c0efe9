-- ===== src/RbTree/Depth.antt =====
-- libyod/rbtree.c: how long the ways down a red-black tree are, and so how long a search takes.
use libyod.Prelude.{
  ℕ, zero, suc, ◌+◌, ◌*◌, ◌^◌, ◌≤◌, ◌<◌, ◌≡◌, refl, sym, ap, ◌∙◌, subst, inl, inr, true, false, [],
  ◌∷◌, arith, dec_lt, ℕ_discrete, ltb, if◌then◌else◌, Bool-cases, length, length-append, some, ◌≢◌,
  ◌⊎◌, All,
}
use libyod.Links.{In}
use libyod.RbTree.State.{RbTree, search, locate}
use libyod.RbTree.Tree.{Tree, tip, fork, Way, down_left, down_right, ids, top}
use libyod.RbTree.Holds.{
  is_red, Holds, Holds-into_left, Holds-into_right, left_top, right_top, real, root_top,
}
use libyod.RbTree.Colors.{height, Bal, Calm}
use libyod.RbTree.Valid.{IsRbTree, locate_lem, search_leaf, search_hit, search_on}

-- At least as many as there are nodes on any way down.
abbrev pub Within : ℕ → Tree → Type 0
Within d tip = Unit {0}
Within zero (fork c l a r) = ⊥
Within (suc d) (fork c l a r) = Within d l × Within d r

pow-suc : (h : ℕ) → 2 ^ suc h ≡ 2 ^ h + 2 ^ h
pow-suc h = omega arith

-- A way down has at most two nodes for each black one, and one more below a red root.
red-Within :
    (d : ℕ) (n : Tree)
    → Bal n
    → Calm n
    → 2 * height n + (if is_red n then 1 else 0) ≤ d
    → Within d n
red-Within d tip bal calm enough = tt
red-Within zero (fork true l a r) bal calm enough = omega arith
red-Within zero (fork false l a r) bal calm enough = omega arith
red-Within (suc d) (fork true l a r) (e, bal_l, bal_r) ((black_l, black_r), calm_l, calm_r) enough =
    (
      red-Within d l bal_l calm_l (rw black_l (omega arith)),
      red-Within d r bal_r calm_r (rw black_r (omega arith)),
    )
red-Within (suc d) (fork false l a r) (e, bal_l, bal_r) (_, calm_l, calm_r) enough =
    (red-Within d l bal_l calm_l (ground arith), red-Within d r bal_r calm_r (ground arith))

size-height : (n : Tree) → Bal n → 2 ^ height n ≤ suc (length (ids n))
size-height tip bal = omega arith
size-height (fork true l a r) (e, bal_l, bal_r) =
    let same : height l + 0 ≡ height l = omega arith in
    rw same (omega (arith, size-height l bal_l, length-append (ids l) (a ∷ ids r)))
size-height (fork false l a r) (e, bal_l, bal_r) =
    let same : height l + 1 ≡ suc (height l) = omega arith in
    rw same (
      omega (
        arith,
        pow-suc (height l),
        size-height l bal_l,
        subst (λ h. 2 ^ h ≤ suc (length (ids r))) (sym e) (size-height r bal_r),
        length-append (ids l) (a ∷ ids r),
      ))

-- Fuel for the longest way down is as good as any more of it.
module _ (t : RbTree) (k : ℕ) where
  search-fuel :
      (d e : ℕ) (n : Tree) (path : Way)
      → Holds t.shape path n
      → Within d n
      → Within e n
      → search (suc d) t k (top t.shape.leaf n) ≡ search (suc e) t k (top t.shape.leaf n)
  search-fuel d e tip path h wd we =
      search_leaf t k d t.shape.leaf refl ∙ sym (search_leaf t k e t.shape.leaf refl)
  search-fuel zero e (fork c l a r) path h wd we = elim wd [ ]
  search-fuel (suc d) zero (fork c l a r) path h wd we = elim we [ ]
  search-fuel (suc d) (suc e) (fork c l a r) path h (wd_l, wd_r) (we_l, we_r) =
      let real_a = real t.shape path c l a r h in
      elim (ℕ_discrete (t.key a) k) [
        | yes same ↦
            search_hit t k (suc d) a real_a same ∙ sym (search_hit t k (suc e) a real_a same)
        | no ne ↦ elim (Bool-cases (ltb k (t.key a))) [
          | inl lt ↦
              let down : (if ltb k (t.key a) then t.shape.left a else t.shape.right a)
                  ≡ top t.shape.leaf l =
                rw lt (left_top t.shape path c l a r h) in
              search_on t k (suc d) a real_a (top t.shape.leaf l) ne down
              ∙ search-fuel d e l (down_left c a r ∷ path) (Holds-into_left t.shape c a path l r h)
                  wd_l we_l
              ∙ sym (search_on t k (suc e) a real_a (top t.shape.leaf l) ne down)
          | inr ge ↦
              let down : (if ltb k (t.key a) then t.shape.left a else t.shape.right a)
                  ≡ top t.shape.leaf r =
                rw ge (right_top t.shape path c l a r h) in
              search_on t k (suc d) a real_a (top t.shape.leaf r) ne down
              ∙ search-fuel d e r (down_right c l a ∷ path)
                  (Holds-into_right t.shape c a path l r h) wd_r we_r
              ∙ sym (search_on t k (suc e) a real_a (top t.shape.leaf r) ne down)
        ]
      ]

Within-all : (n : Tree) (d : ℕ) → length (ids n) ≤ d → Within d n
Within-all tip d h = tt
Within-all (fork c l a r) zero h = let size = length-append (ids l) (a ∷ ids r) in omega arith
Within-all (fork c l a r) (suc d) h =
    let size = length-append (ids l) (a ∷ ids r) in
    (Within-all l d (omega arith), Within-all r d (omega arith))

pow_mono : (m n : ℕ) → m ≤ n → 2 ^ m ≤ 2 ^ n
pow_mono zero zero h = omega arith
pow_mono zero (suc n) h = omega (arith, pow_mono zero n (omega arith), pow-suc n)
pow_mono (suc m) zero h = omega arith
pow_mono (suc m) (suc n) h = omega (arith, pow_mono m n (omega arith), pow-suc n, pow-suc m)

height_bound : (n : Tree) (m : ℕ) → Bal n → suc (length (ids n)) < 2 ^ suc m → height n ≤ m
height_bound n m bal small = elim (dec_lt m (height n)) [
  | yes lt ↦ omega (arith, pow_mono (suc m) (height n) (omega arith), size-height n bal)
  | no ge ↦ omega arith
]

search_rounds :
    (t : RbTree) (n : Tree)
    → IsRbTree t n
    → (k m : ℕ) → t.count + 1 < 2 ^ suc m
    → search (suc (2 * m)) t k t.shape.root ≡ locate t k
unfolding locate
search_rounds t n valid k m small =
    let bound = height_bound n m valid.bal (omega (arith, valid.counted)) in
    let enough : 2 * height n + (if is_red n then 1 else 0) ≤ 2 * m =
      rw valid.black_root (omega arith) in
    ap (search (suc (2 * m)) t k) (root_top t.shape n valid.holds)
    ∙ search-fuel t k (2 * m) t.count n [] valid.holds
        (red-Within (2 * m) n valid.bal valid.calm enough)
        (Within-all n t.count (omega (arith, valid.counted)))
    ∙ ap (search (suc t.count) t k) (sym (root_top t.shape n valid.holds))

-- In a well-formed tree of fewer than 2^(m+1) - 1 nodes the search of add, del and find ends behind
-- at most 2m nodes, with the result that `locate` has: a node of the tree with the key, or NULL where
-- no node has it.
pub locate-rounds :
    (t : RbTree) (n : Tree)
    → IsRbTree t n
    → (k m : ℕ) → t.count + 1 < 2 ^ suc m
    → (a : ℕ) × (search (suc (2 * m)) t k t.shape.root ≡ some a)
      × (locate t k ≡ some a)
      × (((a ≡ 0) × All (λ b. t.key b ≢ k) (ids n)) ⊎ ((0 < a) × In a (ids n) × (t.key a ≡ k)))
locate-rounds t n valid k m small =
    let (a, run, found) = locate_lem t n valid k in
    (a, search_rounds t n valid k m small ∙ run, run, found)
