-- ===== src/RbTree/Valid.antt =====
-- libyod/rbtree.c: when a tree is well formed, its abstract view, and what find returns.
use libyod.Prelude.{
  ℕ, zero, suc, ◌≤◌, ◌<◌, ◌≡◌, refl, ap, ◌∙◌, ◌≢◌, ◌⊎◌, inl, inr, Bool, true, false, some, List, [],
  ◌∷◌, ◌++◌, map, arith, ℕ_discrete, ltb, ◌==◌, if◌then◌else◌, ltb→lt, Bool-cases, length,
  length-append, ◌>>=◌, All, sym,
}
use libyod.Links.{first_or, last_or, Linked, In, Distinct, NonNull, In-append, All-append}
use libyod.RbTree.State.{RbTree, new, empty, search, locate, find}
use libyod.RbTree.Visit.{Entry, entry_of}
use libyod.RbTree.Tree.{Tree, tip, fork, down_left, down_right, Way, ids, occ-count_in, top}
use libyod.RbTree.Holds.{
  is_red, Holds, Holds-into_left, Holds-into_right, left_top, right_top, real, node_pos, root_top,
}
use libyod.RbTree.Colors.{Bal, Calm}
use libyod.RbTree.Order.{
  SortedBy, sorted_left, sorted_right, front_at_most, back_above, All-imp, Distinct-count_in,
  NonNull-count_in,
}

-- The memory has the red-black tree `n`, and the list has its nodes in order of their keys.
pub record IsRbTree (t : RbTree) (n : Tree) : Type 0 where
  pub holds : Holds t.shape [] n
  pub bal : Bal n
  pub calm : Calm n
  pub black_root : is_red n ≡ false
  pub sorted : SortedBy t.key (ids n)
  pub linked : Linked t.next t.prev 0 (ids n) 0
  pub head_first : t.head ≡ first_or 0 (ids n)
  pub tail_last : t.tail ≡ last_or 0 (ids n)
  pub counted : t.count ≡ length (ids n)

-- The abstract view: what stands in the tree, in order of the keys.
abbrev pub entries : RbTree → Tree → List Entry
entries t n = map (entry_of t) (ids n)

module _ (t : RbTree) (n : Tree) (valid : IsRbTree t n) where
  root_pos_at : (m : Tree) → Holds t.shape [] m → (t.shape.root == 0) ≡ false
  root_pos_at tip h =
      let e = root_top t.shape tip h in let pos = valid.holds.leaf_pos in ground arith
  root_pos_at (fork c l a r) h =
      let e = root_top t.shape (fork c l a r) h in
      let pos = node_pos t.shape [] c l a r h in ground arith

  pub distinct : Distinct (ids n)
  distinct = Distinct-count_in (ids n) (λ x. omega (arith, valid.holds.once.0 x, occ-count_in x n))

  pub non_null : NonNull (ids n)
  non_null = NonNull-count_in (ids n) (omega (arith, valid.holds.non_null, occ-count_in 0 n))

  pub root_pos : (t.shape.root == 0) ≡ false
  root_pos = root_pos_at n valid.holds

-- A new entry is put behind the others whose keys are at most its key.
abbrev pub insert_entry : Entry → List Entry → List Entry
insert_entry e [] = e ∷ []
insert_entry e (e' ∷ es) = if ltb e.0 e'.0 then e ∷ e' ∷ es else e' ∷ insert_entry e es

insert_before :
    (e : Entry) (es : List Entry) → All (λ e'. e.0 < e'.0) es → insert_entry e es ≡ e ∷ es
insert_before e [] h = refl
insert_before e (e' ∷ es) (lt, h) = let here : ltb e.0 e'.0 ≡ true = ground arith in rw here

module _ (t : RbTree) (x : ℕ) where
  nodes_above :
      (ys : List ℕ)
      → All (λ b. t.key x < t.key b) ys
      → All (λ e. t.key x < e.0) (map (entry_of t) ys)
  nodes_above [] h = tt
  nodes_above (y ∷ ys) (h, hs) = (h, nodes_above ys hs)

  pub insert_entry-nodes :
      (xs ys : List ℕ)
      → All (λ b. t.key b ≤ t.key x) xs
      → All (λ b. t.key x < t.key b) ys
      → map (entry_of t) (xs ++ (x ∷ ys))
        ≡ insert_entry (entry_of t x) (map (entry_of t) (xs ++ ys))
  insert_entry-nodes [] ys front back =
      sym (insert_before (entry_of t x) (map (entry_of t) ys) (nodes_above ys back))
  insert_entry-nodes (a ∷ xs) ys (le, front) back =
      let there : ltb (t.key x) (t.key a) ≡ false = ground arith in
      rw there (ap (λ es. entry_of t a ∷ es) (insert_entry-nodes xs ys front back))

-- A node with the key is found, or there is none and the result is NULL.
abbrev pub Found : RbTree → ℕ → List ℕ → ℕ → Type 0
Found t k xs a = ((a ≡ 0) × All (λ b. t.key b ≢ k) xs) ⊎ ((0 < a) × In a xs × (t.key a ≡ k))

module _ (t : RbTree) (k : ℕ) (fuel a : ℕ) where
  pub search_leaf : a ≡ t.shape.leaf → search (suc fuel) t k a ≡ some 0
  unfolding search
  search_leaf e = let here : (a == t.shape.leaf) ≡ true = ground arith in rw here

  module _ (real_a : a ≢ t.shape.leaf) where
    pub search_hit : t.key a ≡ k → search (suc fuel) t k a ≡ some a
    unfolding search
    search_hit e =
        let here : (a == t.shape.leaf) ≡ false = ground arith in
        let same : (t.key a == k) ≡ true = ground arith in rw (here, same)

    pub search_on :
        (next : ℕ)
        → t.key a ≢ k
        → (if ltb k (t.key a) then t.shape.left a else t.shape.right a) ≡ next
        → search (suc fuel) t k a ≡ search fuel t k next
    unfolding search
    search_on next ne e =
        let here : (a == t.shape.leaf) ≡ false = ground arith in
        let other : (t.key a == k) ≡ false = ground arith in rw (here, other, e)

module _ (t : RbTree) (k : ℕ) where
  Found-left :
      (xs : List ℕ) (a : ℕ) (ys : List ℕ) (b : ℕ)
      → SortedBy t.key (xs ++ (a ∷ ys))
      → k < t.key a
      → Found t k xs b
      → Found t k (xs ++ (a ∷ ys)) b
  Found-left xs a ys b sorted lt (inl (z, nowhere)) = inl (
    z,
    (All-append (λ c. t.key c ≢ k) xs (a ∷ ys)).1 (
      nowhere,
      All-imp (λ c. k < t.key c) (λ c. t.key c ≢ k) (a ∷ ys) (λ c h e. omega arith)
          (back_above t.key k xs a ys sorted lt),
    ),
  )
  Found-left xs a ys b sorted lt (inr (pos, m, e)) =
      inr (pos, (In-append b xs (a ∷ ys)).1 (inl m), e)

  Found-right :
      (xs : List ℕ) (a : ℕ) (ys : List ℕ) (b : ℕ)
      → SortedBy t.key (xs ++ (a ∷ ys))
      → t.key a < k
      → Found t k ys b
      → Found t k (xs ++ (a ∷ ys)) b
  Found-right xs a ys b sorted lt (inl (z, nowhere)) =
      let front = front_at_most t.key (t.key a) xs a ys sorted (omega arith) in
      inl (
        z,
        (All-append (λ c. t.key c ≢ k) xs (a ∷ ys)).1 (
          All-imp (λ c. t.key c ≤ t.key a) (λ c. t.key c ≢ k) xs (λ c h e. omega arith)
              ((All-append (λ c. t.key c ≤ t.key a) xs (a ∷ [])).0 front).0,
          (λ e. omega arith, nowhere),
        ),
      )
  Found-right xs a ys b sorted lt (inr (pos, m, e)) =
      inr (pos, (In-append b xs (a ∷ ys)).1 (inr (inr m)), e)

  pub search_lem :
      (n : Tree) (fuel : ℕ) (path : Way)
      → Holds t.shape path n
      → SortedBy t.key (ids n)
      → length (ids n) < fuel
      → (a : ℕ) × (search fuel t k (top t.shape.leaf n) ≡ some a) × Found t k (ids n) a
  search_lem n zero path h sorted enough = absurd (omega arith)
  search_lem tip (suc fuel) path h sorted enough =
      (0, search_leaf t k fuel t.shape.leaf refl, inl (refl, tt))
  search_lem (fork c l a r) (suc fuel) path h sorted enough =
      let real_a = real t.shape path c l a r h in
      let size = length-append (ids l) (a ∷ ids r) in
      let (b, run_l, found_l) =
        search_lem l fuel (down_left c a r ∷ path) (Holds-into_left t.shape c a path l r h)
          (sorted_left t.key k (ids l) a (ids r) sorted) (omega arith) in
      let (d, run_r, found_r) =
        search_lem r fuel (down_right c l a ∷ path) (Holds-into_right t.shape c a path l r h)
          (sorted_right t.key k (ids l) a (ids r) sorted) (omega arith) in
      elim (ℕ_discrete (t.key a) k) [
        | yes e ↦ (
          a,
          search_hit t k fuel a real_a e,
          inr (
            node_pos t.shape path c l a r h,
            (In-append a (ids l) (a ∷ ids r)).1 (inr (inl refl)),
            e,
          ),
        )
        | no ne ↦ elim (Bool-cases (ltb k (t.key a))) [
          | inl e ↦ (
            b,
            search_on t k fuel a real_a (top t.shape.leaf l) ne
                  (rw e (left_top t.shape path c l a r h))
                ∙ run_l,
            Found-left (ids l) a (ids r) b sorted (ltb→lt k (t.key a) e) found_l,
          )
          | inr e ↦ (
            d,
            search_on t k fuel a real_a (top t.shape.leaf r) ne
                  (rw e (right_top t.shape path c l a r h))
                ∙ run_r,
            Found-right (ids l) a (ids r) d sorted (ground arith) found_r,
          )
        ]
      ]

module _ (t : RbTree) (n : Tree) (valid : IsRbTree t n) (k : ℕ) where
  pub locate_lem : (a : ℕ) × (locate t k ≡ some a) × Found t k (ids n) a
  unfolding locate
  locate_lem =
      let (a, run, found) =
        search_lem t k n (suc t.count) [] valid.holds valid.sorted (omega (arith, valid.counted)) in
      (a, ap (search (suc t.count) t k) (root_top t.shape n valid.holds) ∙ run, found)

-- An entry with this key and this value.
abbrev pub Has : ℕ → ℕ → List Entry → Type 0
Has k v [] = ⊥
Has k v (e ∷ es) = ((e.0 ≡ k) × (e.1 ≡ v)) ⊎ Has k v es

abbrev pub Lacks : ℕ → List Entry → Type 0
Lacks k = All (λ e. e.0 ≢ k)

module _ (t : RbTree) (k : ℕ) where
  pub Has-entry :
      (a : ℕ) (xs : List ℕ) → In a xs → t.key a ≡ k → Has k (t.value a) (map (entry_of t) xs)
  Has-entry a [] m e = elim m [ ]
  Has-entry a (x ∷ xs) (inl same) e = inl (ap t.key same ∙ e, ap t.value same)
  Has-entry a (x ∷ xs) (inr m) e = inr (Has-entry a xs m e)

  pub Lacks-entries : (xs : List ℕ) → All (λ b. t.key b ≢ k) xs → Lacks k (map (entry_of t) xs)
  Lacks-entries [] h = tt
  Lacks-entries (x ∷ xs) (h, hs) = (h, Lacks-entries xs hs)

pub pos_not_null : (a : ℕ) → 0 < a → (a == 0) ≡ false
pos_not_null a pos = ground arith

-- On a well-formed tree find ends. It returns the value of an entry with the key, or NULL where no
-- entry has the key.
pub find-entries :
    (t : RbTree) (n : Tree)
    → IsRbTree t n
    → (k : ℕ)
    → (v : ℕ) × (find t k ≡ some v) × (Has k v (entries t n) ⊎ ((v ≡ 0) × Lacks k (entries t n)))
unfolding find
find-entries t n valid k =
    let (a, run, found) = locate_lem t n valid k in
    elim found [
      | inl (z, nowhere) ↦ (
        0,
        rw (root_pos t n valid, run, z, ◌>>=◌) refl,
        inr (refl, Lacks-entries t k (ids n) nowhere),
      )
      | inr (pos, m, e) ↦
          let here = pos_not_null a pos in
          (
            t.value a,
            rw (root_pos t n valid, run, ◌>>=◌, here) refl,
            inl (Has-entry t k a (ids n) m e),
          )
    ]

-- If no step of it fails, new makes a well-formed empty tree.
pub new-IsRbTree :
    (leaf : ℕ) (vfree : Bool)
    → 0 < leaf
    → (t : RbTree) × (new true true leaf vfree ≡ some t) × IsRbTree t tip
unfolding new empty
new-IsRbTree leaf vfree pos = (
  empty leaf vfree,
  (let here : (leaf == 0) ≡ false = ground arith in rw here),
  record {
    holds = record {
      at = (tt, tt, refl);
      once = (λ x. omega arith, refl);
      dark = refl;
      leaf_pos = pos;
      non_null = refl;
    };
    bal = tt;
    calm = tt;
    black_root = refl;
    sorted = tt;
    linked = tt;
    head_first = refl;
    tail_last = refl;
    counted = refl;
  },
)
