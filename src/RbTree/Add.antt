-- ===== src/RbTree/Add.antt =====
-- libyod/rbtree.c: what add does to a well-formed tree.
pub mod Grown
pub mod Neighbours
pub mod Graft
use libyod.Prelude.{
  ℕ, zero, suc, ◌+◌, ◌-◌, ◌*◌, ◌/◌, ◌%◌, ◌^◌, ◌≤◌, ◌<◌, bit_and, bit_or, bit_xor, ◌≡◌, refl, sym,
  ap, ◌∙◌, subst, ◌≢◌, ◌↔◌, ◌⊎◌, inl, inr, Bool, true, false, not, ◌&&◌, ◌||◌, Option, none, some,
  List, [], ◌∷◌, ◌++◌, map, append-nil, append_assoc, arith, dec_lt, ℕ_discrete, ltb, leb, ◌==◌,
  if◌then◌else◌, ltb→lt, lt→ltb, leb→le, ==_iff, tests, Bool-cases, Option-cases, length, get_elem?,
  set, length-append, length-snoc, length-set, get_elem?-set_self, get_elem?-set_ne, get_or, take,
  drop, drop-append, take-append, take-append_le, drop-append_le, take-append_ge, drop-append_ge,
  length-take, length-drop, replicate, length-replicate, get_elem?-replicate, ◌>>=◌, IsByte, All,
  store, store_at, store-append, store-drop, drop-drop, get_elem?-drop, Ret, ok, fail, map-append,
}
use libyod.Links.{
  update, update_ne, update_self, Linked-congr, In, In-Absent, In-split, Distinct-append, Distinct,
}
use libyod.RbTree.Shape.{Shape, paint}
use libyod.RbTree.State.{RbTree, locate, released_with}
use libyod.RbTree.Visit.{entry_of, Entry}
use libyod.RbTree.Insert.{fill_node, plant, graft, overwrite, add}
use libyod.RbTree.Tree.{Tree, tip, fork, ids, count_in, top, occ-count_in}
use libyod.RbTree.Holds.{Holds, root_top, real}
use libyod.RbTree.Order.{SortedBy, Absent-count_in, Distinct-count_in, In-count_in}
use libyod.RbTree.Place.{Holds-elsewhere}
use libyod.RbTree.Valid.{
  pos_not_null, IsRbTree, entries, insert_entry, Found, locate_lem, Has, Lacks, Has-entry,
  Lacks-entries, distinct,
}
use libyod.RbTree.Add.Graft.{Filled, graft_lem}

keys_above :
    (p q : ℕ) (key key' : ℕ → ℕ) (xs : List ℕ)
    → q ≡ p
    → ((b : ℕ) → In b xs → key' b ≡ key b)
    → All (λ b. p ≤ key b) xs
    → All (λ b. q ≤ key' b) xs
keys_above p q key key' [] e same h = tt
keys_above p q key key' (x ∷ xs) e same (h, hs) =
    let here = same x (inl refl) in
    (omega arith, keys_above p q key key' xs e (λ b m. same b (inr m)) hs)

pub SortedBy-congr :
    (key key' : ℕ → ℕ) (xs : List ℕ)
    → ((b : ℕ) → In b xs → key' b ≡ key b)
    → SortedBy key xs
    → SortedBy key' xs
SortedBy-congr key key' [] same h = tt
SortedBy-congr key key' (a ∷ xs) same (h, hs) = (
  keys_above (key a) (key' a) key key' xs (same a (inl refl)) (λ b m. same b (inr m)) h,
  SortedBy-congr key key' xs (λ b m. same b (inr m)) hs,
)

pub entries-congr :
    (t t' : RbTree) (xs : List ℕ)
    → ((b : ℕ) → In b xs → (t'.key b ≡ t.key b) × (t'.value b ≡ t.value b))
    → map (entry_of t') xs ≡ map (entry_of t) xs
entries-congr t t' [] same = refl
entries-congr t t' (a ∷ xs) same =
    let (e, e') = same a (inl refl) in rw (e, e', entries-congr t t' xs (λ b m. same b (inr m)))

-- The new node is at an address of no node.
module _ (t : RbTree) (n : Tree) (valid : IsRbTree t n) (x k v : ℕ) (pos : 0 < x)
    (real_x : x ≢ t.shape.leaf) (new_x : count_in x (ids n) ≡ 0)
    (small : t.count + 1 < 2 ^ 64) where
  old_ne : (b : ℕ) → In b (ids n) → b ≢ x
  old_ne b m = In-Absent x b (ids n) m (Absent-count_in x (ids n) new_x)

  filled : Filled (fill_node t x k v) n x
  unfolding fill_node
  filled = record {
    holds =
        Holds-elsewhere t.shape (fill_node t x k v).shape [] n x real_x
          (omega (arith, occ-count_in x n)) (refl, refl)
          (λ b ne. (
            update_ne t.shape.left x t.shape.leaf b ne,
            update_ne t.shape.right x t.shape.leaf b ne,
            update_ne t.shape.red x true b ne,
          ))
          (λ b ne. update_ne t.shape.parent x t.shape.root b ne) valid.holds;
    bal = valid.bal;
    calm = valid.calm;
    black_root = valid.black_root;
    sorted =
        SortedBy-congr t.key (update t.key x k) (ids n) (λ b m. update_ne t.key x k b (old_ne b m))
          valid.sorted;
    linked =
        Linked-congr t.next t.prev (update t.next x 0) (update t.prev x 0) 0 (ids n) 0
          (λ b m. (update_ne t.next x 0 b (old_ne b m), update_ne t.prev x 0 b (old_ne b m)))
          valid.linked;
    head_first = valid.head_first;
    tail_last = valid.tail_last;
    counted = omega (arith, valid.counted);
    pos = pos;
    real_x = real_x;
    new_x = new_x;
    left_x = update_self t.shape.left x t.shape.leaf;
    right_x = update_self t.shape.right x t.shape.leaf;
    red_x = update_self t.shape.red x true;
  }

  entries-filled : entries (fill_node t x k v) n ≡ entries t n
  unfolding fill_node
  entries-filled =
      entries-congr t (fill_node t x k v) (ids n)
        (λ b m. (update_ne t.key x k b (old_ne b m), update_ne t.value x v b (old_ne b m)))

  entry_x : entry_of (fill_node t x k v) x ≡ (k, v)
  unfolding fill_node
  entry_x = rw (update_self t.key x k, update_self t.value x v) refl

  -- What add leaves where it puts a node in.
  abbrev Inserted : Option (RbTree × Ret) → Type 0
  Inserted run =
      (t' : RbTree) × (n' : Tree) × (run ≡ some (t', ok))
      × IsRbTree t' n'
      × (entries t' n' ≡ insert_entry (k, v) (entries t n))

  module _ (force : Bool) (free : (if force then locate t k else some 0) ≡ some 0) where
    not_null : (x == 0) ≡ false
    not_null = ground arith

    add_run : add x t k v force ≡ (
        if t.shape.root == t.shape.leaf
        then some (plant (fill_node t x k v) x, ok)
        else graft (fill_node t x k v) x >>= λ t'. some (t', ok))
    unfolding add fill_node
    add_run = rw (free, ◌>>=◌, not_null) refl

-- The first node of a tree.
pub plant_lem :
    (t : RbTree) (valid : IsRbTree t tip) (x k v : ℕ) (pos : 0 < x) (real_x : x ≢ t.shape.leaf)
    (small : t.count + 1 < 2 ^ 64)
    → IsRbTree (plant (fill_node t x k v) x) (fork false tip x tip)
      × (entries (plant (fill_node t x k v) x) (fork false tip x tip) ≡ (k, v) ∷ [])
unfolding plant fill_node paint
plant_lem t valid x k v pos real_x small =
    let f = filled t tip valid x k v pos real_x refl small in
    (
      record {
        holds = record {
          at = (
            (
              (
                update_self t.shape.left x t.shape.leaf,
                update_self t.shape.right x t.shape.leaf,
                update_self (update t.shape.red x true) x false,
              ),
              (λ ne. absurd (ne refl), λ ne. absurd (ne refl)),
              (tt, tt),
            ),
            tt,
            refl,
          );
          once = (λ y. ground arith, ground arith);
          dark =
              update_ne (update t.shape.red x true) x false t.shape.leaf (λ e. real_x (sym e))
              ∙ update_ne t.shape.red x true t.shape.leaf (λ e. real_x (sym e))
              ∙ valid.holds.dark;
          leaf_pos = valid.holds.leaf_pos;
          non_null = ground arith;
        };
        bal = (refl, tt, tt);
        calm = ((refl, refl), tt, tt);
        black_root = refl;
        sorted = (tt, tt);
        linked = (update_self t.prev x 0, update_self t.next x 0, tt);
        head_first = refl;
        tail_last = refl;
        counted = omega (arith, valid.counted);
      },
      rw (update_self t.key x k, update_self t.value x v) refl,
    )

insert_lem :
    (t : RbTree) (n : Tree) (valid : IsRbTree t n) (x k v : ℕ) (pos : 0 < x)
    (real_x : x ≢ t.shape.leaf) (new_x : count_in x (ids n) ≡ 0) (small : t.count + 1 < 2 ^ 64)
    (force : Bool) (free : (if force then locate t k else some 0) ≡ some 0)
    → Inserted t n valid x k v pos real_x new_x small (add x t k v force)
insert_lem t tip valid x k v pos real_x new_x small force free =
    let empty' : (t.shape.root == t.shape.leaf) ≡ true =
      let e = root_top t.shape tip valid.holds in ground arith in
    let (ok', is) = plant_lem t valid x k v pos real_x small in
    (
      plant (fill_node t x k v) x,
      fork false tip x tip,
      add_run t tip valid x k v pos real_x new_x small force free ∙ rw empty' refl,
      ok',
      is,
    )
insert_lem t (fork c l a r) valid x k v pos real_x new_x small force free =
    let inner = real t.shape [] c l a r valid.holds in
    let full : (t.shape.root == t.shape.leaf) ≡ false =
      let e = root_top t.shape (fork c l a r) valid.holds in ground arith in
    let (t', n', run, ok', is) =
      graft_lem (fill_node t x k v) c l a r x
        (filled t (fork c l a r) valid x k v pos real_x new_x small) in
    (
      t',
      n',
      add_run t (fork c l a r) valid x k v pos real_x new_x small force free
          ∙ rw (full, run, ◌>>=◌) refl,
      ok',
      is
          ∙ ap (λ e. insert_entry e (entries (fill_node t x k v) (fork c l a r)))
              (entry_x t (fork c l a r) valid x k v pos real_x new_x small)
          ∙ ap (insert_entry (k, v))
              (entries-filled t (fork c l a r) valid x k v pos real_x new_x small),
    )

Has-Lacks : (k v : ℕ) (es : List Entry) → Has k v es → Lacks k es → ⊥
Has-Lacks k v [] h l = h
Has-Lacks k v (e ∷ es) (inl (same, _)) (ne, _) = ne same
Has-Lacks k v (e ∷ es) (inr h) (_, l) = Has-Lacks k v es h l

-- A missing key is not found.
module _ (t : RbTree) (n : Tree) (valid : IsRbTree t n) (k : ℕ) where
  locate-Lacks : Lacks k (entries t n) → locate t k ≡ some 0
  locate-Lacks lacks =
      let (a, run, found) = locate_lem t n valid k in
      elim found [
        | inl (z, _) ↦ run ∙ ap some z
        | inr (_, m, e) ↦
            absurd (Has-Lacks k (t.value a) (entries t n) (Has-entry t k a (ids n) m e) lacks)
      ]

  free_place :
      (force : Bool)
      → (force ≡ true → Lacks k (entries t n))
      → (if force then locate t k else some 0) ≡ some 0
  free_place true lacks = locate-Lacks (lacks refl)
  free_place false lacks = refl

-- Without force, or with it where no entry has the key, add at a fresh address ends with a
-- well-formed tree. The new entry stands behind those whose keys are at most its key.
pub add-insert_entry :
    (t : RbTree) (n : Tree)
    → IsRbTree t n
    → (fresh k v : ℕ) (force : Bool) → 0 < fresh
    → fresh ≢ t.shape.leaf
    → count_in fresh (ids n) ≡ 0
    → t.count + 1 < 2 ^ 64
    → (force ≡ true → Lacks k (entries t n))
    → (t' : RbTree) × (n' : Tree) × (add fresh t k v force ≡ some (t', ok))
      × IsRbTree t' n'
      × (entries t' n' ≡ insert_entry (k, v) (entries t n))
add-insert_entry t n valid fresh k v force pos real_x new_x small lacks =
    insert_lem t n valid fresh k v pos real_x new_x small force (free_place t n valid k force lacks)

-- Where malloc fails and no node is found to overwrite, add fails and changes nothing.
pub add-refused :
    (t : RbTree) (n : Tree)
    → IsRbTree t n
    → (k v : ℕ) (force : Bool) → (force ≡ true → Lacks k (entries t n))
    → add 0 t k v force ≡ some (t, fail)
unfolding add
add-refused t n valid k v force lacks = rw (free_place t n valid k force lacks, ◌>>=◌) refl

overwrite-IsRbTree :
    (t : RbTree) (n : Tree) → IsRbTree t n → (a v : ℕ) → IsRbTree (overwrite t a v) n
unfolding overwrite
overwrite-IsRbTree t n valid a v = record {
  holds = valid.holds;
  bal = valid.bal;
  calm = valid.calm;
  black_root = valid.black_root;
  sorted = valid.sorted;
  linked = valid.linked;
  head_first = valid.head_first;
  tail_last = valid.tail_last;
  counted = valid.counted;
}

-- Only the entry of that node is another.
rewritten :
    (t : RbTree) (a k v : ℕ) (xs ys : List ℕ)
    → t.key a ≡ k
    → Distinct (xs ++ (a ∷ ys))
    → map (entry_of (overwrite t a v)) xs
        ++ (entry_of (overwrite t a v) a ∷ map (entry_of (overwrite t a v)) ys)
      ≡ map (entry_of t) xs ++ ((k, v) ∷ map (entry_of t) ys)
unfolding overwrite
rewritten t a k v xs ys e d =
    let (_, (off_ys, _), off_xs) = (Distinct-append xs (a ∷ ys)).0 d in
    let same =
      entries-congr t (overwrite t a v) xs
        (λ b m. (refl, update_ne t.value a v b (λ eq. (off_xs b m).0 (sym eq)))) in
    let same' =
      entries-congr t (overwrite t a v) ys
        (λ b m. (refl, update_ne t.value a v b (In-Absent a b ys m off_ys))) in
    rw (same, same', e, update_self t.value a v) refl

-- With force, where an entry has the key, add ends and gives one such entry the new value; the old
-- one goes to `vfree`, if given.
pub add-force :
    (t : RbTree) (n : Tree)
    → IsRbTree t n
    → (fresh k v old : ℕ) → Has k old (entries t n)
    → (t' : RbTree) × (es : List Entry) × (old' : ℕ) × (es' : List Entry) × (add fresh t k v true
        ≡ some (t', ok))
      × IsRbTree t' n
      × (entries t n ≡ es ++ ((k, old') ∷ es'))
      × (entries t' n ≡ es ++ ((k, v) ∷ es'))
      × (t'.released ≡ (if t.vfree then t.released ++ (old' ∷ []) else t.released))
unfolding add overwrite
add-force t n valid fresh k v old has =
    let (a, run, found) = locate_lem t n valid k in
    elim found [
      | inl (_, nowhere) ↦
          absurd (Has-Lacks k old (entries t n) has (Lacks-entries t k (ids n) nowhere))
      | inr (pos, m, e) ↦
          let (xs, ys, split) = In-split a (ids n) m in
          let here = pos_not_null a pos in
          let apart = subst Distinct split (distinct t n valid) in
          (
            overwrite t a v,
            map (entry_of t) xs,
            t.value a,
            map (entry_of t) ys,
            rw (run, ◌>>=◌, here) refl,
            overwrite-IsRbTree t n valid a v,
            ap (map (entry_of t)) split
                ∙ map-append (entry_of t) xs (a ∷ ys)
                ∙ ap (λ k'. map (entry_of t) xs ++ ((k', t.value a) ∷ map (entry_of t) ys)) e,
            ap (map (entry_of (overwrite t a v))) split
                ∙ map-append (entry_of (overwrite t a v)) xs (a ∷ ys)
                ∙ rewritten t a k v xs ys e apart,
            refl,
          )
    ]
