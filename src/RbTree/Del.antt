-- ===== src/RbTree/Del.antt =====
-- libyod/rbtree.c: del, on the tree and on the list.
use libyod.Prelude.{
  ℕ, suc, ◌+◌, ◌-◌, ◌%◌, ◌^◌, ◌≤◌, ◌<◌, ◌≡◌, refl, sym, ap, ◌∙◌, subst, ◌≢◌, ◌⊎◌, inl, inr, Bool,
  true, false, some, List, [], ◌∷◌, ◌++◌, map, append-nil, append_assoc, arith, ◌==◌, if◌then◌else◌,
  length, length-append, ◌>>=◌, All,
}
use libyod.Prelude.{ok, fail, map-append}
use libyod.Links.{
  first_or, last_or, Linked, In, Distinct, NonNull, In-Absent, In-append, last_or-append,
  last_or-In, Distinct-append, All-append,
}
use libyod.Links.Edit.{Updates, around, Linked-unlink, Linked-neighbours}
use libyod.RbTree.Shape.{Shape}
use libyod.RbTree.State.{RbTree}
use libyod.RbTree.Remove.{unlink, extract, del}
use libyod.RbTree.Visit.{Entry, entry_of}
use libyod.RbTree.Tree.{
  Tree, tip, fork, down_left, down_right, Way, plug, ids, ids-plug, before, after,
}
use libyod.RbTree.Holds.{Holds, is_red}
use libyod.RbTree.Colors.{Bal, Calm}
use libyod.RbTree.Order.{All-imp, SortedBy, SortedBy-append}
use libyod.RbTree.Valid.{
  IsRbTree, entries, distinct, non_null, root_pos, locate_lem, Lacks, Lacks-entries, pos_not_null,
}
use libyod.RbTree.Repair.Ends.{Repaired}
use libyod.RbTree.Extract.Least.{Holds-unplug}
use libyod.RbTree.Extract.Chosen.{extract_lem}

-- The place of a node in the tree.
zip_at :
    (a : ℕ) (n : Tree) (path : Way)
    → In a (ids n)
    → (path' : Way) × (c : Bool) × (l : Tree) × (r : Tree) × (plug path n
        ≡ plug path' (fork c l a r))
zip_at a tip path m = elim m [ ]
zip_at a (fork c l b r) path m = elim ((In-append a (ids l) (b ∷ ids r)).0 m) [
  | inl left ↦ zip_at a l (down_left c b r ∷ path) left
  | inr (inl e) ↦ (path, c, l, r, ap (λ x. plug path (fork c l x r)) e)
  | inr (inr right) ↦ zip_at a r (down_right c l b ∷ path) right
]

-- The nodes around it.
split_order :
    (path : Way) (c : Bool) (l : Tree) (a : ℕ) (r : Tree)
    → ids (plug path (fork c l a r)) ≡ (before path ++ ids l) ++ (a ∷ (ids r ++ after path))
split_order path c l a r =
    ids-plug path (fork c l a r)
    ∙ ap (λ z. before path ++ z) (append_assoc (ids l) (a ∷ ids r) (after path))
    ∙ sym (append_assoc (before path) (ids l) (a ∷ (ids r ++ after path)))

join_order :
    (path : Way) (l r : Tree)
    → before path ++ ((ids l ++ ids r) ++ after path)
      ≡ (before path ++ ids l) ++ (ids r ++ after path)
join_order path l r =
    ap (λ z. before path ++ z) (append_assoc (ids l) (ids r) (after path))
    ∙ sym (append_assoc (before path) (ids l) (ids r ++ after path))

fewer : (m n fuel : ℕ) → m ≡ n → m < fuel → n < fuel
fewer m n fuel e lt = omega arith

-- The tree without the node.
Holds-node : (s : Shape) (path : Way) (t : Tree) → Holds s [] (plug path t) → Holds s path t
Holds-node s path t h = subst (λ p. Holds s p t) (append-nil path) (Holds-unplug s path [] t h)

extracted :
    (s : Shape) (n : Tree) (a fuel : ℕ)
    → Holds s [] n
    → Bal n
    → Calm n
    → is_red n ≡ false
    → length (ids n) < fuel
    → In a (ids n)
    → (xs : List ℕ) × (ys : List ℕ) × (ids n ≡ xs ++ (a ∷ ys))
      × Repaired (extract fuel s a) (xs ++ ys)
extracted s n a fuel h bal calm dark enough m =
    let (path, c, l, r, e) = zip_at a n [] m in
    (
      before path ++ ids l,
      ids r ++ after path,
      ap ids e ∙ split_order path c l a r,
      subst (λ xs. Repaired (extract fuel s a) xs) (join_order path l r)
          (extract_lem s path c l a r fuel
            (Holds-node s path (fork c l a r) (subst (λ t. Holds s [] t) e h)) (subst Bal e bal)
            (subst Calm e calm) (sym (ap is_red e) ∙ dark)
            (fewer _ _ fuel (ap (λ t. length (ids t)) e) enough)),
    )

-- The list without the node.
first_without :
    (xs : List ℕ) (a : ℕ) (ys : List ℕ)
    → NonNull (xs ++ (a ∷ ys))
    → Distinct (xs ++ (a ∷ ys))
    → (if a == first_or 0 (xs ++ (a ∷ ys)) then first_or 0 ys else first_or 0 (xs ++ (a ∷ ys)))
      ≡ first_or 0 (xs ++ ys)
first_without [] a ys pos d = let same : (a == a) ≡ true = ground arith in rw same refl
first_without (x ∷ xs) a ys pos d =
    let apart = ((All-append (λ y. y ≢ x) xs (a ∷ ys)).0 d.0).1.0 in
    let other : (a == x) ≡ false = ground arith in rw other refl

last_without :
    (xs : List ℕ) (a : ℕ) (ys : List ℕ)
    → Distinct (xs ++ (a ∷ ys))
    → (if a == last_or 0 (xs ++ (a ∷ ys)) then last_or 0 xs else last_or 0 (xs ++ (a ∷ ys)))
      ≡ last_or 0 (xs ++ ys)
last_without xs a [] d =
    let last = last_or-append 0 xs (a ∷ []) in
    let same : (a == a) ≡ true = ground arith in
    rw (last, same) (ap (last_or 0) (sym (append-nil xs)))
last_without xs a (y ∷ ys) d =
    let last = last_or-append 0 xs (a ∷ y ∷ ys) in
    let last' = last_or-append 0 xs (y ∷ ys) in
    let (_, (off, _), _) = (Distinct-append xs (a ∷ y ∷ ys)).0 d in
    let ne = In-Absent a (last_or y ys) (y ∷ ys) (last_or-In 0 y ys) off in
    let other : (a == last_or y ys) ≡ false = ground arith in rw (last, other, last') refl

module _ (t : RbTree) (a : ℕ) (pos : 0 < a) (back : t.prev a ≢ a) (on : t.next a ≢ a) where
  unlink_prev : Updates (unlink t a).prev t.prev (t.next a) (t.prev a)
  unfolding unlink
  unlink_prev b h = ground arith

  unlink_next : Updates (unlink t a).next t.next (t.prev a) (t.next a)
  unfolding unlink
  unlink_next b h = ground arith

SortedBy-without :
    (key : ℕ → ℕ) (xs : List ℕ) (a : ℕ) (ys : List ℕ)
    → SortedBy key (xs ++ (a ∷ ys))
    → SortedBy key (xs ++ ys)
SortedBy-without key xs a ys sorted =
    let (s_xs, s_ys, cross) = (SortedBy-append key xs (a ∷ ys)).0 sorted in
    (SortedBy-append key xs ys).1 (
      s_xs,
      s_ys.1,
      All-imp (λ b. All (λ d. key b ≤ key d) (a ∷ ys)) (λ b. All (λ d. key b ≤ key d) ys) xs
          (λ b h. h.1) cross,
    )

one_less : (count k : ℕ) → count ≡ suc k → count < 2 ^ 64 → (count + 2 ^ 64 - 1) % 2 ^ 64 ≡ k
one_less count k e small = omega arith

length-without :
    (xs : List ℕ) (a : ℕ) (ys : List ℕ) → length (xs ++ (a ∷ ys)) ≡ suc (length (xs ++ ys))
length-without xs a ys =
    let n = length-append xs (a ∷ ys) in let n' = length-append xs ys in omega arith

-- The memory of the tree without the node, and the list without it.
abbrev removed : RbTree → ℕ → Shape → RbTree
removed t a s = record (unlink t a) { shape = s }

module _ (t : RbTree) (n : Tree) (valid : IsRbTree t n) (a : ℕ) (xs ys : List ℕ)
    (split : ids n ≡ xs ++ (a ∷ ys)) (small : t.count < 2 ^ 64) (s : Shape) (m : Tree)
    (same : ids m ≡ xs ++ ys) where
  links : Linked t.next t.prev 0 (xs ++ (a ∷ ys)) 0
  links = subst (λ zs. Linked t.next t.prev 0 zs 0) split valid.linked

  old_pos : NonNull (xs ++ (a ∷ ys))
  old_pos = subst NonNull split (non_null t n valid)

  apart : Distinct (xs ++ (a ∷ ys))
  apart = subst Distinct split (distinct t n valid)

  removed-Linked : Linked (removed t a s).next (removed t a s).prev 0 (ids m) 0
  removed-Linked =
      let (pos, back, on) = around t.next t.prev xs a ys old_pos apart links in
      subst (λ zs. Linked (unlink t a).next (unlink t a).prev 0 zs 0) (sym same)
        (Linked-unlink t.next t.prev (unlink t a).next (unlink t a).prev xs a ys old_pos apart
          (unlink_next t a pos back on) (unlink_prev t a pos back on) links)

  removed_head : (removed t a s).head ≡ first_or 0 (ids m)
  unfolding unlink
  removed_head =
      let (_, on) = Linked-neighbours t.next t.prev xs a ys links in
      let head = valid.head_first ∙ ap (first_or 0) split in
      rw (head, on) (first_without xs a ys old_pos apart) ∙ sym (ap (first_or 0) same)

  removed_tail : (removed t a s).tail ≡ last_or 0 (ids m)
  unfolding unlink
  removed_tail =
      let (back, _) = Linked-neighbours t.next t.prev xs a ys links in
      let tail = valid.tail_last ∙ ap (last_or 0) split in
      rw (tail, back) (last_without xs a ys apart) ∙ sym (ap (last_or 0) same)

  removed-SortedBy : SortedBy (removed t a s).key (ids m)
  unfolding unlink
  removed-SortedBy =
      subst (SortedBy t.key) (sym same)
        (SortedBy-without t.key xs a ys (subst (SortedBy t.key) split valid.sorted))

  removed_count : (removed t a s).count ≡ length (ids m)
  unfolding unlink
  removed_count =
      one_less t.count (length (ids m))
        (valid.counted ∙ ap length split ∙ length-without xs a ys ∙ ap suc (sym (ap length same)))
        small

  removed-IsRbTree : Holds s [] m → Bal m → Calm m → is_red m ≡ false → IsRbTree (removed t a s) m
  removed-IsRbTree h bal calm dark = record {
    holds = h;
    bal = bal;
    calm = calm;
    black_root = dark;
    sorted = removed-SortedBy;
    linked = removed-Linked;
    head_first = removed_head;
    tail_last = removed_tail;
    counted = removed_count;
  }

  entries-removed : entries (removed t a s) m ≡ map (entry_of t) xs ++ map (entry_of t) ys
  unfolding unlink
  entries-removed = ap (map (entry_of t)) same ∙ map-append (entry_of t) xs ys

unlink_released :
    (t : RbTree) (a : ℕ)
    → (unlink t a).released ≡ (if t.vfree then t.released ++ (t.value a ∷ []) else t.released)
unfolding unlink
unlink_released t a = refl

-- On a well-formed tree of fewer than 2^64 entries `del` ends. Where an entry has the key it returns
-- 0 and takes one such entry out: the others stay in order, the old value goes to `vfree`, if given,
-- and the tree is a well-formed red-black tree. Where no entry has the key, it fails and changes
-- nothing.
pub del_lem :
    (t : RbTree) (n : Tree)
    → IsRbTree t n
    → (k : ℕ) → t.count < 2 ^ 64
    → ((t' : RbTree) × (n' : Tree) × (es : List Entry) × (v : ℕ) × (es' : List Entry) × (del t k
          ≡ some (t', ok))
        × IsRbTree t' n'
        × (entries t n ≡ es ++ ((k, v) ∷ es'))
        × (entries t' n' ≡ es ++ es')
        × (t'.released ≡ (if t.vfree then t.released ++ (v ∷ []) else t.released)))
      ⊎ ((del t k ≡ some (t, fail)) × Lacks k (entries t n))
unfolding del
del_lem t n valid k small =
    let (a, run, found) = locate_lem t n valid k in
    elim found [
      | inl (z, nowhere) ↦
          inr (rw (root_pos t n valid, run, z, ◌>>=◌) refl, Lacks-entries t k (ids n) nowhere)
      | inr (pos, m, e) ↦
          let here = pos_not_null a pos in
          let (xs, ys, split, rep) =
            extracted t.shape n a (suc t.count) valid.holds valid.bal valid.calm valid.black_root
              (omega (arith, valid.counted)) m in
          inl (
            removed t a rep.shape,
            rep.tree,
            map (entry_of t) xs,
            t.value a,
            map (entry_of t) ys,
            rw (root_pos t n valid, run, ◌>>=◌, here, rep.ends) refl,
            removed-IsRbTree t n valid a xs ys split small rep.shape rep.tree rep.same rep.holds
                rep.bal rep.calm rep.dark,
            ap (map (entry_of t)) split
                ∙ map-append (entry_of t) xs (a ∷ ys)
                ∙ ap (λ k'. map (entry_of t) xs ++ ((k', t.value a) ∷ map (entry_of t) ys)) e,
            entries-removed t n valid a xs ys split small rep.shape rep.tree rep.same,
            unlink_released t a,
          )
    ]
