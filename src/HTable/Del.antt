-- ===== src/HTable/Del.antt =====
-- libyod/htable.c: del, which takes the node of a key out, or changes nothing.
use libyod.Prelude.{
  ℕ, ◌+◌, ◌^◌, ◌<◌, bit_and, ◌≡◌, refl, sym, ap, ◌∙◌, subst, ◌≢◌, inl, inr, Bool, true, false, none,
  some, List, [], ◌∷◌, ◌++◌, append-nil, arith, ℕ_discrete, ◌==◌, if◌then◌else◌, Bool-cases, length,
  set, length-append, length-set,
}
use libyod.Prelude.Bits.{bit_and-le}
use libyod.Links.{
  In-split, first_or, last_or, last_or-append, In, Absent, Distinct, NonNull, In-Absent, NonNull-In,
  In-append, Distinct-append, All-append, last_or-In, Absent-intro,
}
use libyod.Links.Edit.{around, Linked-unlink, Linked-neighbours}
use libyod.HTable.{
  HTable, ok, matches, key_of, unlink_tail, unlink_head, unlink_chain, remove_node, del,
}
use libyod.HTable.Chain.{bucket_of_split, bucket_of_middle_away, search, search-cases}
use libyod.HTable.Valid.{IsTable, Chains, view, locate_lem, matches-num_key}
use libyod.HTable.Key.{same_key, matches-same_key}
use libyod.HTable.Add.{view→search, view→hit}
use libyod.HTable.Unlink.{
  listed, listed_next, listed_prev, listed_head, listed_tail, new_home, new_other,
}

-- Both ends of the list after the node is taken out.
head_without :
    (xs : List ℕ) (a : ℕ) (ys : List ℕ)
    → NonNull (xs ++ (a ∷ ys))
    → (if last_or 0 xs == 0 then first_or 0 ys else first_or 0 (xs ++ (a ∷ ys)))
      ≡ first_or 0 (xs ++ ys)
head_without [] a ys pos = refl
head_without (x ∷ xs) a ys pos =
    let pos_xs = (All-append (λ y. 0 < y) (x ∷ xs) (a ∷ ys)).0 pos in
    let last_pos = NonNull-In (last_or x xs) (x ∷ xs) pos_xs.0 (last_or-In 0 x xs) in ground arith

tail_without :
    (xs : List ℕ) (a : ℕ) (ys : List ℕ)
    → NonNull ys
    → (if first_or 0 ys == 0 then last_or 0 xs else last_or 0 (xs ++ (a ∷ ys)))
      ≡ last_or 0 (xs ++ ys)
tail_without xs a [] pos = ap (last_or 0) (sym (append-nil xs))
tail_without xs a (y ∷ ys) (pos, _) =
    let e = last_or-append 0 xs (a ∷ y ∷ ys) ∙ sym (last_or-append 0 xs (y ∷ ys)) in ground arith

length-guarded :
    (nodes : List ℕ) (first : Bool) (k v : ℕ)
    → length (if first then set nodes k v else nodes) ≡ length nodes
length-guarded nodes true k v = length-set nodes k v
length-guarded nodes false k v = refl

In-rest : (b : ℕ) (xs : List ℕ) (a : ℕ) (ys : List ℕ) → In b (xs ++ ys) → In b (xs ++ (a ∷ ys))
In-rest b xs a ys m = elim ((In-append b xs ys).0 m) [
  | inl n ↦ (In-append b xs (a ∷ ys)).1 (inl n)
  | inr n ↦ (In-append b xs (a ∷ ys)).1 (inr (inr n))
]

Distinct-rest :
    (xs : List ℕ) (a : ℕ) (ys : List ℕ)
    → Distinct (xs ++ (a ∷ ys))
    → Distinct (xs ++ ys) × Absent a (xs ++ ys)
Distinct-rest xs a ys d =
    let (d_xs, d_ys, apart) = (Distinct-append xs (a ∷ ys)).0 d in
    (
      (Distinct-append xs ys).1 (d_xs, d_ys.1, λ b m. (apart b m).1),
      (All-append (λ x. x ≢ a) xs ys).1 (Absent-intro a xs (λ m. (apart a m).0 refl), d_ys.0),
    )

-- A node that does not hold the key may be left out of the search.
search-skip :
    (t : HTable) (nk : ℕ) (str : List ℕ) (xs : List ℕ) (a : ℕ) (ys : List ℕ)
    → matches t nk str a ≡ false
    → search t nk str (xs ++ (a ∷ ys)) ≡ search t nk str (xs ++ ys)
search-skip t nk str [] a ys h = rw h
search-skip t nk str (x ∷ xs) a ys h =
    ap (λ r. if matches t nk str x then x else r) (search-skip t nk str xs a ys h)

module _ (t : HTable) (xs : List ℕ) (a : ℕ) (ys : List ℕ) (valid : IsTable t (xs ++ (a ∷ ys))) where
  abbrev removed : HTable
  removed = remove_node t (bit_and (t.num_key a) t.mask) a

  removed-Chains : Chains removed (xs ++ ys)
  unfolding remove_node listed unlink_tail unlink_head
  removed-Chains j h =
      let k = bit_and (t.num_key a) t.mask in
      let room : k < t.size = omega (arith, bit_and-le (t.num_key a) t.mask, valid.masked) in
      elim (ℕ_discrete k j) [
        | yes e ↦
            rw (← e, bucket_of_split t.num_key t.mask k xs ys)
              (new_home (listed t a) xs a ys valid.non_null valid.distinct valid.width valid.chains
                room)
        | no ne ↦ rw (← bucket_of_middle_away t.num_key t.mask j xs a ys ne) (
            new_other (listed t a) xs a ys valid.non_null valid.distinct valid.width valid.chains
              room j ne h)
      ]

  -- The node is out of the list and of its chain, and the table is well formed.
  pub removed-IsTable : t.count < 2 ^ 64 → IsTable removed (xs ++ ys)
  unfolding remove_node listed unlink_tail unlink_head unlink_chain matches
  removed-IsTable small =
      let (last, first) = Linked-neighbours t.next t.prev xs a ys valid.linked in
      let (a_pos, back, on) =
        around t.next t.prev xs a ys valid.non_null valid.distinct valid.linked in
      let pos = (All-append (λ x. 0 < x) xs (a ∷ ys)).0 valid.non_null in
      record {
        linked =
            Linked-unlink t.next t.prev (listed t a).next (listed t a).prev xs a ys valid.non_null
              valid.distinct (listed_next t a a_pos back on) (listed_prev t a a_pos back on)
              valid.linked;
        head_first =
            listed_head t a a_pos back on
            ∙ rw (last, first, valid.head_first) (head_without xs a ys valid.non_null);
        tail_last =
            listed_tail t a a_pos back on
            ∙ rw (last, first, valid.tail_last) (tail_without xs a ys pos.1.1);
        distinct = (Distinct-rest xs a ys valid.distinct).0;
        non_null = (All-append (λ x. 0 < x) xs ys).1 (pos.0, pos.1.1);
        counted =
            omega (arith, small, valid.counted, length-append xs (a ∷ ys), length-append xs ys);
        width = length-guarded t.nodes _ _ _ ∙ valid.width;
        masked = valid.masked;
        chains = removed-Chains;
        unique =
            λ nk str b c m n. valid.unique nk str b c (In-rest b xs a ys m) (In-rest c xs a ys n);
      }

  module _ (nk : ℕ) (str : List ℕ) (hit : matches t nk str a ≡ true) where
    removed-search :
        (nk' : ℕ) (str' : List ℕ)
        → search removed nk' str' (xs ++ ys)
          ≡ (if same_key nk str nk' str' then 0 else search t nk' str' (xs ++ (a ∷ ys)))
    unfolding remove_node unlink_tail unlink_head unlink_chain matches
    removed-search nk' str' =
        let at_a = matches-same_key t a nk str nk' str' hit in
        let absent = (Distinct-rest xs a ys valid.distinct).1 in
        let here : In a (xs ++ (a ∷ ys)) = (In-append a xs (a ∷ ys)).1 (inr (inl refl)) in
        let pos_all = (All-append (λ x. 0 < x) xs (a ∷ ys)).0 valid.non_null in
        let pos = (All-append (λ x. 0 < x) xs ys).1 (pos_all.0, pos_all.1.1) in
        elim (Bool-cases (same_key nk str nk' str')) [
          | inl same ↦ rw same (elim (search-cases removed nk' str' (xs ++ ys) pos) [
            | inl (z, _) ↦ z
            | inr g ↦
                let one =
                  valid.unique nk' str' _ a (In-rest _ xs a ys g.0) here g.1 (at_a ∙ same) in
                absurd (In-Absent a _ (xs ++ ys) g.0 absent one)
          ])
          | inr differ ↦ rw differ (sym (search-skip t nk' str' xs a ys (at_a ∙ differ)))
        ]

    removed-view :
        (nk' : ℕ) (str' : List ℕ)
        → view removed (xs ++ ys) nk' str'
          ≡ (if same_key nk str nk' str' then none else view t (xs ++ (a ∷ ys)) nk' str')
    unfolding view remove_node unlink_tail unlink_head unlink_chain
    removed-view nk' str' =
        rw (removed-search nk' str') (elim (Bool-cases (same_key nk str nk' str')) [
          | inl same ↦ rw same
          | inr differ ↦ rw differ
        ])

module _ (t : HTable) (ids : List ℕ) (valid : IsTable t ids) (num : ℕ) (str : List ℕ) where
  abbrev nk : ℕ
  nk = key_of num str

  del_run :
      del t num str
      ≡ some (
        if search t nk str ids == 0
            then t
            else remove_node t (bit_and nk t.mask) (search t nk str ids),
        ok,
      )
  unfolding del
  del_run = rw (locate_lem t ids valid nk str)

  -- del of a key that is not in the table returns 0 and changes nothing.
  pub del-missing : view t ids nk str ≡ none → del t num str ≡ some (t, ok)
  del-missing missing = del_run ∙ rw (view→search t ids nk str valid.non_null missing)

  -- del of a key that is in the table returns 0 and takes one node out of the list, whose order
  -- stays. The key has no value then, every other key keeps its value, the count is one less, and
  -- the value that stood under the key goes to `vfree`, if given.
  pub del-present :
      (old : ℕ)
      → t.count < 2 ^ 64
      → view t ids nk str ≡ some old
      → (t' : HTable) × (xs : List ℕ) × (a : ℕ) × (ys : List ℕ) × (ids ≡ xs ++ (a ∷ ys))
        × (del t num str ≡ some (t', ok))
        × IsTable t' (xs ++ ys)
        × ((nk' : ℕ) (str' : List ℕ)
            → view t' (xs ++ ys) nk' str'
              ≡ (if same_key nk str nk' str' then none else view t ids nk' str'))
        × (t'.count + 1 ≡ t.count)
        × (t'.released ≡ (if t.vfree then t.released ++ (old ∷ []) else t.released))
  del-present old small here =
      let (hit, value) = view→hit t ids nk str old valid.non_null here in
      let a = search t nk str ids in
      let (xs, ys, e) = In-split a ids hit.0 in
      let split = subst (IsTable t) e valid in
      let r = removed t xs a ys split in
      let new = removed-IsTable t xs a ys split small in
      (
        r,
        xs,
        a,
        ys,
        e,
        del_run ∙ rw (matches-num_key t nk str a hit.1) (ground (arith, hit.2)),
        new,
        λ nk' str'.
            removed-view t xs a ys split nk str hit.1 nk' str'
            ∙ ap (λ l. if same_key nk str nk' str' then none else view t l nk' str') (sym e),
        omega (
          arith,
          new.counted,
          valid.counted,
          ap length e,
          length-append xs ys,
          length-append xs (a ∷ ys),
        ),
        unfold remove_node in
            ap (λ v. if t.vfree then t.released ++ (v ∷ []) else t.released) value,
      )

  -- del of the key whose node is under the cursor leaves the cursor on that node, which is freed: the
  -- table is well formed, and the cursor is not NULL and stands on none of its nodes.
  pub del-cursor :
      (old : ℕ)
      → t.count < 2 ^ 64
      → view t ids nk str ≡ some old
      → t.curr ≡ search t nk str ids
      → (t' : HTable) × (ids' : List ℕ) × (del t num str ≡ some (t', ok))
        × IsTable t' ids'
        × (0 < t'.curr)
        × Absent t'.curr ids'
  unfolding remove_node unlink_tail unlink_head unlink_chain
  del-cursor old small here at =
      let (hit, _) = view→hit t ids nk str old valid.non_null here in
      let a = search t nk str ids in
      let (xs, ys, e) = In-split a ids hit.0 in
      let split = subst (IsTable t) e valid in
      (
        removed t xs a ys split,
        xs ++ ys,
        del_run ∙ rw (matches-num_key t nk str a hit.1) (ground (arith, hit.2)),
        removed-IsTable t xs a ys split small,
        rw at hit.2,
        rw at (Distinct-rest xs a ys split.distinct).1,
      )
