-- ===== src/HTable/Append.antt =====
-- libyod/htable.c: the new node that add puts into the list and into its chain.
use libyod.Prelude.{
  Bool, none, ltb, not, ◌&&◌, ℕ, ◌^◌, ◌<◌, bit_and, ◌≡◌, refl, sym, ap, ◌∙◌, subst, ◌≢◌, inl, inr,
  true, false, some, List, [], ◌∷◌, ◌++◌, arith, ◌==◌, if◌then◌else◌, Bool-cases, length, get_elem?,
  length-snoc, length-set,
}
use libyod.Prelude.Bits.{bit_and-le}
use libyod.Links.{
  update, update_self, update_ne, update_guarded, first_or, Linked, In, Absent, NonNull, In-Absent,
  Distinct-append, All-append, In-append, last_or-append,
}
use libyod.Links.Edit.{Linked-push_back}
use libyod.HTable.{
  HTable, matches, put_front, link_front, fill_node, count_node, copy_key, append_node,
}
use libyod.HTable.Chain.{bucket_of_congr, search, search-cases, search_unique, Hit}
use libyod.HTable.Valid.{IsChain, chain_of, Chains, IsTable, view, view_at, view-none}
use libyod.HTable.Resize.{put_front-Chains}
use libyod.HTable.Key.{same_key, same_key_sound, same_key_refl}

module _ (t : HTable) (ids : List ℕ) (valid : IsTable t ids) (a nk : ℕ) (str : List ℕ) (val : ℕ)
    (a_pos : 0 < a) (absent : Absent a ids) where
  abbrev pub home_chain : ℕ
  home_chain = bit_and nk t.mask

  abbrev pub filled : HTable
  filled = fill_node t a nk str val

  abbrev pub appended : HTable
  appended = count_node (put_front filled home_chain a (first_or 0 (chain_of t ids home_chain))) a

  room : home_chain < t.size
  room = omega (arith, bit_and-le nk t.mask, valid.masked)

  old_ne : (b : ℕ) → In b ids → b ≢ a
  old_ne b m = In-Absent a b ids m absent

  filled_chain : (j : ℕ) → chain_of filled ids j ≡ chain_of t ids j
  unfolding fill_node
  filled_chain j =
      bucket_of_congr (update t.num_key a nk) t.num_key t.mask j [] ids
        (λ b m. update_ne t.num_key a nk b (old_ne b m))

  filled-Chains : Chains filled ids
  filled-Chains j h =
      subst (IsChain filled j) (sym (filled_chain j))
        (unfold fill_node in valid.chains j (unfold fill_node in h))

  pub append_node_lem :
      (copied : Bool)
      → append_node copied t home_chain a nk str val
        ≡ (if ltb 0 (length str) && not copied then none else some appended)
  unfolding append_node link_front copy_key
  append_node_lem copied =
      let e : get_elem? filled.nodes home_chain ≡ some (first_or 0 (chain_of t ids home_chain)) =
        unfold fill_node in (valid.chains home_chain room).0 in
      elim (Bool-cases (ltb 0 (length str) && not copied)) [
        | inl lost ↦ rw lost refl
        | inr kept ↦ rw (kept, e) refl
      ]

  appended-Chains : Chains appended (ids ++ (a ∷ []))
  unfolding fill_node count_node
  appended-Chains =
      let grown =
        put_front-Chains filled ids a home_chain a_pos valid.non_null valid.distinct absent
          valid.width (ap (λ n. bit_and n t.mask) (update_self t.num_key a nk)) room
          filled-Chains in
      subst
        (λ c.
          Chains (count_node (put_front filled home_chain a (first_or 0 c)) a) (ids ++ (a ∷ [])))
        (filled_chain home_chain) grown

  appended-Linked : Linked appended.next appended.prev 0 (ids ++ (a ∷ [])) 0
  unfolding fill_node put_front count_node
  appended-Linked =
      Linked-push_back t.next t.prev appended.next appended.prev a a_pos ids valid.non_null
        valid.distinct absent
        (λ b h.
          update_guarded (update t.next a 0) t.tail a b h
          ∙ ap (λ p. update (update t.next a 0) p a b) valid.tail_last)
        (λ b h. ap (λ p. update t.prev a p b) valid.tail_last) valid.linked

  -- What the new node and the old ones hold.
  matches_new : (nk' : ℕ) (str' : List ℕ) → matches appended nk' str' a ≡ same_key nk str nk' str'
  unfolding matches same_key fill_node put_front count_node
  matches_new nk' str' = simp (
    update_self t.num_key a nk,
    update_self t.str_key a str,
    update_self t.key_len a (length str),
  )

  matches_old :
      (nk' : ℕ) (str' : List ℕ) (b : ℕ)
      → In b ids
      → matches appended nk' str' b ≡ matches t nk' str' b
  unfolding matches fill_node put_front count_node
  matches_old nk' str' b m =
      let ne = old_ne b m in
      simp (
        update_ne t.num_key a nk b ne,
        update_ne t.str_key a str b ne,
        update_ne t.key_len a (length str) b ne,
      )

  module _ (new_key : search t nk str ids ≡ 0) where
    no_old : (b : ℕ) → In b ids → matches t nk str b ≡ false
    no_old b m = elim (search-cases t nk str ids valid.non_null) [
      | inl (_, none_holds) ↦ none_holds b m
      | inr hit ↦ absurd (omega (arith, hit.2))
    ]

    -- No old node holds a key that the new one holds.
    apart :
        (nk' : ℕ) (str' : List ℕ) (b : ℕ)
        → In b ids
        → matches appended nk' str' a ≡ true
        → matches appended nk' str' b ≡ true
        → ⊥
    apart nk' str' b m ha hb =
        let (e, e') = same_key_sound nk str nk' str' (sym (matches_new nk' str') ∙ ha) in
        let old = sym (matches_old nk' str' b m) ∙ hb in
        cc (
          no_old b m,
          subst (λ s. matches t nk s b ≡ true) (sym e')
              (subst (λ n. matches t n str' b ≡ true) (sym e) old),
        )

    appended_unique :
        (nk' : ℕ) (str' : List ℕ) (b c : ℕ)
        → In b (ids ++ (a ∷ []))
        → In c (ids ++ (a ∷ []))
        → matches appended nk' str' b ≡ true
        → matches appended nk' str' c ≡ true
        → b ≡ c
    appended_unique nk' str' b c mb mc hb hc = elim ((In-append b ids (a ∷ [])).0 mb) [
      | inl nb ↦ elim ((In-append c ids (a ∷ [])).0 mc) [
        | inl nc ↦
            valid.unique nk' str' b c nb nc (sym (matches_old nk' str' b nb) ∙ hb)
              (sym (matches_old nk' str' c nc) ∙ hc)
        | inr (inl e) ↦
            absurd
              (apart nk' str' b nb (subst (λ z. matches appended nk' str' z ≡ true) (sym e) hc) hb)
        | inr (inr z) ↦ elim z [ ]
      ]
      | inr (inl e) ↦ elim ((In-append c ids (a ∷ [])).0 mc) [
        | inl nc ↦
            absurd
              (apart nk' str' c nc (subst (λ z. matches appended nk' str' z ≡ true) (sym e) hb) hc)
        | inr (inl e') ↦ sym e ∙ e'
        | inr (inr z) ↦ elim z [ ]
      ]
      | inr (inr z) ↦ elim z [ ]
    ]

    first_appended :
        (xs : List ℕ)
        → NonNull xs
        → (if first_or 0 xs == 0 then a else first_or 0 xs) ≡ first_or 0 (xs ++ (a ∷ []))
    first_appended [] pos = refl
    first_appended (x ∷ xs) (pos, _) = ground arith

    pub append-IsTable : t.count < 2 ^ 62 → IsTable appended (ids ++ (a ∷ []))
    append-IsTable small = record {
      linked = appended-Linked;
      head_first =
          unfold count_node put_front fill_node in
          (ap (λ p. if p == 0 then a else p) valid.head_first ∙ first_appended ids valid.non_null);
      tail_last = unfold count_node in sym (last_or-append 0 ids (a ∷ []));
      distinct =
          (Distinct-append ids (a ∷ [])).1
            (valid.distinct, (tt, tt), λ b m. (λ e. old_ne b m (sym e), tt));
      non_null = (All-append (λ x. 0 < x) ids (a ∷ [])).1 (valid.non_null, (a_pos, tt));
      counted =
          unfold count_node put_front fill_node in omega (arith, length-snoc ids a, valid.counted);
      width =
          unfold count_node put_front fill_node in (length-set t.nodes home_chain a ∙ valid.width);
      masked = unfold count_node put_front fill_node in valid.masked;
      chains = appended-Chains;
      unique = appended_unique;
    }

    new-Hit : Hit appended nk str (ids ++ (a ∷ [])) a
    new-Hit = (
      (In-append a ids (a ∷ [])).1 (inr (inl refl)),
      matches_new nk str ∙ same_key_refl nk str,
      a_pos,
    )

    pos_all : NonNull (ids ++ (a ∷ []))
    pos_all = (All-append (λ x. 0 < x) ids (a ∷ [])).1 (valid.non_null, (a_pos, tt))

    value_new : appended.value a ≡ val
    value_new = unfold count_node put_front fill_node in update_self t.value a val

    value_old : (b : ℕ) → In b ids → appended.value b ≡ t.value b
    value_old b m = unfold count_node put_front fill_node in update_ne t.value a val b (old_ne b m)

    -- A key that is not the new one is found where it was.
    view_other :
        (nk' : ℕ) (str' : List ℕ)
        → same_key nk str nk' str' ≡ false
        → view appended (ids ++ (a ∷ [])) nk' str' ≡ view t ids nk' str'
    view_other nk' str' differ = elim (search-cases t nk' str' ids valid.non_null) [
      | inr hit ↦
          let b = search t nk' str' ids in
          let in_all = (In-append b ids (a ∷ [])).1 (inl hit.0) in
          let at_b = matches_old nk' str' b hit.0 ∙ hit.1 in
          view_at appended (ids ++ (a ∷ [])) nk' str' b
            (search_unique appended nk' str' (ids ++ (a ∷ [])) b pos_all
              (λ c m h. appended_unique nk' str' c b m in_all h at_b) (in_all, at_b, hit.2))
            hit.2
          ∙ ap some (value_old b hit.0)
          ∙ sym (view_at t ids nk' str' b refl hit.2)
      | inl (z, no_hit) ↦
          (elim (search-cases appended nk' str' (ids ++ (a ∷ [])) pos_all) [
            | inl (z', _) ↦ view-none appended (ids ++ (a ∷ [])) nk' str' z'
            | inr hit ↦ elim ((In-append _ ids (a ∷ [])).0 hit.0) [
              | inl m ↦ cc (no_hit _ m, matches_old nk' str' _ m, hit.1)
              | inr (inl e) ↦ cc (
                matches_new nk' str',
                differ,
                subst (λ c. matches appended nk' str' c ≡ true) (sym e) hit.1,
              )
              | inr (inr n) ↦ elim n [ ]
            ]
          ])
          ∙ sym (view-none t ids nk' str' z)
    ]

    pub append-view :
        (nk' : ℕ) (str' : List ℕ)
        → view appended (ids ++ (a ∷ [])) nk' str'
          ≡ (if same_key nk str nk' str' then some val else view t ids nk' str')
    append-view nk' str' = elim (Bool-cases (same_key nk str nk' str')) [
      | inr differ ↦ rw differ (view_other nk' str' differ)
      | inl same ↦
          let (e, e') = same_key_sound nk str nk' str' same in
          rw (same, ← e, ← e')
            (view_at appended (ids ++ (a ∷ [])) nk str a
                (search_unique appended nk str (ids ++ (a ∷ [])) a pos_all
                  (λ c m h. appended_unique nk str c a m new-Hit.0 h new-Hit.1) new-Hit)
                a_pos
              ∙ ap some value_new)
    ]
