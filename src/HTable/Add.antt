-- ===== src/HTable/Add.antt =====
-- libyod/htable.c: every outcome of add, against the abstract view.
use libyod.Prelude.{
  ℕ, ◌+◌, ◌^◌, ◌<◌, bit_and, ◌≡◌, refl, sym, ap, ◌∙◌, ◌⊎◌, inl, inr, Bool, true, false, not, Option,
  none, some, List, [], ◌∷◌, ◌++◌, arith, leb, ◌==◌, if◌then◌else◌, leb→le, ltb, ◌&&◌, length,
  Bool-cases, length-snoc, ◌>>=◌,
}
use libyod.Links.{update, update_self, update_ne, In, Absent, NonNull}
use libyod.Prelude.{Ret, ok, fail}
use libyod.HTable.{HTable, matches, key_of, resize, overwrite, append_node, add}
use libyod.HTable.Chain.{search, search-cases, Hit}
use libyod.HTable.Valid.{IsTable, view, view_at, view-none, locate_lem}
use libyod.HTable.Resize.{resize-Resized}
use libyod.HTable.Key.{same_key, search-same, search-ne}
use libyod.HTable.Append.{append_node_lem, append-IsTable, append-view, appended}

-- The same table up to its links and buckets.
pub record Prepared (t : HTable) (ids : List ℕ) (t' : HTable) : Type 0 where
  pub valid : IsTable t' ids
  pub same_view : (nk : ℕ) (str : List ℕ) → view t' ids nk str ≡ view t ids nk str
  pub same_count : t'.count ≡ t.count
  pub same_released : t'.released ≡ t.released
  pub same_vfree : t'.vfree ≡ t.vfree

-- `if (self->count >= self->size) _yod_htable_resize(self);`
prepare :
    (room : Bool) (t : HTable) (ids : List ℕ)
    → IsTable t ids
    → t.count < 2 ^ 62
    → (t' : HTable) × ((if leb t.size t.count then resize room t else some t) ≡ some t')
      × Prepared t ids t'
prepare room t ids valid small = elim (Bool-cases (leb t.size t.count)) [
  | inl full ↦
      let (t', run, r) = resize-Resized room t ids valid (leb→le t.size t.count full) small in
      (
        t',
        rw full run,
        record {
          valid = r.valid;
          same_view = r.same_view;
          same_count = r.same_count;
          same_released = r.same_released;
          same_vfree = r.same_vfree;
        },
      )
  | inr roomy ↦ (
    t,
    rw roomy,
    record {
      valid = valid;
      same_view = λ nk str. refl;
      same_count = refl;
      same_released = refl;
      same_vfree = refl;
    },
  )
]

pub view→search :
    (t : HTable) (ids : List ℕ) (nk : ℕ) (str : List ℕ)
    → NonNull ids
    → view t ids nk str ≡ none
    → search t nk str ids ≡ 0
view→search t ids nk str pos e = elim (search-cases t nk str ids pos) [
  | inl (z, _) ↦ z
  | inr hit ↦ cc (view_at t ids nk str _ refl hit.2, e)
]

pub view→hit :
    (t : HTable) (ids : List ℕ) (nk : ℕ) (str : List ℕ) (old : ℕ)
    → NonNull ids
    → view t ids nk str ≡ some old
    → Hit t nk str ids (search t nk str ids) × (t.value (search t nk str ids) ≡ old)
view→hit t ids nk str old pos e = elim (search-cases t nk str ids pos) [
  | inl (z, _) ↦ cc (view-none t ids nk str z, e)
  | inr hit ↦ let at = view_at t ids nk str _ refl hit.2 in (hit, cc (at, e))
]

-- The node that holds the key is given the new value.
module _ (t : HTable) (ids : List ℕ) (valid : IsTable t ids) (a nk : ℕ) (str : List ℕ) (val : ℕ)
    (hit : Hit t nk str ids a) where
  overwrite-IsTable : IsTable (overwrite t a val true).0 ids
  unfolding overwrite matches
  overwrite-IsTable = record {
    linked = valid.linked;
    head_first = valid.head_first;
    tail_last = valid.tail_last;
    distinct = valid.distinct;
    non_null = valid.non_null;
    counted = valid.counted;
    width = valid.width;
    masked = valid.masked;
    chains = valid.chains;
    unique = valid.unique;
  }

  -- The search does not look at the values.
  overwrite-search :
      (nk' : ℕ) (str' : List ℕ)
      → search (overwrite t a val true).0 nk' str' ids ≡ search t nk' str' ids
  unfolding overwrite matches
  overwrite-search nk' str' = refl

  overwrite_value : (b : ℕ) → (overwrite t a val true).0.value b ≡ update t.value a val b
  unfolding overwrite
  overwrite_value b = refl

  overwrite-view :
      (nk' : ℕ) (str' : List ℕ)
      → view (overwrite t a val true).0 ids nk' str'
        ≡ (if same_key nk str nk' str' then some val else view t ids nk' str')
  overwrite-view nk' str' =
      let t' = (overwrite t a val true).0 in
      let one =
        λ (nk' : ℕ) (str' : List ℕ) (b : ℕ) (m : In b ids) (h : matches t nk' str' b ≡ true)
            (k : matches t nk' str' a ≡ true).
          valid.unique nk' str' b a m hit.0 h k in
      elim (Bool-cases (same_key nk str nk' str')) [
        | inl same ↦ rw same (
            view_at t' ids nk' str' a
              (overwrite-search nk' str'
                ∙ search-same t ids valid.non_null a nk str hit one nk' str' same)
              hit.2
            ∙ ap some (overwrite_value a ∙ update_self t.value a val))
        | inr differ ↦
            let apart = search-ne t ids valid.non_null a nk str hit one nk' str' differ in
            rw differ (elim (search-cases t nk' str' ids valid.non_null) [
              | inl (z, _) ↦
                  view-none t' ids nk' str' (overwrite-search nk' str' ∙ z)
                  ∙ sym (view-none t ids nk' str' z)
              | inr found ↦
                  view_at t' ids nk' str' (search t nk' str' ids) (overwrite-search nk' str')
                    found.2
                  ∙ ap some (overwrite_value _ ∙ update_ne t.value a val _ apart)
                  ∙ sym (view_at t ids nk' str' _ refl found.2)
            ])
      ]

module _ (room : Bool) (fresh : ℕ) (copied : Bool) (t : HTable) (ids : List ℕ) (num : ℕ)
    (str : List ℕ) (val : ℕ) where
  abbrev nk : ℕ
  nk = key_of num str

  -- The code behind the search, from a table that is prepared.
  outcome : HTable → Bool → Option (HTable × Ret)
  outcome t' force =
      if not (search t' nk str ids == 0)
      then some (overwrite t' (search t' nk str ids) val force)
      else if fresh == 0
      then some (t', fail)
      else append_node copied t' (bit_and nk t'.mask) fresh nk str val >>= λ t''. some (t'', ok)

  add_run :
      (force : Bool) (t' : HTable)
      → (if leb t.size t.count then resize room t else some t) ≡ some t'
      → IsTable t' ids
      → add room fresh copied t num str val force ≡ outcome t' force
  unfolding add outcome
  add_run force t' run valid = rw (run, ◌>>=◌, locate_lem t' ids valid nk str)

  module _ (t' : HTable) (force : Bool) where
    outcome-new :
        (t'' : HTable) (lost : Bool)
        → search t' nk str ids ≡ 0
        → 0 < fresh
        → append_node copied t' (bit_and nk t'.mask) fresh nk str val
          ≡ (if lost then none else some t'')
        → outcome t' force ≡ (if lost then none else some (t'', ok))
    unfolding outcome
    outcome-new t'' true z pos run = rw (z, run) (ground arith)
    outcome-new t'' false z pos run = rw (z, run) (ground arith)

    outcome-found :
        0 < search t' nk str ids
        → outcome t' force ≡ some (overwrite t' (search t' nk str ids) val force)
    unfolding outcome
    outcome-found pos = ground arith

    outcome-full : search t' nk str ids ≡ 0 → fresh ≡ 0 → outcome t' force ≡ some (t', fail)
    unfolding outcome
    outcome-full z full = rw (z, full)

  module _ (valid : IsTable t ids) (small : t.count < 2 ^ 62) where
    -- A key that is not in the table: add returns 0 and puts the new node at the end of the list,
    -- whatever `force` is. The new value stands under the key, every other key keeps its value, and
    -- the count is one more. Where the `malloc` for the copy of a text key fails, there is no result:
    -- the code stores through NULL.
    pub add-insert :
        (force : Bool)
        → view t ids nk str ≡ none
        → 0 < fresh
        → Absent fresh ids
        → (t' : HTable) × (add room fresh copied t num str val force
            ≡ (if ltb 0 (length str) && not copied then none else some (t', ok)))
          × IsTable t' (ids ++ (fresh ∷ []))
          × ((nk' : ℕ) (str' : List ℕ)
              → view t' (ids ++ (fresh ∷ [])) nk' str'
                ≡ (if same_key nk str nk' str' then some val else view t ids nk' str'))
          × (t'.count ≡ t.count + 1)
    add-insert force missing pos absent =
        let (t1, run, p) = prepare room t ids valid small in
        let z = view→search t1 ids nk str p.valid.non_null (p.same_view nk str ∙ missing) in
        let small1 : t1.count < 2 ^ 62 = omega (arith, p.same_count) in
        let new = append-IsTable t1 ids p.valid fresh nk str val pos absent z small1 in
        (
          appended t1 ids p.valid fresh nk str val pos absent,
          add_run force t1 run p.valid
              ∙ outcome-new t1 force _ _ z pos
                  (append_node_lem t1 ids p.valid fresh nk str val pos absent copied),
          new,
          λ nk' str'.
              append-view t1 ids p.valid fresh nk str val pos absent z nk' str'
              ∙ ap (λ v. if same_key nk str nk' str' then some val else v) (p.same_view nk' str'),
          omega (arith, new.counted, length-snoc ids fresh, valid.counted),
        )

    -- A key that is in the table, with `force`: add returns 0, the nodes stay, the new value stands
    -- under the key, every other key keeps its value, and the old value goes to `vfree`, if given.
    pub add-overwrite :
        (old : ℕ)
        → view t ids nk str ≡ some old
        → (t' : HTable) × (add room fresh copied t num str val true ≡ some (t', ok))
          × IsTable t' ids
          × ((nk' : ℕ) (str' : List ℕ)
              → view t' ids nk' str'
                ≡ (if same_key nk str nk' str' then some val else view t ids nk' str'))
          × (t'.count ≡ t.count)
          × (t'.released ≡ (if t.vfree then t.released ++ (old ∷ []) else t.released))
    add-overwrite old here =
        let (t1, run, p) = prepare room t ids valid small in
        let a = search t1 nk str ids in
        let (hit, value) =
          view→hit t1 ids nk str old p.valid.non_null (p.same_view nk str ∙ here) in
        (
          (overwrite t1 a val true).0,
          add_run true t1 run p.valid ∙ outcome-found t1 true hit.2 ∙ (unfold overwrite in refl),
          overwrite-IsTable t1 ids p.valid a nk str val hit,
          λ nk' str'.
              overwrite-view t1 ids p.valid a nk str val hit nk' str'
              ∙ ap (λ v. if same_key nk str nk' str' then some val else v) (p.same_view nk' str'),
          unfold overwrite in p.same_count,
          unfold overwrite in simp (p.same_vfree, p.same_released, value),
        )

    -- add returns -1 and leaves keys, values and count as they were, where the key is in the table
    -- and `force` is not set, and where the key is not in it and `malloc` fails.
    pub add-refused :
        (force : Bool)
        → ((old : ℕ) × (view t ids nk str ≡ some old) × (force ≡ false))
          ⊎ ((view t ids nk str ≡ none) × (fresh ≡ 0))
        → (t' : HTable) × (add room fresh copied t num str val force ≡ some (t', fail))
          × IsTable t' ids
          × ((nk' : ℕ) (str' : List ℕ) → view t' ids nk' str' ≡ view t ids nk' str')
          × (t'.count ≡ t.count)
          × (t'.released ≡ t.released)
    add-refused force why =
        let (t1, run, p) = prepare room t ids valid small in
        let refused : outcome t1 force ≡ some (t1, fail) = elim why [
          | inl (old, here, off) ↦
              let (hit, _) =
                view→hit t1 ids nk str old p.valid.non_null (p.same_view nk str ∙ here) in
              outcome-found t1 force hit.2 ∙ (unfold overwrite in rw off)
          | inr (missing, full) ↦
              outcome-full t1 force
                (view→search t1 ids nk str p.valid.non_null (p.same_view nk str ∙ missing)) full
        ] in
        (
          t1,
          add_run force t1 run p.valid ∙ refused,
          p.valid,
          p.same_view,
          p.same_count,
          p.same_released,
        )
