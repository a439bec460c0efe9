-- ===== src/HTable/Release.antt =====
-- libyod/htable.c: free, ref and reset, which end a table's use of its values.
use libyod.Prelude.{
  ℕ, zero, suc, ◌+◌, ◌-◌, ◌%◌, ◌^◌, ◌<◌, ◌≡◌, refl, sym, ap, ◌∙◌, true, false, some, List, [], ◌∷◌,
  ◌++◌, map, arith, ltb, ◌==◌, if◌then◌else◌, length, replicate, length-replicate,
  get_elem?-replicate,
}
use libyod.Links.{first_or, Linked, NonNull}
use libyod.Links.Release.{released-nil, released-cons}
use libyod.HTable.{HTable, ref, release, free, reset}
use libyod.HTable.Valid.{IsTable}

-- What `vfree` was called with, after the values of `ids`.
abbrev pub released_all : HTable → List ℕ → List ℕ
released_all t ids = if t.vfree then t.released ++ map t.value ids else t.released

-- One round of the loop.
release_step :
    (fuel : ℕ) (t : HTable) (a : ℕ)
    → 0 < a
    → release (suc fuel) t a
      ≡ release fuel
          (record t { released = if t.vfree then t.released ++ (t.value a ∷ []) else t.released })
          (t.next a)
unfolding release
release_step fuel t a pos = ground arith

release_lem :
    (fuel p : ℕ) (t : HTable) (ids : List ℕ)
    → NonNull ids
    → Linked t.next t.prev p ids 0
    → length ids < fuel
    → release fuel t (first_or 0 ids) ≡ some (record t { released = released_all t ids })
unfolding release
release_lem zero p t ids pos l h = elim h [ ]
release_lem (suc fuel) p t [] pos l h =
    ap (λ r. some (record t { released = r })) (sym (released-nil t.vfree t.released))
release_lem (suc fuel) p t (a ∷ ids) (pos, all) (_, nx, l) h =
    let t' = record t {
      released = if t.vfree then t.released ++ (t.value a ∷ []) else t.released;
    } in
    release_step fuel t a pos
    ∙ ap (release fuel t') nx
    ∙ release_lem fuel a t' ids all l (omega arith)
    ∙ ap (λ r. some (record t { released = r }))
        (released-cons t.vfree t.released (t.value a) (map t.value ids))

swap_test : {A : Type 0} (n : ℕ) (x y : A) → (if ltb 0 n then x else y) ≡ (if n == 0 then y else x)
swap_test n x y = ground arith

module _ (t : HTable) (ids : List ℕ) (valid : IsTable t ids) where
  -- free of a table that nobody else holds gives every value, in order of insertion, to `vfree`,
  -- if given, and frees the table. Where others hold it, free only counts one holder less.
  pub free_lem : free t ≡ (
      if t.is_ref == 0
      then some (record t { released = released_all t ids }, true)
      else some (record t { is_ref = t.is_ref - 1 }, false))
  unfolding free
  free_lem =
      let all =
        release_lem (suc t.count) 0 t ids valid.non_null valid.linked
          (omega (arith, valid.counted)) in
      rw (ap (release (suc t.count) t) valid.head_first ∙ all) (swap_test t.is_ref _ _)

  -- reset ends, and leaves a well-formed empty table; no value goes to `vfree`.
  pub reset-IsTable :
      (t' : HTable) × (reset t ≡ some t') × IsTable t' [] × (t'.released ≡ t.released)
  unfolding reset release
  reset-IsTable = (
    record t { count = 0; head = 0; tail = 0; curr = 0; nodes = replicate t.size 0 },
    refl,
    record {
      linked = tt;
      head_first = refl;
      tail_last = refl;
      distinct = tt;
      non_null = tt;
      counted = refl;
      width = length-replicate {A = ℕ} t.size 0;
      masked = valid.masked;
      chains = λ k h. (get_elem?-replicate {A = ℕ} t.size 0 k h, tt);
      unique = λ nk str a b m. elim m [ ];
    },
    refl,
  )

-- A reference taken and given back leaves the table as it was.
pub free-ref : (t : HTable) → t.is_ref + 1 < 2 ^ 64 → free (ref t) ≡ some (t, false)
unfolding free ref
free-ref t small =
    let same : (t.is_ref + 1) % 2 ^ 64 - 1 ≡ t.is_ref = omega arith in
    let held : ltb 0 ((t.is_ref + 1) % 2 ^ 64) ≡ true = ground arith in rw (held, same)
