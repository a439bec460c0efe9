-- ===== src/HTable/Cursor.antt =====
-- libyod/htable.c: the cursor, which walks the list of all nodes in either direction.
use libyod.Prelude.{
  ℕ, zero, suc, ◌<◌, ◌≡◌, refl, sym, ap, ◌∙◌, Option, none, some, List, [], ◌∷◌, map, arith, length,
}
use libyod.Links.{first_or, Linked, NonNull}
use libyod.HTable.{matches, HTable, Entry, entry_of, visit, to_head, to_tail, to_next, to_prev}
use libyod.Links.Reverse.{
  reverse, first_or-reverse, NonNull-reverse, length-reverse, Linked-reverse,
}
use libyod.HTable.Valid.{IsTable}

-- The cursor is no part of the invariant.
pub curr-IsTable :
    (t : HTable) (ids : List ℕ) (c : ℕ) → IsTable t ids → IsTable (record t { curr = c }) ids
unfolding matches
curr-IsTable t ids c valid = record {
  linked = valid.linked;
  head_first = valid.head_first;
  tail_last = valid.tail_last;
  distinct = valid.distinct;
  non_null = valid.non_null;
  counted = valid.counted;
  width = valid.width;
  masked = valid.masked;
  chains = valid.chains;
  unique = valid.unique;
}

-- What a client reads that moves the cursor on with `step` until it gets nothing.
abbrev pub walk : (HTable → HTable × Option Entry) → ℕ → HTable × Option Entry → List Entry
walk step zero _ = []
walk step (suc fuel) (t, none) = []
walk step (suc fuel) (t, some e) = e ∷ walk step fuel (step t)

visit_at : (t : HTable) (a : ℕ) → 0 < a → visit t a ≡ (record t { curr = a }, some (entry_of t a))
unfolding visit
visit_at t a pos = ground arith

-- `step` moves the cursor along `link`.
module _ (t : HTable) (step : HTable → HTable × Option Entry) (link : ℕ → ℕ)
    (moves : (c : ℕ)
      → 0 < c
      → step (record t { curr = c }) ≡ visit (record t { curr = c }) (link c)) where
  walk_lem :
      (fuel p c : ℕ) (back : ℕ → ℕ) (ids : List ℕ)
      → NonNull ids
      → Linked link back p ids 0
      → length ids < fuel
      → walk step fuel (visit (record t { curr = c }) (first_or 0 ids)) ≡ map (entry_of t) ids
  unfolding visit
  walk_lem zero p c back ids pos l h = elim h [ ]
  walk_lem (suc fuel) p c back [] pos l h = refl
  walk_lem (suc fuel) p c back (a ∷ ids) (pos, all) (_, on, l) h =
      ap (walk step (suc fuel)) (visit_at (record t { curr = c }) a pos)
      ∙ ap (λ l. entry_of t a ∷ l)
          (ap (walk step fuel) (moves a pos)
            ∙ ap (λ b. walk step fuel (visit (record t { curr = a }) b)) on
            ∙ walk_lem fuel a a back ids all l (omega arith))

module _ (t : HTable) (ids : List ℕ) (valid : IsTable t ids) (fuel : ℕ)
    (enough : length ids < fuel) where
  -- From to_head on, to_next visits every entry once, in order of insertion, and then gets nothing.
  pub to_next-order : walk to_next fuel (to_head t) ≡ map (entry_of t) ids
  unfolding to_head to_next
  to_next-order =
      ap (λ a. walk to_next fuel (visit t a)) valid.head_first
      ∙ walk_lem t to_next t.next (λ c pos. ground arith) fuel 0 t.curr t.prev ids valid.non_null
          valid.linked enough

  -- From to_tail on, to_prev visits them in the opposite order, and then gets nothing.
  pub to_prev-order : walk to_prev fuel (to_tail t) ≡ map (entry_of t) (reverse ids)
  unfolding to_tail to_prev
  to_prev-order =
      ap (λ a. walk to_prev fuel (visit t a)) (valid.tail_last ∙ sym (first_or-reverse 0 ids))
      ∙ walk_lem t to_prev t.prev (λ c pos. ground arith) fuel 0 t.curr t.next (reverse ids)
          (NonNull-reverse ids valid.non_null) (Linked-reverse t.next t.prev 0 ids 0 valid.linked)
          (omega (arith, length-reverse ids, enough))
