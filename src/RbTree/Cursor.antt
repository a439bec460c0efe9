-- ===== src/RbTree/Cursor.antt =====
-- libyod/rbtree.c: the cursor, which walks the list of all nodes in either direction, and free.
use libyod.Prelude.{
  ℕ, zero, suc, ◌<◌, ◌≡◌, refl, sym, ap, ◌∙◌, Option, none, some, List, [], ◌∷◌, ◌++◌, map, arith,
  if◌then◌else◌, length,
}
use libyod.Links.{first_or, Linked, NonNull}
use libyod.Links.Reverse.{
  reverse, first_or-reverse, NonNull-reverse, length-reverse, Linked-reverse,
}
use libyod.Links.Release.{released-nil, released-cons}
use libyod.RbTree.State.{RbTree, released_with}
use libyod.RbTree.Tree.{Tree, ids}
use libyod.RbTree.Visit.{Entry, entry_of, visit, to_head, to_tail, to_next, to_prev, release, free}
use libyod.RbTree.Valid.{IsRbTree, entries, non_null, root_pos}

-- What a client reads that moves the cursor on with `step` until it gets nothing.
abbrev pub walk : (RbTree → RbTree × Option Entry) → ℕ → RbTree × Option Entry → List Entry
walk step zero _ = []
walk step (suc fuel) (t, none) = []
walk step (suc fuel) (t, some e) = e ∷ walk step fuel (step t)

visit_at : (t : RbTree) (a : ℕ) → 0 < a → visit t a ≡ (record t { curr = a }, some (entry_of t a))
unfolding visit
visit_at t a pos = ground arith

-- `step` moves the cursor along `link`.
module _ (t : RbTree) (step : RbTree → RbTree × Option Entry) (link : ℕ → ℕ)
    (moves : (c : ℕ)
      → 0 < c
      → step (record t { curr = c }) ≡ visit (record t { curr = c }) (link c)) where
  walk_lem :
      (fuel p c : ℕ) (back : ℕ → ℕ) (ids : List ℕ)
      → NonNull ids
      → Linked link back p ids 0
      → length ids < fuel
      → walk step fuel (visit (record t { curr = c }) (first_or 0 ids)) ≡ map (entry_of t) ids
  unfolding visit
  walk_lem zero p c back ids pos l h = elim h [ ]
  walk_lem (suc fuel) p c back [] pos l h = refl
  walk_lem (suc fuel) p c back (a ∷ ids) (pos, all) (_, on, l) h =
      ap (walk step (suc fuel)) (visit_at (record t { curr = c }) a pos)
      ∙ ap (λ l. entry_of t a ∷ l)
          (ap (walk step fuel) (moves a pos)
            ∙ ap (λ b. walk step fuel (visit (record t { curr = a }) b)) on
            ∙ walk_lem fuel a a back ids all l (omega arith))

module _ (t : RbTree) (n : Tree) (valid : IsRbTree t n) (fuel : ℕ)
    (enough : length (ids n) < fuel) where
  -- From to_head on, to_next visits every entry once, in order of the keys, and then gets nothing.
  -- From to_tail on, to_prev visits them in the opposite order.
  pub walks :
      (walk to_next fuel (to_head t) ≡ entries t n)
      × (walk to_prev fuel (to_tail t) ≡ map (entry_of t) (reverse (ids n)))
  unfolding to_head to_next to_tail to_prev
  walks =
      let root = root_pos t n valid in
      (
        rw root (
            ap (λ a. walk to_next fuel (visit t a)) valid.head_first
            ∙ walk_lem t to_next t.next (λ c pos. rw root (ground arith)) fuel 0 t.curr t.prev
                (ids n) (non_null t n valid) valid.linked enough),
        rw root (
            ap (λ a. walk to_prev fuel (visit t a))
              (valid.tail_last ∙ sym (first_or-reverse 0 (ids n)))
            ∙ walk_lem t to_prev t.prev (λ c pos. rw root (ground arith)) fuel 0 t.curr t.next
                (reverse (ids n)) (NonNull-reverse (ids n) (non_null t n valid))
                (Linked-reverse t.next t.prev 0 (ids n) 0 valid.linked)
                (omega (arith, length-reverse (ids n), enough))),
      )

-- What `vfree` was called with, after the values of `ids`.
abbrev pub released_all : RbTree → List ℕ → List ℕ
released_all t ids = if t.vfree then t.released ++ map t.value ids else t.released

-- One round of the loop.
release_step :
    (t : RbTree) (fuel a : ℕ)
    → 0 < a
    → release (suc fuel) t a
      ≡ release fuel (record t { curr = t.next a; released = released_with t a }) (t.next a)
unfolding release
release_step t fuel a pos = ground arith

module _ (t : RbTree) where
  release_lem :
      (fuel p c : ℕ) (released' : List ℕ) (xs : List ℕ)
      → NonNull xs
      → Linked t.next t.prev p xs 0
      → length xs < fuel
      → (t' : RbTree) × (release fuel (record t { curr = c; released = released' }) (first_or 0 xs)
          ≡ some t')
        × (t'.released ≡ (if t.vfree then released' ++ map t.value xs else released'))
  unfolding release
  release_lem zero p c rel xs pos l h = absurd (omega arith)
  release_lem (suc fuel) p c rel [] pos l h =
      (record t { curr = c; released = rel }, refl, sym (released-nil t.vfree rel))
  release_lem (suc fuel) p c rel (a ∷ xs) (pos, all) (_, on, l) h =
      let rel' = if t.vfree then rel ++ (t.value a ∷ []) else rel in
      let (t', run, is) = release_lem fuel a (t.next a) rel' xs all l (omega arith) in
      (
        t',
        release_step (record t { curr = c; released = rel }) fuel a pos
            ∙ ap (release fuel (record t { curr = t.next a; released = rel' })) on
            ∙ run,
        is ∙ released-cons t.vfree rel (t.value a) (map t.value xs),
      )

-- free ends, and every value goes to `vfree`, if given, in order of the keys.
pub free-released :
    (t : RbTree) (n : Tree)
    → IsRbTree t n
    → (t' : RbTree) × (free t ≡ some t') × (t'.released ≡ released_all t (ids n))
unfolding free
free-released t n valid =
    let (t', run, is) =
      release_lem t (suc t.count) 0 t.curr t.released (ids n) (non_null t n valid) valid.linked
        (omega (arith, valid.counted)) in
    (t', ap (release (suc t.count) t) valid.head_first ∙ run, is)
