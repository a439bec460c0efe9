-- ===== src/HTable/Tests.antt =====
-- The hash table of libyod/htable.c at a concrete input: a table with one chain, which the second
-- key makes full.
use libyod.Links.{Absent}
use libyod.Prelude.{
  ok, fail, ◌<◌, ℕ, ◌+◌, ◌-◌, ◌≡◌, refl, inl, true, false, none, some, List, [], ◌∷◌, ◌++◌, map,
  arith, ◌==◌, if◌then◌else◌, get_elem?-replicate,
}
use libyod.HTable.{
  count_of, locate, scan, HTable, entry_of, new, key_of, find, resize, add, del, to_head, to_tail,
  to_next, to_prev, ref, free, reset, str_nkey,
}
use libyod.HTable.Valid.{IsTable, view, or_null, find-view}
use libyod.HTable.Resize.{Resized, resize-Resized}
use libyod.HTable.Chain.{search}
use libyod.HTable.Key.{same_key}
use libyod.HTable.{count_node, put_front, fill_node, matches, bytes_eq}
use libyod.HTable.Append.{appended, append-IsTable}
use libyod.HTable.Add.{add-insert, add-overwrite, add-refused}
use libyod.HTable.Del.{del-cursor, del-present, del-missing}
use libyod.HTable.Hash.{hash_all, str_nkey-hash_all}
use libyod.HTable.Release.{released_all, free_lem, reset-IsTable, free-ref}
use libyod.Links.Reverse.{reverse}
use libyod.HTable.Cursor.{curr-IsTable, walk, to_next-order, to_prev-order}

abbrev tiny : HTable
tiny = record (new true) { size = 1; mask = 0; nodes = 0 ∷ [] }

tiny-IsTable : IsTable tiny []
unfolding new
tiny-IsTable = record {
  linked = tt;
  head_first = refl;
  tail_last = refl;
  distinct = tt;
  non_null = tt;
  counted = refl;
  width = refl;
  masked = omega arith;
  chains = λ k h. (get_elem?-replicate 1 0 k h, tt);
  unique = λ nk str a b m. elim m [ ];
}

abbrev name : List ℕ
name = 65 ∷ 66 ∷ []

abbrev one : HTable
one = appended tiny [] tiny-IsTable 100 (key_of 0 name) name 7 (omega arith) tt

one-IsTable : IsTable one (100 ∷ [])
unfolding new
one-IsTable =
    append-IsTable tiny [] tiny-IsTable 100 (key_of 0 name) name 7 (omega arith) tt refl
      (omega arith)

-- The table that add makes is this one.
one_run : add true 100 true tiny 0 name 7 false ≡ some (one, ok)
unfolding add new locate key_of str_nkey scan fill_node
one_run = refl

one_count : one.count ≡ 1
unfolding new count_node put_front fill_node
one_count = refl

one_size : one.size ≡ 1
unfolding new count_node put_front fill_node
one_size = refl

one_found : view one (100 ∷ []) (key_of 0 name) name ≡ some 7
unfolding view matches count_node put_front fill_node key_of str_nkey bytes_eq
one_found = refl

one_missing : view one (100 ∷ []) (key_of 5 []) [] ≡ none
unfolding view matches count_node put_front fill_node key_of str_nkey bytes_eq
one_missing = refl

find-view_example : find one 0 name ≡ some (or_null (view one (100 ∷ []) (key_of 0 name) name))
find-view_example = find-view one (100 ∷ []) one-IsTable 0 name

abbrev other : List ℕ
other = 98 ∷ []

one_lacks : view one (100 ∷ []) (key_of 0 other) other ≡ none
unfolding view matches count_node put_front fill_node key_of str_nkey bytes_eq
one_lacks = refl

-- The second key, which makes resize double the table first.
add-insert_example :
    (t' : HTable) × (add true 200 true one 0 other 8 false ≡ some (t', ok))
    × IsTable t' (100 ∷ 200 ∷ [])
    × ((nk' : ℕ) (str' : List ℕ)
        → view t' (100 ∷ 200 ∷ []) nk' str' ≡ (
            if same_key (key_of 0 other) other nk' str'
            then some 8
            else view one (100 ∷ []) nk' str'))
    × (t'.count ≡ one.count + 1)
add-insert_example =
    add-insert true 200 true one (100 ∷ []) 0 other 8 one-IsTable (omega (arith, one_count)) false
      one_lacks (omega arith) (omega arith, tt)

-- A text key whose copy gets no memory.
add_uncopied : add true 100 false tiny 0 name 7 false ≡ none
unfolding add new locate key_of str_nkey scan
add_uncopied = refl

add-overwrite_example :
    (t' : HTable) × (add true 200 true one 0 name 8 true ≡ some (t', ok))
    × IsTable t' (100 ∷ [])
    × ((nk' : ℕ) (str' : List ℕ)
        → view t' (100 ∷ []) nk' str' ≡ (
            if same_key (key_of 0 name) name nk' str'
            then some 8
            else view one (100 ∷ []) nk' str'))
    × (t'.count ≡ one.count)
    × (t'.released ≡ (if one.vfree then one.released ++ (7 ∷ []) else one.released))
add-overwrite_example =
    add-overwrite true 200 true one (100 ∷ []) 0 name 8 one-IsTable (omega (arith, one_count)) 7
      one_found

add-refused_example :
    (t' : HTable) × (add true 200 true one 0 name 8 false ≡ some (t', fail))
    × IsTable t' (100 ∷ [])
    × ((nk' : ℕ) (str' : List ℕ) → view t' (100 ∷ []) nk' str' ≡ view one (100 ∷ []) nk' str')
    × (t'.count ≡ one.count)
    × (t'.released ≡ one.released)
add-refused_example =
    add-refused true 200 true one (100 ∷ []) 0 name 8 one-IsTable (omega (arith, one_count)) false
      (inl (7, one_found, refl))

resize-Resized_example :
    (t' : HTable) × (resize true one ≡ some t') × Resized one (100 ∷ []) true t'
resize-Resized_example =
    resize-Resized true one (100 ∷ []) one-IsTable (omega (arith, one_count, one_size))
      (omega (arith, one_count))

del-missing_example : del one 5 [] ≡ some (one, ok)
del-missing_example = del-missing one (100 ∷ []) one-IsTable 5 [] one_missing

del-present_example :
    (t' : HTable) × (xs : List ℕ) × (a : ℕ) × (ys : List ℕ) × (100 ∷ [] ≡ xs ++ (a ∷ ys))
    × (del one 0 name ≡ some (t', ok))
    × IsTable t' (xs ++ ys)
    × ((nk' : ℕ) (str' : List ℕ)
        → view t' (xs ++ ys) nk' str'
          ≡ (if same_key (key_of 0 name) name nk' str' then none else view one (100 ∷ []) nk' str'))
    × (t'.count + 1 ≡ one.count)
    × (t'.released ≡ (if one.vfree then one.released ++ (7 ∷ []) else one.released))
del-present_example =
    del-present one (100 ∷ []) one-IsTable 0 name 7 (omega (arith, one_count)) one_found

str_nkey-hash_all_example : str_nkey name ≡ hash_all 5381 name
str_nkey-hash_all_example = str_nkey-hash_all name

free_lem_example : free one ≡ (
    if one.is_ref == 0
    then some (record one { released = released_all one (100 ∷ []) }, true)
    else some (record one { is_ref = one.is_ref - 1 }, false))
free_lem_example = free_lem one (100 ∷ []) one-IsTable

free-ref_example : free (ref tiny) ≡ some (tiny, false)
free-ref_example = free-ref tiny (unfold new in omega arith)

reset-IsTable_example :
    (t' : HTable) × (reset one ≡ some t') × IsTable t' [] × (t'.released ≡ one.released)
reset-IsTable_example = reset-IsTable one (100 ∷ []) one-IsTable

to_next-order_example : walk to_next 2 (to_head one) ≡ map (entry_of one) (100 ∷ [])
to_next-order_example = to_next-order one (100 ∷ []) one-IsTable 2 (omega arith)

to_prev-order_example : walk to_prev 2 (to_tail one) ≡ map (entry_of one) (reverse (100 ∷ []))
to_prev-order_example = to_prev-order one (100 ∷ []) one-IsTable 2 (omega arith)

-- The cursor stands on the node.
abbrev visited : HTable
visited = record one { curr = 100 }

visited_run : (to_head one).0 ≡ visited
unfolding to_head count_node put_front fill_node new
visited_run = refl

count_of_run : count_of one ≡ 1
unfolding count_of new count_node put_front fill_node
count_of_run = refl

visited_found : view visited (100 ∷ []) (key_of 0 name) name ≡ some 7
unfolding view matches count_node put_front fill_node key_of str_nkey bytes_eq
visited_found = refl

visited_at : visited.curr ≡ search visited (key_of 0 name) name (100 ∷ [])
unfolding matches count_node put_front fill_node key_of str_nkey bytes_eq
visited_at = refl

del-cursor_example :
    (t' : HTable) × (ids' : List ℕ) × (del visited 0 name ≡ some (t', ok))
    × IsTable t' ids'
    × (0 < t'.curr)
    × Absent t'.curr ids'
del-cursor_example =
    del-cursor visited (100 ∷ []) (curr-IsTable one (100 ∷ []) 100 one-IsTable) 0 name 7
      (omega (arith, one_count)) visited_found visited_at
