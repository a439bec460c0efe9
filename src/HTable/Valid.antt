-- ===== src/HTable/Valid.antt =====
-- libyod/htable.c: when a table is well formed, its abstract view, and what find returns.
use libyod.Prelude.{
  ℕ, suc, ◌<◌, bit_and, ◌≡◌, refl, sym, ap, ◌∙◌, inl, inr, Bool, true, Option, none, some, List, [],
  arith, ◌==◌, if◌then◌else◌, length, get_elem?, ◌>>=◌, get_elem?-replicate,
}
use libyod.Prelude.Bits.{bit_and-le}
use libyod.Links.{first_or, last_or, Linked, In, Distinct, NonNull}
use libyod.HTable.{HTable, matches, locate, find, key_of, new}
use libyod.HTable.Chain.{
  bucket_of, length-bucket_of, In-bucket_of, NonNull-bucket_of, search, scan-search, search-cases,
  search_unique,
}

-- `nodes[k]` is the head of the linked chain `c`.
abbrev pub IsChain : HTable → ℕ → List ℕ → Type 0
IsChain t k c = (get_elem? t.nodes k ≡ some (first_or 0 c)) × Linked t.v_next t.v_prev 0 c 0

abbrev pub chain_of : HTable → List ℕ → ℕ → List ℕ
chain_of t ids k = bucket_of t.num_key t.mask k [] ids

-- Every chain holds its nodes.
abbrev pub Chains : HTable → List ℕ → Type 0
Chains t ids = (k : ℕ) → k < t.size → IsChain t k (chain_of t ids k)

-- The table is well formed, and `ids` are its nodes in order of insertion.
pub record IsTable (t : HTable) (ids : List ℕ) : Type 0 where
  pub linked : Linked t.next t.prev 0 ids 0
  pub head_first : t.head ≡ first_or 0 ids
  pub tail_last : t.tail ≡ last_or 0 ids
  pub distinct : Distinct ids
  pub non_null : NonNull ids
  pub counted : t.count ≡ length ids
  pub width : length t.nodes ≡ t.size
  pub masked : t.mask < t.size
  pub chains : Chains t ids
  pub unique :
      (nk : ℕ) (str : List ℕ) (a b : ℕ)
      → In a ids
      → In b ids
      → matches t nk str a ≡ true
      → matches t nk str b ≡ true
      → a ≡ b

pub matches-num_key :
    (t : HTable) (nk : ℕ) (str : List ℕ) (a : ℕ) → matches t nk str a ≡ true → t.num_key a ≡ nk
unfolding matches
matches-num_key t nk str a h = ground arith

-- The abstract view: the value that stands under a key.
unfoldable pub view : HTable → List ℕ → ℕ → List ℕ → Option ℕ
view t ids nk str =
    let node = search t nk str ids in if node == 0 then none else some (t.value node)

module _ (t : HTable) (ids : List ℕ) (nk : ℕ) (str : List ℕ) where
  pub view_at : (a : ℕ) → search t nk str ids ≡ a → 0 < a → view t ids nk str ≡ some (t.value a)
  unfolding view
  view_at a e h = rw e (ground arith)

  pub view-none : search t nk str ids ≡ 0 → view t ids nk str ≡ none
  unfolding view
  view-none e = rw e

-- A missing key and a NULL value are one answer in C.
abbrev pub or_null : Option ℕ → ℕ
or_null none = 0
or_null (some v) = v

module _ (t : HTable) (ids : List ℕ) (valid : IsTable t ids) (nk : ℕ) (str : List ℕ) where
  -- The chain of the key's number holds the node that the whole list holds.
  search-chain : search t nk str (chain_of t ids (bit_and nk t.mask)) ≡ search t nk str ids
  search-chain =
      let k = bit_and nk t.mask in
      let c = chain_of t ids k in
      let pos = NonNull-bucket_of t.num_key t.mask k [] ids tt valid.non_null in
      elim (search-cases t nk str ids valid.non_null) [
        | inr hit ↦
            let a = search t nk str ids in
            let at_home : bit_and (t.num_key a) t.mask ≡ k =
              ap (λ n. bit_and n t.mask) (matches-num_key t nk str a hit.1) in
            search_unique t nk str c a pos
              (λ b m h. elim ((In-bucket_of t.num_key t.mask k b [] ids).0 m) [
                | inl n ↦ elim n [ ]
                | inr n ↦ valid.unique nk str b a n.0 hit.0 h hit.1
              ])
              ((In-bucket_of t.num_key t.mask k a [] ids).1 (inr (hit.0, at_home)), hit.1, hit.2)
        | inl (z, no_hit) ↦ elim (search-cases t nk str c pos) [
          | inl (z', _) ↦ z' ∙ sym z
          | inr hit ↦ elim ((In-bucket_of t.num_key t.mask k _ [] ids).0 hit.0) [
            | inl n ↦ elim n [ ]
            | inr n ↦ cc (no_hit _ n.0, hit.1)
          ]
        ]
      ]

  pub locate_lem : locate t nk str ≡ some (bit_and nk t.mask, search t nk str ids)
  unfolding locate
  locate_lem =
      let k = bit_and nk t.mask in
      let c = chain_of t ids k in
      let (front, links) = valid.chains k (omega (arith, bit_and-le nk t.mask, valid.masked)) in
      let pos = NonNull-bucket_of t.num_key t.mask k [] ids tt valid.non_null in
      let run =
        scan-search t nk str (suc t.count) 0 c pos
          (omega (arith, length-bucket_of t.num_key t.mask k [] ids, valid.counted)) links in
      rw (front, ◌>>=◌, run) (ap (λ a. some (k, a)) search-chain)

-- On a well-formed table find ends, and returns the value under the key, or NULL if there is none.
pub find-view :
    (t : HTable) (ids : List ℕ)
    → IsTable t ids
    → (num : ℕ) (str : List ℕ) → find t num str ≡ some (or_null (view t ids (key_of num str) str))
unfolding find view
find-view t ids valid num str =
    rw (locate_lem t ids valid (key_of num str) str, ◌>>=◌) (ground arith)

-- A new table is well formed and empty.
pub new-IsTable : (vfree : Bool) → IsTable (new vfree) []
unfolding new
new-IsTable vfree = record {
  linked = tt;
  head_first = refl;
  tail_last = refl;
  distinct = tt;
  non_null = tt;
  counted = refl;
  width = refl;
  masked = omega arith;
  chains = λ k h. (get_elem?-replicate 8 0 k h, tt);
  unique = λ nk str a b m. elim m [ ];
}
