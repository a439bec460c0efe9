-- ===== src/HTable/Resize.antt =====
-- libyod/htable.c: a node put in front of its chain, and the rebuilding of all chains by resize.
use libyod.Prelude.{
  ℕ, zero, suc, ◌+◌, ◌-◌, ◌*◌, ◌%◌, ◌^◌, ◌≤◌, ◌<◌, bit_and, ◌≡◌, refl, sym, ap, ◌∙◌, subst, ◌≢◌,
  inl, inr, Bool, true, false, some, List, [], ◌∷◌, ◌++◌, append-nil, append_assoc, arith,
  ℕ_discrete, ltb, ◌==◌, if◌then◌else◌, length, get_elem?, length-set, get_elem?-set_self,
  get_elem?-set_ne, replicate, length-replicate, get_elem?-replicate,
}
use libyod.Prelude.Bits.{bit_and-le}
use libyod.Links.{
  update, update_ne, update_under, first_or, Linked, In, Absent, Distinct, NonNull, In-Absent,
  NonNull-In, Linked-congr, Absent-intro, Distinct-append, All-append,
}
use libyod.Links.Edit.{Linked-push_front, first_or-ne}
use libyod.HTable.{HTable, matches, put_front, link_front, relink, resize}
use libyod.HTable.Chain.{
  bucket_of, bucket_of-snoc, bucket_of-snoc_away, In-bucket_of, NonNull-bucket_of,
  Distinct-bucket_of,
}
use libyod.HTable.Valid.{IsChain, chain_of, Chains, IsTable, view}

module _ (t : HTable) (k a : ℕ) (c : List ℕ) (a_pos : 0 < a) (pos : NonNull c)
    (absent : Absent a c) where
  front_v_prev :
      (b : ℕ)
      → 0 < b
      → (put_front t k a (first_or 0 c)).v_prev b ≡ update (update t.v_prev a 0) (first_or 0 c) a b
  unfolding put_front
  front_v_prev b h = ground arith

  -- The node's own chain.
  put_front-IsChain :
      Distinct c
      → k < length t.nodes
      → Linked t.v_next t.v_prev 0 c 0
      → IsChain (put_front t k a (first_or 0 c)) k (a ∷ c)
  put_front-IsChain d room links = (
    unfold put_front in get_elem?-set_self t.nodes k a room,
    Linked-push_front t.v_next t.v_prev (put_front t k a (first_or 0 c)).v_next
        (put_front t k a (first_or 0 c)).v_prev a a_pos c pos d absent
        (λ b h. unfold put_front in refl) front_v_prev links,
  )

  -- The other chains.
  put_front-IsChain_ne :
      (j : ℕ) (e : List ℕ)
      → k ≢ j
      → NonNull e
      → Absent a e
      → ((b : ℕ) → In b e → Absent b c)
      → IsChain t j e
      → IsChain (put_front t k a (first_or 0 c)) j e
  put_front-IsChain_ne j e ne pos_e absent_e apart (front, links) = (
    unfold put_front in (get_elem?-set_ne t.nodes a ne ∙ front),
    Linked-congr t.v_next t.v_prev (put_front t k a (first_or 0 c)).v_next
        (put_front t k a (first_or 0 c)).v_prev 0 e 0
        (λ b m.
          let b_ne = In-Absent a b e m absent_e in
          let b_pos = NonNull-In b e pos_e m in
          let first_ne = first_or-ne b c b_pos (apart b m) in
          (
            unfold put_front in update_ne t.v_next a _ b b_ne,
            front_v_prev b b_pos
                ∙ update_under t.v_prev a 0 (first_or 0 c) a b b_ne
                ∙ update_ne t.v_prev (first_or 0 c) a b (λ q. first_ne (sym q)),
          ))
        links,
  )

-- What the other modules need of a chain: it is made of nodes, each once.
module _ (t : HTable) (ids : List ℕ) (pos : NonNull ids) (d : Distinct ids) (k : ℕ) where
  pub chain_of-NonNull : NonNull (chain_of t ids k)
  chain_of-NonNull = NonNull-bucket_of t.num_key t.mask k [] ids tt pos

  pub chain_of-Distinct : Distinct (chain_of t ids k)
  chain_of-Distinct = Distinct-bucket_of t.num_key t.mask k [] ids tt d (λ b m. tt)

  pub chain_of-In :
      (b : ℕ) → In b (chain_of t ids k) → In b ids × (bit_and (t.num_key b) t.mask ≡ k)
  chain_of-In b m = elim ((In-bucket_of t.num_key t.mask k b [] ids).0 m) [
    | inl n ↦ elim n [ ]
    | inr n ↦ n
  ]

  pub chain_of-Absent : (a : ℕ) → Absent a ids → Absent a (chain_of t ids k)
  chain_of-Absent a absent =
      Absent-intro a (chain_of t ids k) (λ m. In-Absent a a ids (chain_of-In a m).0 absent refl)

  -- Two chains share no node.
  pub chain_of-apart :
      (j : ℕ) → k ≢ j → (b : ℕ) → In b (chain_of t ids k) → Absent b (chain_of t ids j)
  chain_of-apart j ne b m = Absent-intro b (chain_of t ids j) (λ n.
      elim ((In-bucket_of t.num_key t.mask j b [] ids).0 n) [
        | inl z ↦ elim z [ ]
        | inr z ↦ ne (sym (chain_of-In b m).1 ∙ z.1)
      ])

-- A node that is put in front of the chain of its number extends the list behind the chains.
pub put_front-Chains :
    (t : HTable) (ids : List ℕ) (a k : ℕ)
    → 0 < a
    → NonNull ids
    → Distinct ids
    → Absent a ids
    → length t.nodes ≡ t.size
    → bit_and (t.num_key a) t.mask ≡ k
    → k < t.size
    → Chains t ids
    → Chains (put_front t k a (first_or 0 (chain_of t ids k))) (ids ++ (a ∷ []))
unfolding put_front
put_front-Chains t ids a k a_pos pos d absent width at_k room chains j h =
    let c = chain_of t ids k in
    let t' = put_front t k a (first_or 0 c) in
    let pos_c = chain_of-NonNull t ids pos d k in
    let absent_c = chain_of-Absent t ids pos d k a absent in
    elim (ℕ_discrete k j) [
      | yes e ↦
          let grown : bucket_of t.num_key t.mask j [] (ids ++ (a ∷ [])) ≡ a ∷ c =
            bucket_of-snoc t.num_key t.mask j ids a (at_k ∙ e)
            ∙ ap (λ i. a ∷ chain_of t ids i) (sym e) in
          subst (λ l. IsChain t' j l) (sym grown)
            (subst (λ i. IsChain t' i (a ∷ c)) e
              (put_front-IsChain t k a c a_pos pos_c absent_c (chain_of-Distinct t ids pos d k)
                (rw width room) (chains k room).1))
      | no ne ↦
          let same : bucket_of t.num_key t.mask j [] (ids ++ (a ∷ [])) ≡ chain_of t ids j =
            bucket_of-snoc_away t.num_key t.mask j ids a (λ q. ne (sym at_k ∙ q)) in
          subst (λ l. IsChain t' j l) (sym same)
            (put_front-IsChain_ne t k a c a_pos pos_c absent_c j (chain_of t ids j) ne
              (chain_of-NonNull t ids pos d j) (chain_of-Absent t ids pos d j a absent)
              (chain_of-apart t ids pos d j k (λ q. ne (sym q))) (chains j h))
    ]

-- The table with other links and buckets.
abbrev pub rechained : HTable → (ℕ → ℕ) → (ℕ → ℕ) → List ℕ → HTable
rechained t v_next' v_prev' nodes' = record t { v_next = v_next'; v_prev = v_prev'; nodes = nodes' }

relink_step :
    (fuel : ℕ) (t : HTable) (a first : ℕ)
    → 0 < a
    → get_elem? t.nodes (bit_and (t.num_key a) t.mask) ≡ some first
    → relink (suc fuel) t a
      ≡ relink fuel (put_front t (bit_and (t.num_key a) t.mask) a first) (t.next a)
unfolding relink link_front put_front
relink_step fuel t a first pos e = ground arith

-- The loop of resize from a table whose chains hold the nodes `done`.
relink-Chains :
    (fuel : ℕ) (t : HTable) (done rest : List ℕ) (p : ℕ)
    → length rest < fuel
    → NonNull (done ++ rest)
    → Distinct (done ++ rest)
    → length t.nodes ≡ t.size
    → t.mask < t.size
    → Linked t.next t.prev p rest 0
    → Chains t done
    → (v_next' v_prev' : ℕ → ℕ) × (nodes' : List ℕ) × (relink fuel t (first_or 0 rest)
        ≡ some (rechained t v_next' v_prev' nodes'))
      × (length nodes' ≡ t.size)
      × Chains (rechained t v_next' v_prev' nodes') (done ++ rest)
unfolding relink put_front
relink-Chains zero t done rest p h pos d width masked links chains = elim h [ ]
relink-Chains (suc fuel) t done [] p h pos d width masked links chains =
    (t.v_next, t.v_prev, t.nodes, refl, width, rw append-nil chains)
relink-Chains (suc fuel) t done (a ∷ rest) p h pos d width masked (pv, nx, links) chains =
    let k = bit_and (t.num_key a) t.mask in
    let room : k < t.size = omega (arith, bit_and-le (t.num_key a) t.mask) in
    let t' = put_front t k a (first_or 0 (chain_of t done k)) in
    let (pos_done, pos_rest) = (All-append (λ x. 0 < x) done (a ∷ rest)).0 pos in
    let (d_done, _, apart) = (Distinct-append done (a ∷ rest)).0 d in
    let absent = Absent-intro a done (λ m. (apart a m).0 refl) in
    let regroup = append_assoc done (a ∷ []) rest in
    let (x, y, z, run, width', chains') =
      relink-Chains fuel t' (done ++ (a ∷ [])) rest a (omega arith)
        (subst NonNull (sym regroup) pos) (subst Distinct (sym regroup) d)
        (length-set t.nodes k a ∙ width) masked links
        (put_front-Chains t done a k pos_rest.0 pos_done d_done absent width refl room chains) in
    (
      x,
      y,
      z,
      relink_step fuel t a _ pos_rest.0 (chains k room).0 ∙ ap (relink fuel t') nx ∙ run,
      width',
      subst (Chains (rechained t x y z)) regroup chains',
    )

resize_stay :
    (room : Bool) (t : HTable)
    → t.size * 2 % 2 ^ 64 ≢ 0
    → t.size ≤ t.count
    → room ≡ false
    → resize room t ≡ some t
unfolding resize
resize_stay room t fits full e = ground arith

-- The table that resize rebuilds.
abbrev widened : HTable → HTable
widened t = record t {
  size = t.size * 2 % 2 ^ 64;
  mask = (t.size * 2 % 2 ^ 64 + 2 ^ 64 - 1) % 2 ^ 64 % 2 ^ 32;
  nodes = replicate (t.size * 2 % 2 ^ 64) 0;
}

resize_go :
    (t : HTable)
    → t.size * 2 % 2 ^ 64 ≢ 0
    → t.size ≤ t.count
    → resize true t ≡ relink (suc t.count) (widened t) t.head
unfolding resize
resize_go t fits full =
    let not_zero : ((t.size * 2 % 2 ^ 64) == 0) ≡ false = ground arith in
    let is_full : ltb t.count t.size ≡ false = ground arith in rw (not_zero, is_full)

-- Where a full table grows, resize ends in a well-formed table with the same nodes, keys, values
-- and count, which has room for another node unless `realloc` failed.
pub record Resized (t : HTable) (ids : List ℕ) (room : Bool) (t' : HTable) : Type 0 where
  pub valid : IsTable t' ids
  pub same_view : (nk : ℕ) (str : List ℕ) → view t' ids nk str ≡ view t ids nk str
  pub same_count : t'.count ≡ t.count
  pub same_released : t'.released ≡ t.released
  pub same_vfree : t'.vfree ≡ t.vfree
  pub grown : t'.size ≡ (if room then t.size * 2 else t.size)

pub resize-Resized :
    (room : Bool) (t : HTable) (ids : List ℕ)
    → IsTable t ids
    → t.size ≤ t.count
    → t.count < 2 ^ 62
    → (t' : HTable) × (resize room t ≡ some t') × Resized t ids room t'
resize-Resized false t ids valid full small = (
  t,
  resize_stay false t (omega (arith, valid.masked)) full refl,
  record {
    valid = valid;
    same_view = λ nk str. refl;
    same_count = refl;
    same_released = refl;
    same_vfree = refl;
    grown = refl;
  },
)
resize-Resized true t ids valid full small =
    let size_eq : t.size * 2 % 2 ^ 64 ≡ t.size * 2 = omega (arith, valid.masked) in
    let (x, y, z, run, width', chains') =
      relink-Chains (suc t.count) (widened t) [] ids 0 (omega (arith, valid.counted)) valid.non_null
        valid.distinct (length-replicate (t.size * 2 % 2 ^ 64) 0)
        (omega (arith, size_eq, valid.masked)) valid.linked
        (λ k h. (get_elem?-replicate _ 0 k h, tt)) in
    (
      rechained (widened t) x y z,
      resize_go t (omega (arith, size_eq, valid.masked)) full
          ∙ ap (relink (suc t.count) (widened t)) valid.head_first
          ∙ run,
      record {
        valid = record {
          linked = valid.linked;
          head_first = valid.head_first;
          tail_last = valid.tail_last;
          distinct = valid.distinct;
          non_null = valid.non_null;
          counted = valid.counted;
          width = width';
          masked = omega (arith, size_eq, valid.masked);
          chains = chains';
          unique = unfold matches in valid.unique;
        };
        same_view = λ nk str. unfold view matches in refl;
        same_count = refl;
        same_released = refl;
        same_vfree = refl;
        grown = size_eq;
      },
    )
