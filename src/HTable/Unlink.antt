-- ===== src/HTable/Unlink.antt =====
-- libyod/htable.c: the node that del takes out of the list and out of its chain.
use libyod.Prelude.{
  ℕ, ◌<◌, bit_and, ◌≡◌, refl, sym, ap, ◌∙◌, subst, ◌≢◌, Bool, true, false, some, List, [], ◌∷◌,
  ◌++◌, arith, ◌==◌, if◌then◌else◌, length, get_elem?, set, get_elem?-set_self, get_elem?-set_ne,
}
use libyod.Links.{
  update_ne, first_or, last_or, Linked, Absent, Distinct, NonNull, NonNull-In, last_or-In,
  Linked-congr, All-append,
}
use libyod.Links.Edit.{around, Updates, Linked-unlink, Linked-neighbours, first_or-ne, last_or-ne}
use libyod.HTable.{HTable, unlink_tail, unlink_head, unlink_chain}
use libyod.HTable.Chain.{bucket_of, bucket_of_middle}
use libyod.HTable.Valid.{IsChain, chain_of, Chains}
use libyod.HTable.Resize.{chain_of-NonNull, chain_of-Distinct, chain_of-apart}

module _ (t : HTable) (a : ℕ) where
  -- The list after the two steps on it.
  unfoldable pub listed : HTable
  listed = unlink_head (unlink_tail t a) a

  module _ (pos : 0 < a) (back : t.prev a ≢ a) (on : t.next a ≢ a) where
    pub listed_next : Updates listed.next t.next (t.prev a) (t.next a)
    unfolding listed unlink_head unlink_tail
    listed_next b h = ground arith

    pub listed_prev : Updates listed.prev t.prev (t.next a) (t.prev a)
    unfolding listed unlink_head unlink_tail
    listed_prev b h = ground arith

    pub listed_head : listed.head ≡ (if t.prev a == 0 then t.next a else t.head)
    unfolding listed unlink_head unlink_tail
    listed_head = ground arith

    pub listed_tail : listed.tail ≡ (if t.next a == 0 then t.prev a else t.tail)
    unfolding listed unlink_head unlink_tail
    listed_tail = refl

module _ (t : HTable) (a k : ℕ) where
  module _ (pos : 0 < a) (back : t.v_prev a ≢ a) (on : t.v_next a ≢ a) where
    chained_next : Updates (unlink_chain t k a).v_next t.v_next (t.v_prev a) (t.v_next a)
    unfolding unlink_chain
    chained_next b h = ground arith

    chained_prev : Updates (unlink_chain t k a).v_prev t.v_prev (t.v_next a) (t.v_prev a)
    unfolding unlink_chain
    chained_prev b h = ground arith

    chained_nodes :
        (unlink_chain t k a).nodes
        ≡ (if t.v_prev a == 0 then set t.nodes k (t.v_next a) else t.nodes)
    unfolding unlink_chain
    chained_nodes = ground arith

nodes_elsewhere :
    (nodes : List ℕ) (k : ℕ) (first : Bool) (v j : ℕ)
    → k ≢ j
    → get_elem? (if first then set nodes k v else nodes) j ≡ get_elem? nodes j
nodes_elsewhere nodes k true v j ne = get_elem?-set_ne nodes v ne
nodes_elsewhere nodes k false v j ne = refl

-- `nodes[k]` after a node of chain `k` is taken out.
nodes_without :
    (nodes : List ℕ) (k : ℕ) (us : List ℕ) (a : ℕ) (vs : List ℕ)
    → NonNull us
    → k < length nodes
    → get_elem? nodes k ≡ some (first_or 0 (us ++ (a ∷ vs)))
    → get_elem? (if last_or 0 us == 0 then set nodes k (first_or 0 vs) else nodes) k
      ≡ some (first_or 0 (us ++ vs))
nodes_without nodes k [] a vs pos h front = get_elem?-set_self nodes k (first_or 0 vs) h
nodes_without nodes k (u ∷ us) a vs pos h front =
    let last_pos = NonNull-In (last_or u us) (u ∷ us) pos (last_or-In 0 u us) in ground arith

module _ (t : HTable) (xs : List ℕ) (a : ℕ) (ys : List ℕ) (pos : NonNull (xs ++ (a ∷ ys)))
    (d : Distinct (xs ++ (a ∷ ys))) (width : length t.nodes ≡ t.size)
    (chains : Chains t (xs ++ (a ∷ ys))) where
  abbrev ids : List ℕ
  ids = xs ++ (a ∷ ys)

  abbrev home_of : ℕ
  home_of = bit_and (t.num_key a) t.mask

  -- The chain in front of the node and behind it.
  abbrev us : List ℕ
  us = bucket_of t.num_key t.mask home_of [] ys

  abbrev vs : List ℕ
  vs = bucket_of t.num_key t.mask home_of [] xs

  old_chain : chain_of t ids home_of ≡ us ++ (a ∷ vs)
  old_chain = bucket_of_middle t.num_key t.mask home_of xs a ys refl

  module _ (room : home_of < t.size) where
    old_links : Linked t.v_next t.v_prev 0 (us ++ (a ∷ vs)) 0
    old_links = subst (λ c. Linked t.v_next t.v_prev 0 c 0) old_chain (chains home_of room).1

    old_pos : NonNull (us ++ (a ∷ vs))
    old_pos = subst NonNull old_chain (chain_of-NonNull t ids pos d home_of)

    old-Distinct : Distinct (us ++ (a ∷ vs))
    old-Distinct = subst Distinct old_chain (chain_of-Distinct t ids pos d home_of)

    beside : (0 < a) × (t.v_prev a ≢ a) × (t.v_next a ≢ a)
    beside = around t.v_next t.v_prev us a vs old_pos old-Distinct old_links

    pub new_home : IsChain (unlink_chain t home_of a) home_of (us ++ vs)
    new_home =
        let (a_pos, back, on) = beside in
        let (last, first) = Linked-neighbours t.v_next t.v_prev us a vs old_links in
        let front = (chains home_of room).0 ∙ ap (λ c. some (first_or 0 c)) old_chain in
        (
          rw (chained_nodes t a home_of a_pos back on, last, first)
              (nodes_without t.nodes home_of us a vs
                ((All-append (λ x. 0 < x) us (a ∷ vs)).0 old_pos).0 (omega (arith, width)) front),
          Linked-unlink t.v_next t.v_prev (unlink_chain t home_of a).v_next
              (unlink_chain t home_of a).v_prev us a vs old_pos old-Distinct
              (chained_next t a home_of a_pos back on) (chained_prev t a home_of a_pos back on)
              old_links,
        )

    pub new_other :
        (j : ℕ) → home_of ≢ j → j < t.size → IsChain (unlink_chain t home_of a) j (chain_of t ids j)
    new_other j ne h =
        let (a_pos, back, on) = beside in
        let (last, first) = Linked-neighbours t.v_next t.v_prev us a vs old_links in
        (
          rw (chained_nodes t a home_of a_pos back on) (
              nodes_elsewhere t.nodes home_of (t.v_prev a == 0) (t.v_next a) j ne ∙ (chains j h).0),
          Linked-congr t.v_next t.v_prev (unlink_chain t home_of a).v_next
              (unlink_chain t home_of a).v_prev 0 (chain_of t ids j) 0
              (λ b m.
                let pos_b = NonNull-In b (chain_of t ids j) (chain_of-NonNull t ids pos d j) m in
                let absent =
                  subst (Absent b) old_chain
                    (chain_of-apart t ids pos d j home_of (λ e. ne (sym e)) b m) in
                let (off_us, off) = (All-append (λ x. x ≢ b) us (a ∷ vs)).0 absent in
                (
                  chained_next t a home_of a_pos back on b pos_b
                      ∙ update_ne t.v_next _ _ b
                          (λ e. last_or-ne b us pos_b off_us (sym last ∙ sym e)),
                  chained_prev t a home_of a_pos back on b pos_b
                      ∙ update_ne t.v_prev _ _ b
                          (λ e. first_or-ne b vs pos_b off.1 (sym first ∙ sym e)),
                ))
              (chains j h).1,
        )
