-- ===== src/Links/Insert.antt =====
-- Edits of a doubly linked list: a node put between two others.
use libyod.Prelude.{ℕ, ◌<◌, ◌≡◌, refl, sym, ◌∙◌, ◌≢◌, List, ◌∷◌, ◌++◌, arith}
use libyod.Links.{
  update, update_ne, update_under, first_or, last_or, Linked, Absent, Distinct, NonNull, In-Absent,
  NonNull-In, Distinct-append, Linked-append, Linked-retarget, Linked-restart, All-append,
  Absent-intro,
}
use libyod.Links.Edit.{last_or-ne, first_or-ne}

-- `node->next = q; node->prev = p; if (q) q->prev = node; if (p) p->next = node;`, for any maps that
-- agree with these at every address but NULL.
module _ (next prev next' prev' : ℕ → ℕ) (xs ys : List ℕ) (a : ℕ) (a_pos : 0 < a)
    (pos : NonNull (xs ++ ys)) (d : Distinct (xs ++ ys)) (absent : Absent a (xs ++ ys))
    (nx : (b : ℕ) → 0 < b → next' b ≡ update (update next a (first_or 0 ys)) (last_or 0 xs) a b)
    (pv : (b : ℕ)
      → 0 < b
      → prev' b ≡ update (update prev a (last_or 0 xs)) (first_or 0 ys) a b) where
  pub Linked-insert : Linked next prev 0 (xs ++ ys) 0 → Linked next' prev' 0 (xs ++ (a ∷ ys)) 0
  Linked-insert h =
      let (front, back) = (Linked-append next prev 0 xs ys 0).0 h in
      let (pos_xs, pos_ys) = (All-append (λ x. 0 < x) xs ys).0 pos in
      let (out_xs, out_ys) = (All-append (λ x. x ≢ a) xs ys).0 absent in
      let (d_xs, d_ys, apart) = (Distinct-append xs ys).0 d in
      let not_last = last_or-ne a xs a_pos out_xs in
      let not_first = first_or-ne a ys a_pos out_ys in
      let n_a = nx a a_pos in
      let p_a = pv a a_pos in
      (Linked-append next' prev' 0 xs (a ∷ ys) 0).1 (
        Linked-retarget next prev next' prev' 0 xs (first_or 0 ys) a d_xs
            (λ b m.
              let pos_b = NonNull-In b xs pos_xs m in
              let ne = In-Absent a b xs m out_xs in
              let off = first_or-ne b ys pos_b (apart b m) in
              (
                nx b pos_b ∙ update_under next a (first_or 0 ys) (last_or 0 xs) a b ne,
                pv b pos_b
                    ∙ update_under prev a (last_or 0 xs) (first_or 0 ys) a b ne
                    ∙ update_ne prev (first_or 0 ys) a b (λ e. off (sym e)),
              ))
            front,
        (
          ground arith,
          ground arith,
          Linked-restart next prev next' prev' (last_or 0 xs) a ys 0 d_ys
              (λ b m.
                let pos_b = NonNull-In b ys pos_ys m in
                let ne = In-Absent a b ys m out_ys in
                let off =
                  last_or-ne b xs pos_b
                    (Absent-intro b xs (λ k. In-Absent b b ys m (apart b k) refl)) in
                (
                  nx b pos_b
                      ∙ update_under next a (first_or 0 ys) (last_or 0 xs) a b ne
                      ∙ update_ne next (last_or 0 xs) a b (λ e. off (sym e)),
                  pv b pos_b ∙ update_under prev a (last_or 0 xs) (first_or 0 ys) a b ne,
                ))
              back,
        ),
      )
