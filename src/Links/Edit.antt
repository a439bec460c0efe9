-- ===== src/Links/Edit.antt =====
-- Edits of a doubly linked list: a node put in front or at the end, and a node taken out. Each is
-- stated for any maps that agree with the updated ones at every address but NULL.
use libyod.Prelude.{ℕ, ◌<◌, ◌≡◌, refl, ◌≢◌, ◌⊎◌, inl, inr, List, [], ◌∷◌, ◌++◌, arith, ◌∙◌}
use libyod.Links.{
  update, update_ne, update_under, first_or, last_or, Linked, In, Absent, Distinct, NonNull,
  In-Absent, NonNull-In, last_or-In, Distinct-append, Linked-append, Linked-retarget,
  Linked-restart, All-append, Absent-intro, sym,
}

-- `f` is `g` with the value `v` at `p`, away from NULL.
abbrev pub Updates : (ℕ → ℕ) → (ℕ → ℕ) → ℕ → ℕ → Type 0
Updates f g p v = (b : ℕ) → 0 < b → f b ≡ update g p v b

last_or-cases : (xs : List ℕ) → (last_or 0 xs ≡ 0) ⊎ In (last_or 0 xs) xs
last_or-cases [] = inl refl
last_or-cases (x ∷ xs) = inr (last_or-In 0 x xs)

first_or-cases : (xs : List ℕ) → (first_or 0 xs ≡ 0) ⊎ In (first_or 0 xs) xs
first_or-cases [] = inl refl
first_or-cases (x ∷ xs) = inr (inl refl)

-- An address that is no node is neither the last nor the first one.
pub last_or-ne : (a : ℕ) (xs : List ℕ) → 0 < a → Absent a xs → last_or 0 xs ≢ a
last_or-ne a xs h absent = elim (last_or-cases xs) [
  | inl z ↦ omega arith
  | inr m ↦ In-Absent a _ xs m absent
]

pub first_or-ne : (a : ℕ) (xs : List ℕ) → 0 < a → Absent a xs → first_or 0 xs ≢ a
first_or-ne a xs h absent = elim (first_or-cases xs) [
  | inl z ↦ omega arith
  | inr m ↦ In-Absent a _ xs m absent
]

module _ (next prev next' prev' : ℕ → ℕ) (a : ℕ) (a_pos : 0 < a) where
  pub Linked-push_back :
      (xs : List ℕ)
      → NonNull xs
      → Distinct xs
      → Absent a xs
      → ((b : ℕ) → 0 < b → next' b ≡ update (update next a 0) (last_or 0 xs) a b)
      → Updates prev' prev a (last_or 0 xs)
      → Linked next prev 0 xs 0
      → Linked next' prev' 0 (xs ++ (a ∷ [])) 0
  Linked-push_back xs pos d absent nx pv h =
      let apart = last_or-ne a xs a_pos absent in
      let n_a = nx a a_pos in
      let p_a = pv a a_pos in
      (Linked-append next' prev' 0 xs (a ∷ []) 0).1 (
        Linked-retarget next prev next' prev' 0 xs 0 a d
            (λ b m.
              let pos_b = NonNull-In b xs pos m in
              let ne = In-Absent a b xs m absent in
              (nx b pos_b ∙ update_under next a 0 _ a b ne, pv b pos_b ∙ update_ne prev a _ b ne))
            h,
        (ground arith, ground arith, tt),
      )

  pub Linked-push_front :
      (xs : List ℕ)
      → NonNull xs
      → Distinct xs
      → Absent a xs
      → Updates next' next a (first_or 0 xs)
      → ((b : ℕ) → 0 < b → prev' b ≡ update (update prev a 0) (first_or 0 xs) a b)
      → Linked next prev 0 xs 0
      → Linked next' prev' 0 (a ∷ xs) 0
  Linked-push_front xs pos d absent nx pv h =
      let apart = first_or-ne a xs a_pos absent in
      let n_a = nx a a_pos in
      let p_a = pv a a_pos in
      (
        ground arith,
        ground arith,
        Linked-restart next prev next' prev' 0 a xs 0 d
            (λ b m.
              let pos_b = NonNull-In b xs pos m in
              let ne = In-Absent a b xs m absent in
              (nx b pos_b ∙ update_ne next a _ b ne, pv b pos_b ∙ update_under prev a 0 _ a b ne))
            h,
      )

-- Where a node of a list points.
pub Linked-neighbours :
    (next prev : ℕ → ℕ) (xs : List ℕ) (a : ℕ) (ys : List ℕ)
    → Linked next prev 0 (xs ++ (a ∷ ys)) 0
    → (prev a ≡ last_or 0 xs) × (next a ≡ first_or 0 ys)
Linked-neighbours next prev xs a ys h =
    let (_, here) = (Linked-append next prev 0 xs (a ∷ ys) 0).0 h in (here.0, here.1)

module _ (next prev next' prev' : ℕ → ℕ) where
  pub Linked-unlink :
      (xs : List ℕ) (a : ℕ) (ys : List ℕ)
      → NonNull (xs ++ (a ∷ ys))
      → Distinct (xs ++ (a ∷ ys))
      → Updates next' next (prev a) (next a)
      → Updates prev' prev (next a) (prev a)
      → Linked next prev 0 (xs ++ (a ∷ ys)) 0
      → Linked next' prev' 0 (xs ++ ys) 0
  Linked-unlink xs a ys pos d nx pv h =
      let (before, here) = (Linked-append next prev 0 xs (a ∷ ys) 0).0 h in
      let (pos_xs, pos_ys) = (All-append (λ x. 0 < x) xs (a ∷ ys)).0 pos in
      let (d_xs, d_ys, apart) = (Distinct-append xs (a ∷ ys)).0 d in
      (Linked-append next' prev' 0 xs ys 0).1 (
        Linked-retarget next prev next' prev' 0 xs a (first_or 0 ys) d_xs
            (λ b m.
              let pos_b = NonNull-In b xs pos_xs m in
              let ne = first_or-ne b ys pos_b (apart b m).1 in
              (
                rw (← here.0, ← here.1) (nx b pos_b),
                pv b pos_b ∙ update_ne prev _ _ b (λ e. ne (sym here.1 ∙ sym e)),
              ))
            before,
        Linked-restart next prev next' prev' a (last_or 0 xs) ys 0 d_ys.1
            (λ b m.
              let pos_b = NonNull-In b ys pos_ys.1 m in
              let ne =
                last_or-ne b xs pos_b
                  (Absent-intro b xs (λ k. In-Absent b b ys m (apart b k).1 refl)) in
              (
                nx b pos_b ∙ update_ne next _ _ b (λ e. ne (sym here.0 ∙ sym e)),
                rw (← here.0, ← here.1) (pv b pos_b),
              ))
            here.2,
      )

-- Two nodes on either side of `a` are not `a`.
module _ (next prev : ℕ → ℕ) (xs : List ℕ) (a : ℕ) (ys : List ℕ) (pos : NonNull (xs ++ (a ∷ ys)))
    (d : Distinct (xs ++ (a ∷ ys))) (links : Linked next prev 0 (xs ++ (a ∷ ys)) 0) where
  pub around : (0 < a) × (prev a ≢ a) × (next a ≢ a)
  around =
      let (pos_xs, pos_ys) = (All-append (λ x. 0 < x) xs (a ∷ ys)).0 pos in
      let (d_xs, d_ys, apart) = (Distinct-append xs (a ∷ ys)).0 d in
      let (back, on) = Linked-neighbours next prev xs a ys links in
      let absent = Absent-intro a xs (λ m. (apart a m).0 refl) in
      (
        pos_ys.0,
        λ e. last_or-ne a xs pos_ys.0 absent (sym back ∙ e),
        λ e. first_or-ne a ys pos_ys.0 d_ys.0 (sym on ∙ e),
      )
