-- ===== src/Links.antt =====
-- Doubly linked lists in memory, as htable.c and rbtree.c keep them. A field of the nodes is a map
-- from addresses to its values, and 0 is NULL.
pub mod Edit
pub mod Insert
pub mod Reverse
pub mod Release
use libyod.Prelude.{
  ap, ℕ, ◌==◌, if◌then◌else◌, ◌≡◌, List, ◌≢◌, ◌∷◌, ◌++◌, All, ◌↔◌, [], ◌⊎◌, ◌<◌, inl, ◌∙◌, inr,
  subst, arith, sym, refl,
}

-- `node->field = v`
abbrev pub update {ℓ} : {A : Type ℓ} → (ℕ → A) → ℕ → A → ℕ → A
update f node v q = if q == node then v else f q

module _ {ℓ} {A : Type ℓ} (f : ℕ → A) where
  pub update_self : (p : ℕ) (v : A) → update f p v p ≡ v
  update_self p v = ground arith

  pub update_ne : (p : ℕ) (v : A) (q : ℕ) → q ≢ p → update f p v q ≡ f q
  update_ne p v q h = ground arith

  -- `if (p) p->field = v;`
  pub update_guarded :
      (p : ℕ) (v : A) (q : ℕ) → 0 < q → (if p == 0 then f else update f p v) q ≡ update f p v q
  update_guarded p v q h = ground arith

  pub update_under :
      (p : ℕ) (v : A) (r : ℕ) (w : A) (q : ℕ) → q ≢ p → update (update f p v) r w q ≡ update f r w q
  update_under p v r w q h = ground arith

-- The first and the last address, or the one given for the empty list.
abbrev pub first_or : ℕ → List ℕ → ℕ
first_or d [] = d
first_or d (a ∷ xs) = a

abbrev pub last_or : ℕ → List ℕ → ℕ
last_or d [] = d
last_or d (a ∷ xs) = last_or a xs

-- The nodes `xs` follow one another, behind `p` and in front of `q`.
abbrev pub Linked : (ℕ → ℕ) → (ℕ → ℕ) → ℕ → List ℕ → ℕ → Type 0
Linked next prev p [] q = Unit {0}
Linked next prev p (a ∷ xs) q = (prev a ≡ p) × (next a ≡ first_or q xs) × Linked next prev a xs q

abbrev pub In : ℕ → List ℕ → Type 0
In a [] = ⊥
In a (x ∷ xs) = (x ≡ a) ⊎ In a xs

-- `a` is none of the nodes.
abbrev pub Absent : ℕ → List ℕ → Type 0
Absent a = All (λ x. x ≢ a)

abbrev pub Distinct : List ℕ → Type 0
Distinct [] = Unit {0}
Distinct (a ∷ xs) = Absent a xs × Distinct xs

-- No node is NULL.
abbrev pub NonNull : List ℕ → Type 0
NonNull = All (λ x. 0 < x)

pub In-Absent : (a b : ℕ) (xs : List ℕ) → In b xs → Absent a xs → b ≢ a
In-Absent a b [] m h = elim m [ ]
In-Absent a b (x ∷ xs) (inl e) (h, hs) = λ eq. h (e ∙ eq)
In-Absent a b (x ∷ xs) (inr m) (h, hs) = In-Absent a b xs m hs

pub Absent-intro : (a : ℕ) (xs : List ℕ) → (In a xs → ⊥) → Absent a xs
Absent-intro a [] h = tt
Absent-intro a (x ∷ xs) h = (λ e. h (inl e), Absent-intro a xs (λ m. h (inr m)))

pub In-split :
    (a : ℕ) (zs : List ℕ) → In a zs → (xs : List ℕ) × (ys : List ℕ) × (zs ≡ xs ++ (a ∷ ys))
In-split a [] m = elim m [ ]
In-split a (x ∷ zs) (inl e) = ([], zs, ap (λ y. y ∷ zs) e)
In-split a (x ∷ zs) (inr m) = let (xs, ys, h) = In-split a zs m in (x ∷ xs, ys, ap (λ l. x ∷ l) h)

pub In-append : (a : ℕ) (xs ys : List ℕ) → In a (xs ++ ys) ↔ (In a xs ⊎ In a ys)
In-append a [] ys = (λ m. inr m, elim [ inl m ↦ elim m [ ] | inr m ↦ m ])
In-append a (x ∷ xs) ys =
    let ih = In-append a xs ys in
    (
      elim [ inl e ↦ inl (inl e) | inr m ↦ elim (ih.0 m) [ inl l ↦ inl (inr l) | inr r ↦ inr r ] ],
      elim [ inl (inl e) ↦ inl e | inl (inr m) ↦ inr (ih.1 (inl m)) | inr m ↦ inr (ih.1 (inr m)) ],
    )

pub All-append {ℓ} :
    {A : Type ℓ} (P : A → Type 0) (xs ys : List A) → All P (xs ++ ys) ↔ (All P xs × All P ys)
All-append P [] ys = (λ h. (tt, h), λ h. h.1)
All-append P (x ∷ xs) ys =
    let ih = All-append P xs ys in
    (λ h. ((h.0, (ih.0 h.1).0), (ih.0 h.1).1), λ h. (h.0.0, ih.1 (h.0.1, h.1)))

pub NonNull-In : (a : ℕ) (xs : List ℕ) → NonNull xs → In a xs → 0 < a
NonNull-In a [] h m = elim m [ ]
NonNull-In a (x ∷ xs) (h, hs) (inl e) = omega arith
NonNull-In a (x ∷ xs) (h, hs) (inr m) = NonNull-In a xs hs m

pub last_or-In : (d a : ℕ) (xs : List ℕ) → In (last_or d (a ∷ xs)) (a ∷ xs)
last_or-In d a [] = inl refl
last_or-In d a (b ∷ xs) = inr (last_or-In a b xs)

pub last_or-append : (d : ℕ) (xs ys : List ℕ) → last_or d (xs ++ ys) ≡ last_or (last_or d xs) ys
last_or-append d [] ys = refl
last_or-append d (x ∷ xs) ys = last_or-append x xs ys

pub first_or-append : (d : ℕ) (xs ys : List ℕ) → first_or d (xs ++ ys) ≡ first_or (first_or d ys) xs
first_or-append d [] ys = refl
first_or-append d (x ∷ xs) ys = refl

pub Distinct-append :
    (xs ys : List ℕ)
    → Distinct (xs ++ ys) ↔ (Distinct xs × Distinct ys × ((b : ℕ) → In b xs → Absent b ys))
Distinct-append [] ys = (λ h. (tt, h, λ b m. elim m [ ]), λ h. h.1)
Distinct-append (x ∷ xs) ys =
    let ih = Distinct-append xs ys in
    let absent = All-append (λ y. y ≢ x) xs ys in
    (
      (λ h.
          let (d, e, apart) = ih.0 h.1 in
          (
            ((absent.0 h.0).0, d),
            e,
            λ b m. elim m [
              | inl eq ↦ subst (λ z. Absent z ys) eq (absent.0 h.0).1
              | inr n ↦ apart b n
            ],
          )),
      (λ h. (absent.1 (h.0.0, h.2 x (inl refl)), ih.1 (h.0.1, h.1, λ b m. h.2 b (inr m)))),
    )

module _ (next prev : ℕ → ℕ) where
  pub Linked-append :
      (p : ℕ) (xs ys : List ℕ) (q : ℕ)
      → Linked next prev p (xs ++ ys) q
        ↔ (Linked next prev p xs (first_or q ys) × Linked next prev (last_or p xs) ys q)
  Linked-append p [] ys q = (λ h. (tt, h), λ h. h.1)
  Linked-append p (x ∷ xs) ys q =
      let ih = Linked-append x xs ys q in
      let e = first_or-append q xs ys in
      (
        (λ h. ((h.0, h.1 ∙ e, (ih.0 h.2).0), (ih.0 h.2).1)),
        (λ h. (h.0.0, h.0.1 ∙ sym e, ih.1 (h.0.2, h.1))),
      )

  module _ (next' prev' : ℕ → ℕ) where
    -- Other maps that agree on the nodes.
    pub Linked-congr :
        (p : ℕ) (xs : List ℕ) (q : ℕ)
        → ((b : ℕ) → In b xs → (next' b ≡ next b) × (prev' b ≡ prev b))
        → Linked next prev p xs q
        → Linked next' prev' p xs q
    Linked-congr p [] q same h = tt
    Linked-congr p (x ∷ xs) q same h =
        let here = same x (inl refl) in
        (here.1 ∙ h.0, here.0 ∙ h.1, Linked-congr x xs q (λ b m. same b (inr m)) h.2)

    -- The last node is made to point at `q'`.
    pub Linked-retarget :
        (p : ℕ) (xs : List ℕ) (q q' : ℕ)
        → Distinct xs
        → ((b : ℕ) → In b xs → (next' b ≡ update next (last_or p xs) q' b) × (prev' b ≡ prev b))
        → Linked next prev p xs q
        → Linked next' prev' p xs q'
    Linked-retarget p [] q q' d same h = tt
    Linked-retarget p (x ∷ []) q q' d same h =
        let here = same x (inl refl) in (here.1 ∙ h.0, here.0 ∙ ground arith, tt)
    Linked-retarget p (x ∷ y ∷ xs) q q' (absent, d) same h =
        let here = same x (inl refl) in
        let apart : last_or y xs ≢ x = In-Absent x _ (y ∷ xs) (last_or-In x y xs) absent in
        (
          here.1 ∙ h.0,
          here.0 ∙ ground arith,
          Linked-retarget x (y ∷ xs) q q' d (λ b m. same b (inr m)) h.2,
        )

    -- The first node is made to point back at `p'`.
    pub Linked-restart :
        (p p' : ℕ) (xs : List ℕ) (q : ℕ)
        → Distinct xs
        → ((b : ℕ) → In b xs → (next' b ≡ next b) × (prev' b ≡ update prev (first_or 0 xs) p' b))
        → Linked next prev p xs q
        → Linked next' prev' p' xs q
    Linked-restart p p' [] q d same h = tt
    Linked-restart p p' (x ∷ xs) q (absent, d) same h =
        let here = same x (inl refl) in
        (
          here.1 ∙ ground arith,
          here.0 ∙ h.1,
          Linked-congr x xs q
              (λ b m.
                let apart : b ≢ x = In-Absent x b xs m absent in
                let there = same b (inr m) in (there.0, there.1 ∙ ground arith))
              h.2,
        )
