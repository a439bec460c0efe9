-- ===== src/HTable/Key.antt =====
-- libyod/htable.c: when two keys are one, and which keys a node holds.
use libyod.Prelude.{
  ℕ, zero, suc, ◌≡◌, refl, ap, ◌∙◌, subst, ◌≢◌, inl, inr, Bool, true, false, ◌&&◌, List, [], ◌∷◌,
  arith, ℕ_discrete, ◌==◌, ==_iff, length,
}
use libyod.Links.{In, NonNull}
use libyod.HTable.{HTable, matches, bytes_eq}
use libyod.HTable.Chain.{search, search-cases, search_unique, Hit}

-- A key is a number and a counted text. These are equal in both.
unfoldable pub same_key : ℕ → List ℕ → ℕ → List ℕ → Bool
same_key nk str nk' str' = nk == nk' && length str == length str' && bytes_eq (length str') str str'

pub bytes_eq_refl : (xs : List ℕ) → bytes_eq (length xs) xs xs ≡ true
unfolding bytes_eq
bytes_eq_refl [] = refl
bytes_eq_refl (x ∷ xs) = rw ((==_iff x x).1 refl, bytes_eq_refl xs)

pub bytes_eq_sound :
    (xs ys : List ℕ) → length xs ≡ length ys → bytes_eq (length ys) xs ys ≡ true → xs ≡ ys
unfolding bytes_eq
bytes_eq_sound [] [] e h = refl
bytes_eq_sound [] (y ∷ ys) e h = absurd (omega arith)
bytes_eq_sound (x ∷ xs) [] e h = absurd (omega arith)
bytes_eq_sound (x ∷ xs) (y ∷ ys) e h = ground (arith, bytes_eq_sound xs ys (omega arith))

-- Of two texts that agree, either may be compared with a third.
bytes_eq_exchange :
    (n : ℕ) (xs ys zs : List ℕ) → bytes_eq n xs ys ≡ true → bytes_eq n xs zs ≡ bytes_eq n ys zs
unfolding bytes_eq
bytes_eq_exchange zero xs ys zs h = refl
bytes_eq_exchange (suc n) [] ys zs h = cc
bytes_eq_exchange (suc n) (x ∷ xs) [] zs h = cc
bytes_eq_exchange (suc n) (x ∷ xs) (y ∷ ys) [] h = refl
bytes_eq_exchange (suc n) (x ∷ xs) (y ∷ ys) (z ∷ zs) h =
    ground (arith, bytes_eq_exchange n xs ys zs)

pub same_key_refl : (nk : ℕ) (str : List ℕ) → same_key nk str nk str ≡ true
unfolding same_key
same_key_refl nk str =
    rw ((==_iff nk nk).1 refl, (==_iff (length str) (length str)).1 refl, bytes_eq_refl str)

pub same_key_sound :
    (nk : ℕ) (str : List ℕ) (nk' : ℕ) (str' : List ℕ)
    → same_key nk str nk' str' ≡ true
    → (nk ≡ nk') × (str ≡ str')
unfolding same_key
same_key_sound nk str nk' str' h =
    (ground arith, bytes_eq_sound str str' (ground arith) (ground arith))

-- A node holds one key.
pub matches-same_key :
    (t : HTable) (a nk : ℕ) (str : List ℕ) (nk' : ℕ) (str' : List ℕ)
    → matches t nk str a ≡ true
    → matches t nk' str' a ≡ same_key nk str nk' str'
unfolding matches same_key
matches-same_key t a nk str nk' str' h =
    let same_num : t.num_key a ≡ nk = ground arith in
    let same_len : t.key_len a ≡ length str = ground arith in
    let same_bytes : bytes_eq (length str) (t.str_key a) str ≡ true = ground arith in
    rw (same_num, same_len)
      (elim (ℕ_discrete (length str) (length str')) [
        | yes e ↦
            ap (λ b. nk == nk' && length str == length str' && b)
              (bytes_eq_exchange (length str') (t.str_key a) str str' (rw (← e) same_bytes))
        | no ne ↦ ground arith
      ])

-- Where the list holds the key at `a`, another key is found at `a` exactly when it is the same.
module _ (t : HTable) (ids : List ℕ) (pos : NonNull ids) (a nk : ℕ) (str : List ℕ)
    (hit : Hit t nk str ids a)
    (one : (nk' : ℕ) (str' : List ℕ) (b : ℕ)
      → In b ids
      → matches t nk' str' b ≡ true
      → matches t nk' str' a ≡ true
      → b ≡ a)
    (nk' : ℕ) (str' : List ℕ) where
  pub search-same : same_key nk str nk' str' ≡ true → search t nk' str' ids ≡ a
  search-same same =
      let at_a = matches-same_key t a nk str nk' str' hit.1 ∙ same in
      search_unique t nk' str' ids a pos (λ b m h. one nk' str' b m h at_a) (hit.0, at_a, hit.2)

  pub search-ne : same_key nk str nk' str' ≡ false → search t nk' str' ids ≢ a
  search-ne differ e = elim (search-cases t nk' str' ids pos) [
    | inl (z, _) ↦ omega (arith, hit.2)
    | inr g ↦
        let at_a = subst (λ b. matches t nk' str' b ≡ true) e g.1 in
        cc (matches-same_key t a nk str nk' str' hit.1, at_a, differ)
  ]
