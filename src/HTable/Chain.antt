-- ===== src/HTable/Chain.antt =====
-- libyod/htable.c: the nodes of one chain, in terms of the list of all nodes, and the search in it.
use libyod.Prelude.{
  ℕ, zero, suc, ◌+◌, ◌≤◌, ◌<◌, bit_and, ◌≡◌, refl, sym, ap, ◌∙◌, subst, ◌≢◌, ◌↔◌, ◌⊎◌, inl, inr,
  Bool, true, false, some, List, [], ◌∷◌, ◌++◌, append_assoc, arith, ◌==◌, if◌then◌else◌, ==_iff,
  Bool-cases, length,
}
use libyod.Links.{first_or, Linked, In, Absent, Distinct, NonNull, In-Absent}
use libyod.HTable.{HTable, matches, scan}

-- Chain `k` holds the nodes whose number hashes to `k`, the latest first.
module _ (num_key : ℕ → ℕ) (mask k : ℕ) where
  abbrev pub home : ℕ → Bool
  home a = bit_and (num_key a) mask == k

  abbrev pub bucket_of : List ℕ → List ℕ → List ℕ
  bucket_of acc [] = acc
  bucket_of acc (a ∷ ids) = bucket_of (if home a then a ∷ acc else acc) ids

  home_away : (a : ℕ) → bit_and (num_key a) mask ≢ k → home a ≡ false
  home_away a away = elim (Bool-cases (home a)) [
    | inl here ↦ absurd (away ((==_iff _ k).0 here))
    | inr elsewhere ↦ elsewhere
  ]

  pub bucket_of-append :
      (acc xs ys : List ℕ) → bucket_of acc (xs ++ ys) ≡ bucket_of (bucket_of acc xs) ys
  bucket_of-append acc [] ys = refl
  bucket_of-append acc (x ∷ xs) ys = bucket_of-append (if home x then x ∷ acc else acc) xs ys

  pub bucket_of-snoc :
      (ids : List ℕ) (a : ℕ)
      → bit_and (num_key a) mask ≡ k
      → bucket_of [] (ids ++ (a ∷ [])) ≡ a ∷ bucket_of [] ids
  bucket_of-snoc ids a at_home = rw (bucket_of-append [] ids (a ∷ []), (==_iff _ k).1 at_home)

  pub bucket_of-snoc_away :
      (ids : List ℕ) (a : ℕ)
      → bit_and (num_key a) mask ≢ k
      → bucket_of [] (ids ++ (a ∷ [])) ≡ bucket_of [] ids
  bucket_of-snoc_away ids a away = rw (bucket_of-append [] ids (a ∷ []), home_away a away)

  pub bucket_of_acc : (acc ids : List ℕ) → bucket_of acc ids ≡ bucket_of [] ids ++ acc
  bucket_of_acc acc [] = refl
  bucket_of_acc acc (a ∷ ids) = elim (Bool-cases (home a)) [
    | inl here ↦ rw here (
        bucket_of_acc (a ∷ acc) ids
        ∙ sym (
            ap (λ l. l ++ acc) (bucket_of_acc (a ∷ []) ids)
            ∙ append_assoc (bucket_of [] ids) (a ∷ []) acc))
    | inr elsewhere ↦ rw elsewhere (bucket_of_acc acc ids)
  ]

  -- A node in the middle of the list, in its chain.
  pub bucket_of_split :
      (xs ys : List ℕ) → bucket_of [] (xs ++ ys) ≡ bucket_of [] ys ++ bucket_of [] xs
  bucket_of_split xs ys = bucket_of-append [] xs ys ∙ bucket_of_acc (bucket_of [] xs) ys

  pub bucket_of_middle :
      (xs : List ℕ) (a : ℕ) (ys : List ℕ)
      → bit_and (num_key a) mask ≡ k
      → bucket_of [] (xs ++ (a ∷ ys)) ≡ bucket_of [] ys ++ (a ∷ bucket_of [] xs)
  bucket_of_middle xs a ys at_home =
      rw (bucket_of-append [] xs (a ∷ ys), (==_iff _ k).1 at_home)
        (bucket_of_acc (a ∷ bucket_of [] xs) ys)

  pub bucket_of_middle_away :
      (xs : List ℕ) (a : ℕ) (ys : List ℕ)
      → bit_and (num_key a) mask ≢ k
      → bucket_of [] (xs ++ (a ∷ ys)) ≡ bucket_of [] (xs ++ ys)
  bucket_of_middle_away xs a ys away =
      rw (bucket_of-append [] xs (a ∷ ys), home_away a away) (sym (bucket_of-append [] xs ys))

  pub length-bucket_of : (acc ids : List ℕ) → length (bucket_of acc ids) ≤ length acc + length ids
  length-bucket_of acc [] = omega arith
  length-bucket_of acc (a ∷ ids) = elim (Bool-cases (home a)) [
    | inl here ↦ rw here (omega (arith, length-bucket_of (a ∷ acc) ids))
    | inr elsewhere ↦ rw elsewhere (omega (arith, length-bucket_of acc ids))
  ]

  pub In-bucket_of :
      (b : ℕ) (acc ids : List ℕ)
      → In b (bucket_of acc ids) ↔ (In b acc ⊎ (In b ids × (bit_and (num_key b) mask ≡ k)))
  In-bucket_of b acc [] = (λ m. inl m, elim [ inl m ↦ m | inr m ↦ elim m.0 [ ] ])
  In-bucket_of b acc (a ∷ ids) = elim (Bool-cases (home a)) [
    | inl here ↦
        let ih = In-bucket_of b (a ∷ acc) ids in
        let at_home : bit_and (num_key a) mask ≡ k = (==_iff _ k).0 here in
        rw here (
          (λ m. elim (ih.0 m) [
            | inl (inl e) ↦ inr (inl e, subst (λ c. bit_and (num_key c) mask ≡ k) e at_home)
            | inl (inr n) ↦ inl n
            | inr n ↦ inr (inr n.0, n.1)
          ]),
          elim [
            | inl n ↦ ih.1 (inl (inr n))
            | inr n ↦ elim n.0 [ inl e ↦ ih.1 (inl (inl e)) | inr r ↦ ih.1 (inr (r, n.1)) ]
          ],
        )
    | inr elsewhere ↦
        let ih = In-bucket_of b acc ids in
        let away : bit_and (num_key a) mask ≢ k = λ e. cc (elsewhere, (==_iff _ k).1 e) in
        rw elsewhere (
          (λ m. elim (ih.0 m) [ inl n ↦ inl n | inr n ↦ inr (inr n.0, n.1) ]),
          elim [
            | inl n ↦ ih.1 (inl n)
            | inr n ↦ elim n.0 [
              | inl e ↦ absurd (away (subst (λ c. bit_and (num_key c) mask ≡ k) (sym e) n.1))
              | inr r ↦ ih.1 (inr (r, n.1))
            ]
          ],
        )
  ]

  pub NonNull-bucket_of :
      (acc ids : List ℕ) → NonNull acc → NonNull ids → NonNull (bucket_of acc ids)
  NonNull-bucket_of acc [] h hs = h
  NonNull-bucket_of acc (a ∷ ids) h (p, hs) = elim (Bool-cases (home a)) [
    | inl here ↦ rw here (NonNull-bucket_of (a ∷ acc) ids (p, h) hs)
    | inr elsewhere ↦ rw elsewhere (NonNull-bucket_of acc ids h hs)
  ]

  pub Distinct-bucket_of :
      (acc ids : List ℕ)
      → Distinct acc
      → Distinct ids
      → ((b : ℕ) → In b ids → Absent b acc)
      → Distinct (bucket_of acc ids)
  Distinct-bucket_of acc [] d e apart = d
  Distinct-bucket_of acc (a ∷ ids) d (absent, e) apart = elim (Bool-cases (home a)) [
    | inl here ↦ rw here (
        Distinct-bucket_of (a ∷ acc) ids (apart a (inl refl), d) e
          (λ b m. (λ eq. In-Absent a b ids m absent (sym eq), apart b (inr m))))
    | inr elsewhere ↦ rw elsewhere (Distinct-bucket_of acc ids d e (λ b m. apart b (inr m)))
  ]

-- The chain depends on the numbers of its nodes alone.
pub bucket_of_congr :
    (num_key num_key' : ℕ → ℕ) (mask k : ℕ) (acc ids : List ℕ)
    → ((b : ℕ) → In b ids → num_key b ≡ num_key' b)
    → bucket_of num_key mask k acc ids ≡ bucket_of num_key' mask k acc ids
bucket_of_congr f g mask k acc [] same = refl
bucket_of_congr f g mask k acc (a ∷ ids) same = rw (same a (inl refl)) (
    bucket_of_congr f g mask k (if bit_and (g a) mask == k then a ∷ acc else acc) ids
      (λ b m. same b (inr m)))

module _ (t : HTable) (nk : ℕ) (str : List ℕ) where
  -- The first node of a list that holds the key, or NULL.
  abbrev pub search : List ℕ → ℕ
  search [] = 0
  search (a ∷ xs) = if matches t nk str a then a else search xs

  -- The loop over a chain is the search in its list of nodes.
  pub scan-search :
      (fuel p : ℕ) (xs : List ℕ)
      → NonNull xs
      → length xs < fuel
      → Linked t.v_next t.v_prev p xs 0
      → scan fuel t nk str (first_or 0 xs) ≡ some (search xs)
  unfolding scan
  scan-search zero p xs pos h l = elim h [ ]
  scan-search (suc fuel) p [] pos h l = refl
  scan-search (suc fuel) p (a ∷ xs) (pos_a, pos) h (_, nx, l) =
      let ih = scan-search fuel a xs pos (omega arith) l in rw (nx, ih) (ground arith)

  search-hit : (a : ℕ) (xs : List ℕ) → matches t nk str a ≡ true → search (a ∷ xs) ≡ a
  search-hit a xs h = rw h

  search-miss : (a : ℕ) (xs : List ℕ) → matches t nk str a ≡ false → search (a ∷ xs) ≡ search xs
  search-miss a xs h = rw h

  -- What a node that the search found is.
  abbrev pub Hit : List ℕ → ℕ → Type 0
  Hit xs a = In a xs × (matches t nk str a ≡ true) × (0 < a)

  pub search-cases :
      (xs : List ℕ)
      → NonNull xs
      → ((search xs ≡ 0) × ((b : ℕ) → In b xs → matches t nk str b ≡ false)) ⊎ Hit xs (search xs)
  search-cases [] pos = inl (refl, λ b m. elim m [ ])
  search-cases (a ∷ xs) (pos_a, pos) = elim (Bool-cases (matches t nk str a)) [
    | inl hit ↦ inr (subst (Hit (a ∷ xs)) (sym (search-hit a xs hit)) (inl refl, hit, pos_a))
    | inr miss ↦ elim (search-cases xs pos) [
      | inl (z, no_hit) ↦ inl (
        search-miss a xs miss ∙ z,
        λ b m. elim m [
          | inl e ↦ subst (λ c. matches t nk str c ≡ false) e miss
          | inr n ↦ no_hit b n
        ],
      )
      | inr h ↦ inr (subst (Hit (a ∷ xs)) (sym (search-miss a xs miss)) (inr h.0, h.1, h.2))
    ]
  ]

  -- Where at most one node holds the key, the search finds that one.
  pub search_unique :
      (xs : List ℕ) (a : ℕ)
      → NonNull xs
      → ((b : ℕ) → In b xs → matches t nk str b ≡ true → b ≡ a)
      → Hit xs a
      → search xs ≡ a
  search_unique xs a pos one h = elim (search-cases xs pos) [
    | inl (z, no_hit) ↦ cc (no_hit a h.0, h.1)
    | inr g ↦ one (search xs) g.0 g.1
  ]
