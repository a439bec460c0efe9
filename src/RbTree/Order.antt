-- ===== src/RbTree/Order.antt =====
-- libyod/rbtree.c: the order of the keys, and the place that a descent by a key ends at.
use libyod.Prelude.{
  ℕ, ◌≤◌, ◌<◌, ◌≡◌, refl, subst, ◌↔◌, inl, inr, Bool, List, [], ◌∷◌, ◌++◌, arith, ℕ_discrete, ltb,
  if◌then◌else◌, ltb→lt, Bool-cases, All,
}
use libyod.Links.{In, All-append, Distinct, NonNull, Absent, Absent-intro}
use libyod.RbTree.Shape.{Shape}
use libyod.RbTree.Tree.{
  Tree, tip, fork, down_left, down_right, Way, plug, ids, before, after, count_in, hit,
}
use libyod.RbTree.Holds.{Holds, Holds-into_left, Holds-into_right}

-- The keys of the nodes do not fall.
abbrev pub SortedBy : (ℕ → ℕ) → List ℕ → Type 0
SortedBy key [] = Unit {0}
SortedBy key (a ∷ xs) = All (λ b. key a ≤ key b) xs × SortedBy key xs

pub SortedBy-append :
    (key : ℕ → ℕ) (xs ys : List ℕ)
    → SortedBy key (xs ++ ys)
      ↔ (SortedBy key xs × SortedBy key ys × All (λ a. All (λ b. key a ≤ key b) ys) xs)
SortedBy-append key [] ys = (λ h. (tt, h, tt), λ h. h.1)
SortedBy-append key (x ∷ xs) ys =
    let ih = SortedBy-append key xs ys in
    let all = All-append (λ b. key x ≤ key b) xs ys in
    (
      λ h. let (s, s', apart) = ih.0 h.1 in (((all.0 h.0).0, s), s', ((all.0 h.0).1, apart)),
      λ h. (all.1 (h.0.0, h.2.0), ih.1 (h.0.1, h.1, h.2.1)),
    )

pub All-imp {ℓ} :
    {A : Type ℓ} (P Q : A → Type 0) (xs : List A) → ((a : A) → P a → Q a) → All P xs → All Q xs
All-imp P Q [] f h = tt
All-imp P Q (x ∷ xs) f (h, hs) = (f x h, All-imp P Q xs f hs)

pub All-In : (P : ℕ → Type 0) (xs : List ℕ) (a : ℕ) → In a xs → All P xs → P a
All-In P [] a m h = elim m [ ]
All-In P (x ∷ xs) a (inl e) (h, hs) = subst P e h
All-In P (x ∷ xs) a (inr m) (h, hs) = All-In P xs a m hs

-- The nodes in front of one whose key is at most `k` have such keys too, and so behind one.
module _ (key : ℕ → ℕ) (k : ℕ) (xs : List ℕ) (a : ℕ) (ys : List ℕ)
    (sorted : SortedBy key (xs ++ (a ∷ ys))) where
  parts : SortedBy key xs × SortedBy key (a ∷ ys) × All (λ b. All (λ c. key b ≤ key c) (a ∷ ys)) xs
  parts = (SortedBy-append key xs (a ∷ ys)).0 sorted

  pub sorted_left : SortedBy key xs
  sorted_left = parts.0

  pub sorted_right : SortedBy key ys
  sorted_right = parts.1.1

  pub front_at_most : key a ≤ k → All (λ b. key b ≤ k) (xs ++ (a ∷ []))
  front_at_most le = (All-append (λ b. key b ≤ k) xs (a ∷ [])).1 (
    All-imp (λ b. All (λ c. key b ≤ key c) (a ∷ ys)) (λ b. key b ≤ k) xs
        (λ b h. let first = h.0 in omega arith) parts.2,
    (le, tt),
  )

  pub back_above : k < key a → All (λ b. k < key b) (a ∷ ys)
  back_above lt =
      (lt, All-imp (λ b. key a ≤ key b) (λ b. k < key b) ys (λ b h. omega arith) parts.1.0)

-- The place at which a new node with the key `k` is put.
abbrev pub into : (ℕ → ℕ) → ℕ → Way → Tree → Way
into key k path tip = path
into key k path (fork c l a r) =
    let left = into key k (down_left c a r ∷ path) l in
    let right = into key k (down_right c l a ∷ path) r in if ltb k (key a) then left else right

module _ (key : ℕ → ℕ) (k : ℕ) where
  -- Either of the two ways.
  into-cases :
      (P : Way → Type 0) (path : Way) (c : Bool) (l : Tree) (a : ℕ) (r : Tree)
      → (k < key a → P (into key k (down_left c a r ∷ path) l))
      → (key a ≤ k → P (into key k (down_right c l a ∷ path) r))
      → P (into key k path (fork c l a r))
  into-cases P path c l a r f g = elim (Bool-cases (ltb k (key a))) [
    | inl e ↦ rw e (f (ltb→lt k (key a) e))
    | inr e ↦ rw e (g (ground arith))
  ]

  pub plug-into : (path : Way) (t : Tree) → plug (into key k path t) tip ≡ plug path t
  plug-into path tip = refl
  plug-into path (fork c l a r) =
      into-cases (λ path'. plug path' tip ≡ plug path (fork c l a r)) path c l a r
        (λ lt. plug-into (down_left c a r ∷ path) l) (λ le. plug-into (down_right c l a ∷ path) r)

  pub Holds-into :
      (s : Shape) (path : Way) (t : Tree) → Holds s path t → Holds s (into key k path t) tip
  Holds-into s path tip h = h
  Holds-into s path (fork c l a r) h =
      into-cases (λ path'. Holds s path' tip) path c l a r
        (λ lt. Holds-into s (down_left c a r ∷ path) l (Holds-into_left s c a path l r h))
        (λ le. Holds-into s (down_right c l a ∷ path) r (Holds-into_right s c a path l r h))

  -- The keys in front of the place are at most `k`, and the others are larger.
  abbrev pub Parted : Way → Type 0
  Parted path = All (λ b. key b ≤ k) (before path) × All (λ b. k < key b) (after path)

  pub into-Parted :
      (path : Way) (t : Tree) → SortedBy key (ids t) → Parted path → Parted (into key k path t)
  into-Parted path tip sorted h = h
  into-Parted path (fork c l a r) sorted (front, back) =
      into-cases Parted path c l a r
        (λ lt. into-Parted (down_left c a r ∷ path) l (sorted_left key k (ids l) a (ids r) sorted) (
          front,
          (All-append (λ b. k < key b) (a ∷ ids r) (after path)).1
              (back_above key k (ids l) a (ids r) sorted lt, back),
        ))
        (λ le.
          into-Parted (down_right c l a ∷ path) r (sorted_right key k (ids l) a (ids r) sorted) (
            (All-append (λ b. key b ≤ k) (before path) (ids l ++ (a ∷ []))).1
                (front, front_at_most key k (ids l) a (ids r) sorted le),
            back,
          ))

-- Nodes that stand at most once are different.
count_in-In : (a : ℕ) (xs : List ℕ) → In a xs → 0 < count_in a xs
count_in-In a [] m = elim m [ ]
count_in-In a (x ∷ xs) (inl e) = let same : hit a x ≡ 1 = ground arith in omega arith
count_in-In a (x ∷ xs) (inr m) = let rest = count_in-In a xs m in omega arith

pub In-count_in : (a : ℕ) (xs : List ℕ) → 0 < count_in a xs → In a xs
In-count_in a [] h = omega arith
In-count_in a (x ∷ xs) h = elim (ℕ_discrete x a) [
  | yes e ↦ inl e
  | no ne ↦ let other : hit a x ≡ 0 = ground arith in inr (In-count_in a xs (omega arith))
]

pub Absent-count_in : (a : ℕ) (xs : List ℕ) → count_in a xs ≡ 0 → Absent a xs
Absent-count_in a xs h = Absent-intro a xs (λ m. let pos = count_in-In a xs m in omega arith)

pub Distinct-count_in : (xs : List ℕ) → ((x : ℕ) → count_in x xs ≤ 1) → Distinct xs
Distinct-count_in [] h = tt
Distinct-count_in (x ∷ xs) h = (
  Absent-count_in x xs (let once = h x in let self : hit x x ≡ 1 = ground arith in omega arith),
  Distinct-count_in xs (λ y. let once = h y in omega arith),
)

pub NonNull-count_in : (xs : List ℕ) → count_in 0 xs ≡ 0 → NonNull xs
NonNull-count_in [] h = tt
NonNull-count_in (x ∷ xs) h = (
  elim (ℕ_discrete x 0) [
    | yes e ↦ let hit' : hit 0 x ≡ 1 = ground arith in omega arith
    | no ne ↦ omega arith
  ],
  NonNull-count_in xs (omega arith),
)
