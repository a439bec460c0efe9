-- ===== src/Links/Reverse.antt =====
-- A doubly linked list, seen from its end.
use libyod.Prelude.{ℕ, suc, ◌<◌, ◌≡◌, refl, sym, ap, ◌∙◌, List, [], ◌∷◌, ◌++◌, length, length-snoc}
use libyod.Links.{
  first_or, last_or, Linked, NonNull, Linked-append, All-append, last_or-append, first_or-append,
}

abbrev pub reverse : List ℕ → List ℕ
reverse [] = []
reverse (x ∷ xs) = reverse xs ++ (x ∷ [])

pub first_or-reverse : (d : ℕ) (xs : List ℕ) → first_or d (reverse xs) ≡ last_or d xs
first_or-reverse d [] = refl
first_or-reverse d (x ∷ xs) = first_or-append d (reverse xs) (x ∷ []) ∙ first_or-reverse x xs

pub last_or-reverse : (d : ℕ) (xs : List ℕ) → last_or d (reverse xs) ≡ first_or d xs
last_or-reverse d [] = refl
last_or-reverse d (x ∷ xs) = last_or-append d (reverse xs) (x ∷ [])

pub NonNull-reverse : (xs : List ℕ) → NonNull xs → NonNull (reverse xs)
NonNull-reverse [] h = tt
NonNull-reverse (x ∷ xs) (h, hs) =
    (All-append (λ y. 0 < y) (reverse xs) (x ∷ [])).1 (NonNull-reverse xs hs, (h, tt))

pub length-reverse : (xs : List ℕ) → length (reverse xs) ≡ length xs
length-reverse [] = refl
length-reverse (x ∷ xs) = length-snoc (reverse xs) x ∙ ap suc (length-reverse xs)

-- Seen from behind the list is linked the other way.
pub Linked-reverse :
    (next prev : ℕ → ℕ) (p : ℕ) (xs : List ℕ) (q : ℕ)
    → Linked next prev p xs q
    → Linked prev next q (reverse xs) p
Linked-reverse next prev p [] q h = tt
Linked-reverse next prev p (x ∷ xs) q (back, on, h) =
    (Linked-append prev next q (reverse xs) (x ∷ []) p).1
      (Linked-reverse next prev x xs q h, (on ∙ sym (last_or-reverse q xs), back, tt))
