-- ===== src/Links/Release.antt =====
-- The values that a loop over a list has given to `vfree`, if it is given.
use libyod.Prelude.{
  ℕ, ◌≡◌, refl, Bool, true, false, List, [], ◌∷◌, ◌++◌, append-nil, append_assoc, if◌then◌else◌,
}

pub released-nil : (on : Bool) (xs : List ℕ) → (if on then xs ++ [] else xs) ≡ xs
released-nil true xs = append-nil xs
released-nil false xs = refl

pub released-cons :
    (on : Bool) (xs : List ℕ) (v : ℕ) (vs : List ℕ)
    → (if on
        then (if on then xs ++ (v ∷ []) else xs) ++ vs
        else (if on then xs ++ (v ∷ []) else xs))
      ≡ (if on then xs ++ (v ∷ vs) else xs)
released-cons true xs v vs = append_assoc xs (v ∷ []) vs
released-cons false xs v vs = refl
