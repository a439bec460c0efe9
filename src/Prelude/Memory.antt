-- ===== src/Prelude/Memory.antt =====
-- Buffers of bytes. A read or a write behind the end is undefined in C: it is `none` here.
use Prim.Native.Nat.{ℕ, zero, suc, ◌<◌, ◌+◌}
use mathlib.Core.Path.{◌≡◌, refl, ap, ◌∙◌, sym}
use mathlib.Core.List.{List, [], ◌∷◌, ◌++◌}
use mathlib.Core.Option.{Option, none, some}
use native.Mathlib.Omega.{arith}
use libyod.Prelude.Lists.{length, get_elem?, drop}

infixl 5 ◌>>=◌
abbrev pub ◌>>=◌ {ℓ κ} : {A : Type ℓ} {B : Type κ} → Option A → (A → Option B) → Option B
none >>= f = none
some a >>= f = f a

abbrev pub IsByte : ℕ → Type 0
IsByte b = b < 256

module _ {ℓ} {A : Type ℓ} where
  abbrev pub All {κ} : (A → Type κ) → List A → Type κ
  All P [] = Unit {κ}
  All P (x ∷ xs) = P x × All P xs

  -- `data[i] = v`
  unfoldable pub store : List A → ℕ → A → Option (List A)
  store [] i v = none
  store (x ∷ xs) zero v = some (v ∷ xs)
  store (x ∷ xs) (suc i) v = do ys ← store xs i v; some (x ∷ ys)

  pub store_at :
      (front : List A) (x : A) (back : List A) (v : A)
      → store (front ++ (x ∷ back)) (length front) v ≡ some (front ++ (v ∷ back))
  unfolding store
  store_at [] x back v = refl
  store_at (y ∷ front) x back v = ap (λ o. o >>= λ ys. some (y ∷ ys)) (store_at front x back v)

  bind_some : (o : Option (List A)) → (o >>= λ ys. some ys) ≡ o
  bind_some none = refl
  bind_some (some ys) = refl

  bind_assoc :
      (f g : List A → List A) (o : Option (List A))
      → ((o >>= λ ys. some (f ys)) >>= λ ys. some (g ys)) ≡ (o >>= λ ys. some (g (f ys)))
  bind_assoc f g none = refl
  bind_assoc f g (some ys) = refl

  pub store-append :
      (front old : List A) (k : ℕ) (v : A)
      → store (front ++ old) (length front + k) v ≡ (store old k v >>= λ ys. some (front ++ ys))
  unfolding store
  store-append [] old k v =
      let index : 0 + k ≡ k = omega arith in
      ap (λ i. store old i v) index ∙ sym (bind_some (store old k v))
  store-append (y ∷ front) old k v =
      let index : suc (length front) + k ≡ suc (length front + k) = omega arith in
      ap (λ i. store (y ∷ (front ++ old)) i v) index
      ∙ ap (λ o. o >>= λ ys. some (y ∷ ys)) (store-append front old k v)
      ∙ bind_assoc _ _ (store old k v)

  -- A read where the rest of the buffer is known.
  pub get_elem?-drop :
      (buf : List A) (i : ℕ) {x : A} {back : List A}
      → drop i buf ≡ x ∷ back
      → (get_elem? buf i ≡ some x) × (drop (suc i) buf ≡ back)
  get_elem?-drop [] zero e = cc
  get_elem?-drop [] (suc i) e = cc
  get_elem?-drop (y ∷ buf) zero e = ground arith
  get_elem?-drop (y ∷ buf) (suc i) e = get_elem?-drop buf i e

  -- A store at index `n`, where the buffer is known from there on.
  pub store-drop :
      (n : ℕ) (buf : List A) (v : A)
      → n < length buf
      → store (drop n buf) 0 v ≡ some (v ∷ drop (n + 1) buf)
  unfolding store
  store-drop n [] v h = elim h [ ]
  store-drop zero (x ∷ buf) v h = refl
  store-drop (suc n) (x ∷ buf) v h =
      let e : suc (n + 1) ≡ suc n + 1 = omega arith in
      store-drop n buf v (omega arith) ∙ ap (λ k. some (v ∷ drop k (x ∷ buf))) e
