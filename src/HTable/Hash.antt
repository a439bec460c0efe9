-- ===== src/HTable/Hash.antt =====
-- libyod/htable.c: the hash of a text, whose loop is unrolled eight times.
use libyod.Prelude.{ℕ, ◌≡◌, refl, List, [], ◌∷◌}
use libyod.HTable.{hash_step, str_nkey_tail, str_nkey_loop, str_nkey}

-- One character in a round.
abbrev pub hash_all : ℕ → List ℕ → ℕ
hash_all n [] = n
hash_all n (c ∷ str) = hash_all (hash_step n c) str

str_nkey_loop-hash_all : (n : ℕ) (str : List ℕ) → str_nkey_loop n str ≡ hash_all n str
unfolding str_nkey_loop str_nkey_tail
str_nkey_loop-hash_all n (a ∷ b ∷ c ∷ d ∷ e ∷ f ∷ g ∷ h ∷ str) =
    str_nkey_loop-hash_all (hash_all n (a ∷ b ∷ c ∷ d ∷ e ∷ f ∷ g ∷ h ∷ [])) str
str_nkey_loop-hash_all n (a ∷ b ∷ c ∷ d ∷ e ∷ f ∷ g ∷ []) = refl
str_nkey_loop-hash_all n (a ∷ b ∷ c ∷ d ∷ e ∷ f ∷ []) = refl
str_nkey_loop-hash_all n (a ∷ b ∷ c ∷ d ∷ e ∷ []) = refl
str_nkey_loop-hash_all n (a ∷ b ∷ c ∷ d ∷ []) = refl
str_nkey_loop-hash_all n (a ∷ b ∷ c ∷ []) = refl
str_nkey_loop-hash_all n (a ∷ b ∷ []) = refl
str_nkey_loop-hash_all n (a ∷ []) = refl
str_nkey_loop-hash_all n [] = refl

-- The unrolled loop and the switch give the hash of one character in a round, from 5381 on.
pub str_nkey-hash_all : (str : List ℕ) → str_nkey str ≡ hash_all 5381 str
unfolding str_nkey
str_nkey-hash_all str = str_nkey_loop-hash_all 5381 str
