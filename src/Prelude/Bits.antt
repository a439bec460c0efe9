-- ===== src/Prelude/Bits.antt =====
-- Masks on machine words as arithmetic.
use Prim.Native.Nat.{
  ℕ, zero, suc, ◌+◌, ◌*◌, ◌/◌, ◌%◌, ◌≤◌, ◌<◌, min, bit_and, bit_or, digits, bit_and-bitwise,
}
use mathlib.Core.Path.{◌≡◌, refl, sym, ◌∙◌}
use mathlib.Core.Bool.{Bool, true, false}
use mathlib.Core.Logic.{ite}
use native.Mathlib.Decide.{ℕ_discrete}
use native.Mathlib.Omega.{arith}

-- Two functions are compared below a bound by a run.
module _ (f g : ℕ → ℕ) where
  unfoldable pub agree_below : ℕ → Bool
  unfolding ℕ_discrete
  agree_below zero = true
  agree_below (suc n) = ite (ℕ_discrete (f n) (g n)) (agree_below n) false

  pub agree_below→eq : (n : ℕ) → agree_below n ≡ true → (i : ℕ) → i < n → f i ≡ g i
  unfolding agree_below
  agree_below→eq zero e i h = absurd (omega arith)
  agree_below→eq (suc n) e i h = ground (arith, agree_below→eq n (ground arith) i)

pub low_bits : (b : ℕ) → b < 256 → bit_and b 0x7F ≡ b % 128
unfolding agree_below
low_bits = agree_below→eq _ _ 256 refl

pub top_bit : (b : ℕ) → b < 256 → bit_and b 0x80 ≡ b / 128 * 128
unfolding agree_below
top_bit = agree_below→eq _ _ 256 refl

pub set_top_bit : (b : ℕ) → b < 128 → bit_or b 0x80 ≡ b + 128
unfolding agree_below
set_top_bit = agree_below→eq _ _ 128 refl

-- `bit_and` by its digits: `conj rounds x mask` looks at that many digits of `x`.
abbrev conj : ℕ → ℕ → ℕ → ℕ
conj rounds x mask = digits (λ _. zero) min rounds x mask

conj_none : (rounds mask : ℕ) → conj rounds zero mask ≡ 0
conj_none zero mask = refl
conj_none (suc rounds) mask = refl

-- Rounds beyond the number itself change nothing.
conj_rounds : (x p q mask : ℕ) → x ≤ p → x ≤ q → conj p x mask ≡ conj q x mask
conj_rounds zero p q mask hp hq = conj_none p mask ∙ sym (conj_none q mask)
conj_rounds (suc x) (suc p) (suc q) mask hp hq =
    let half : suc x / 2 ≤ x = omega arith in
    omega (arith, conj_rounds (suc x / 2) p q (mask / 2) (omega arith) (omega arith))
conj_rounds (suc x) _ _ mask hp hq = absurd (omega arith)

bit_and_none : (mask : ℕ) → bit_and 0 mask ≡ 0
bit_and_none mask = bit_and-bitwise 0 mask ∙ conj_none 0 mask

halve : (x mask : ℕ) → bit_and x mask ≡ min (x % 2) (mask % 2) + 2 * bit_and (x / 2) (mask / 2)
halve zero mask = omega (arith, bit_and_none mask, bit_and_none (mask / 2))
halve (suc x) mask = omega (
  arith,
  conj_rounds (suc x / 2) x (suc x / 2) (mask / 2) (omega arith) (omega arith),
  bit_and-bitwise (suc x / 2) (mask / 2),
  bit_and-bitwise (suc x) mask,
)

no_mask : (rounds x : ℕ) → x ≤ rounds → bit_and x 0 ≡ 0
no_mask zero x h = rw (zero_of_le x h) (bit_and_none 0)
  where
    zero_of_le : (y : ℕ) → y ≤ 0 → y ≡ 0
    zero_of_le y h = omega arith
no_mask (suc rounds) zero h = bit_and_none 0
no_mask (suc rounds) (suc x) h =
    omega (arith, no_mask rounds (suc x / 2) (omega arith), halve (suc x) 0)

bit_and_three : (a : ℕ) → bit_and a 3 ≡ a % 4
bit_and_three a =
    omega (arith, no_mask (a / 4) (a / 2 / 2) (omega arith), halve (a / 2) 1, halve a 3)

bit_and_fifteen : (a : ℕ) → bit_and a 15 ≡ a % 16
bit_and_fifteen a = omega (arith, halve a 15, halve (a / 2) 7, bit_and_three (a / 2 / 2))

-- `a & 0xFF` at every width.
pub low_byte : (a : ℕ) → bit_and a 0xFF ≡ a % 256
low_byte a = omega (
  arith,
  halve a 255,
  halve (a / 2) 127,
  halve (a / 2 / 2) 63,
  halve (a / 2 / 2 / 2) 31,
  bit_and_fifteen (a / 2 / 2 / 2 / 2),
)

-- A mask bounds what it masks.
bit_and-le_rounds : (rounds x mask : ℕ) → mask ≤ rounds → bit_and x mask ≤ mask
bit_and-le_rounds zero x mask h = rw (zero_of_le mask h) (omega (arith, no_mask x x (omega arith)))
  where
    zero_of_le : (y : ℕ) → y ≤ 0 → y ≡ 0
    zero_of_le y h = omega arith
bit_and-le_rounds (suc rounds) x zero h = omega (arith, no_mask x x (omega arith))
bit_and-le_rounds (suc rounds) x (suc mask) h =
    omega (arith, halve x (suc mask), bit_and-le_rounds rounds (x / 2) (suc mask / 2) (omega arith))

pub bit_and-le : (x mask : ℕ) → bit_and x mask ≤ mask
bit_and-le x mask = bit_and-le_rounds mask x mask (omega arith)

-- `a & 0x3F`
pub low_six : (a : ℕ) → bit_and a 0x3F ≡ a % 64
low_six a = omega (arith, halve a 63, halve (a / 2) 31, bit_and_fifteen (a / 2 / 2))
