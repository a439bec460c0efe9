-- ===== src/Bytes/Fixed/Signed.antt =====
-- libyod/common.c: `set_uint64` takes a signed number and divides it towards zero. What it writes,
-- and for which arguments `get_uint64` reads that back.
use libyod.Prelude.{
  ℕ, zero, suc, ◌+◌, ◌-◌, ◌*◌, ◌/◌, ◌%◌, ◌^◌, ◌≤◌, ◌<◌, ◌≡◌, refl, ◌∙◌, ap, ◌⊎◌, ◌↔◌, List, [], ◌∷◌,
  ◌++◌, append_assoc, some, ◌>>=◌, length, length-snoc, drop, All, IsByte, store_at, arith, dec_lt,
  inl, inr, subst, sym,
}
use libyod.Prelude.Bits.{low_byte}
use libyod.Bytes.Fixed.{
  get_uint64, Int64, pos, to_int64, low_byte_of, div_256, minus, set_int_loop, set_uint64,
}
use libyod.Bytes.Fixed.Laws.{le_bytes, le_value, get_uint64-le_bytes, get_uint64-le_value}
use native.Mathlib.Nat.{pow-suc}
use native.Mathlib.Numerals.{add-one}

-- The bytes that the loop writes.
abbrev pub int_bytes : ℕ → Int64 → List ℕ
int_bytes zero num = []
int_bytes (suc k) num = low_byte_of num ∷ int_bytes k (div_256 num)

set_int_loop_lem :
    (rounds : ℕ) (front old : List ℕ) (num : Int64)
    → rounds ≤ length old
    → set_int_loop rounds (front ++ old) (length front) num
      ≡ some (front ++ (int_bytes rounds num ++ drop rounds old))
unfolding set_int_loop
set_int_loop_lem zero front old num h = refl
set_int_loop_lem (suc rounds) front [] num h = absurd (omega arith)
set_int_loop_lem (suc rounds) front (x ∷ old) num h = rw (store_at front x old (low_byte_of num)) (
    simp (append_assoc, length-snoc) at
      (set_int_loop_lem rounds (front ++ (low_byte_of num ∷ [])) old (div_256 num) (omega arith)))

-- On 8 bytes the setter never fails.
pub set_uint64-int_bytes :
    (buf : List ℕ) (num : Int64)
    → 8 ≤ length buf
    → set_uint64 buf num ≡ some (int_bytes 8 num ++ drop 8 buf, 8)
unfolding set_uint64
set_uint64-int_bytes buf num h = rw (set_int_loop_lem 8 [] buf num h, ◌>>=◌)

-- A number that is not negative is written like an unsigned one.
int_bytes-pos : (k n : ℕ) → int_bytes k (pos n) ≡ le_bytes k n
unfolding low_byte_of div_256
int_bytes-pos zero n = refl
int_bytes-pos (suc k) n = rw (low_byte, int_bytes-pos k (n / 256))

-- The value of the bytes of -m.
abbrev minus_value : ℕ → ℕ → ℕ
minus_value zero m = 0
minus_value (suc k) m = (256 - m % 256) % 256 + 256 * minus_value k (m / 256)

low_byte_of-minus : (m : ℕ) → low_byte_of (minus m) ≡ (256 - m % 256) % 256
unfolding low_byte_of minus
low_byte_of-minus zero = rw low_byte
low_byte_of-minus (suc n) = rw low_byte (omega arith)

div_256-minus : (m : ℕ) → div_256 (minus m) ≡ minus (m / 256)
unfolding div_256 minus
div_256-minus zero = refl
div_256-minus (suc n) = rw (add-one n)

minus_value-lt : (k m : ℕ) → minus_value k m < 256 ^ k
minus_value-lt zero m = omega arith
minus_value-lt (suc k) m = omega (arith, pow-suc 256 k, minus_value-lt k (m / 256))

int_bytes-minus :
    (k m : ℕ)
    → (le_value (int_bytes k (minus m)) ≡ minus_value k m)
      × All IsByte (int_bytes k (minus m))
      × (length (int_bytes k (minus m)) ≡ k)
int_bytes-minus zero m = (refl, tt, refl)
int_bytes-minus (suc k) m =
    let ih = int_bytes-minus k (m / 256) in
    rw (low_byte_of-minus, div_256-minus)
      (ap (λ v. (256 - m % 256) % 256 + 256 * v) ih.0, (omega arith, ih.1), ap suc ih.2)

-- The lowest `k` bytes of `m` are zero.
abbrev LowZero : ℕ → ℕ → Type 0
LowZero zero m = Unit {0}
LowZero (suc k) m = (m % 256 ≡ 0) × LowZero k (m / 256)

minus_value-LowZero :
    (k m : ℕ) → 0 < m → m ≤ 256 ^ suc k → minus_value (suc k) m + m ≡ 256 ^ suc k → LowZero k m
minus_value-LowZero zero m m_pos le e = tt
minus_value-LowZero (suc k) m m_pos le e =
    let low : m % 256 ≡ 0 = omega (arith, pow-suc 256 (suc k), pow-suc 256 k) in
    (
      low,
      minus_value-LowZero k (m / 256) (omega arith) (omega (arith, pow-suc 256 (suc k)))
          (omega (arith, pow-suc 256 (suc k))),
    )

LowZero-minus_value :
    (k m : ℕ) → 0 < m → m ≤ 256 ^ suc k → LowZero k m → minus_value (suc k) m + m ≡ 256 ^ suc k
LowZero-minus_value zero m m_pos le low = omega arith
LowZero-minus_value (suc k) m m_pos le (low, rest) = omega (
  arith,
  pow-suc 256 (suc k),
  LowZero-minus_value k (m / 256) (omega arith) (omega (arith, pow-suc 256 (suc k))) rest,
)

signed_value :
    (buf : List ℕ) (m : ℕ)
    → 8 ≤ length buf
    → (set_uint64 buf (minus m) >>= λ r. get_uint64 r.0) ≡ some (minus_value 8 m)
signed_value buf m room =
    let ih = int_bytes-minus 8 m in
    rw (set_uint64-int_bytes buf (minus m) room, ◌>>=◌)
      (get_uint64-le_value (int_bytes 8 (minus m)) (drop 8 buf) ih.2 ih.1 ∙ ap some ih.0)

to_int64_positive : (u : ℕ) → u < 2 ^ 63 → to_int64 u ≡ pos u
unfolding to_int64
to_int64_positive u h = ground arith

to_int64_negative : (u m : ℕ) → u + suc m ≡ 2 ^ 64 → m < 2 ^ 63 → to_int64 u ≡ minus (suc m)
unfolding to_int64 minus
to_int64_negative u m e h = ground arith

LowZero-seven : (m : ℕ) → LowZero 7 m ↔ (m % 2 ^ 56 ≡ 0)
LowZero-seven m = (λ z. omega arith, λ z. omega arith)

-- On a negative number the two agree exactly when the low seven bytes are zero.
negative_iff :
    (buf : List ℕ) (u m : ℕ)
    → 8 ≤ length buf
    → u + suc m ≡ 2 ^ 64
    → m < 2 ^ 63
    → ((set_uint64 buf (to_int64 u) >>= λ r. get_uint64 r.0) ≡ some u) ↔ (u % 2 ^ 56 ≡ 0)
negative_iff buf u m room e small =
    let value = signed_value buf (suc m) room in
    rw (to_int64_negative u m e small, value)
      (
        (λ same.
            let v : minus_value 8 (suc m) ≡ u = cc in
            let z =
              (LowZero-seven (suc m)).0
                (minus_value-LowZero 7 (suc m) (omega arith) (omega arith) (rw v e)) in
            omega arith),
        (λ z.
            let low = (LowZero-seven (suc m)).1 (omega arith) in
            ap some (omega (arith, LowZero-minus_value 7 (suc m) (omega arith) (omega arith) low))),
      )

-- `set_uint64` then `get_uint64` gives a `uint64_t` back exactly when its top bit is clear or its
-- low seven bytes are all zero (the setter divides a negative number towards zero).
pub get_uint64-set_uint64_iff :
    (buf : List ℕ) (u : ℕ)
    → 8 ≤ length buf
    → u < 2 ^ 64
    → ((set_uint64 buf (to_int64 u) >>= λ r. get_uint64 r.0) ≡ some u)
      ↔ ((u < 2 ^ 63) ⊎ (u % 2 ^ 56 ≡ 0))
get_uint64-set_uint64_iff buf u room h = elim (dec_lt u (2 ^ 63)) [
  | yes lo ↦ (λ _. inl lo, λ _. positive lo)
  | no hi ↦
      let m : ℕ = 2 ^ 64 - 1 - u in
      let (to, from) = negative_iff buf u m room (omega arith) (omega arith) in
      (λ same. inr (to same), λ z. from (omega arith))
]
  where
    positive : u < 2 ^ 63 → (set_uint64 buf (to_int64 u) >>= λ r. get_uint64 r.0) ≡ some u
    positive lo =
        rw (to_int64_positive u lo, set_uint64-int_bytes buf (pos u) room, ◌>>=◌)
          (subst (λ bs. get_uint64 (bs ++ drop 8 buf) ≡ some u) (sym (int_bytes-pos 8 u))
            (get_uint64-le_bytes u (drop 8 buf) h))
