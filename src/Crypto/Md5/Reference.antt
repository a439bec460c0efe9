-- ===== src/Crypto/Md5/Reference.antt =====
-- libyod/crypto.c: MD5 as RFC 1321 defines it, and the blocks of the code against it.
use libyod.Prelude.{
  ℕ, zero, suc, ◌+◌, ◌-◌, ◌*◌, ◌/◌, ◌%◌, ◌^◌, ◌≤◌, bit_and, bit_or, bit_xor, ◌≡◌, refl, ap, ◌∙◌,
  inl, inr, true, false, List, [], ◌∷◌, arith, ltb, leb, ◌==◌, if◌then◌else◌, Bool-cases, length,
  get_or, take, drop, length-drop,
}
use libyod.Crypto.Md5.{
  Words, Mix, ff, gg, hh, ii, mix, rotate, md5_step, md5_rows, md5_steps, md5_words, md5_block,
  md5_blocks,
}

-- The 64 operations have the numbers from 0 on, 16 in each of the four rounds. All words have 32 bits.
abbrev pub complement : ℕ → ℕ
complement x = 2 ^ 32 - 1 - x

-- F, G, H and I.
abbrev pub function : ℕ → ℕ → ℕ → ℕ → ℕ
function round x y z =
    if round == 0
    then bit_or (bit_and x y) (bit_and (complement x) z)
    else if round == 1
    then bit_or (bit_and x z) (bit_and y (complement z))
    else if round == 2
    then bit_xor (bit_xor x y) z
    else bit_xor y (bit_or x (complement z))

-- The word of the block that an operation takes.
abbrev pub word_index : ℕ → ℕ
word_index i =
    if i / 16 == 0
    then i % 16
    else if i / 16 == 1
    then (5 * i + 1) % 16
    else if i / 16 == 2
    then (3 * i + 5) % 16
    else 7 * i % 16

abbrev pub shift : ℕ → ℕ
shift i =
    let of_round =
      if i / 16 == 0
      then 7 ∷ 12 ∷ 17 ∷ 22 ∷ []
      else if i / 16 == 1
      then 5 ∷ 9 ∷ 14 ∷ 20 ∷ []
      else if i / 16 == 2
      then 4 ∷ 11 ∷ 16 ∷ 23 ∷ []
      else (6 ∷ 10 ∷ 15 ∷ 21 ∷ []) in
    get_or of_round (i % 4) 0

-- The distance between the sums of the positive and the negative terms of the sine series, where
-- `power` is the next term, with the exponent `k`.
unfoldable pub series : ℕ → ℕ → ℕ → ℕ → ℕ → ℕ → ℕ
series zero x k power sum other = if leb sum other then other - sum else sum - other
series (suc terms) x k power sum other =
    series terms x (k + 2) (power * x * x / ((k + 1) * (k + 2))) other (sum + power)

-- The integer part of 2^32 times the sine of `x`, without its sign, by 130 terms with 200 bits behind
-- the point.
unfoldable pub sine : ℕ → ℕ
unfolding series
sine x = series 130 x 1 (x * 2 ^ 200) 0 0 / 2 ^ 168

abbrev pub rotate_left : ℕ → ℕ → ℕ
rotate_left x n = bit_or (x * 2 ^ n % 2 ^ 32) (x / 2 ^ (32 - n))

-- One operation; the next one has the registers one place further on.
abbrev pub operation : List ℕ → ℕ → Words → Words
operation x i (a, b, c, d) =
    let sum = (a + function (i / 16) b c d + get_or x (word_index i) 0 + sine (i + 1)) % 2 ^ 32 in
    (d, (b + rotate_left sum (shift i)) % 2 ^ 32, b, c)

-- `n` operations from number `i` on.
abbrev pub operations : ℕ → ℕ → List ℕ → Words → Words
operations zero i x regs = regs
operations (suc n) i x regs = operations n (i + 1) x (operation x i regs)

-- Words of four bytes, the low one first.
abbrev pub words_of : List ℕ → List ℕ
words_of (p ∷ q ∷ r ∷ s ∷ bs) = (p + 256 * (q + 256 * (r + 256 * s))) ∷ words_of bs
words_of _ = []

unfoldable pub compress : Words → List ℕ → Words
compress s block =
    let regs = operations 64 0 (words_of block) s in
    (
      (s.0 + regs.0) % 2 ^ 32,
      (s.1 + regs.1) % 2 ^ 32,
      (s.2 + regs.2) % 2 ^ 32,
      (s.3 + regs.3) % 2 ^ 32,
    )

-- The first `n` blocks of a message.
abbrev pub compress_all : ℕ → Words → List ℕ → Words
compress_all zero s msg = s
compress_all (suc n) s msg = compress_all n (compress s (take 64 msg)) (drop 64 msg)

-- The rows of the code.
abbrev mix_of : ℕ → Mix
mix_of round = if round == 0 then ff else if round == 1 then gg else if round == 2 then hh else ii

abbrev row : ℕ → Mix × ℕ × ℕ × ℕ
row i = (mix_of (i / 16), word_index i, shift i, sine (i + 1))

abbrev rows : ℕ → ℕ → List (Mix × ℕ × ℕ × ℕ)
rows zero i = []
rows (suc n) i = row i ∷ rows n (i + 1)

rows_lem : md5_rows ≡ rows 64 0
unfolding sine
rows_lem = refl

mix_of_lem : (round b c d : ℕ) → mix (mix_of round) b c d ≡ function round b c d
unfolding mix
mix_of_lem round b c d = elim (Bool-cases (round == 0)) [
  | inl e ↦ rw e refl
  | inr n0 ↦ elim (Bool-cases (round == 1)) [
    | inl e ↦ rw (n0, e) refl
    | inr n1 ↦ elim (Bool-cases (round == 2)) [
      | inl e ↦ rw (n0, n1, e) refl
      | inr n2 ↦ rw (n0, n1, n2) refl
    ]
  ]
]

md5_step_lem : (x : List ℕ) (i : ℕ) (regs : Words) → md5_step x regs (row i) ≡ operation x i regs
unfolding md5_step rotate
md5_step_lem x i (a, b, c, d) =
    let sum = (a + function (i / 16) b c d + get_or x (word_index i) 0 + sine (i + 1)) % 2 ^ 32 in
    let turn : rotate_left sum (shift i) + b ≡ b + rotate_left sum (shift i) = omega arith in
    rw (mix_of_lem (i / 16) b c d) (ap (λ v. (d, v % 2 ^ 32, b, c)) turn)

md5_steps_lem :
    (n i : ℕ) (x : List ℕ) (regs : Words) → md5_steps x regs (rows n i) ≡ operations n i x regs
unfolding md5_steps
md5_steps_lem zero i x regs = refl
md5_steps_lem (suc n) i x regs =
    ap (λ w. md5_steps x w (rows n (i + 1))) (md5_step_lem x i regs)
    ∙ md5_steps_lem n (i + 1) x (operation x i regs)

all_rows : (x : List ℕ) (regs : Words) → md5_steps x regs md5_rows ≡ operations 64 0 x regs
all_rows x regs = ap (λ r. md5_steps x regs r) rows_lem ∙ md5_steps_lem 64 0 x regs

md5_words_lem : (bs : List ℕ) → md5_words bs ≡ words_of bs
unfolding md5_words
md5_words_lem [] = refl
md5_words_lem (p ∷ []) = refl
md5_words_lem (p ∷ q ∷ []) = refl
md5_words_lem (p ∷ q ∷ r ∷ []) = refl
md5_words_lem (p ∷ q ∷ r ∷ s ∷ bs) =
    let e : p + q * 2 ^ 8 + r * 2 ^ 16 + s * 2 ^ 24 ≡ p + 256 * (q + 256 * (r + 256 * s)) =
      omega arith in
    rw (e, md5_words_lem bs) refl

md5_block-compress : (s : Words) (block : List ℕ) → md5_block s block ≡ compress s block
unfolding md5_block compress
md5_block-compress (s0, s1, s2, s3) block =
    let run =
      ap (λ x. md5_steps x (s0, s1, s2, s3) md5_rows) (md5_words_lem block)
      ∙ all_rows (words_of block) (s0, s1, s2, s3) in
    ap
      (λ (w : Words).
        ((s0 + w.0) % 2 ^ 32, (s1 + w.1) % 2 ^ 32, (s2 + w.2) % 2 ^ 32, (s3 + w.3) % 2 ^ 32))
      run

-- The loop over whole blocks.
pub md5_blocks-compress_all :
    (fuel n : ℕ) (s : Words) (msg : List ℕ)
    → n ≡ length msg / 64
    → length msg ≤ fuel
    → (md5_blocks fuel s msg).0 ≡ compress_all n s msg
unfolding md5_blocks
md5_blocks-compress_all zero zero s msg e h = refl
md5_blocks-compress_all zero (suc n) s msg e h = absurd (omega arith)
md5_blocks-compress_all (suc fuel) zero s msg e h =
    let stop : ltb 63 (length msg) ≡ false = ground arith in rw stop refl
md5_blocks-compress_all (suc fuel) (suc n) s msg e h =
    let more : ltb 63 (length msg) ≡ true = ground arith in
    let len = length-drop 64 msg in
    rw (more, md5_block-compress s (take 64 msg))
      (md5_blocks-compress_all fuel n (compress s (take 64 msg)) (drop 64 msg) (omega arith)
        (omega arith))
