-- ===== src/Bytes/Vint/Decode.antt =====
-- libyod/common.c: what the loop of `get_vint32` and `get_vint64` reads.
use libyod.Prelude.{
  ℕ, zero, suc, ◌+◌, ◌*◌, ◌/◌, ◌%◌, ◌^◌, ◌≤◌, ◌<◌, bit_and, ◌≡◌, sym, ap, ◌∙◌, ◌≢◌, inl, inr, some,
  List, [], ◌∷◌, ◌++◌, arith, dec_lt, Option-cases, length, get_elem?, drop, get_elem?-drop,
}
use libyod.Prelude.Bits.{low_bits, top_bit}
use native.Mathlib.Nat.{mod-eq_of_lt, pow-suc, div-add-mod}
use libyod.Bytes.Vint.{get_vint_loop}
use libyod.Bytes.Vint.Encode.{vint_bytes, vint_bytes_stop, vint_bytes_more}

-- No quotient of `v` by 128 ^ j, for j up to `k`, is 128.
abbrev pub Skips : ℕ → ℕ → Type 0
Skips zero v = v ≢ 128
Skips (suc k) v = (v ≢ 128) × Skips k (v / 128)

vint_bytes_zero : (v : ℕ) → v < 128 → vint_bytes 0 v ≡ v ∷ []
unfolding vint_bytes
vint_bytes_zero v h = rw (mod-eq_of_lt {n = v} {m = 256} (omega arith))

-- A number below 128 ^ (k + 1) takes at most `k` bytes that announce another.
pub vint_bytes_enough : (k v : ℕ) → v < 128 ^ suc k → vint_bytes (suc k) v ≡ vint_bytes k v
vint_bytes_enough zero v h =
    vint_bytes_stop 0 v (omega arith) ∙ sym (vint_bytes_zero v (omega arith))
vint_bytes_enough (suc k) v h = elim (dec_lt 128 v) [
  | no stop ↦ vint_bytes_stop (suc k) v (omega arith) ∙ sym (vint_bytes_stop k v (omega arith))
  | yes more ↦
      rw (vint_bytes_more (suc k) v more, vint_bytes_more k v more)
        (ap (λ bs. (v % 128 + 128) ∷ bs)
          (vint_bytes_enough k (v / 128) (omega (arith, pow-suc 128 (suc k)))))
]

module _ (w rounds : ℕ) (buf : List ℕ) (i b n ret : ℕ) {back : List ℕ} (e : drop i buf ≡ b ∷ back)
    (small : b < 256) where
  get_vint_loop_last :
      b < 128
      → ret + b * n < 2 ^ w
      → get_vint_loop w (suc rounds) buf i n ret ≡ some (ret + b * n, suc i)
  unfolding get_vint_loop
  get_vint_loop_last h fits =
      rw
        (
          (get_elem?-drop buf i e).0,
          low_bits b small,
          top_bit b small,
          mod-eq_of_lt {n = b} {m = 128} h,
          mod-eq_of_lt fits,
        )
        (ground arith)

  get_vint_loop_more :
      128 ≤ b
      → ret + b % 128 * n < 2 ^ w
      → get_vint_loop w (suc rounds) buf i n ret
        ≡ get_vint_loop w rounds buf (suc i) (n * 128 % 2 ^ w) (ret + b % 128 * n)
  unfolding get_vint_loop
  get_vint_loop_more h fits =
      rw ((get_elem?-drop buf i e).0, low_bits b small, top_bit b small, mod-eq_of_lt fits)
        (ground arith)

  -- A byte with the top bit set sends the loop to the next byte, whatever the numbers are.
  pub get_vint_loop_on :
      128 ≤ b
      → get_vint_loop w (suc rounds) buf i n ret
        ≡ get_vint_loop w rounds buf (suc i) (n * 128 % 2 ^ w) ((ret + b % 128 * n) % 2 ^ w)
  unfolding get_vint_loop
  get_vint_loop_on h =
      rw ((get_elem?-drop buf i e).0, low_bits b small, top_bit b small) (ground arith)

mul_le : (a b c : ℕ) → a ≤ b → a * c ≤ b * c
mul_le a b c h = grind arith

split_seven : (v n : ℕ) → v * n ≡ v % 128 * n + v / 128 * (n * 128)
split_seven v n = omega (arith, ap (λ (t : ℕ). t * n) (div-add-mod v 128))

pub get_vint_loop_lem :
    (w k : ℕ) (buf : List ℕ) (i v n ret : ℕ) (back : List ℕ)
    → drop i buf ≡ vint_bytes k v ++ back
    → v < 128 ^ suc k
    → 0 < n
    → ret + v * n < 2 ^ w
    → Skips k v
    → get_vint_loop w (suc k) buf i n ret ≡ some (ret + v * n, i + length (vint_bytes k v))
get_vint_loop_lem w zero buf i v n ret back e small n_pos fits skips =
    rw (vint_bytes_zero v (omega arith)) (
      get_vint_loop_last w 0 buf i v n ret
        (e ∙ ap (λ bs. bs ++ back) (vint_bytes_zero v (omega arith))) (omega arith) (omega arith)
        fits
      ∙ ap some (ap (λ c. (ret + v * n, c)) (omega arith)))
get_vint_loop_lem w (suc k) buf i v n ret back e small n_pos fits (skip, skips) =
    elim (dec_lt 128 v) [
      | no stop ↦
          let bytes = vint_bytes_stop k v (omega arith) in
          rw bytes (
            get_vint_loop_last w (suc k) buf i v n ret (e ∙ ap (λ bs. bs ++ back) bytes)
              (omega arith) (omega arith) fits
            ∙ ap some (ap (λ c. (ret + v * n, c)) (omega arith)))
      | yes more ↦
          let b : ℕ = v % 128 + 128 in
          let bytes = vint_bytes_more k v more in
          let e' = e ∙ ap (λ bs. bs ++ back) bytes in
          let low : b % 128 ≡ v % 128 = omega arith in
          let split : v * n ≡ v % 128 * n + v / 128 * (n * 128) = split_seven v n in
          let wide : n * 128 < 2 ^ w = omega (arith, mul_le 128 v n (omega arith)) in
          rw bytes (
            get_vint_loop_more w (suc k) buf i b n ret e' (omega arith) (omega arith)
              (rw low (omega arith))
            ∙ rw (low, mod-eq_of_lt wide)
                (get_vint_loop_lem w k buf (suc i) (v / 128) (n * 128) (ret + v % 128 * n) back
                    (get_elem?-drop buf i e').1 (omega (arith, pow-suc 128 (suc k))) (omega arith)
                    (omega arith) skips
                  ∙ ground arith))
    ]

-- The last byte of a number that takes all `k + 1` bytes has its top bit clear.
pub vint_bytes_last :
    (k v : ℕ) (back : List ℕ)
    → v < 128 ^ suc k
    → Skips k v
    → length (vint_bytes k v) ≡ suc k
    → (b : ℕ) × (get_elem? (vint_bytes k v ++ back) k ≡ some b) × (b < 128)
vint_bytes_last zero v back small skip full = (v, rw (vint_bytes_zero v (omega arith)), omega arith)
vint_bytes_last (suc k) v back small (skip, skips) full = elim (dec_lt 128 v) [
  | no stop ↦ absurd (omega (arith, ap length (vint_bytes_stop k v (omega arith))))
  | yes more ↦
      let bytes = vint_bytes_more k v more in
      let (b, e, h) =
        vint_bytes_last k (v / 128) back (omega (arith, pow-suc 128 (suc k))) skips
          (omega (arith, ap length bytes)) in
      (b, rw bytes e, h)
]

-- The number left after `j` divisions.
abbrev pub quotient : ℕ → ℕ → ℕ
quotient zero v = v
quotient (suc j) v = quotient j (v / 128)

pub quotient_large : (j v : ℕ) → 128 ≤ quotient j v → 128 ≤ v
quotient_large zero v e = omega arith
quotient_large (suc j) v e = omega (arith, quotient_large j (v / 128) e)

module _ (w : ℕ) where
  get_vint_loop_grows :
      (rounds : ℕ) (buf : List ℕ) (i n ret : ℕ) (x c : ℕ)
      → get_vint_loop w rounds buf i n ret ≡ some (x, c)
      → i ≤ c
  unfolding get_vint_loop
  get_vint_loop_grows zero buf i n ret x c e = ground arith
  get_vint_loop_grows (suc rounds) buf i n ret x c e = elim (Option-cases (get_elem? buf i)) [
    | inl missing ↦ cc (rw missing at e)
    | inr (b, found) ↦
        let e' = rw found at e in
        ground (
          arith,
          get_vint_loop_grows rounds buf (suc i) (n * 128 % 2 ^ w)
              ((ret + bit_and b 0x7F * n) % 2 ^ w) x c,
        )
  ]

  get_vint_loop_advances :
      (rounds : ℕ) (buf : List ℕ) (i n ret : ℕ) (x c : ℕ)
      → get_vint_loop w (suc rounds) buf i n ret ≡ some (x, c)
      → suc i ≤ c
  unfolding get_vint_loop
  get_vint_loop_advances rounds buf i n ret x c e = elim (Option-cases (get_elem? buf i)) [
    | inl missing ↦ cc (rw missing at e)
    | inr (b, found) ↦
        let e' = rw found at e in
        ground (
          arith,
          get_vint_loop_grows rounds buf (suc i) (n * 128 % 2 ^ w)
              ((ret + bit_and b 0x7F * n) % 2 ^ w) x c,
        )
  ]

  -- The byte 128 that ends the encoding sends the decoder on to whatever stands behind it.
  pub get_vint_loop_past :
      (j k rounds : ℕ) (buf : List ℕ) (i v n ret : ℕ) (back : List ℕ) (x c : ℕ)
      → drop i buf ≡ vint_bytes (suc k) v ++ back
      → quotient j v ≡ 128
      → j ≤ k
      → j + 2 ≤ rounds
      → get_vint_loop w rounds buf i n ret ≡ some (x, c)
      → i + length (vint_bytes (suc k) v) < c
  get_vint_loop_past zero k (suc (suc rounds)) buf i v n ret back x c e hit le room run =
      let bytes = vint_bytes_stop k v (omega arith) in
      rw bytes (
        let step =
          get_vint_loop_on w (suc rounds) buf i v n ret (e ∙ ap (λ bs. bs ++ back) bytes)
            (omega arith) (omega arith) in
        omega (arith, get_vint_loop_advances rounds buf (suc i) _ _ x c (sym step ∙ run)))
  get_vint_loop_past (suc j) (suc k) (suc rounds) buf i v n ret back x c e hit le room run =
      let more : 128 < v = omega (arith, quotient_large j (v / 128) (omega arith)) in
      let bytes = vint_bytes_more (suc k) v more in
      let e' = e ∙ ap (λ bs. bs ++ back) bytes in
      rw bytes (
        let step =
          get_vint_loop_on w rounds buf i (v % 128 + 128) n ret e' (omega arith) (omega arith) in
        omega (
          arith,
          get_vint_loop_past j k rounds buf (suc i) (v / 128) _ _ back x c
              (get_elem?-drop buf i e').1 hit (omega arith) (omega arith) (sym step ∙ run),
        ))
  get_vint_loop_past _ _ _ buf i v n ret back x c e hit le room run = absurd (omega arith)
