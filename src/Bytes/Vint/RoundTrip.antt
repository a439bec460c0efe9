-- ===== src/Bytes/Vint/RoundTrip.antt =====
-- libyod/common.c: which numbers the variable-length codec gives back.
use libyod.Prelude.{
  ℕ, suc, ◌+◌, ◌*◌, ◌^◌, ◌≤◌, ◌<◌, ◌≡◌, refl, ◌≢◌, inl, inr, Option, some, List, ◌++◌, arith,
  dec_lt, Option-cases, length, get_elem?, ◌>>=◌, drop, ◌↔◌, ap, drop-append, subst, ◌/◌, zero,
}
use libyod.Prelude.Bits.{top_bit}
use libyod.Bytes.Vint.{get_vint_loop, get_vint_top, set_vint32, get_vint32, set_vint64, get_vint64}
use libyod.Bytes.Vint.Encode.{
  vint_bytes, vint_bytes_more, length-vint_bytes, set_vint32-vint_bytes, set_vint64-vint_bytes,
}
use libyod.Bytes.Vint.Decode.{
  Skips, quotient, get_vint_loop_lem, vint_bytes_last, get_vint_loop_past, quotient_large,
  vint_bytes_enough,
}

module _ (w k top : ℕ) where
  get_vint : List ℕ → Option (ℕ × ℕ)
  get_vint buf = get_vint_loop w (suc k) buf 0 1 0 >>= get_vint_top w k top buf

  get_vint_top_short :
      (buf : List ℕ) (v i : ℕ) → i ≤ k → get_vint_top w k top buf (v, i) ≡ some (v, i)
  unfolding get_vint_top
  get_vint_top_short buf v i h = ground arith

  get_vint_top_clear :
      (buf : List ℕ) (v i b : ℕ)
      → get_elem? buf k ≡ some b
      → b < 128
      → get_vint_top w k top buf (v, i) ≡ some (v, i)
  unfolding get_vint_top
  get_vint_top_clear buf v i b e h = rw (e, ◌>>=◌, top_bit b (omega arith)) (ground arith)

  get_vint_top_count :
      (buf : List ℕ) (v i x c : ℕ) → get_vint_top w k top buf (v, i) ≡ some (x, c) → i ≡ c
  unfolding get_vint_top
  get_vint_top_count buf v i x c e = ground arith

  get_vint_lem :
      (v : ℕ) (back : List ℕ)
      → v < 128 ^ suc k
      → v < 2 ^ w
      → Skips k v
      → get_vint (vint_bytes k v ++ back) ≡ some (v, length (vint_bytes k v))
  unfolding get_vint
  get_vint_lem v back small fits skips =
      let run =
        get_vint_loop_lem w k (vint_bytes k v ++ back) 0 v 1 0 back refl small (omega arith)
          (omega arith) skips in
      let pair : (0 + v * 1 ≡ v) × (0 + length (vint_bytes k v) ≡ length (vint_bytes k v)) =
        (omega arith, omega arith) in
      rw (run, pair.0, pair.1, ◌>>=◌)
        (elim (dec_lt k (length (vint_bytes k v))) [
          | no short ↦ get_vint_top_short _ v _ (omega arith)
          | yes full ↦
              let (b, e, h) =
                vint_bytes_last k v back small skips (omega (arith, length-vint_bytes k v)) in
              get_vint_top_clear _ v _ b e h
        ])

  get_vint_past :
      (j v m : ℕ) (back : List ℕ) (x : ℕ)
      → quotient j v ≡ 128
      → j ≤ m
      → suc j ≤ k
      → get_vint (vint_bytes (suc m) v ++ back) ≢ some (x, length (vint_bytes (suc m) v))
  unfolding get_vint
  get_vint_past j v m back x hit le room run =
      elim (Option-cases (get_vint_loop w (suc k) (vint_bytes (suc m) v ++ back) 0 1 0)) [
        | inl missing ↦ cc (rw missing at run)
        | inr ((y, c), found) ↦
            let top_run = rw (found, ◌>>=◌) at run in
            omega (
              arith,
              get_vint_top_count _ y c x _ top_run,
              get_vint_loop_past w j m (suc k) _ 0 v 1 0 back y c refl hit le (omega arith) found,
            )
      ]

Skips-quotient : (k v : ℕ) → ((j : ℕ) → j < k → quotient j v ≢ 128) → quotient k v ≢ 128 → Skips k v
Skips-quotient zero v each last = last
Skips-quotient (suc k) v each last =
    (each 0 (omega arith), Skips-quotient k (v / 128) (λ j lt. each (suc j) (omega arith)) last)

module _ (num : ℕ) (back : List ℕ) where
  pub vint32_iff :
      num < 2 ^ 32
      → (get_vint32 (vint_bytes 5 num ++ back) ≡ some (num, length (vint_bytes 5 num)))
        ↔ Skips 4 num
  unfolding get_vint32 get_vint
  vint32_iff h =
      let past = get_vint_past 32 4 0x80000000 in
      (
        (λ run.
            Skips-quotient 4 num (λ j lt e. past j num 4 back num e (omega arith) (omega arith) run)
              (omega arith)),
        (λ skips.
            rw (vint_bytes_enough 4 num (omega arith))
              (get_vint_lem 32 4 0x80000000 num back (omega arith) h skips)),
      )

  vint64_iff :
      num < 2 ^ 63
      → (get_vint64 (vint_bytes 9 num ++ back) ≡ some (num, length (vint_bytes 9 num)))
        ↔ Skips 8 num
  unfolding get_vint64 get_vint
  vint64_iff h =
      let past = get_vint_past 64 8 0x8000000000000000 in
      (
        (λ run.
            Skips-quotient 8 num (λ j lt e. past j num 8 back num e (omega arith) (omega arith) run)
              (omega arith)),
        (λ skips.
            rw (vint_bytes_enough 8 num (omega arith))
              (get_vint_lem 64 8 0x8000000000000000 num back (omega arith) (omega arith) skips)),
      )

-- `set_vint32` into a buffer of at least 5 bytes succeeds on every `uint32_t`: it writes at most 5
-- bytes, keeps the rest of the buffer, and `get_vint32` reads the number back with the same count
-- exactly when none of num, num / 128, num / 128^2, num / 128^3 and num / 128^4 is 128.
pub get_vint32-set_vint32_iff :
    (buf : List ℕ) (num : ℕ)
    → 5 ≤ length buf
    → num < 2 ^ 32
    → (buf' : List ℕ) × (len : ℕ) × (set_vint32 buf num ≡ some (buf', len))
      × (len ≤ 5)
      × (drop len buf' ≡ drop len buf)
      × ((get_vint32 buf' ≡ some (num, len)) ↔ Skips 4 num)
get_vint32-set_vint32_iff buf num room h =
    let bytes = vint_bytes 5 num in
    let back = drop (length bytes) buf in
    let short : length bytes ≤ 5 =
      omega (arith, ap length (vint_bytes_enough 4 num (omega arith)), length-vint_bytes 4 num) in
    (
      bytes ++ back,
      length bytes,
      set_vint32-vint_bytes buf num (omega arith),
      short,
      drop-append bytes back,
      vint32_iff num back h,
    )

-- `set_vint64` into a buffer of at least 9 bytes succeeds on every number below 2^63: it writes at
-- most 9 bytes, keeps the rest of the buffer, and `get_vint64` reads the number back with the same
-- count exactly when no num / 128^j, for j from 0 to 8, is 128.
pub get_vint64-set_vint64_iff :
    (buf : List ℕ) (num : ℕ)
    → 9 ≤ length buf
    → num < 2 ^ 63
    → (buf' : List ℕ) × (len : ℕ) × (set_vint64 buf num ≡ some (buf', len))
      × (len ≤ 9)
      × (drop len buf' ≡ drop len buf)
      × ((get_vint64 buf' ≡ some (num, len)) ↔ Skips 8 num)
get_vint64-set_vint64_iff buf num room h =
    let bytes = vint_bytes 9 num in
    let back = drop (length bytes) buf in
    let short : length bytes ≤ 9 =
      omega (arith, ap length (vint_bytes_enough 8 num (omega arith)), length-vint_bytes 8 num) in
    (
      bytes ++ back,
      length bytes,
      set_vint64-vint_bytes buf num (omega arith),
      short,
      drop-append bytes back,
      vint64_iff num back h,
    )

length-vint_bytes_full :
    (k v : ℕ) → 128 < quotient k v → length (vint_bytes (suc k) v) ≡ suc (suc k)
unfolding vint_bytes
length-vint_bytes_full zero v h = ground arith
length-vint_bytes_full (suc k) v h =
    let more : 128 < v = omega (arith, quotient_large k (v / 128) (omega arith)) in
    rw (vint_bytes_more (suc k) v more) (ap suc (length-vint_bytes_full k (v / 128) h))

-- From 129 * 2^56 on, `set_vint64` writes ten bytes, one more than its parameter `byte data[9]` has.
pub set_vint64-ten :
    (buf : List ℕ) (num : ℕ)
    → 10 ≤ length buf
    → 129 * 2 ^ 56 ≤ num
    → (buf' : List ℕ) × (set_vint64 buf num ≡ some (buf', 10)) × (drop 10 buf' ≡ drop 10 buf)
set_vint64-ten buf num room h =
    let bytes = vint_bytes 9 num in
    let full : length bytes ≡ 10 = length-vint_bytes_full 8 num (omega arith) in
    subst
      (λ n. (buf' : List ℕ) × (set_vint64 buf num ≡ some (buf', n)) × (drop n buf' ≡ drop n buf))
      full
      (
        bytes ++ drop (length bytes) buf,
        set_vint64-vint_bytes buf num (omega arith),
        drop-append bytes (drop (length bytes) buf),
      )
