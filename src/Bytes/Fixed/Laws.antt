-- ===== src/Bytes/Fixed/Laws.antt =====
-- libyod/common.c: what the fixed-width setters write, what the getters read, and the round trips.
use libyod.Prelude.{
  ℕ, zero, suc, ◌+◌, ◌*◌, ◌/◌, ◌%◌, ◌^◌, ◌≤◌, ◌<◌, bit_and, ◌≡◌, refl, ◌∙◌, ap, List, [], ◌∷◌, ◌++◌,
  append_assoc, some, ◌>>=◌, length, length-snoc, drop, All, IsByte, store_at, get_elem?-drop,
  arith, subst,
}
use libyod.Prelude.Bits.{low_byte}
use libyod.Bytes.Fixed.{get_uint_loop, get_uint16, get_uint32, get_uint64}
use libyod.Bytes.Fixed.{set_uint_loop, set_uint16, set_uint32}
use native.Mathlib.Nat.{pow-suc, mod-eq_of_lt}

-- The number that a list of bytes stands for, lowest byte first, and the bytes of a number.
abbrev pub le_value : List ℕ → ℕ
le_value [] = 0
le_value (b ∷ bs) = b + 256 * le_value bs

abbrev pub le_bytes : ℕ → ℕ → List ℕ
le_bytes zero v = []
le_bytes (suc k) v = v % 256 ∷ le_bytes k (v / 256)

pub length-le_bytes : (k v : ℕ) → length (le_bytes k v) ≡ k
length-le_bytes zero v = refl
length-le_bytes (suc k) v = ap suc (length-le_bytes k (v / 256))

pub le_bytes-IsByte : (k v : ℕ) → All IsByte (le_bytes k v)
le_bytes-IsByte zero v = tt
le_bytes-IsByte (suc k) v = (omega arith, le_bytes-IsByte k (v / 256))

pub le_value-le_bytes : (k v : ℕ) → v < 256 ^ k → le_value (le_bytes k v) ≡ v
le_value-le_bytes zero v h = omega arith
le_value-le_bytes (suc k) v h =
    omega (arith, le_value-le_bytes k (v / 256) (omega (arith, pow-suc 256 k)))

pow_pos : (k : ℕ) → 1 ≤ 256 ^ k
pow_pos zero = omega arith
pow_pos (suc k) = omega (arith, pow-suc 256 k, pow_pos k)

grows : (n b ret : ℕ) → b < 256 → ret < n → ret + b * n < n * 256
grows n b ret hb h = omega (arith, mul_mono b 255 n (omega arith))
  where
    mul_mono : (a c m : ℕ) → a ≤ c → a * m ≤ c * m
    mul_mono a c m h = grind arith

le_mul : (a b : ℕ) → 1 ≤ b → a ≤ a * b
le_mul a b h = grind arith

get_uint_loop_step :
    (w rounds : ℕ) (buf : List ℕ) (i b n ret : ℕ) {back : List ℕ}
    → drop i buf ≡ b ∷ back
    → b < 256
    → n * 256 ≤ 2 ^ w
    → ret < n
    → get_uint_loop w (suc rounds) buf i n ret
      ≡ get_uint_loop w rounds buf (suc i) (n * 256 % 2 ^ w) (ret + b * n)
unfolding get_uint_loop
get_uint_loop_step w rounds buf i b n ret e hb fits h =
    let small = grows n b ret hb h in
    rw ((get_elem?-drop buf i e).0, low_byte, mod-eq_of_lt hb)
      (ap (get_uint_loop w rounds buf (suc i) (n * 256 % 2 ^ w)) (mod-eq_of_lt (omega arith)))

get_uint_loop_lem :
    (w : ℕ) (buf : List ℕ) (i : ℕ) (bs back : List ℕ) (n ret : ℕ)
    → All IsByte bs
    → drop i buf ≡ bs ++ back
    → n * 256 ^ length bs ≤ 2 ^ w
    → ret < n
    → get_uint_loop w (length bs) buf i n ret ≡ some (ret + n * le_value bs)
get_uint_loop_lem w buf i [] back n ret bytes e fits h =
    unfold get_uint_loop in ap some (omega arith)
get_uint_loop_lem w buf i (b ∷ []) back n ret (hb, hbs) e fits h =
    get_uint_loop_step w 0 buf i b n ret e hb (omega arith) h
    ∙ (unfold get_uint_loop in ap some (omega arith))
get_uint_loop_lem w buf i (b ∷ c ∷ bs) back n ret (hb, hbs) e fits h =
    let P : ℕ = 256 ^ length bs in
    let power : 256 ^ length (b ∷ c ∷ bs) ≡ P * 256 * 256 =
      pow-suc 256 (length (c ∷ bs)) ∙ ap (λ p. p * 256) (pow-suc 256 (length bs)) in
    let wide : n * (P * 256 * 256) ≤ 2 ^ w = rw (← power) fits in
    let room : n * 256 < 2 ^ w = omega (arith, le_mul n P (pow_pos (length bs))) in
    get_uint_loop_step w (length (c ∷ bs)) buf i b n ret e hb (omega arith) h
    ∙ rw (mod-eq_of_lt room) (
        get_uint_loop_lem w buf (suc i) (c ∷ bs) back (n * 256) (ret + b * n) hbs
          (get_elem?-drop buf i e).1 (rw (pow-suc 256 (length bs)) (omega arith))
          (grows n b ret hb h)
        ∙ ap some (omega arith))

set_uint_loop_lem :
    (rounds : ℕ) (front old : List ℕ) (num : ℕ)
    → rounds ≤ length old
    → set_uint_loop rounds (front ++ old) (length front) num
      ≡ some (front ++ (le_bytes rounds num ++ drop rounds old))
unfolding set_uint_loop
set_uint_loop_lem zero front old num h = refl
set_uint_loop_lem (suc rounds) front [] num h = absurd (omega arith)
set_uint_loop_lem (suc rounds) front (x ∷ old) num h =
    rw (store_at front x old (bit_and num 255), low_byte)
      (simp (append_assoc, length-snoc) at
        (set_uint_loop_lem rounds (front ++ (num % 256 ∷ [])) old (num / 256) (omega arith)))

-- The loop on a buffer that begins with `bs`, from its start.
get_uint_start :
    (w : ℕ) (bs back : List ℕ)
    → All IsByte bs
    → 256 ^ length bs ≤ 2 ^ w
    → get_uint_loop w (length bs) (bs ++ back) 0 1 0 ≡ some (le_value bs)
get_uint_start w bs back h fits =
    get_uint_loop_lem w (bs ++ back) 0 bs back 1 0 h refl (omega arith) (omega arith)
    ∙ ap some (omega arith)

-- The loop reads the number whose bytes stand at the start.
get_uint-le_bytes :
    (w k v : ℕ) (back : List ℕ)
    → 256 ^ k ≤ 2 ^ w
    → v < 256 ^ k
    → get_uint_loop w k (le_bytes k v ++ back) 0 1 0 ≡ some v
get_uint-le_bytes w k v back fits h =
    subst (λ n. get_uint_loop w n (le_bytes k v ++ back) 0 1 0 ≡ some v) (length-le_bytes k v)
      (get_uint_start w (le_bytes k v) back (le_bytes-IsByte k v) (rw (length-le_bytes k v) fits)
        ∙ ap some (le_value-le_bytes k v h))

pub get_uint16-le_bytes :
    (v : ℕ) (back : List ℕ) → v < 2 ^ 16 → get_uint16 (le_bytes 2 v ++ back) ≡ some v
get_uint16-le_bytes v back h =
    unfold get_uint16 in get_uint-le_bytes 16 2 v back (omega arith) (omega arith)

pub get_uint32-le_bytes :
    (v : ℕ) (back : List ℕ) → v < 2 ^ 32 → get_uint32 (le_bytes 4 v ++ back) ≡ some v
get_uint32-le_bytes v back h =
    unfold get_uint32 in get_uint-le_bytes 32 4 v back (omega arith) (omega arith)

pub get_uint64-le_bytes :
    (v : ℕ) (back : List ℕ) → v < 2 ^ 64 → get_uint64 (le_bytes 8 v ++ back) ≡ some v
get_uint64-le_bytes v back h =
    unfold get_uint64 in get_uint-le_bytes 64 8 v back (omega arith) (omega arith)

-- On any 8 bytes `get_uint64` is total.
pub get_uint64-le_value :
    (bs back : List ℕ)
    → length bs ≡ 8
    → All IsByte bs
    → get_uint64 (bs ++ back) ≡ some (le_value bs)
get_uint64-le_value bs back len h =
    unfold get_uint64 in
    subst (λ n. get_uint_loop 64 n (bs ++ back) 0 1 0 ≡ some (le_value bs)) len
      (get_uint_start 64 bs back h (rw len (omega arith)))

set_uint16-le_bytes :
    (buf : List ℕ) (num : ℕ)
    → 2 ≤ length buf
    → set_uint16 buf num ≡ some (le_bytes 2 num ++ drop 2 buf, 2)
unfolding set_uint16
set_uint16-le_bytes buf num h = rw (set_uint_loop_lem 2 [] buf num h, ◌>>=◌)

set_uint32-le_bytes :
    (buf : List ℕ) (num : ℕ)
    → 4 ≤ length buf
    → set_uint32 buf num ≡ some (le_bytes 4 num ++ drop 4 buf, 4)
unfolding set_uint32
set_uint32-le_bytes buf num h = rw (set_uint_loop_lem 4 [] buf num h, ◌>>=◌)

-- On a buffer with room, `set_uint16` returns 2, the buffer keeps its bytes from index 2 on, and
-- `get_uint16` reads back the `uint16_t` that was written.
pub get_uint16-set_uint16 :
    (buf : List ℕ) (num : ℕ)
    → 2 ≤ length buf
    → num < 2 ^ 16
    → (buf' : List ℕ) × (set_uint16 buf num ≡ some (buf', 2))
      × (get_uint16 buf' ≡ some num)
      × (drop 2 buf' ≡ drop 2 buf)
get_uint16-set_uint16 buf num room h = (
  le_bytes 2 num ++ drop 2 buf,
  set_uint16-le_bytes buf num room,
  get_uint16-le_bytes num (drop 2 buf) h,
  refl,
)

-- On a buffer with room, `set_uint32` returns 4, the buffer keeps its bytes from index 4 on, and
-- `get_uint32` reads back the `uint32_t` that was written.
pub get_uint32-set_uint32 :
    (buf : List ℕ) (num : ℕ)
    → 4 ≤ length buf
    → num < 2 ^ 32
    → (buf' : List ℕ) × (set_uint32 buf num ≡ some (buf', 4))
      × (get_uint32 buf' ≡ some num)
      × (drop 4 buf' ≡ drop 4 buf)
get_uint32-set_uint32 buf num room h = (
  le_bytes 4 num ++ drop 4 buf,
  set_uint32-le_bytes buf num room,
  get_uint32-le_bytes num (drop 4 buf) h,
  refl,
)
