-- ===== src/Bytes/Vint/Encode.antt =====
-- libyod/common.c: what `set_vint32` and `set_vint64` write.
use libyod.Prelude.{
  ℕ, zero, suc, ◌+◌, ◌/◌, ◌%◌, ◌≤◌, ◌<◌, ◌≡◌, refl, ap, ◌∙◌, Option, some, List, [], ◌∷◌, ◌++◌,
  append_assoc, arith, dec_lt, ltb, if◌then◌else◌, lt→ltb, length, length-snoc, drop, ◌>>=◌,
  store_at,
}
use libyod.Prelude.Bits.{set_top_bit}
use native.Mathlib.Nat.{mod-eq_of_lt}
use libyod.Bytes.Vint.{set_vint_loop, set_vint_last, set_vint32, set_vint64, ℕ, List}

-- The bytes of `v`, with at most `k` bytes that announce another.
unfoldable pub vint_bytes : ℕ → ℕ → List ℕ
vint_bytes zero v = v % 256 ∷ []
vint_bytes (suc k) v =
    let rest = vint_bytes k (v / 128) in
    if ltb 128 v then (v % 128 + 128) ∷ rest else (v % 256 ∷ [])

pub vint_bytes_stop : (k num : ℕ) → num ≤ 128 → vint_bytes (suc k) num ≡ num ∷ []
unfolding vint_bytes
vint_bytes_stop k num h = ground arith

pub vint_bytes_more :
    (k num : ℕ) → 128 < num → vint_bytes (suc k) num ≡ (num % 128 + 128) ∷ vint_bytes k (num / 128)
unfolding vint_bytes
vint_bytes_more k num h = ground arith

pub length-vint_bytes :
    (k num : ℕ) → (1 ≤ length (vint_bytes k num)) × (length (vint_bytes k num) ≤ suc k)
unfolding vint_bytes
length-vint_bytes zero num = omega arith
length-vint_bytes (suc k) num = ground (arith, length-vint_bytes k (num / 128))

module _ (fuel limit : ℕ) where
  loop_stop :
      (buf : List ℕ) (ret num : ℕ)
      → num ≤ 128
      → set_vint_loop (suc fuel) limit buf ret num ≡ some (buf, ret, num)
  unfolding set_vint_loop
  loop_stop buf ret num h = ground arith

  module _ (front : List ℕ) (x : ℕ) (old : List ℕ) (num : ℕ) (more : 128 < num) where
    loop_more :
        length front ≤ limit
        → set_vint_loop (suc fuel) limit (front ++ (x ∷ old)) (length front) num
          ≡ set_vint_loop fuel limit
              (front ++ ((num % 128 + 128) ∷ old))
              (suc (length front))
              (num / 128)
    unfolding set_vint_loop
    loop_more h =
        rw (lt→ltb 128 num more, store_at front x old, set_top_bit (num % 128) (omega arith))
          (ground arith)

    loop_break :
        limit < length front
        → set_vint_loop (suc fuel) limit (front ++ (x ∷ old)) (length front) num
          ≡ some (front ++ ((num % 128 + 128) ∷ old), suc (length front), num / 128)
    unfolding set_vint_loop
    loop_break h =
        rw (lt→ltb 128 num more, store_at front x old, set_top_bit (num % 128) (omega arith))
          (ground arith)

abbrev written : List ℕ → List ℕ → List ℕ → Option (List ℕ × ℕ)
written front bs old = some (front ++ (bs ++ drop (length bs) old), length front + length bs)

set_vint_last_lem :
    (front : List ℕ) (x : ℕ) (old : List ℕ) (num : ℕ)
    → set_vint_last (front ++ (x ∷ old), length front, num)
      ≡ written front (num % 256 ∷ []) (x ∷ old)
unfolding set_vint_last
set_vint_last_lem front x old num = rw (store_at front x old) (ground arith)

written_snoc :
    (front : List ℕ) (b : ℕ) (bs : List ℕ) (x : ℕ) (old : List ℕ)
    → written (front ++ (b ∷ [])) bs old ≡ written front (b ∷ bs) (x ∷ old)
written_snoc front b bs x old = simp (append_assoc, length-snoc) (ground arith)

stop_lem :
    (k limit : ℕ) (front : List ℕ) (x : ℕ) (old : List ℕ) (num : ℕ)
    → num ≤ 128
    → (set_vint_loop (suc k) limit (front ++ (x ∷ old)) (length front) num >>= set_vint_last)
      ≡ written front (vint_bytes (suc k) num) (x ∷ old)
stop_lem k limit front x old num h =
    rw (loop_stop k limit (front ++ (x ∷ old)) (length front) num h, vint_bytes_stop k num h)
      (rw (mod-eq_of_lt {n = num} {m = 256} (omega arith)) at (set_vint_last_lem front x old num))

break_lem :
    (limit : ℕ) (front : List ℕ) (x y : ℕ) (old : List ℕ) (num : ℕ)
    → limit < length front
    → 128 < num
    → (set_vint_loop 1 limit (front ++ (x ∷ y ∷ old)) (length front) num >>= set_vint_last)
      ≡ written front (vint_bytes 1 num) (x ∷ y ∷ old)
unfolding vint_bytes
break_lem limit front x y old num h more =
    let b : ℕ = num % 128 + 128 in
    rw (loop_break 0 limit front x (y ∷ old) num more h, vint_bytes_more 0 num more, ◌>>=◌)
      (rw (append_assoc, length-snoc) at
        (set_vint_last_lem (front ++ (b ∷ [])) y old (num / 128)
          ∙ written_snoc front b (num / 128 % 256 ∷ []) x (y ∷ old)))

set_vint_loop_lem :
    (k limit : ℕ) (front old : List ℕ) (num : ℕ)
    → length front + suc k ≡ limit + 2
    → length (vint_bytes (suc k) num) ≤ length old
    → (set_vint_loop (suc k) limit (front ++ old) (length front) num >>= set_vint_last)
      ≡ written front (vint_bytes (suc k) num) old
set_vint_loop_lem k limit front [] num e room =
    absurd (omega (arith, length-vint_bytes (suc k) num))
set_vint_loop_lem zero limit front (x ∷ old) num e room = elim (dec_lt 128 num) [
  | no stop ↦ stop_lem 0 limit front x old num (omega arith)
  | yes more ↦
      last_round old
        (omega (arith, ap length (vint_bytes_more 0 num more), length-vint_bytes 0 (num / 128)))
        more
]
  where
    last_round :
        (old : List ℕ)
        → 1 ≤ length old
        → 128 < num
        → (set_vint_loop 1 limit (front ++ (x ∷ old)) (length front) num >>= set_vint_last)
          ≡ written front (vint_bytes 1 num) (x ∷ old)
    last_round [] h more = absurd (omega arith)
    last_round (y ∷ old) h more = break_lem limit front x y old num (omega arith) more
set_vint_loop_lem (suc k) limit front (x ∷ old) num e room = elim (dec_lt 128 num) [
  | no stop ↦ stop_lem (suc k) limit front x old num (omega arith)
  | yes more ↦
      let b : ℕ = num % 128 + 128 in
      rw
        (
          loop_more (suc k) limit front x old num more (omega arith),
          vint_bytes_more (suc k) num more,
        )
        (rw (append_assoc, length-snoc) at
          (set_vint_loop_lem k limit (front ++ (b ∷ [])) old (num / 128)
              (rw length-snoc (omega arith))
              (omega (arith, ap length (vint_bytes_more (suc k) num more)))
            ∙ written_snoc front b (vint_bytes (suc k) (num / 128)) x old))
]

-- With room in the buffer the loop never runs out of fuel.
pub set_vint32-vint_bytes :
    (buf : List ℕ) (num : ℕ)
    → length (vint_bytes 5 num) ≤ length buf
    → set_vint32 buf num
      ≡ some (vint_bytes 5 num ++ drop (length (vint_bytes 5 num)) buf, length (vint_bytes 5 num))
set_vint32-vint_bytes buf num room =
    unfold set_vint32 in
    set_vint_loop_lem 4 3 [] buf num refl room
    ∙ ap some
        (ap (λ n. (vint_bytes 5 num ++ drop (length (vint_bytes 5 num)) buf, n)) (omega arith))

pub set_vint64-vint_bytes :
    (buf : List ℕ) (num : ℕ)
    → length (vint_bytes 9 num) ≤ length buf
    → set_vint64 buf num
      ≡ some (vint_bytes 9 num ++ drop (length (vint_bytes 9 num)) buf, length (vint_bytes 9 num))
set_vint64-vint_bytes buf num room =
    unfold set_vint64 in
    set_vint_loop_lem 8 7 [] buf num refl room
    ∙ ap some
        (ap (λ n. (vint_bytes 9 num ++ drop (length (vint_bytes 9 num)) buf, n)) (omega arith))
