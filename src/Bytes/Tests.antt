-- ===== src/Bytes/Tests.antt =====
-- The byte codecs of libyod/common.c at concrete inputs.
use libyod.Prelude.{
  ℕ, ◌-◌, ◌*◌, ◌%◌, ◌^◌, ◌≤◌, ◌<◌, ◌≡◌, refl, ◌↔◌, ◌⊎◌, some, List, ◌∷◌, arith, drop, replicate,
  ◌>>=◌, store, [], ◌+◌, take,
}
use libyod.Bytes.Fixed.{
  get_uint16, get_uint32, get_uint64, set_uint16, set_uint32, set_uint64, to_int64,
}
use libyod.Bytes.Fixed.Laws.{get_uint16-set_uint16, get_uint32-set_uint32}
use libyod.Bytes.Fixed.Signed.{get_uint64-set_uint64_iff}
use libyod.Bytes.Field.{set_blob, get_blob, set_text, get_text}
use libyod.Bytes.Field.RoundTrip.{get_blob-set_blob_iff, get_text-set_text_iff}
use libyod.Bytes.Vint.{get_vint32, get_vint64, set_vint32, set_vint64}
use libyod.Bytes.Vint.Decode.{Skips}
use libyod.Bytes.Vint.RoundTrip.{
  get_vint32-set_vint32_iff, get_vint64-set_vint64_iff, set_vint64-ten,
}

abbrev blank : List ℕ
blank = replicate 12 7

set_uint16_run : set_uint16 blank 0x1234 ≡ some (0x34 ∷ 0x12 ∷ replicate 10 7, 2)
unfolding set_uint16 store
set_uint16_run = refl

set_vint32_run : set_vint32 blank 300 ≡ some (0xAC ∷ 0x02 ∷ replicate 10 7, 2)
unfolding set_vint32 store
set_vint32_run = refl

-- The number 128 reads back as something else.
set_vint32_boundary_run : (set_vint32 blank 128 >>= λ r. get_vint32 r.0) ≡ some (7 * 128, 2)
unfolding set_vint32 store get_vint32
set_vint32_boundary_run = refl

-- The pattern of -1 reads back as 255.
set_uint64_minus_one_run :
    (set_uint64 blank (to_int64 (2 ^ 64 - 1)) >>= λ r. get_uint64 r.0) ≡ some 255
unfolding set_uint64 store get_uint64 to_int64
set_uint64_minus_one_run = refl

get_uint16-set_uint16_example :
    (buf' : List ℕ) × (set_uint16 blank 0x1234 ≡ some (buf', 2))
    × (get_uint16 buf' ≡ some 0x1234)
    × (drop 2 buf' ≡ drop 2 blank)
get_uint16-set_uint16_example = get_uint16-set_uint16 blank 0x1234 (omega arith) (omega arith)

get_uint32-set_uint32_example :
    (buf' : List ℕ) × (set_uint32 blank 0x12345678 ≡ some (buf', 4))
    × (get_uint32 buf' ≡ some 0x12345678)
    × (drop 4 buf' ≡ drop 4 blank)
get_uint32-set_uint32_example = get_uint32-set_uint32 blank 0x12345678 (omega arith) (omega arith)

get_uint64-set_uint64_iff_example :
    ((set_uint64 blank (to_int64 (2 ^ 64 - 1)) >>= λ r. get_uint64 r.0) ≡ some (2 ^ 64 - 1))
    ↔ ((2 ^ 64 - 1 < 2 ^ 63) ⊎ ((2 ^ 64 - 1) % 2 ^ 56 ≡ 0))
get_uint64-set_uint64_iff_example =
    get_uint64-set_uint64_iff blank (2 ^ 64 - 1) (omega arith) (omega arith)

get_vint32-set_vint32_iff_example :
    (buf' : List ℕ) × (len : ℕ) × (set_vint32 blank 300 ≡ some (buf', len))
    × (len ≤ 5)
    × (drop len buf' ≡ drop len blank)
    × ((get_vint32 buf' ≡ some (300, len)) ↔ Skips 4 300)
get_vint32-set_vint32_iff_example = get_vint32-set_vint32_iff blank 300 (omega arith) (omega arith)

get_vint64-set_vint64_iff_example :
    (buf' : List ℕ) × (len : ℕ) × (set_vint64 blank 5000000000 ≡ some (buf', len))
    × (len ≤ 9)
    × (drop len buf' ≡ drop len blank)
    × ((get_vint64 buf' ≡ some (5000000000, len)) ↔ Skips 8 5000000000)
get_vint64-set_vint64_iff_example =
    get_vint64-set_vint64_iff blank 5000000000 (omega arith) (omega arith)

set_vint64-ten_example :
    (buf' : List ℕ) × (set_vint64 blank (2 ^ 64 - 1) ≡ some (buf', 10))
    × (drop 10 buf' ≡ drop 10 blank)
set_vint64-ten_example = set_vint64-ten blank (2 ^ 64 - 1) (omega arith) (omega arith)

get_blob-set_blob_iff_example :
    (buf' : List ℕ) × (pos : ℕ) × (set_blob blank (some (1 ∷ 2 ∷ [])) 2 ≡ some (buf', 2 + pos))
    × (drop (pos + 2) buf' ≡ drop (pos + 2) blank)
    × (take 2 (drop pos buf') ≡ 1 ∷ 2 ∷ [])
    × ((get_blob buf' ≡ some (2, pos)) ↔ Skips 4 2)
get_blob-set_blob_iff_example = get_blob-set_blob_iff blank (1 ∷ 2 ∷ []) (omega arith) (omega arith)

get_text-set_text_iff_example :
    (buf' : List ℕ) × (pos : ℕ) × (set_text blank (some (65 ∷ 66 ∷ [])) 2
      ≡ some (buf', 2 + pos + 1))
    × (drop (pos + 2) buf' ≡ 0 ∷ drop (pos + 2 + 1) blank)
    × (take 2 (drop pos buf') ≡ 65 ∷ 66 ∷ [])
    × ((get_text buf' ≡ some (2, pos)) ↔ Skips 4 2)
get_text-set_text_iff_example =
    get_text-set_text_iff blank (65 ∷ 66 ∷ []) (omega arith) (omega arith)
