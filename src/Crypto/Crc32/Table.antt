-- ===== src/Crypto/Crc32/Table.antt =====
-- libyod/crypto.c: the table of the checksum against eight steps of one bit.
use libyod.Prelude.{
  ℕ, zero, suc, ◌/◌, ◌%◌, ◌<◌, bit_xor, ◌≡◌, refl, ◌==◌, if◌then◌else◌, get_or, [],
}
use libyod.Prelude.Bits.{agree_below, agree_below→eq, low_byte}
use libyod.Crypto.Crc32.{
  crc32_tbl, List, crc32, crc32_loop, ◌∷◌, drop, length, get_elem?, some, not32, get_elem?-drop,
  arith,
}

-- Division by the polynomial, one bit, low bits first.
abbrev pub crc_bits : ℕ → ℕ → ℕ
crc_bits zero x = x
crc_bits (suc n) x = crc_bits n (if x % 2 == 0 then x / 2 else bit_xor (x / 2) 0xEDB88320)

tbl_entry : (i : ℕ) → i < 256 → get_or crc32_tbl i 0 ≡ crc_bits 8 i
unfolding agree_below
tbl_entry = agree_below→eq _ _ 256 refl

get_elem?-get_or : (xs : List ℕ) (i : ℕ) → i < length xs → get_elem? xs i ≡ some (get_or xs i 0)
get_elem?-get_or [] i h = elim h [ ]
get_elem?-get_or (x ∷ xs) zero h = refl
get_elem?-get_or (x ∷ xs) (suc i) h = get_elem?-get_or xs i (omega arith)

-- The checksum without a table.
abbrev pub crc_all : ℕ → List ℕ → ℕ
crc_all ret [] = ret
crc_all ret (b ∷ bs) = crc_all (bit_xor (ret / 256) (crc_bits 8 (bit_xor ret b % 256))) bs

crc32_loop-crc_all :
    (src : List ℕ) (i : ℕ) (bs : List ℕ) (ret : ℕ)
    → drop i src ≡ bs
    → crc32_loop (length bs) src i ret ≡ some (crc_all ret bs)
unfolding crc32_loop
crc32_loop-crc_all src i [] ret read = refl
crc32_loop-crc_all src i (b ∷ bs) ret read =
    let (here, on) = get_elem?-drop src i read in
    let at = bit_xor ret b % 256 in
    let small : at < 256 = omega arith in
    rw (here, low_byte (bit_xor ret b), get_elem?-get_or crc32_tbl at small, tbl_entry at small)
      (crc32_loop-crc_all src (suc i) bs _ on)

-- `crc32` of all bytes of a buffer is the checksum by division, one bit in a step, for each byte.
pub crc32-crc_all : (src : List ℕ) → crc32 src (length src) ≡ some (not32 (crc_all (not32 0) src))
unfolding crc32
crc32-crc_all src = rw (crc32_loop-crc_all src 0 src (not32 0) refl)
