-- ===== src/Crypto/Md5.antt =====
-- libyod/crypto.c: MD5. A context takes a message in pieces of any size. A piece is the list of its
-- bytes, so that `len` is its length.
pub mod Absorb
pub mod Reference
pub mod Digest
use libyod.Text.Hex.{byte2hex}
use libyod.Prelude.{
  ℕ, zero, suc, ◌+◌, ◌-◌, ◌*◌, ◌/◌, ◌%◌, ◌^◌, ◌≤◌, ◌<◌, bit_and, bit_or, bit_xor, ◌≡◌, refl, sym,
  ap, ◌∙◌, subst, ◌≢◌, ◌↔◌, ◌⊎◌, inl, inr, Bool, true, false, not, ◌&&◌, ◌||◌, Option, none, some,
  List, [], ◌∷◌, ◌++◌, map, append-nil, append_assoc, arith, dec_lt, ℕ_discrete, ltb, leb, ◌==◌,
  if◌then◌else◌, ltb→lt, lt→ltb, leb→le, ==_iff, tests, Bool-cases, Option-cases, length, get_elem?,
  set, length-append, length-snoc, length-set, get_elem?-set_self, get_elem?-set_ne, get_or, take,
  drop, drop-append, replicate, length-replicate, get_elem?-replicate, ◌>>=◌, IsByte, All, store,
  store_at, get_elem?-drop,
}

-- `s`, the four words, in a tuple of their own.
abbrev pub Words : Type 0
Words = ℕ × ℕ × ℕ × ℕ

pub record Md5Enc : Type 0 where
  pub s : Words
  pub c0 : ℕ
  pub c1 : ℕ
  pub b : List ℕ

pub data Mix : Type 0 where
  ff : Mix
  gg : Mix
  hh : Mix
  ii : Mix

-- `~x` on 32 bits.
abbrev flip : ℕ → ℕ
flip x = 2 ^ 32 - 1 - x

-- What each of the four macros adds.
unfoldable pub mix : Mix → ℕ → ℕ → ℕ → ℕ
mix ff b c d = bit_or (bit_and b c) (bit_and (flip b) d)
mix gg b c d = bit_or (bit_and b d) (bit_and c (flip d))
mix hh b c d = bit_xor (bit_xor b c) d
mix ii b c d = bit_xor c (bit_or b (flip d))

-- `(a << n) | (a >> (32 - n))`
unfoldable pub rotate : ℕ → ℕ → ℕ
rotate a n = bit_or (a * 2 ^ n % 2 ^ 32) (a / 2 ^ (32 - n))

-- One macro call on the registers. The next call has them one place further on.
unfoldable pub md5_step : List ℕ → Words → Mix × ℕ × ℕ × ℕ → Words
unfolding mix rotate
md5_step x (a, b, c, d) (m, i, n, k) =
    let sum = (a + mix m b c d + get_or x i 0 + k) % 2 ^ 32 in
    (d, (rotate sum n + b) % 2 ^ 32, b, c)

abbrev pub md5_rows : List (Mix × ℕ × ℕ × ℕ)
md5_rows =
    (ff, 0, 0x07, 0xD76AA478)
    ∷ (ff, 1, 0x0C, 0xE8C7B756)
    ∷ (ff, 2, 0x11, 0x242070DB)
    ∷ (ff, 3, 0x16, 0xC1BDCEEE)
    ∷ (ff, 4, 0x07, 0xF57C0FAF)
    ∷ (ff, 5, 0x0C, 0x4787C62A)
    ∷ (ff, 6, 0x11, 0xA8304613)
    ∷ (ff, 7, 0x16, 0xFD469501)
    ∷ (ff, 8, 0x07, 0x698098D8)
    ∷ (ff, 9, 0x0C, 0x8B44F7AF)
    ∷ (ff, 10, 0x11, 0xFFFF5BB1)
    ∷ (ff, 11, 0x16, 0x895CD7BE)
    ∷ (ff, 12, 0x07, 0x6B901122)
    ∷ (ff, 13, 0x0C, 0xFD987193)
    ∷ (ff, 14, 0x11, 0xA679438E)
    ∷ (ff, 15, 0x16, 0x49B40821)
    ∷ (gg, 1, 0x05, 0xF61E2562)
    ∷ (gg, 6, 0x09, 0xC040B340)
    ∷ (gg, 11, 0x0E, 0x265E5A51)
    ∷ (gg, 0, 0x14, 0xE9B6C7AA)
    ∷ (gg, 5, 0x05, 0xD62F105D)
    ∷ (gg, 10, 0x09, 0x02441453)
    ∷ (gg, 15, 0x0E, 0xD8A1E681)
    ∷ (gg, 4, 0x14, 0xE7D3FBC8)
    ∷ (gg, 9, 0x05, 0x21E1CDE6)
    ∷ (gg, 14, 0x09, 0xC33707D6)
    ∷ (gg, 3, 0x0E, 0xF4D50D87)
    ∷ (gg, 8, 0x14, 0x455A14ED)
    ∷ (gg, 13, 0x05, 0xA9E3E905)
    ∷ (gg, 2, 0x09, 0xFCEFA3F8)
    ∷ (gg, 7, 0x0E, 0x676F02D9)
    ∷ (gg, 12, 0x14, 0x8D2A4C8A)
    ∷ (hh, 5, 0x04, 0xFFFA3942)
    ∷ (hh, 8, 0x0B, 0x8771F681)
    ∷ (hh, 11, 0x10, 0x6D9D6122)
    ∷ (hh, 14, 0x17, 0xFDE5380C)
    ∷ (hh, 1, 0x04, 0xA4BEEA44)
    ∷ (hh, 4, 0x0B, 0x4BDECFA9)
    ∷ (hh, 7, 0x10, 0xF6BB4B60)
    ∷ (hh, 10, 0x17, 0xBEBFBC70)
    ∷ (hh, 13, 0x04, 0x289B7EC6)
    ∷ (hh, 0, 0x0B, 0xEAA127FA)
    ∷ (hh, 3, 0x10, 0xD4EF3085)
    ∷ (hh, 6, 0x17, 0x04881D05)
    ∷ (hh, 9, 0x04, 0xD9D4D039)
    ∷ (hh, 12, 0x0B, 0xE6DB99E5)
    ∷ (hh, 15, 0x10, 0x1FA27CF8)
    ∷ (hh, 2, 0x17, 0xC4AC5665)
    ∷ (ii, 0, 0x06, 0xF4292244)
    ∷ (ii, 7, 0x0A, 0x432AFF97)
    ∷ (ii, 14, 0x0F, 0xAB9423A7)
    ∷ (ii, 5, 0x15, 0xFC93A039)
    ∷ (ii, 12, 0x06, 0x655B59C3)
    ∷ (ii, 3, 0x0A, 0x8F0CCC92)
    ∷ (ii, 10, 0x0F, 0xFFEFF47D)
    ∷ (ii, 1, 0x15, 0x85845DD1)
    ∷ (ii, 8, 0x06, 0x6FA87E4F)
    ∷ (ii, 15, 0x0A, 0xFE2CE6E0)
    ∷ (ii, 6, 0x0F, 0xA3014314)
    ∷ (ii, 13, 0x15, 0x4E0811A1)
    ∷ (ii, 4, 0x06, 0xF7537E82)
    ∷ (ii, 11, 0x0A, 0xBD3AF235)
    ∷ (ii, 2, 0x0F, 0x2AD7D2BB)
    ∷ (ii, 9, 0x15, 0xEB86D391)
    ∷ []

unfoldable pub md5_steps : List ℕ → Words → List (Mix × ℕ × ℕ × ℕ) → Words
unfolding md5_step
md5_steps x regs [] = regs
md5_steps x regs (row ∷ rows) = md5_steps x (md5_step x regs row) rows

-- Four bytes for each word, the low one first.
unfoldable pub md5_words : List ℕ → List ℕ
md5_words (p ∷ q ∷ r ∷ s ∷ bs) = (p + q * 2 ^ 8 + r * 2 ^ 16 + s * 2 ^ 24) ∷ md5_words bs
md5_words _ = []

-- One block of 64 bytes.
unfoldable pub md5_block : Words → List ℕ → Words
unfolding md5_steps md5_words
md5_block (s0, s1, s2, s3) temp =
    let (a, b, c, d) = md5_steps (md5_words temp) (s0, s1, s2, s3) md5_rows in
    ((s0 + a) % 2 ^ 32, (s1 + b) % 2 ^ 32, (s2 + c) % 2 ^ 32, (s3 + d) % 2 ^ 32)

-- `while (k + 63 < len)` where `rest` is the data from index `k` on, on fuel.
unfoldable pub md5_blocks : ℕ → Words → List ℕ → Words × List ℕ
md5_blocks zero s rest = (s, rest)
md5_blocks (suc fuel) s rest =
    let more = md5_blocks fuel (md5_block s (take 64 rest)) (drop 64 rest) in
    if ltb 63 (length rest) then more else (s, rest)

-- `memcpy(&b[n], src, ...)`
abbrev pub paste : List ℕ → ℕ → List ℕ → List ℕ
paste b n src = take n b ++ (src ++ drop (n + length src) b)

unfoldable pub md5_count : ℕ → ℕ → ℕ → ℕ × ℕ
md5_count c0 c1 len =
    let bits = len % 2 ^ 32 * 8 % 2 ^ 32 in
    let c0' = (c0 + bits) % 2 ^ 32 in
    let c1' = if ltb c0' bits then (c1 + 1) % 2 ^ 32 else c1 in
    (c0', (c1' + len % 2 ^ 32 / 2 ^ 29) % 2 ^ 32)

-- `_yod_crypto_md5enc`
unfoldable pub md5_update : Md5Enc → List ℕ → Md5Enc
md5_update ctx src =
    let n = bit_and (ctx.c0 / 8) 0x3F in
    let (c0', c1') = md5_count ctx.c0 ctx.c1 (length src) in
    let l = 64 - n in
    let b' = paste ctx.b n (take l src) in
    let (s', rest) = md5_blocks (length src) (md5_block ctx.s b') (drop l src) in
    if leb l (length src)
    then record { s = s'; c0 = c0'; c1 = c1'; b = paste b' 0 rest }
    else record { s = ctx.s; c0 = c0'; c1 = c1'; b = paste ctx.b n src }

-- The four bytes of a word, the low one first.
unfoldable pub md5_bytes : ℕ → List ℕ
md5_bytes x = x % 256 ∷ x / 2 ^ 8 % 256 ∷ x / 2 ^ 16 % 256 ∷ x / 2 ^ 24 % 256 ∷ []

-- `b` is not set before the first piece: any 64 bytes stand in it.
abbrev pub md5_init : List ℕ → Md5Enc
md5_init junk = record {
  s = (0x67452301, 0xEFCDAB89, 0x98BADCFE, 0x10325476);
  c0 = 0;
  c1 = 0;
  b = junk;
}

-- The end of the message: the padding, then the number of bits.
unfoldable pub md5_final : Md5Enc → List ℕ
md5_final ctx =
    let count = md5_bytes ctx.c0 ++ md5_bytes ctx.c1 in
    let n = bit_and (ctx.c0 / 8) 0x3F in
    let l = if ltb n 56 then 56 - n else 120 - n in
    let end = (md5_update (md5_update ctx (0x80 ∷ replicate (l - 1) 0)) count).s in
    md5_bytes end.0 ++ (md5_bytes end.1 ++ (md5_bytes end.2 ++ md5_bytes end.3))

-- `none` is NULL, for no data.
unfoldable pub md5enc : List ℕ → List ℕ → Option (List ℕ)
md5enc junk src =
    if length src == 0 then none else some (md5_final (md5_update (md5_init junk) src))

-- Two digits for each byte, and the end.
unfoldable pub md5_digits : List ℕ → List ℕ
md5_digits [] = 0 ∷ []
md5_digits (b ∷ md5) = byte2hex (b / 16) false ∷ byte2hex (bit_and b 0x0F) false ∷ md5_digits md5

unfoldable pub md5str : List ℕ → List ℕ → Option (List ℕ)
md5str junk src = do md5 ← md5enc junk src; some (md5_digits md5)

-- `md5file`, where the reads of the file return `pieces`, of one to 1024 bytes each.
unfoldable pub md5_pieces : Md5Enc → List (List ℕ) → Md5Enc
md5_pieces ctx [] = ctx
md5_pieces ctx (piece ∷ pieces) = md5_pieces (md5_update ctx piece) pieces

unfoldable pub md5file : List ℕ → List (List ℕ) → List ℕ
md5file junk pieces = md5_final (md5_pieces (md5_init junk) pieces)
