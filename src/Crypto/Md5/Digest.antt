-- ===== src/Crypto/Md5/Digest.antt =====
-- libyod/crypto.c: the digest of a whole message, against MD5 as RFC 1321 defines it.
use libyod.Prelude.{
  ℕ, zero, suc, ◌+◌, ◌-◌, ◌*◌, ◌/◌, ◌%◌, ◌^◌, ◌≤◌, ◌<◌, bit_and, ◌≡◌, refl, sym, ap, ◌∙◌, subst,
  false, some, List, [], ◌∷◌, ◌++◌, append-nil, append_assoc, arith, ltb, ◌==◌, if◌then◌else◌,
  length, length-append, replicate, length-replicate, All,
}
use libyod.Prelude.Bits.{low_six}
use libyod.Crypto.Md5.{
  Words, Md5Enc, md5_init, md5_update, md5_bytes, md5_final, md5_pieces, md5enc, md5file,
}
use libyod.Crypto.Md5.Reference.{compress_all, md5_blocks-compress_all}
use libyod.Crypto.Md5.Absorb.{chunks_stop, Absorbed, md5_update-Absorbed}

abbrev pub start : Words
start = (0x67452301, 0xEFCDAB89, 0x98BADCFE, 0x10325476)

-- `k` bytes of a number, the low one first.
abbrev pub le_bytes : ℕ → ℕ → List ℕ
le_bytes zero x = []
le_bytes (suc k) x = x % 256 ∷ le_bytes k (x / 256)

-- The zero bytes behind the first byte of the padding: the length is 56 behind whole blocks then.
abbrev pub zeros : ℕ → ℕ
zeros len = (119 - len % 64) % 64

-- The message, a byte 0x80, zero bytes, and the number of bits in eight bytes.
abbrev pub padded : List ℕ → List ℕ
padded msg =
    (msg ++ (0x80 ∷ replicate (zeros (length msg)) 0)) ++ le_bytes 8 (8 * length msg % 2 ^ 64)

abbrev pub digest_bytes : Words → List ℕ
digest_bytes (a, b, c, d) = le_bytes 4 a ++ (le_bytes 4 b ++ (le_bytes 4 c ++ le_bytes 4 d))

-- MD5 of a message, taken whole, as RFC 1321 defines it: the blocks of the padded message, one after
-- the other.
abbrev pub md5_of : List ℕ → List ℕ
md5_of msg = digest_bytes (compress_all (length (padded msg) / 64) start (padded msg))

-- The padding leaves no part of a block.
length-padded : (msg : List ℕ) → length (padded msg) % 64 ≡ 0
length-padded msg = omega (
  arith,
  length-append (msg ++ (0x80 ∷ replicate (zeros (length msg)) 0))
      (le_bytes 8 (8 * length msg % 2 ^ 64)),
  length-append msg (0x80 ∷ replicate (zeros (length msg)) 0),
  length-replicate {A = ℕ} (zeros (length msg)) 0,
)

md5_bytes-le_bytes : (x : ℕ) → md5_bytes x ≡ le_bytes 4 x
unfolding md5_bytes
md5_bytes-le_bytes x =
    let e2 : x / 2 ^ 16 ≡ x / 256 / 256 = omega arith in
    let e3 : x / 2 ^ 24 ≡ x / 256 / 256 / 256 = omega arith in rw (e2, e3)

count_bytes :
    (c0 c1 : ℕ) → c0 < 2 ^ 32 → le_bytes 4 c0 ++ le_bytes 4 c1 ≡ le_bytes 8 (c0 + 2 ^ 32 * c1)
count_bytes c0 c1 low =
    let x = c0 + 2 ^ 32 * c1 in
    let h0 : x % 256 ≡ c0 % 256 = omega arith in
    let h1 : x / 256 % 256 ≡ c0 / 256 % 256 = omega arith in
    let h2 : x / 256 / 256 % 256 ≡ c0 / 256 / 256 % 256 = omega arith in
    let h3 : x / 256 / 256 / 256 % 256 ≡ c0 / 256 / 256 / 256 % 256 = omega arith in
    let h4 : x / 256 / 256 / 256 / 256 ≡ c1 = omega arith in rw (h4, h3, h2, h1, h0)

digest_bytes_lem :
    (w : Words)
    → md5_bytes w.0 ++ (md5_bytes w.1 ++ (md5_bytes w.2 ++ md5_bytes w.3)) ≡ digest_bytes w
digest_bytes_lem w =
    rw (
      md5_bytes-le_bytes w.0,
      md5_bytes-le_bytes w.1,
      md5_bytes-le_bytes w.2,
      md5_bytes-le_bytes w.3,
    )

module _ (ctx : Md5Enc) (msg : List ℕ) (state : Absorbed start ctx msg) where
  pad_zeros :
      let n = bit_and (ctx.c0 / 8) 0x3F in
      (if ltb n 56 then 56 - n else 120 - n) - 1 ≡ zeros (length msg)
  pad_zeros =
      let n : bit_and (ctx.c0 / 8) 0x3F ≡ length msg % 64 =
        omega (arith, low_six (ctx.c0 / 8), state.counted, state.low_word) in
      rw n (ground arith)

  count : md5_bytes ctx.c0 ++ md5_bytes ctx.c1 ≡ le_bytes 8 (8 * length msg % 2 ^ 64)
  count = rw (
    md5_bytes-le_bytes ctx.c0,
    md5_bytes-le_bytes ctx.c1,
    count_bytes ctx.c0 ctx.c1 state.low_word,
    state.counted,
  )

  abbrev padding : List ℕ
  padding = 0x80 ∷ replicate (zeros (length msg)) 0

  md5_final_run :
      md5_final ctx
      ≡ digest_bytes (md5_update (md5_update ctx padding) (le_bytes 8 (8 * length msg % 2 ^ 64))).s
  unfolding md5_final
  md5_final_run = rw (pad_zeros, count) (digest_bytes_lem _)

  -- The end of a message that the context holds gives its digest.
  md5_final_lem : md5_final ctx ≡ md5_of msg
  md5_final_lem =
      let short : length padding < 2 ^ 32 =
        omega (arith, length-replicate {A = ℕ} (zeros (length msg)) 0) in
      let one = md5_update-Absorbed start ctx msg state padding short in
      let two =
        md5_update-Absorbed start (md5_update ctx padding) (msg ++ padding) one
          (le_bytes 8 (8 * length msg % 2 ^ 64)) (omega arith) in
      md5_final_run
      ∙ ap digest_bytes (
          two.words
          ∙ md5_blocks-compress_all (length (padded msg)) (length (padded msg) / 64) start
              (padded msg) refl (omega arith))

pub init-Absorbed : (junk : List ℕ) → length junk ≡ 64 → Absorbed start (md5_init junk) []
init-Absorbed junk wide = record {
  words = sym (ap (λ r. r.0) (chunks_stop start [] (omega arith)));
  held = sym (ap (λ r. r.1) (chunks_stop start [] (omega arith)));
  wide = wide;
  counted = refl;
  low_word = omega arith;
  high_word = omega arith;
}

-- `md5enc` of one byte or more, fewer than 2^32, is their MD5 as RFC 1321 defines it, whatever stood
-- in the context's block.
pub md5enc-md5_of :
    (junk src : List ℕ)
    → length junk ≡ 64
    → 0 < length src
    → length src < 2 ^ 32
    → md5enc junk src ≡ some (md5_of src)
unfolding md5enc
md5enc-md5_of junk src wide some_data short =
    let full = md5_update-Absorbed start (md5_init junk) [] (init-Absorbed junk wide) src short in
    let data_here : (length src == 0) ≡ false = ground arith in
    rw data_here (ap some (md5_final_lem (md5_update (md5_init junk) src) src full))

abbrev pub concat : List (List ℕ) → List ℕ
concat [] = []
concat (xs ∷ xss) = xs ++ concat xss

md5_pieces-Absorbed :
    (ctx : Md5Enc) (msg : List ℕ) (pieces : List (List ℕ))
    → Absorbed start ctx msg
    → All (λ p. length p ≤ 1024) pieces
    → Absorbed start (md5_pieces ctx pieces) (msg ++ concat pieces)
unfolding md5_pieces
md5_pieces-Absorbed ctx msg [] state sizes = rw (append-nil msg) state
md5_pieces-Absorbed ctx msg (piece ∷ pieces) state (size, sizes) =
    subst (Absorbed start (md5_pieces (md5_update ctx piece) pieces))
      (append_assoc msg piece (concat pieces))
      (md5_pieces-Absorbed (md5_update ctx piece) (msg ++ piece) pieces
        (md5_update-Absorbed start ctx msg state piece (omega arith)) sizes)

-- `md5file` of a file is the MD5 of its bytes, as RFC 1321 defines it, however the reads, of 1024
-- bytes at most, cut it.
pub md5file-md5_of :
    (junk : List ℕ) (pieces : List (List ℕ))
    → length junk ≡ 64
    → All (λ p. length p ≤ 1024) pieces
    → md5file junk pieces ≡ md5_of (concat pieces)
unfolding md5file
md5file-md5_of junk pieces wide sizes =
    md5_final_lem (md5_pieces (md5_init junk) pieces) (concat pieces)
      (md5_pieces-Absorbed (md5_init junk) [] pieces (init-Absorbed junk wide) sizes)
