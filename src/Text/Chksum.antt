-- ===== src/Text/Chksum.antt =====
-- libyod/common.c: `chksum`, the complement of a sum of bytes with the carry added back.
use libyod.Prelude.{
  ℕ, zero, suc, ◌+◌, ◌-◌, ◌/◌, ◌%◌, ◌<◌, bit_and, bit_xor, ◌≡◌, refl, ap, ◌∙◌, Option, some, List,
  [], ◌∷◌, ◌++◌, arith, ltb, if◌then◌else◌, length, get_elem?, drop, ◌>>=◌, IsByte, All,
  get_elem?-drop,
}
use libyod.Prelude.Bits.{agree_below, agree_below→eq}
use libyod.Links.{All-append}
use libyod.Prelude.Bits.{low_byte}

-- `ret += data[i]; ret += (ret >> 8) & 0xFF; ret &= 0x0FF;` for each byte, `rounds` being `len - i`.
unfoldable pub chksum_loop : ℕ → List ℕ → ℕ → ℕ → Option ℕ
chksum_loop zero src i ret = some ret
chksum_loop (suc rounds) src i ret = do
  b ← get_elem? src i
  let sum = ret + b
  chksum_loop rounds src (suc i) (bit_and (sum + bit_and (sum / 256) 0xFF) 0xFF)

unfoldable pub chksum : List ℕ → ℕ → Option ℕ
chksum src len = do ret ← chksum_loop len src 0 0; some (bit_and (bit_xor ret 0xFF) 0xFF)

-- The sum in which 256 counts as 1.
abbrev pub carry : ℕ → ℕ → ℕ
carry ret b = if ltb (ret + b) 256 then ret + b else ret + b - 255

abbrev pub carry_sum : ℕ → List ℕ → ℕ
carry_sum ret [] = ret
carry_sum ret (b ∷ bs) = carry_sum (carry ret b) bs

carry_step :
    (ret b : ℕ)
    → ret < 256
    → b < 256
    → bit_and (ret + b + bit_and ((ret + b) / 256) 0xFF) 0xFF ≡ carry ret b
carry_step ret b h hb =
    let inner = low_byte ((ret + b) / 256) in
    let outer = low_byte (ret + b + bit_and ((ret + b) / 256) 0xFF) in ground arith

carry_sum-small : (ret : ℕ) (bs : List ℕ) → ret < 256 → All IsByte bs → carry_sum ret bs < 256
carry_sum-small ret [] h bytes = h
carry_sum-small ret (b ∷ bs) h (hb, bytes) = carry_sum-small (carry ret b) bs (ground arith) bytes

carry_sum-append :
    (ret : ℕ) (xs ys : List ℕ) → carry_sum ret (xs ++ ys) ≡ carry_sum (carry_sum ret xs) ys
carry_sum-append ret [] ys = refl
carry_sum-append ret (x ∷ xs) ys = carry_sum-append (carry ret x) xs ys

-- The sum of all bytes.
abbrev pub total : List ℕ → ℕ
total [] = 0
total (b ∷ bs) = b + total bs

carry_sum-total :
    (ret : ℕ) (bs : List ℕ)
    → ret < 256
    → All IsByte bs
    → carry_sum ret bs % 255 ≡ (ret + total bs) % 255
carry_sum-total ret [] h bytes = omega arith
carry_sum-total ret (b ∷ bs) h (byte, bytes) =
    let c : (carry ret b < 256) × (carry ret b % 255 ≡ (ret + b) % 255) =
      (ground arith, ground arith) in
    let ih = carry_sum-total (carry ret b) bs c.0 bytes in omega (arith, c.1)

chksum_loop-carry_sum :
    (src : List ℕ) (i : ℕ) (bs : List ℕ) (ret : ℕ)
    → drop i src ≡ bs
    → All IsByte bs
    → ret < 256
    → chksum_loop (length bs) src i ret ≡ some (carry_sum ret bs)
unfolding chksum_loop
chksum_loop-carry_sum src i [] ret read bytes h = refl
chksum_loop-carry_sum src i (b ∷ bs) ret read (byte, bytes) h =
    let (here, on) = get_elem?-drop src i read in
    rw (here, carry_step ret b h byte)
      (chksum_loop-carry_sum src (suc i) bs _ on bytes (ground arith))

flip_byte : (b : ℕ) → b < 256 → bit_and (bit_xor b 0xFF) 0xFF ≡ 255 - b
unfolding agree_below
flip_byte = agree_below→eq _ _ 256 refl

-- `chksum` of a whole buffer is what its sum, with the carry added back, lacks to 255.
chksum_lem :
    (src : List ℕ) → All IsByte src → chksum src (length src) ≡ some (255 - carry_sum 0 src)
unfolding chksum
chksum_lem src bytes =
    rw (chksum_loop-carry_sum src 0 src 0 refl bytes (omega arith))
      (ap some (flip_byte (carry_sum 0 src) (carry_sum-small 0 src (omega arith) bytes)))

-- The checksum of bytes is a byte that fills their sum to a multiple of 255, and bytes with their
-- checksum behind them have the checksum 0.
pub chksum-append :
    (src : List ℕ)
    → All IsByte src
    → (sum : ℕ) × (chksum src (length src) ≡ some sum)
      × (sum < 256)
      × ((sum + total src) % 255 ≡ 0)
      × (chksum (src ++ (sum ∷ [])) (length (src ++ (sum ∷ []))) ≡ some 0)
chksum-append src bytes =
    let s = carry_sum 0 src in
    let small = carry_sum-small 0 src (omega arith) bytes in
    let bytes' = (All-append IsByte src ((255 - s) ∷ [])).1 (bytes, (omega arith, tt)) in
    (
      255 - s,
      chksum_lem src bytes,
      omega arith,
      omega (arith, carry_sum-total 0 src (omega arith) bytes),
      chksum_lem (src ++ ((255 - s) ∷ [])) bytes'
          ∙ rw (carry_sum-append 0 src ((255 - s) ∷ [])) (ground arith),
    )
