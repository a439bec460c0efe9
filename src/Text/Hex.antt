-- ===== src/Text/Hex.antt =====
-- libyod/common.c: `byte2hex`, `hex2byte`, `blob2hex` and `hex2blob`.
pub mod RoundTrip
use libyod.Prelude.{
  ℕ, zero, suc, ◌+◌, ◌-◌, ◌*◌, ◌/◌, ◌%◌, ◌^◌, ◌≤◌, ◌<◌, bit_and, bit_or, bit_xor, ◌≡◌, refl, sym,
  ap, ◌∙◌, subst, ◌≢◌, ◌↔◌, ◌⊎◌, inl, inr, Bool, true, false, not, ◌&&◌, ◌||◌, Option, none, some,
  List, [], ◌∷◌, ◌++◌, map, append-nil, append_assoc, arith, dec_lt, ℕ_discrete, ltb, leb, ◌==◌,
  if◌then◌else◌, ltb→lt, lt→ltb, leb→le, ==_iff, tests, Bool-cases, Option-cases, length, get_elem?,
  set, length-append, length-snoc, length-set, get_elem?-set_self, get_elem?-set_ne, get_or, take,
  drop, drop-append, replicate, length-replicate, get_elem?-replicate, ◌>>=◌, IsByte, All, store,
  store_at, get_elem?-drop,
}

-- `cap` chooses between A to F and a to f. The result is a `char`.
unfoldable pub byte2hex : ℕ → Bool → ℕ
byte2hex num cap =
    if ltb 9 num then (if cap then (num + 55) % 256 else (num + 87) % 256) else num + 48

unfoldable pub hex2byte : ℕ → ℕ
hex2byte hex =
    if leb 48 hex && leb hex 57
    then hex - 48
    else if hex == 97 || hex == 65
    then 0x0A
    else if hex == 98 || hex == 66
    then 0x0B
    else if hex == 99 || hex == 67
    then 0x0C
    else if hex == 100 || hex == 68
    then 0x0D
    else if hex == 101 || hex == 69
    then 0x0E
    else if hex == 102 || hex == 70
    then 0x0F
    else 0xFF

-- `rounds` is `len - i`.
unfoldable pub blob2hex_loop : ℕ → ℕ → List ℕ → ℕ → List ℕ → Option (List ℕ)
unfolding byte2hex
blob2hex_loop zero max src i buf = some buf
blob2hex_loop (suc rounds) max src i buf =
    let write = (do
      b ← get_elem? src i
      buf1 ← store buf (i * 2) (byte2hex (b / 16) true)
      buf2 ← store buf1 (i * 2 + 1) (byte2hex (bit_and b 0x0F) true)
      buf3 ← store buf2 (i * 2 + 2) 0
      blob2hex_loop rounds max src (suc i) buf3) in
    if ltb max (i * 2 + 2) then some buf else write

unfoldable pub blob2hex : List ℕ → ℕ → List ℕ → ℕ → Option (List ℕ)
unfolding blob2hex_loop
blob2hex buf max src len = blob2hex_loop len max src 0 buf

-- `rounds` is `max - ret`. The result is the buffer and `ret`.
unfoldable pub hex2blob_loop : ℕ → List ℕ → ℕ → List ℕ → ℕ → Option (List ℕ × ℕ)
unfolding hex2byte
hex2blob_loop zero src len buf ret = some (buf, ret)
hex2blob_loop (suc rounds) src len buf ret =
    let write = (do
      a ← get_elem? src (ret * 2)
      b ← get_elem? src (ret * 2 + 1)
      buf' ← store buf ret (bit_or (hex2byte a * 16 % 256) (hex2byte b))
      hex2blob_loop rounds src len buf' (suc ret)) in
    if ltb len (ret * 2 + 1) then some (buf, ret) else write

unfoldable pub hex2blob : List ℕ → ℕ → List ℕ → ℕ → Option (List ℕ × ℕ)
unfolding hex2blob_loop
hex2blob buf max src len = hex2blob_loop max src len buf 0
