-- ===== src/Text/Url.antt =====
-- libyod/common.c: `urlencode` and `urldecode`. A text is the list of its characters without the end;
-- reading behind the end is no result.
pub mod RoundTrip
pub mod Decode
use libyod.Prelude.{
  ℕ, zero, suc, ◌+◌, ◌-◌, ◌*◌, ◌/◌, ◌%◌, ◌^◌, ◌≤◌, ◌<◌, bit_and, bit_or, bit_xor, ◌≡◌, refl, sym,
  ap, ◌∙◌, subst, ◌≢◌, ◌↔◌, ◌⊎◌, inl, inr, Bool, true, false, not, ◌&&◌, ◌||◌, Option, none, some,
  List, [], ◌∷◌, ◌++◌, map, append-nil, append_assoc, arith, dec_lt, ℕ_discrete, ltb, leb, ◌==◌,
  if◌then◌else◌, ltb→lt, lt→ltb, leb→le, ==_iff, tests, Bool-cases, Option-cases, length, get_elem?,
  set, length-append, length-snoc, length-set, get_elem?-set_self, get_elem?-set_ne, get_or, take,
  drop, drop-append, take-append, take-append_le, drop-append_le, take-append_ge, drop-append_ge,
  length-take, length-drop, replicate, length-replicate, get_elem?-replicate, ◌>>=◌, IsByte, All,
  store, store_at, get_elem?-drop,
}
use libyod.Text.Hex.{byte2hex, hex2byte}

unfoldable pub is_alnum : ℕ → Bool
is_alnum c = (leb 48 c && leb c 57) || (leb 65 c && leb c 90) || (leb 97 c && leb c 122)

-- `byte2hex(url[i] >> 4, 1)` and `byte2hex(url[i] % 16, 1)`, where `url[i]` is a signed `char`.
unfoldable pub high_digit : ℕ → ℕ
high_digit c = byte2hex (if ltb c 128 then c / 16 else c / 16 + 240) true

unfoldable pub low_digit : ℕ → ℕ
low_digit c = byte2hex (if ltb c 128 then c % 16 else (256 - (256 - c) % 16) % 256) true

-- What the code writes for one character, and the next `j`.
unfoldable pub write_char : List ℕ → ℕ → ℕ → Option (List ℕ × ℕ)
write_char buf j c =
    let plain = (do buf' ← store buf j c; some (buf', j + 1)) in
    let coded = (do
      buf1 ← store buf (j + 0) 37
      buf2 ← store buf1 (j + 1) (high_digit c)
      buf3 ← store buf2 (j + 2) (low_digit c)
      some (buf3, j + 3)) in
    if is_alnum c then plain else coded

unfoldable pub urlencode_loop : ℕ → List ℕ → List ℕ → ℕ → Option (List ℕ × ℕ)
urlencode_loop max [] buf j = some (buf, j)
urlencode_loop max (c ∷ url) buf j =
    let more = (do (buf', j') ← write_char buf j c; urlencode_loop max url buf' j') in
    if ltb (j + 3) max then some (buf, j) else more

unfoldable pub urlencode : List ℕ → ℕ → List ℕ → Option (List ℕ)
urlencode buf max url = do (buf', j) ← urlencode_loop max url buf 0; store buf' j 0

-- The character that stands at `i` in the code, and the next `i`. `text` is the text and its end.
unfoldable pub read_char : List ℕ → ℕ → Option (ℕ × ℕ)
read_char text i = do
  c ← get_elem? text i
  let coded = (do
    a ← get_elem? text (i + 1)
    b ← get_elem? text (i + 2)
    some (bit_or (hex2byte a * 16 % 256) (hex2byte b), i + 3))
  if c == 37 then coded else some (if c == 43 then 32 else c, i + 1)

-- `len` is `strlen(url)`. A round moves `i` on, so that `len` rounds are enough.
unfoldable pub urldecode_loop : ℕ → ℕ → List ℕ → ℕ → ℕ → List ℕ → ℕ → Option (List ℕ × ℕ)
urldecode_loop zero max text len i buf j = some (buf, j)
urldecode_loop (suc rounds) max text len i buf j =
    let more = (do
      (c, i') ← read_char text i
      buf' ← store buf j c
      urldecode_loop rounds max text len i' buf' (j + 1)) in
    if leb len i || leb max j then some (buf, j) else more

unfoldable pub urldecode : List ℕ → ℕ → List ℕ → Option (List ℕ)
urldecode buf max url = do
  (buf', j) ← urldecode_loop (length url) max (url ++ (0 ∷ [])) (length url) 0 buf 0
  store buf' j 0
