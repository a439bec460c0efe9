-- ===== src/Bytes/Field.antt =====
-- libyod/common.c: `get_text`, `set_text`, `get_blob` and `set_blob`, a length in front of bytes.
pub mod RoundTrip
use libyod.Prelude.{
  ℕ, zero, suc, ◌+◌, ◌-◌, ◌*◌, ◌/◌, ◌%◌, ◌^◌, ◌≤◌, ◌<◌, bit_and, bit_or, bit_xor, ◌≡◌, refl, sym,
  ap, ◌∙◌, subst, ◌≢◌, ◌↔◌, ◌⊎◌, inl, inr, Bool, true, false, not, ◌&&◌, ◌||◌, Option, none, some,
  List, [], ◌∷◌, ◌++◌, map, append-nil, append_assoc, arith, dec_lt, ℕ_discrete, ltb, leb, ◌==◌,
  if◌then◌else◌, ltb→lt, lt→ltb, leb→le, ==_iff, tests, Bool-cases, Option-cases, length, get_elem?,
  set, length-append, length-snoc, length-set, get_elem?-set_self, get_elem?-set_ne, get_or, take,
  drop, drop-append, take-append, take-append_le, drop-append_le, take-append_ge, drop-append_ge,
  length-take, length-drop, replicate, length-replicate, get_elem?-replicate, ◌>>=◌, IsByte, All,
  store, store_at, store-append, store-drop, drop-drop, get_elem?-drop,
}
use libyod.Bytes.Vint.{get_vint32, set_vint32}

-- `memcpy(data + i, src, len)`, where `src` is the `len` bytes.
unfoldable pub copy_at : List ℕ → ℕ → List ℕ → Option (List ℕ)
copy_at buf i src =
    if leb (i + length src) (length buf)
    then some (take i buf ++ (src ++ drop (i + length src) buf))
    else none

-- The bytes at a pointer, or as many zero bytes for NULL.
unfoldable pub content : Option (List ℕ) → ℕ → Option (List ℕ)
content none len = some (replicate len 0)
content (some src) len = if leb len (length src) then some (take len src) else none

-- The length and the bytes, and the size of the length.
unfoldable pub set_field : List ℕ → Option (List ℕ) → ℕ → Option (List ℕ × ℕ)
set_field buf src len = do
  (buf1, num) ← set_vint32 buf (len % 2 ^ 32)
  bytes ← content src len
  buf2 ← copy_at buf1 num bytes
  some (buf2, num)

unfoldable pub set_blob : List ℕ → Option (List ℕ) → ℕ → Option (List ℕ × ℕ)
set_blob buf blob len = do (buf', num) ← set_field buf blob len; some (buf', len + num)

unfoldable pub set_text : List ℕ → Option (List ℕ) → ℕ → Option (List ℕ × ℕ)
set_text buf text len = do
  (buf', num) ← set_field buf text len
  buf'' ← store buf' (num + len) 0
  some (buf'', len + num + 1)

-- The length, and where the bytes begin.
unfoldable pub get_blob : List ℕ → Option (ℕ × ℕ)
get_blob buf = get_vint32 buf

unfoldable pub get_text : List ℕ → Option (ℕ × ℕ)
get_text buf = get_vint32 buf
