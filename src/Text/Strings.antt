-- ===== src/Text/Strings.antt =====
-- libyod/common.c: `strncpy` and `strcpy` into a counted string that grows.
pub mod Copy
use libyod.Prelude.{
  ℕ, ◌+◌, ◌<◌, ◌≡◌, Bool, true, false, ◌||◌, Option, none, some, List, [], ◌∷◌, ◌++◌, ltb,
  if◌then◌else◌, length, take, drop, ◌>>=◌,
}

-- `ptr` is the block that it owns, `none` for NULL.
pub record Str : Type 0 where
  pub ptr : Option (List ℕ)
  pub len : ℕ

-- `memcpy(ptr, str, len); ptr[len] = '\0';` where `text` is the `len` bytes.
unfoldable pub copy_text : List ℕ → List ℕ → Option (List ℕ)
copy_text buf text =
    if ltb (length text) (length buf) then some (text ++ (0 ∷ drop (length text + 1) buf)) else none

-- The copy behind the growth, and whether a pointer is returned. NULL is no place to copy to.
unfoldable pub copy_into : Option (List ℕ) → List ℕ → Option (Str × Bool)
copy_into block text = do
  buf ← block
  buf' ← copy_text buf text
  some (record { ptr = some buf'; len = length text }, true)

-- `fresh` is what `realloc` returns: `len + 1` bytes, or NULL.
unfoldable pub grow_copy : Bool → Option (List ℕ) → Str → List ℕ → Option (Str × Bool)
grow_copy false fresh dest text = copy_into dest.ptr text
grow_copy true none dest text = some (dest, false)
grow_copy true (some block) dest text = copy_into (some block) text

-- The text is the first `len` bytes at `str`, whose end is one more; more of them is undefined.
unfoldable pub strncpy : Option (List ℕ) → Str → List ℕ → ℕ → Option (Str × Bool)
strncpy fresh dest str len =
    if ltb (length str + 1) len
    then none
    else grow_copy (ltb dest.len len) fresh dest (take len (str ++ (0 ∷ [])))

unfoldable pub is_null : Option (List ℕ) → Bool
is_null none = true
is_null (some buf) = false

unfoldable pub strcpy : Option (List ℕ) → Str → List ℕ → Option (Str × Bool)
strcpy fresh dest str = grow_copy (is_null dest.ptr || ltb dest.len (length str)) fresh dest str
