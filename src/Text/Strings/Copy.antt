-- ===== src/Text/Strings/Copy.antt =====
-- libyod/common.c: what `strncpy` and `strcpy` leave in the string.
use libyod.Prelude.{
  ℕ, ◌+◌, ◌≤◌, ◌<◌, ◌≡◌, refl, sym, subst, Bool, true, false, ◌||◌, Option, none, some, List, [],
  ◌∷◌, ◌++◌, arith, ltb, length, length-append, take, drop, take-append_ge, length-take,
}
use libyod.Text.Strings.{Str, copy_text, copy_into, grow_copy, strncpy, is_null, strcpy}

-- The block, if there is one, has room for the length and the end.
abbrev Holds : ℕ → Option (List ℕ) → Type 0
Holds len none = len ≡ 0
Holds len (some buf) = len < length buf

abbrev pub IsStr : Str → Type 0
IsStr dest = Holds dest.len dest.ptr

-- The text and its end stand in the block.
abbrev Text : List ℕ → Option (List ℕ) → Type 0
Text text none = ⊥
Text text (some buf) = take (length text + 1) buf ≡ text ++ (0 ∷ [])

-- The string was given the text, or it is as it was.
abbrev pub Outcome : Str → List ℕ → Str × Bool → Type 0
Outcome dest text (dest', true) = (dest'.len ≡ length text) × Text text dest'.ptr
Outcome dest text (dest', false) = dest' ≡ dest

-- `realloc` returns a block of `len + 1` bytes, or NULL.
abbrev pub Fresh : ℕ → Option (List ℕ) → Type 0
Fresh len none = Unit {0}
Fresh len (some block) = length block ≡ len + 1

copy_into_lem :
    (dest : Str) (buf text : List ℕ)
    → length text < length buf
    → (r : Str × Bool) × (copy_into (some buf) text ≡ some r) × IsStr r.0 × Outcome dest text r
unfolding copy_into copy_text
copy_into_lem dest buf text room =
    let buf' = text ++ (0 ∷ drop (length text + 1) buf) in
    let rest = drop (length text + 1) buf in
    let fits : ltb (length text) (length buf) ≡ true = ground arith in
    (
      (record { ptr = some buf'; len = length text }, true),
      rw fits,
      omega (arith, length-append text (0 ∷ rest)),
      (refl, take-append_ge (length text + 1) 1 text (0 ∷ rest) refl),
    )

-- Without growth the old block must have the room.
grow_copy_lem :
    (grow : Bool) (fresh : Option (List ℕ)) (dest : Str) (text : List ℕ)
    → IsStr dest
    → Fresh (length text) fresh
    → (grow ≡ false → (buf : List ℕ) × (dest.ptr ≡ some buf) × (length text < length buf))
    → (r : Str × Bool) × (grow_copy grow fresh dest text ≡ some r) × IsStr r.0 × Outcome dest text r
unfolding grow_copy
grow_copy_lem false fresh dest text valid f keep =
    let (buf, e, room) = keep refl in
    subst (λ o. (r : Str × Bool) × (copy_into o text ≡ some r) × IsStr r.0 × Outcome dest text r)
      (sym e) (copy_into_lem dest buf text room)
grow_copy_lem true none dest text valid f keep = ((dest, false), refl, valid, refl)
grow_copy_lem true (some block) dest text valid f keep = copy_into_lem dest block text (omega arith)

-- Where the string does not grow, its block has the room.
keep_strcpy :
    (ptr : Option (List ℕ)) (len n : ℕ)
    → Holds len ptr
    → (is_null ptr || ltb len n) ≡ false
    → (buf : List ℕ) × (ptr ≡ some buf) × (n < length buf)
unfolding is_null
keep_strcpy none len n h e = cc
keep_strcpy (some buf) len n h e = (buf, refl, ground arith)

keep_strncpy :
    (ptr : Option (List ℕ)) (len n : ℕ)
    → Holds len ptr
    → (ptr ≡ none → 0 < n)
    → ltb len n ≡ false
    → (buf : List ℕ) × (ptr ≡ some buf) × (n < length buf)
keep_strncpy none len n h block e = let some_text = block refl in absurd (ground arith)
keep_strncpy (some buf) len n h block e = (buf, refl, ground arith)

-- `strcpy` into a string whose block has room for its length ends. It copies the text and its end and
-- sets the length, or it returns NULL and changes nothing; the block has room for the length after it.
pub strcpy_lem :
    (fresh : Option (List ℕ)) (dest : Str) (str : List ℕ)
    → IsStr dest
    → Fresh (length str) fresh
    → (r : Str × Bool) × (strcpy fresh dest str ≡ some r) × IsStr r.0 × Outcome dest str r
unfolding strcpy is_null
strcpy_lem fresh dest str valid f =
    grow_copy_lem _ fresh dest str valid f (keep_strcpy dest.ptr dest.len (length str) valid)

-- `strncpy` of up to all characters and the end likewise, but for an empty text where the string has
-- no block.
pub strncpy_lem :
    (fresh : Option (List ℕ)) (dest : Str) (str : List ℕ) (len : ℕ)
    → IsStr dest
    → len ≤ length str + 1
    → (dest.ptr ≡ none → 0 < len)
    → Fresh len fresh
    → (r : Str × Bool) × (strncpy fresh dest str len ≡ some r)
      × IsStr r.0
      × Outcome dest (take len (str ++ (0 ∷ []))) r
unfolding strncpy
strncpy_lem fresh dest str len valid inside block f =
    let text = take len (str ++ (0 ∷ [])) in
    let size : length text ≡ len =
      omega (arith, length-take len (str ++ (0 ∷ [])), length-append str (0 ∷ [])) in
    let defined : ltb (length str + 1) len ≡ false = ground arith in
    rw defined (
      grow_copy_lem (ltb dest.len len) fresh dest text valid
        (subst (λ n. Fresh n fresh) (sym size) f)
        (λ e.
          let (buf, here, room) = keep_strncpy dest.ptr dest.len len valid block e in
          (buf, here, omega (arith, size, room))))
