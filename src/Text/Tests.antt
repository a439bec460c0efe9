-- ===== src/Text/Tests.antt =====
-- The text functions of libyod/common.c at concrete inputs.
use libyod.Prelude.{
  ℕ, ◌≡◌, refl, none, some, List, [], ◌∷◌, arith, replicate, ◌>>=◌, store, drop, ◌<◌, ◌++◌, false,
  Bool, ◌+◌, ◌%◌,
}
use libyod.Text.Hex.{blob2hex, hex2blob}
use libyod.Text.Hex.RoundTrip.{hex2blob-blob2hex, blob2hex-overrun}
use libyod.Text.Hex.{byte2hex}
use libyod.Text.Chksum.{chksum, chksum_loop, total, chksum-append}
use libyod.Text.Path.{convpath, convpath_loop, is_skipped, is_separator, drop_last}
use libyod.Text.Path.Tidy.{parts, joined, Tidy, ends_open, convpath_idempotent}
use libyod.Text.Url.{
  urlencode, urlencode_loop, write_char, is_alnum, high_digit, low_digit, urldecode,
}
use libyod.Text.Url.RoundTrip.{encode, urlencode_lem}
use libyod.Text.Url.Decode.{urldecode-encode}
use libyod.Text.Strings.{Str, strcpy, strncpy, grow_copy, copy_into}
use libyod.Text.Strings.Copy.{IsStr, Outcome, strcpy_lem, strncpy_lem}

abbrev blank : List ℕ
blank = replicate 6 9

blob2hex_run : blob2hex blank 4 (0x1F ∷ 0xA0 ∷ []) 2 ≡ some (49 ∷ 70 ∷ 65 ∷ 48 ∷ 0 ∷ 9 ∷ [])
unfolding blob2hex store
blob2hex_run = refl

-- An odd digit is read together with the byte behind the text.
hex2blob_odd_run : hex2blob blank 6 (49 ∷ []) 1 ≡ none
unfolding hex2blob store
hex2blob_odd_run = refl

hex2blob-blob2hex_example :
    (blob2hex blank 4 (0x1F ∷ 0xA0 ∷ []) 2 >>= λ text. hex2blob blank 6 text 4)
    ≡ some (0x1F ∷ 0xA0 ∷ replicate 4 9, 2)
hex2blob-blob2hex_example =
    hex2blob-blob2hex blank blank 4 6 0x1F (0xA0 ∷ []) (omega arith, (omega arith, tt))
      (omega arith) (omega arith) (omega arith) (omega arith)

blob2hex-overrun_example : blob2hex (replicate 4 9) 4 (0x1F ∷ 0xA0 ∷ []) 2 ≡ none
blob2hex-overrun_example = blob2hex-overrun (replicate 4 9) 0x1F (0xA0 ∷ []) refl

sum_run : chksum (200 ∷ 100 ∷ []) 2 ≡ some 210
unfolding chksum chksum_loop
sum_run = refl

chksum-append_example :
    (sum : ℕ) × (chksum (200 ∷ 100 ∷ []) 2 ≡ some sum)
    × (sum < 256)
    × ((sum + total (200 ∷ 100 ∷ [])) % 255 ≡ 0)
    × (chksum (200 ∷ 100 ∷ sum ∷ []) 3 ≡ some 0)
chksum-append_example = chksum-append (200 ∷ 100 ∷ []) (omega arith, (omega arith, tt))

-- "/a//.b/" becomes "/a/b".
abbrev messy : List ℕ
messy = 47 ∷ 97 ∷ 47 ∷ 47 ∷ 46 ∷ 98 ∷ 47 ∷ []

convpath_run : convpath messy ≡ 47 ∷ 97 ∷ 47 ∷ 98 ∷ []
unfolding convpath convpath_loop is_skipped is_separator drop_last
convpath_run = refl

convpath_idempotent_example :
    (convpath messy ≡ (parts messy).0 ++ joined none (parts messy).1)
    × Tidy false (convpath messy)
    × (ends_open false (convpath messy) ≡ false)
    × (convpath (convpath messy) ≡ convpath messy)
convpath_idempotent_example = convpath_idempotent messy

-- "a b" and "a%20b"
abbrev plain : List ℕ
plain = 97 ∷ 32 ∷ 98 ∷ []

urlencode_run : urlencode blank 3 plain ≡ some (97 ∷ 37 ∷ 50 ∷ 48 ∷ 98 ∷ 0 ∷ [])
unfolding urlencode urlencode_loop write_char is_alnum high_digit low_digit byte2hex store
urlencode_run = refl

-- The character 195 has no two digits in the code.
urlencode_lem_example :
    urlencode (replicate 9 9) 3 (97 ∷ 32 ∷ 195 ∷ [])
    ≡ some (97 ∷ 37 ∷ 50 ∷ 48 ∷ 37 ∷ 51 ∷ 42 ∷ 0 ∷ 9 ∷ [])
urlencode_lem_example =
    urlencode_lem 3 (97 ∷ 32 ∷ 195 ∷ []) (replicate 9 9)
      (omega arith, (omega arith, (omega arith, tt))) (omega arith)

urldecode-encode_example : urldecode blank 6 (encode plain) ≡ some (plain ++ (0 ∷ drop 4 blank))
urldecode-encode_example =
    urldecode-encode 6 plain blank (omega arith, (omega arith, (omega arith, tt))) (omega arith)
      (omega arith)

abbrev held : Str
held = record { ptr = some (65 ∷ 0 ∷ []); len = 1 }

strcpy_lem_example :
    (r : Str × Bool) × (strcpy (some (replicate 4 9)) held plain ≡ some r)
    × IsStr r.0
    × Outcome held plain r
strcpy_lem_example = strcpy_lem (some (replicate 4 9)) held plain (omega arith) refl

strncpy_lem_example :
    (r : Str × Bool) × (strncpy (some (replicate 3 9)) held plain 2 ≡ some r)
    × IsStr r.0
    × Outcome held (97 ∷ 32 ∷ []) r
strncpy_lem_example =
    strncpy_lem (some (replicate 3 9)) held plain 2 (omega arith) (omega arith) (λ e. omega arith)
      refl

-- With no block and nothing to copy, `strncpy` copies to NULL.
strncpy_null_run : strncpy none (record { ptr = none; len = 0 }) plain 0 ≡ none
unfolding strncpy grow_copy copy_into
strncpy_null_run = refl
