-- ===== src/Text/Url/Decode.antt =====
-- libyod/common.c: `urldecode` of a text in code.
use libyod.Prelude.{
  store-drop, ℕ, zero, suc, ◌+◌, ◌*◌, ◌%◌, ◌≤◌, ◌<◌, bit_or, ◌≡◌, refl, sym, ap, ◌∙◌, subst, inl,
  inr, true, false, some, List, [], ◌∷◌, ◌++◌, append_assoc, arith, leb, ◌==◌, Bool-cases, length,
  get_elem?, length-append, length-snoc, drop, ◌>>=◌, All, store_at, get_elem?-drop,
}
use libyod.Prelude.{get_elem?-drop, store-append}
use libyod.Prelude.Bits.{agree_below, agree_below→eq}
use libyod.Text.Hex.{byte2hex, hex2byte}
use libyod.Text.Url.{is_alnum, high_digit, low_digit, read_char, urldecode_loop, urldecode}
use libyod.Text.Url.RoundTrip.{alphabet, elem, encode_char, encode, plain_code, percent_code}

digits_ascii :
    (c : ℕ) → c < 128 → bit_or (hex2byte (high_digit c) * 16 % 256) (hex2byte (low_digit c)) ≡ c
unfolding agree_below hex2byte high_digit low_digit byte2hex
digits_ascii = agree_below→eq _ _ 128 refl

-- `read_char` of the code of one character, in front of `rest`.
abbrev Reads : List ℕ → ℕ → ℕ → List ℕ → List ℕ → Type 0
Reads text i c code rest =
    drop i text ≡ code ++ rest
    → (read_char text i ≡ some (c, i + length code)) × (drop (i + length code) text ≡ rest)

Reads-plain :
    (text : List ℕ) (i c : ℕ) (rest : List ℕ) → is_alnum c ≡ true → Reads text i c (c ∷ []) rest
unfolding read_char is_alnum
Reads-plain text i c rest plain read =
    let (here, on) = get_elem?-drop text i read in
    let e : suc i ≡ i + 1 = omega arith in
    let no_percent : (c == 37) ≡ false = ground arith in
    let no_plus : (c == 43) ≡ false = ground arith in (rw (here, no_percent, no_plus), rw (← e) on)

Reads-coded :
    (text : List ℕ) (i c : ℕ) (rest : List ℕ)
    → c < 128
    → Reads text i c (37 ∷ high_digit c ∷ low_digit c ∷ []) rest
unfolding read_char
Reads-coded text i c rest ascii read =
    let (here, on) = get_elem?-drop text i read in
    let (high, on') = get_elem?-drop text (suc i) on in
    let (low, on'') = get_elem?-drop text (suc (suc i)) on' in
    let e1 : suc i ≡ i + 1 = omega arith in
    let e2 : suc (suc i) ≡ i + 2 = omega arith in
    let e3 : suc (suc (suc i)) ≡ i + 3 = omega arith in
    let high' : get_elem? text (i + 1) ≡ some (high_digit c) = rw (← e1) high in
    let low' : get_elem? text (i + 2) ≡ some (low_digit c) = rw (← e2) low in
    (rw (here, high', low', digits_ascii c ascii), rw (← e3) on'')

Reads-encode_char :
    (text : List ℕ) (i c : ℕ) (rest : List ℕ) → c < 128 → Reads text i c (encode_char c) rest
Reads-encode_char text i c rest ascii = elim (Bool-cases (is_alnum c)) [
  | inl plain ↦
      let e = plain_code c (omega arith) plain in
      subst (λ code. Reads text i c code rest) (sym e) (Reads-plain text i c rest plain)
  | inr coded ↦
      let e = percent_code c (omega arith) coded in
      subst (λ code. Reads text i c code rest) (sym e) (Reads-coded text i c rest ascii)
]

encode_char-some : (c : ℕ) → 0 < length (encode_char c)
encode_char-some c = elim (Bool-cases (elem c alphabet)) [
  | inl plain ↦ rw plain (omega arith)
  | inr coded ↦ rw coded (omega arith)
]

module _ (max : ℕ) (text : List ℕ) (len : ℕ) where
  urldecode_loop_lem :
      (rounds i : ℕ) (url front old : List ℕ)
      → All (λ c. c < 128) url
      → drop i text ≡ encode url ++ (0 ∷ [])
      → len ≡ i + length (encode url)
      → length front + length url ≤ max
      → length url ≤ length old
      → length url ≤ rounds
      → urldecode_loop rounds max text len i (front ++ old) (length front)
        ≡ some (front ++ (url ++ drop (length url) old), length front + length url)
  unfolding urldecode_loop
  urldecode_loop_lem zero i [] front old ascii read at small room fuel =
      ap (λ n. some (front ++ old, n)) (omega arith)
  urldecode_loop_lem zero i (c ∷ url) front old ascii read at small room fuel = elim fuel [ ]
  urldecode_loop_lem (suc rounds) i [] front old ascii read at small room fuel =
      let stop : leb len i ≡ true = ground arith in
      let none_more : length front ≡ length front + 0 = omega arith in
      rw stop (ap (λ n. some (front ++ old, n)) none_more)
  urldecode_loop_lem (suc rounds) i (c ∷ url) front [] ascii read at small room fuel = elim room [ ]
  urldecode_loop_lem (suc rounds) i (c ∷ url) front (x ∷ old) (here, ascii) read at small room
        fuel =
      let code = encode_char c in
      let lens = length-append code (encode url) in
      let (got, on) =
        Reads-encode_char text i c (encode url ++ (0 ∷ [])) here
          (read ∙ append_assoc code (encode url) (0 ∷ [])) in
      let some_code = encode_char-some c in
      let inside : leb len i ≡ false = ground arith in
      let fits : leb max (length front) ≡ false = ground arith in
      let front' = front ++ (c ∷ []) in
      let one : length front' ≡ length front + 1 = omega (arith, length-snoc front c) in
      let count : length front' + length url ≡ length front + suc (length url) =
        omega (arith, one) in
      rw (inside, fits, got, store_at front x old, ← one, ← append_assoc front (c ∷ []) old)
        (urldecode_loop_lem rounds (i + length code) url front' old ascii on (omega arith)
            (omega (arith, one)) (omega arith) (omega arith)
          ∙ rw (count, append_assoc front (c ∷ []) (url ++ drop (length url) old)))

length-encode : (url : List ℕ) → length url ≤ length (encode url)
length-encode [] = omega arith
length-encode (c ∷ url) =
    omega (arith, length-encode url, encode_char-some c, length-append (encode_char c) (encode url))

-- `urldecode` reads a text of ASCII characters back from its code, with a `max` of its length at least,
-- into a buffer with room for it and its end.
pub urldecode-encode :
    (max : ℕ) (url buf : List ℕ)
    → All (λ c. c < 128) url
    → length url ≤ max
    → length url < length buf
    → urldecode buf max (encode url) ≡ some (url ++ (0 ∷ drop (length url + 1) buf))
unfolding urldecode
urldecode-encode max url buf ascii small room =
    let n = length url in
    let m = length (encode url) in
    let at : 0 + n ≡ n + 0 = omega arith in
    rw
      (
        urldecode_loop_lem max (encode url ++ (0 ∷ [])) m m 0 url [] buf ascii refl (omega arith)
            (omega arith) (omega arith) (length-encode url),
        at,
      )
      (store-append url (drop n buf) 0 0
        ∙ ap (λ o. o >>= λ ys. some (url ++ ys)) (store-drop n buf 0 room))
