-- ===== src/Text/Url/RoundTrip.antt =====
-- libyod/common.c: what `urlencode` writes, and what `urldecode` makes of such a text.
use libyod.Prelude.Bits.{agree_below, agree_below→eq}
use libyod.Text.Hex.{byte2hex}
use libyod.Prelude.{
  zero, suc, Bool, All, get_or, ◌==◌, ◌||◌, ◌/◌, ◌%◌, store-drop, drop-drop, ℕ, ◌+◌, ◌≤◌, ◌≡◌, refl,
  sym, ap, ◌∙◌, subst, inl, inr, true, false, some, List, [], ◌∷◌, ◌++◌, append_assoc, arith, ltb,
  if◌then◌else◌, Bool-cases, length, length-append, drop, length-drop, store, store_at,
  store-append, ◌<◌, ltb→lt, ◌>>=◌,
}
use libyod.Text.Url.{is_alnum, high_digit, low_digit, write_char, urlencode_loop, urlencode}

-- `n` characters in a row, from `c` on, and the digits and the letters of ASCII.
abbrev pub run : ℕ → ℕ → List ℕ
run c zero = []
run c (suc n) = c ∷ run (c + 1) n

abbrev pub alphabet : List ℕ
alphabet = run 48 10 ++ (run 65 26 ++ run 97 26)

abbrev pub elem : ℕ → List ℕ → Bool
elem c [] = false
elem c (x ∷ xs) = c == x || elem c xs

-- The digits from 0 to F.
abbrev pub hex_digits : List ℕ
hex_digits = run 48 10 ++ run 65 6

-- The two characters behind the percent sign: the digits of an ASCII character. From 128 on, where
-- `char` is negative, they are 39 above its upper and its lower half, or 0 for an empty lower half.
abbrev pub code_of : ℕ → List ℕ
code_of c =
    if ltb c 128
    then get_or hex_digits (c / 16) 0 ∷ get_or hex_digits (c % 16) 0 ∷ []
    else (c / 16 + 39) ∷ (if c % 16 == 0 then 48 else c % 16 + 39) ∷ []

abbrev pub encode_char : ℕ → List ℕ
encode_char c = if elem c alphabet then c ∷ [] else 37 ∷ code_of c

-- The whole text in code.
abbrev pub encode : List ℕ → List ℕ
encode [] = []
encode (c ∷ url) = encode_char c ++ encode url

abbrev flag : Bool → ℕ
flag true = 1
flag false = 0

-- The code writes these.
letter_lem : (c : ℕ) → c < 256 → flag (is_alnum c) ≡ flag (elem c alphabet)
unfolding agree_below is_alnum
letter_lem = agree_below→eq (λ c. flag (is_alnum c)) (λ c. flag (elem c alphabet)) 256 refl

flag_eq : (a b : Bool) → flag a ≡ flag b → a ≡ b
flag_eq true true e = refl
flag_eq true false e = absurd (omega arith)
flag_eq false true e = absurd (omega arith)
flag_eq false false e = refl

pub is_alnum-elem : (c : ℕ) → c < 256 → is_alnum c ≡ elem c alphabet
is_alnum-elem c small = flag_eq (is_alnum c) (elem c alphabet) (letter_lem c small)

high_lem : (c : ℕ) → c < 256 → high_digit c ≡ get_or (code_of c) 0 0
unfolding agree_below high_digit byte2hex
high_lem = agree_below→eq high_digit (λ c. get_or (code_of c) 0 0) 256 refl

low_lem : (c : ℕ) → c < 256 → low_digit c ≡ get_or (code_of c) 1 0
unfolding agree_below low_digit byte2hex
low_lem = agree_below→eq low_digit (λ c. get_or (code_of c) 1 0) 256 refl

two_characters : (c : ℕ) → code_of c ≡ get_or (code_of c) 0 0 ∷ get_or (code_of c) 1 0 ∷ []
two_characters c = elim (Bool-cases (ltb c 128)) [ inl low ↦ rw low refl | inr high ↦ rw high refl ]

pub code_of_lem : (c : ℕ) → c < 256 → code_of c ≡ high_digit c ∷ low_digit c ∷ []
code_of_lem c small =
    two_characters c
    ∙ ap (λ z. z ∷ get_or (code_of c) 1 0 ∷ []) (sym (high_lem c small))
    ∙ ap (λ z. high_digit c ∷ z ∷ []) (sym (low_lem c small))

pub plain_code : (c : ℕ) → c < 256 → is_alnum c ≡ true → encode_char c ≡ c ∷ []
plain_code c small plain = let e = sym (is_alnum-elem c small) ∙ plain in rw e refl

pub percent_code :
    (c : ℕ) → c < 256 → is_alnum c ≡ false → encode_char c ≡ 37 ∷ high_digit c ∷ low_digit c ∷ []
percent_code c small coded =
    let e = sym (is_alnum-elem c small) ∙ coded in rw e (ap (λ z. 37 ∷ z) (code_of_lem c small))

abbrev written : List ℕ → List ℕ → List ℕ → List ℕ
written front text old = front ++ (text ++ drop (length text) old)

write_plain :
    (front : List ℕ) (x : ℕ) (old : List ℕ) (c : ℕ)
    → is_alnum c ≡ true
    → write_char (front ++ (x ∷ old)) (length front) c ≡ some (front ++ (c ∷ old), length front + 1)
unfolding write_char
write_plain front x old c plain = rw (plain, store_at front x old c)

write_coded :
    (front : List ℕ) (x y z : ℕ) (old : List ℕ) (c : ℕ)
    → is_alnum c ≡ false
    → write_char (front ++ (x ∷ y ∷ z ∷ old)) (length front) c
      ≡ some (front ++ (37 ∷ high_digit c ∷ low_digit c ∷ old), length front + 3)
unfolding write_char store
write_coded front x y z old c coded =
    let st = λ (l : List ℕ) (k v : ℕ). store-append front l k v in
    rw (coded, st _ 0 _, st _ 1 _, st _ 2 _)

-- The character is written behind `front`.
abbrev Writes : List ℕ → List ℕ → ℕ → List ℕ → Type 0
Writes front old c text =
    length text ≤ length old
    → write_char (front ++ old) (length front) c
      ≡ some (written front text old, length front + length text)

Writes-plain : (front old : List ℕ) (c : ℕ) → is_alnum c ≡ true → Writes front old c (c ∷ [])
Writes-plain front [] c plain room = elim room [ ]
Writes-plain front (x ∷ old) c plain room = write_plain front x old c plain

Writes-coded :
    (front old : List ℕ) (c : ℕ)
    → is_alnum c ≡ false
    → Writes front old c (37 ∷ high_digit c ∷ low_digit c ∷ [])
Writes-coded front [] c coded room = elim room [ ]
Writes-coded front (x ∷ []) c coded room = absurd (omega arith)
Writes-coded front (x ∷ y ∷ []) c coded room = absurd (omega arith)
Writes-coded front (x ∷ y ∷ z ∷ old) c coded room = write_coded front x y z old c coded

Writes-encode_char : (front old : List ℕ) (c : ℕ) → c < 256 → Writes front old c (encode_char c)
Writes-encode_char front old c small = elim (Bool-cases (is_alnum c)) [
  | inl plain ↦
      let e = plain_code c small plain in
      subst (Writes front old c) (sym e) (Writes-plain front old c plain)
  | inr coded ↦
      let e = percent_code c small coded in
      subst (Writes front old c) (sym e) (Writes-coded front old c coded)
]

written-append :
    (front a b old : List ℕ)
    → written (front ++ a) b (drop (length a) old) ≡ written front (a ++ b) old
written-append front a b old =
    rw (drop-drop (length a) (length b) old, ← length-append a b)
      (append_assoc front a (b ++ drop (length (a ++ b)) old)
        ∙ ap (λ l. front ++ l) (sym (append_assoc a b (drop (length (a ++ b)) old))))

urlencode_loop_lem :
    (max : ℕ) (url front old : List ℕ)
    → All (λ c. c < 256) url
    → max ≤ 3
    → length (encode url) ≤ length old
    → urlencode_loop max url (front ++ old) (length front)
      ≡ some (written front (encode url) old, length front + length (encode url))
unfolding urlencode_loop
urlencode_loop_lem max [] front old bytes small room =
    ap (λ n. some (front ++ old, n)) (omega arith)
urlencode_loop_lem max (c ∷ url) front old (byte, bytes) small room =
    let go : ltb (length front + 3) max ≡ false = ground arith in
    let e = encode_char c in
    let len = length-append e (encode url) in
    let front' = front ++ e in
    let at : length front + length e ≡ length front' = sym (length-append front e) in
    let rest = length-drop (length e) old in
    let count : length front' + length (encode url) ≡ length front + length (e ++ encode url) =
      omega (arith, at, len) in
    rw
      (
        go,
        Writes-encode_char front old c byte (omega arith),
        at,
        ← append_assoc front e (drop (length e) old),
      )
      (urlencode_loop_lem max url front' (drop (length e) old) bytes small (omega arith)
        ∙ ap (λ l. some (l, length front' + length (encode url)))
            (written-append front e (encode url) old)
        ∙ ap (λ n. some (written front (e ++ encode url) old, n)) count)

loop_empty : (max : ℕ) (url buf : List ℕ) → 3 < max → urlencode_loop max url buf 0 ≡ some (buf, 0)
unfolding urlencode_loop
loop_empty max [] buf h = refl
loop_empty max (c ∷ url) buf h = let stop : ltb (0 + 3) max ≡ true = ground arith in rw stop

-- `urlencode` of bytes into a buffer with room for the code and its end: for a `max` above 3 it writes
-- the end alone, and for a `max` up to 3 the whole code and the end, without a bound. Digits and
-- letters stand for themselves in the code, and each other ASCII character as a percent sign and its
-- two upper-case hexadecimal digits. A character from 128 on stands as a percent sign and two
-- characters that need not be digits: 39 above its upper and its lower half, or 0 for an empty lower
-- half.
pub urlencode_lem :
    (max : ℕ) (url buf : List ℕ)
    → All (λ c. c < 256) url
    → length (encode url) < length buf
    → let text = if ltb 3 max then [] else encode url in
      urlencode buf max url ≡ some (text ++ (0 ∷ drop (length text + 1) buf))
unfolding urlencode
urlencode_lem max url buf bytes room = elim (Bool-cases (ltb 3 max)) [
  | inl large ↦
      rw (large, loop_empty max url buf (ltb→lt 3 max large)) (store-drop 0 buf 0 (omega arith))
  | inr small ↦
      let n = length (encode url) in
      let at : 0 + n ≡ n + 0 = omega arith in
      rw (small, urlencode_loop_lem max url [] buf bytes (ground arith) (omega arith), at)
        (store-append (encode url) (drop n buf) 0 0
          ∙ ap (λ o. o >>= λ ys. some (encode url ++ ys)) (store-drop n buf 0 room))
]
