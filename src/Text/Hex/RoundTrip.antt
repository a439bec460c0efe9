-- ===== src/Text/Hex/RoundTrip.antt =====
-- libyod/common.c: what `blob2hex` writes, and that `hex2blob` reads it back.
use libyod.Prelude.{
  ℕ, zero, suc, ◌+◌, ◌*◌, ◌/◌, ◌%◌, ◌≤◌, ◌<◌, bit_and, bit_or, ◌≡◌, refl, sym, ap, ◌∙◌, subst, true,
  false, none, some, List, [], ◌∷◌, ◌++◌, append_assoc, arith, ltb, length, get_elem?,
  length-append, length-snoc, drop, ◌>>=◌, IsByte, All, store, store_at, get_elem?-drop,
}
use libyod.Prelude.{store-append}
use libyod.Prelude.Bits.{agree_below, agree_below→eq}
use libyod.Text.Hex.{byte2hex, hex2byte, blob2hex_loop, blob2hex, hex2blob_loop, hex2blob}

abbrev high : ℕ → ℕ
high b = byte2hex (b / 16) true

abbrev low : ℕ → ℕ
low b = byte2hex (bit_and b 0x0F) true

-- Two digits for each byte.
abbrev pub hex_of : List ℕ → List ℕ
hex_of [] = []
hex_of (b ∷ bs) = high b ∷ low b ∷ hex_of bs

digits_lem : (b : ℕ) → b < 256 → bit_or (hex2byte (high b) * 16 % 256) (hex2byte (low b)) ≡ b
unfolding agree_below hex2byte byte2hex
digits_lem = agree_below→eq _ _ 256 refl

-- What stands behind the digits.
abbrev end_of : List ℕ → ℕ → ℕ
end_of [] x = x
end_of (b ∷ bs) x = 0

end_of-zero : (bs : List ℕ) → end_of bs 0 ≡ 0
end_of-zero [] = refl
end_of-zero (b ∷ bs) = refl

module _ (max : ℕ) (src : List ℕ) where
  round :
      (rounds i : ℕ) (front : List ℕ) (x y z : ℕ) (rest : List ℕ) (b : ℕ)
      → length front ≡ i * 2
      → i * 2 + 2 ≤ max
      → get_elem? src i ≡ some b
      → blob2hex_loop (suc rounds) max src i (front ++ (x ∷ y ∷ z ∷ rest))
        ≡ blob2hex_loop rounds max src (suc i) ((front ++ (high b ∷ low b ∷ [])) ++ (0 ∷ rest))
  unfolding blob2hex_loop store
  round rounds i front x y z rest b at room read =
      let st = λ (old : List ℕ) (k v : ℕ). store-append front old k v in
      let at0 : i * 2 ≡ length front + 0 = omega (arith, at) in
      let at1 : i * 2 + 1 ≡ length front + 1 = omega (arith, at) in
      let at2 : i * 2 + 2 ≡ length front + 2 = omega (arith, at) in
      let fits : ltb max (i * 2 + 2) ≡ false = ground arith in
      rw (fits, read, at2, at1, at0, st _ 0 _, st _ 1 _, st _ 2 _)
        (ap (blob2hex_loop rounds max src (suc i))
          (sym (append_assoc front (high b ∷ low b ∷ []) (0 ∷ rest))))

  round_out :
      (rounds i : ℕ) (front : List ℕ) (x y b : ℕ)
      → length front ≡ i * 2
      → i * 2 + 2 ≤ max
      → get_elem? src i ≡ some b
      → blob2hex_loop (suc rounds) max src i (front ++ (x ∷ y ∷ [])) ≡ none
  unfolding blob2hex_loop store
  round_out rounds i front x y b at room read =
      let st = λ (old : List ℕ) (k v : ℕ). store-append front old k v in
      let at0 : i * 2 ≡ length front + 0 = omega (arith, at) in
      let at1 : i * 2 + 1 ≡ length front + 1 = omega (arith, at) in
      let at2 : i * 2 + 2 ≡ length front + 2 = omega (arith, at) in
      let fits : ltb max (i * 2 + 2) ≡ false = ground arith in
      rw (fits, read, at2, at1, at0, st _ 0 _, st _ 1 _, st _ 2 _)

  blob2hex_loop-out :
      (b : ℕ) (bs : List ℕ) (i : ℕ) (front old : List ℕ)
      → length front ≡ i * 2
      → (i + length (b ∷ bs)) * 2 ≤ max
      → drop i src ≡ b ∷ bs
      → length old ≡ 2 * length (b ∷ bs)
      → blob2hex_loop (length (b ∷ bs)) max src i (front ++ old) ≡ none
  blob2hex_loop-out b [] i front (x ∷ y ∷ []) at room read len =
      round_out 0 i front x y b at (omega arith) (get_elem?-drop src i read).0
  blob2hex_loop-out b (c ∷ bs) i front (x ∷ y ∷ z ∷ rest) at room read len =
      let (here, on) = get_elem?-drop src i read in
      let front' = front ++ (high b ∷ low b ∷ []) in
      let at' : length front' ≡ suc i * 2 =
        omega (arith, at, length-append front (high b ∷ low b ∷ [])) in
      round (length (c ∷ bs)) i front x y z rest b at (omega arith) here
      ∙ blob2hex_loop-out c bs (suc i) front' (0 ∷ rest) at' (omega arith) on (omega arith)
  blob2hex_loop-out b bs i front [] at room read len = absurd (omega arith)
  blob2hex_loop-out b bs i front (x ∷ []) at room read len = absurd (omega arith)
  blob2hex_loop-out b [] i front (x ∷ y ∷ z ∷ rest) at room read len = absurd (omega arith)
  blob2hex_loop-out b (c ∷ bs) i front (x ∷ y ∷ []) at room read len = absurd (omega arith)

  blob2hex_loop_lem :
      (bs : List ℕ) (i : ℕ) (front : List ℕ) (x : ℕ) (rest : List ℕ)
      → length front ≡ i * 2
      → (i + length bs) * 2 ≤ max
      → drop i src ≡ bs
      → 2 * length bs ≤ length rest
      → blob2hex_loop (length bs) max src i (front ++ (x ∷ rest))
        ≡ some (front ++ (hex_of bs ++ (end_of bs x ∷ drop (2 * length bs) rest)))
  unfolding blob2hex_loop
  blob2hex_loop_lem [] i front x rest at room read long = refl
  blob2hex_loop_lem (b ∷ bs) i front x [] at room read long = absurd (omega arith)
  blob2hex_loop_lem (b ∷ bs) i front x (y ∷ []) at room read long = absurd (omega arith)
  blob2hex_loop_lem (b ∷ bs) i front x (y ∷ z ∷ rest) at room read long =
      let (here, on) = get_elem?-drop src i read in
      let front' = front ++ (high b ∷ low b ∷ []) in
      let at' : length front' ≡ suc i * 2 =
        omega (arith, at, length-append front (high b ∷ low b ∷ [])) in
      let skip : 2 * suc (length bs) ≡ suc (suc (2 * length bs)) = omega arith in
      round (length bs) i front x y z rest b at (omega arith) here
      ∙ blob2hex_loop_lem bs (suc i) front' 0 rest at' (omega arith) on (omega arith)
      ∙ rw (
        end_of-zero bs,
        skip,
        append_assoc front (high b ∷ low b ∷ []) (hex_of bs ++ (0 ∷ drop (2 * length bs) rest)),
      )

-- `blob2hex` of one byte or more, into a buffer that has room for the digits and the end, with `max`
-- the number of digits at least, writes two digits for each byte and the end, and nothing else.
blob2hex_lem :
    (buf : List ℕ) (max b : ℕ) (bs : List ℕ)
    → 2 * length (b ∷ bs) ≤ max
    → 2 * length (b ∷ bs) < length buf
    → blob2hex buf max (b ∷ bs) (length (b ∷ bs))
      ≡ some (hex_of (b ∷ bs) ++ (0 ∷ drop (suc (2 * length (b ∷ bs))) buf))
unfolding blob2hex
blob2hex_lem [] max b bs fits room = absurd (omega arith)
blob2hex_lem (x ∷ buf) max b bs fits room =
    blob2hex_loop_lem max (b ∷ bs) (b ∷ bs) 0 [] x buf refl (omega arith) refl (omega arith)

module _ (src : List ℕ) (len : ℕ) where
  read_round :
      (rounds : ℕ) (front : List ℕ) (x : ℕ) (old : List ℕ) (b : ℕ)
      → b < 256
      → length front * 2 + 2 ≤ len
      → get_elem? src (length front * 2) ≡ some (high b)
      → get_elem? src (length front * 2 + 1) ≡ some (low b)
      → hex2blob_loop (suc rounds) src len (front ++ (x ∷ old)) (length front)
        ≡ hex2blob_loop rounds src len ((front ++ (b ∷ [])) ++ old) (suc (length front))
  unfolding hex2blob_loop
  read_round rounds front x old b byte room first second =
      let fits : ltb len (length front * 2 + 1) ≡ false = ground arith in
      rw (fits, first, second, store_at front x old, digits_lem b byte)
        (ap (λ l. hex2blob_loop rounds src len l (suc (length front)))
          (sym (append_assoc front (b ∷ []) old)))

  hex2blob_loop_lem :
      (rounds : ℕ) (bs front old rest : List ℕ)
      → All IsByte bs
      → length bs ≤ rounds
      → (length front + length bs) * 2 ≡ len
      → drop (length front * 2) src ≡ hex_of bs ++ rest
      → length bs ≤ length old
      → hex2blob_loop rounds src len (front ++ old) (length front)
        ≡ some (front ++ (bs ++ drop (length bs) old), length front + length bs)
  unfolding hex2blob_loop
  hex2blob_loop_lem zero [] front old rest bytes fuel total read long =
      ap (λ n. some (front ++ old, n)) (omega arith)
  hex2blob_loop_lem (suc rounds) [] front old rest bytes fuel total read long =
      let stop : ltb len (length front * 2 + 1) ≡ true = ground arith in
      rw stop (ap (λ n. some (front ++ old, n)) (omega arith))
  hex2blob_loop_lem zero (b ∷ bs) front old rest bytes fuel total read long = absurd (omega arith)
  hex2blob_loop_lem (suc rounds) (b ∷ bs) front [] rest bytes fuel total read long =
      absurd (omega arith)
  hex2blob_loop_lem (suc rounds) (b ∷ bs) front (x ∷ old) rest (byte, bytes) fuel total read long =
      let (first, on) = get_elem?-drop src (length front * 2) read in
      let (second, on') = get_elem?-drop src (suc (length front * 2)) on in
      let front' = front ++ (b ∷ []) in
      let one : length front' ≡ suc (length front) = length-snoc front b in
      let pair : suc (length front * 2) ≡ length front * 2 + 1 = omega arith in
      let next : length front' * 2 ≡ suc (suc (length front * 2)) = omega (arith, one) in
      let count : length front' + length bs ≡ length front + suc (length bs) = omega (arith, one) in
      read_round rounds front x old b byte (omega arith) first
        (subst (λ i. get_elem? src i ≡ some (low b)) pair second)
      ∙ ap (hex2blob_loop rounds src len (front' ++ old)) (sym one)
      ∙ hex2blob_loop_lem rounds bs front' old rest bytes (omega arith) (omega (arith, one))
          (ap (λ i. drop i src) next ∙ on') (omega arith)
      ∙ rw (count, append_assoc front (b ∷ []) (bs ++ drop (length bs) old))

-- `hex2blob` reads back what `blob2hex` wrote: for one byte or more, a text buffer with room for the
-- digits and the end, and a byte buffer with room for the bytes, it returns the number of bytes, and
-- the buffer holds them in front of its old rest.
pub hex2blob-blob2hex :
    (text buf : List ℕ) (max max' b : ℕ) (bs : List ℕ)
    → All IsByte (b ∷ bs)
    → 2 * length (b ∷ bs) ≤ max
    → 2 * length (b ∷ bs) < length text
    → length (b ∷ bs) ≤ max'
    → length (b ∷ bs) ≤ length buf
    → (blob2hex text max (b ∷ bs) (length (b ∷ bs)) >>= λ text'.
        hex2blob buf max' text' (2 * length (b ∷ bs)))
      ≡ some ((b ∷ bs) ++ drop (length (b ∷ bs)) buf, length (b ∷ bs))
unfolding hex2blob
hex2blob-blob2hex text buf max max' b bs bytes fits room fits' room' =
    let n = length (b ∷ bs) in
    let text' = hex_of (b ∷ bs) ++ (0 ∷ drop (suc (2 * n)) text) in
    rw (blob2hex_lem text max b bs fits room) (
      hex2blob_loop_lem text' (2 * n) max' (b ∷ bs) [] buf (0 ∷ drop (suc (2 * n)) text) bytes fits'
        (omega arith) refl room'
      ∙ ap (λ k. some ((b ∷ bs) ++ drop n buf, k)) (omega arith))

-- Into a text buffer of `max` bytes, for a `max` of two digits for each byte, `blob2hex` of one byte
-- or more writes outside the buffer.
pub blob2hex-overrun :
    (buf : List ℕ) (b : ℕ) (bs : List ℕ)
    → length buf ≡ 2 * length (b ∷ bs)
    → blob2hex buf (2 * length (b ∷ bs)) (b ∷ bs) (length (b ∷ bs)) ≡ none
unfolding blob2hex
blob2hex-overrun buf b bs e =
    blob2hex_loop-out (2 * length (b ∷ bs)) (b ∷ bs) b bs 0 [] buf refl (omega arith) refl e
