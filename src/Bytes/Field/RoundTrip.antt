-- ===== src/Bytes/Field/RoundTrip.antt =====
-- libyod/common.c: blobs and texts in a buffer read back.
use libyod.Prelude.{
  ℕ, ◌+◌, ◌%◌, ◌^◌, ◌≤◌, ◌<◌, ◌≡◌, refl, sym, ap, ◌∙◌, ◌↔◌, true, some, List, [], ◌∷◌, ◌++◌,
  append-nil, arith, leb, length, length-append, take, drop, drop-append, take-append,
  drop-append_ge, length-drop, ◌>>=◌, store, store-append, store-drop, drop-drop,
}
use libyod.Bytes.Vint.Encode.{vint_bytes, length-vint_bytes, set_vint32-vint_bytes}
use libyod.Bytes.Vint.Decode.{Skips, vint_bytes_enough}
use libyod.Bytes.Vint.RoundTrip.{vint32_iff}
use libyod.Bytes.Field.{copy_at, content, set_field, set_blob, set_text, get_blob, get_text}

module _ (buf bytes : List ℕ) (small : length bytes < 2 ^ 32) where
  abbrev head : List ℕ
  head = vint_bytes 5 (length bytes)

  length-head : length head ≤ 5
  length-head = omega (
    arith,
    ap length (vint_bytes_enough 4 (length bytes) (omega arith)),
    length-vint_bytes 4 (length bytes),
  )

  abbrev behind : List ℕ
  behind = drop (length head + length bytes) buf

  module _ (room : length bytes + 5 ≤ length buf) where
    copy_behind :
        copy_at (head ++ drop (length head) buf) (length head) bytes
        ≡ some (head ++ (bytes ++ behind))
    unfolding copy_at
    copy_behind =
        let rest = drop (length head) buf in
        let len = length-append head rest in
        let len_rest = length-drop (length head) buf in
        let fits : leb (length head + length bytes) (length (head ++ rest)) ≡ true =
          ground (arith, length-head) in
        rw (
          fits,
          take-append head rest,
          drop-append_ge (length head + length bytes) (length bytes) head rest refl,
          drop-drop (length head) (length bytes) buf,
        )

    set_field_lem :
        set_field buf (some bytes) (length bytes) ≡ some (head ++ (bytes ++ behind), length head)
    unfolding set_field content
    set_field_lem =
        let num : length bytes % 2 ^ 32 ≡ length bytes = omega arith in
        let same : leb (length bytes) (length bytes) ≡ true = ground arith in
        let all : take (length bytes) bytes ≡ bytes =
          ap (take (length bytes)) (sym (append-nil bytes)) ∙ take-append bytes [] in
        rw (
          num,
          set_vint32-vint_bytes buf (length bytes) (omega (arith, length-head)),
          same,
          all,
          copy_behind,
        )

    -- What a reader finds, whatever stands behind the bytes.
    found :
        (rest : List ℕ)
        → (take (length bytes) (drop (length head) (head ++ (bytes ++ rest))) ≡ bytes)
          × ((get_blob (head ++ (bytes ++ rest)) ≡ some (length bytes, length head))
              ↔ Skips 4 (length bytes))
    unfolding get_blob
    found rest = (
      rw (drop-append head (bytes ++ rest)) (take-append bytes rest),
      vint32_iff (length bytes) (bytes ++ rest) small,
    )

    end_lem :
        length bytes + 6 ≤ length buf
        → store (head ++ (bytes ++ behind)) (length head + length bytes) 0
          ≡ some (head ++ (bytes ++ (0 ∷ drop (length head + length bytes + 1) buf)))
    end_lem more =
        let at : length bytes ≡ length bytes + 0 = omega arith in
        store-append head (bytes ++ behind) (length bytes) 0
        ∙ ap (λ i. store (bytes ++ behind) i 0 >>= λ ys. some (head ++ ys)) at
        ∙ rw (
          store-append bytes behind 0 0,
          store-drop (length head + length bytes) buf 0 (omega (arith, length-head)),
        )

-- `set_blob` of fewer than 2^32 bytes, into a buffer with five more, succeeds: it returns the bytes'
-- number and the size `pos` of the length, keeps the buffer behind, and the bytes stand at `pos`.
-- `get_blob` finds them exactly when no quotient of their number by 128^j, for j from 0 to 4, is 128.
pub get_blob-set_blob_iff :
    (buf bytes : List ℕ)
    → length bytes < 2 ^ 32
    → length bytes + 5 ≤ length buf
    → (buf' : List ℕ) × (pos : ℕ) × (set_blob buf (some bytes) (length bytes)
        ≡ some (buf', length bytes + pos))
      × (drop (pos + length bytes) buf' ≡ drop (pos + length bytes) buf)
      × (take (length bytes) (drop pos buf') ≡ bytes)
      × ((get_blob buf' ≡ some (length bytes, pos)) ↔ Skips 4 (length bytes))
unfolding set_blob
get_blob-set_blob_iff buf bytes small room =
    let h = head buf bytes small in
    let rest = behind buf bytes small in
    let (there, read) = found buf bytes small room rest in
    (
      h ++ (bytes ++ rest),
      length h,
      rw (set_field_lem buf bytes small room),
      drop-append_ge (length h + length bytes) (length bytes) h (bytes ++ rest) refl
          ∙ drop-append bytes rest,
      there,
      read,
    )

-- `set_text` of fewer than 2^32 characters, into a buffer with six more, succeeds likewise, and writes
-- the end of the text behind it, which it counts.
pub get_text-set_text_iff :
    (buf text : List ℕ)
    → length text < 2 ^ 32
    → length text + 6 ≤ length buf
    → (buf' : List ℕ) × (pos : ℕ) × (set_text buf (some text) (length text)
        ≡ some (buf', length text + pos + 1))
      × (drop (pos + length text) buf' ≡ 0 ∷ drop (pos + length text + 1) buf)
      × (take (length text) (drop pos buf') ≡ text)
      × ((get_text buf' ≡ some (length text, pos)) ↔ Skips 4 (length text))
unfolding set_text get_text get_blob
get_text-set_text_iff buf text small room =
    let h = head buf text small in
    let rest = 0 ∷ drop (length h + length text + 1) buf in
    let (there, read) = found buf text small (omega arith) rest in
    (
      h ++ (text ++ rest),
      length h,
      rw (set_field_lem buf text small (omega arith), end_lem buf text small (omega arith) room),
      drop-append_ge (length h + length text) (length text) h (text ++ rest) refl
          ∙ drop-append text rest,
      there,
      read,
    )
