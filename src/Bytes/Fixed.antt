-- ===== src/Bytes/Fixed.antt =====
-- libyod/common.c: fixed-width integers in little-endian byte buffers (get_uint16/32/64 and
-- set_uint16/32/64). The three copies of each loop differ in the width and the number of rounds.
pub mod Laws
pub mod Signed
use libyod.Prelude.{
  ℕ, zero, suc, ◌+◌, ◌-◌, ◌*◌, ◌/◌, ◌%◌, ◌^◌, bit_and, List, Option, some, ◌>>=◌, get_elem?, store,
  ltb, if◌then◌else◌,
}

-- `ret += (data[i] & 0xFF) * n; n *= 256;` at width `w`, `rounds` times.
get_uint_loop : ℕ → ℕ → List ℕ → ℕ → ℕ → ℕ → Option ℕ
get_uint_loop w zero buf i n ret = some ret
get_uint_loop w (suc rounds) buf i n ret = do
  b ← get_elem? buf i
  get_uint_loop w rounds buf (suc i) (n * 256 % 2 ^ w) ((ret + bit_and b 0xFF * n) % 2 ^ w)

unfoldable pub get_uint16 : List ℕ → Option ℕ
unfolding get_uint_loop
get_uint16 buf = get_uint_loop 16 2 buf 0 1 0

unfoldable pub get_uint32 : List ℕ → Option ℕ
unfolding get_uint_loop
get_uint32 buf = get_uint_loop 32 4 buf 0 1 0

unfoldable pub get_uint64 : List ℕ → Option ℕ
unfolding get_uint_loop
get_uint64 buf = get_uint_loop 64 8 buf 0 1 0

-- `data[i] = num & 0xFF; num /= 256;`, `rounds` times.
set_uint_loop : ℕ → List ℕ → ℕ → ℕ → Option (List ℕ)
set_uint_loop zero buf i num = some buf
set_uint_loop (suc rounds) buf i num = do
  buf' ← store buf i (bit_and num 0xFF)
  set_uint_loop rounds buf' (suc i) (num / 256)

-- The setters return the buffer and the number of bytes.
unfoldable pub set_uint16 : List ℕ → ℕ → Option (List ℕ × ℕ)
unfolding set_uint_loop
set_uint16 buf num = do buf' ← set_uint_loop 2 buf 0 num; some (buf', 2)

unfoldable pub set_uint32 : List ℕ → ℕ → Option (List ℕ × ℕ)
unfolding set_uint_loop
set_uint32 buf num = do buf' ← set_uint_loop 4 buf 0 num; some (buf', 4)

-- `set_uint64` takes an `int64_t`: `negsuc n` is -(n + 1).
pub data Int64 : Type 0 where
  pos : ℕ → Int64
  negsuc : ℕ → Int64

-- The conversion of a `uint64_t` argument.
unfoldable pub to_int64 : ℕ → Int64
to_int64 u = if ltb u (2 ^ 63) then pos u else negsuc (2 ^ 64 - 1 - u)

-- `num & 0xFF`, on the two's complement form.
unfoldable pub low_byte_of : Int64 → ℕ
low_byte_of (pos n) = bit_and n 0xFF
low_byte_of (negsuc n) = 255 - bit_and n 0xFF

-- The number -n.
unfoldable pub minus : ℕ → Int64
minus zero = pos 0
minus (suc n) = negsuc n

-- `num / 256`, which rounds towards zero.
unfoldable pub div_256 : Int64 → Int64
unfolding minus
div_256 (pos n) = pos (n / 256)
div_256 (negsuc n) = minus ((n + 1) / 256)

set_int_loop : ℕ → List ℕ → ℕ → Int64 → Option (List ℕ)
unfolding low_byte_of div_256
set_int_loop zero buf i num = some buf
set_int_loop (suc rounds) buf i num = do
  buf' ← store buf i (low_byte_of num)
  set_int_loop rounds buf' (suc i) (div_256 num)

unfoldable pub set_uint64 : List ℕ → Int64 → Option (List ℕ × ℕ)
unfolding set_int_loop
set_uint64 buf num = do buf' ← set_int_loop 8 buf 0 num; some (buf', 8)
