-- ===== src/Bytes/Vint.antt =====
-- libyod/common.c: variable-length integers, seven bits to a byte, lowest first (get_vint32/64,
-- set_vint32/64). The 32 and 64 bit copies differ in the width and in the number of bytes.
pub mod Encode
pub mod Decode
pub mod RoundTrip
use libyod.Prelude.{
  ℕ, zero, suc, ◌+◌, ◌*◌, ◌/◌, ◌%◌, ◌^◌, bit_and, bit_or, List, Option, none, some, ◌>>=◌,
  get_elem?, store, ltb, ◌==◌, if◌then◌else◌,
}

-- `while (i < max) { ret += (data[i] & 0x7F) * n; if ((data[i++] & 0x80) == 0) break; n *= 128; }`
-- with `rounds` = max - i. The result is `(ret, i)`.
pub get_vint_loop : ℕ → ℕ → List ℕ → ℕ → ℕ → ℕ → Option (ℕ × ℕ)
get_vint_loop w zero buf i n ret = some (ret, i)
get_vint_loop w (suc rounds) buf i n ret = do
  b ← get_elem? buf i
  let ret' = (ret + bit_and b 0x7F * n) % 2 ^ w
  let more = get_vint_loop w rounds buf (suc i) (n * 128 % 2 ^ w) ret'
  if bit_and b 0x80 == 0 then some (ret', suc i) else more

-- `if (i > max - 1 && (data[max - 1] & 0x80) != 0) ret += top;`
pub get_vint_top : ℕ → ℕ → ℕ → List ℕ → ℕ × ℕ → Option (ℕ × ℕ)
get_vint_top w last top buf (ret, i) =
    if ltb last i
    then (do
      b ← get_elem? buf last
      some (if bit_and b 0x80 == 0 then ret else (ret + top) % 2 ^ w, i))
    else some (ret, i)

-- The getters return the number and the count of bytes read.
unfoldable pub get_vint32 : List ℕ → Option (ℕ × ℕ)
unfolding get_vint_loop get_vint_top
get_vint32 buf = get_vint_loop 32 5 buf 0 1 0 >>= get_vint_top 32 4 0x80000000 buf

unfoldable pub get_vint64 : List ℕ → Option (ℕ × ℕ)
unfolding get_vint_loop get_vint_top
get_vint64 buf = get_vint_loop 64 9 buf 0 1 0 >>= get_vint_top 64 8 0x8000000000000000 buf

-- `while (num > 128) { data[ret] = (num % 128) | 0x80; num /= 128; if (ret++ > limit) break; }`
-- on fuel: the loop breaks in round `limit + 2` at the latest. The result is `(data, ret, num)`.
pub set_vint_loop : ℕ → ℕ → List ℕ → ℕ → ℕ → Option (List ℕ × ℕ × ℕ)
set_vint_loop zero limit buf ret num = none
set_vint_loop (suc fuel) limit buf ret num =
    let more = (do
      buf' ← store buf ret (bit_or (num % 128) 0x80)
      let rest = set_vint_loop fuel limit buf' (suc ret) (num / 128)
      if ltb limit ret then some (buf', suc ret, num / 128) else rest) in
    if ltb 128 num then more else some (buf, ret, num)

-- `data[ret++] = (byte) num; return ret;`
pub set_vint_last : List ℕ × ℕ × ℕ → Option (List ℕ × ℕ)
set_vint_last (buf, ret, num) = do buf' ← store buf ret (num % 256); some (buf', suc ret)

unfoldable pub set_vint32 : List ℕ → ℕ → Option (List ℕ × ℕ)
unfolding set_vint_loop set_vint_last
set_vint32 buf num = set_vint_loop 5 3 buf 0 num >>= set_vint_last

unfoldable pub set_vint64 : List ℕ → ℕ → Option (List ℕ × ℕ)
unfolding set_vint_loop set_vint_last
set_vint64 buf num = set_vint_loop 9 7 buf 0 num >>= set_vint_last
