-- ===== src/Crypto/Tests.antt =====
-- The checksums of libyod/crypto.c at known inputs.
use libyod.Prelude.{ℕ, ◌≡◌, refl, some, List, [], ◌∷◌, arith, replicate}
use libyod.Text.Hex.{byte2hex}
use libyod.Crypto.Crc32.{crc32, not32}
use libyod.Crypto.Crc32.Table.{crc_all, crc32-crc_all}
use libyod.Crypto.Md5.{
  md5_init, md5_update, md5_count, md5_blocks, md5_block, md5_final, md5_bytes, md5_digits, md5enc,
  md5file,
}
use libyod.Crypto.Md5.Absorb.{Absorbed, md5_update-Absorbed}
use libyod.Crypto.Md5.Digest.{start, init-Absorbed, md5_of, md5enc-md5_of, concat, md5file-md5_of}

-- "123456789"
abbrev nine : List ℕ
nine = 49 ∷ 50 ∷ 51 ∷ 52 ∷ 53 ∷ 54 ∷ 55 ∷ 56 ∷ 57 ∷ []

crc32_run : crc32 nine 9 ≡ some 0xCBF43926
unfolding crc32
crc32_run = refl

crc32-crc_all_example : crc32 nine 9 ≡ some (not32 (crc_all (not32 0) nine))
crc32-crc_all_example = crc32-crc_all nine

abbrev junk : List ℕ
junk = replicate 64 7

-- The digest of "a".
md5enc_run :
    md5enc junk (97 ∷ [])
    ≡ some (
        0x0C ∷ 0xC1 ∷ 0x75 ∷ 0xB9 ∷ 0xC0 ∷ 0xF1 ∷ 0xB6 ∷ 0xA8 ∷ 0x31 ∷ 0xC3 ∷ 0x99 ∷ 0xE2 ∷ 0x69
        ∷ 0x77 ∷ 0x26 ∷ 0x61 ∷ [])
unfolding md5enc md5_final md5_update md5_blocks md5_block md5_count md5_bytes
md5enc_run = refl

md5_digits_run : md5_digits (0x0C ∷ 0xC1 ∷ []) ≡ 48 ∷ 99 ∷ 99 ∷ 49 ∷ 0 ∷ []
unfolding md5_digits byte2hex
md5_digits_run = refl

md5_update-Absorbed_example : Absorbed start (md5_update (md5_init junk) nine) nine
md5_update-Absorbed_example =
    md5_update-Absorbed start (md5_init junk) [] (init-Absorbed junk refl) nine (omega arith)

md5enc-md5_of_example : md5enc junk nine ≡ some (md5_of nine)
md5enc-md5_of_example = md5enc-md5_of junk nine refl (omega arith) (omega arith)

md5file-md5_of_example : md5file junk (nine ∷ nine ∷ []) ≡ md5_of (concat (nine ∷ nine ∷ []))
md5file-md5_of_example =
    md5file-md5_of junk (nine ∷ nine ∷ []) refl (omega arith, (omega arith, tt))
