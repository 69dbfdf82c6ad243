-- ===== src/Utility/Encrypt.antt =====
-- What encrypt of path-oram/src/utility.cpp does.
use path_oram_base.Common.{◌%◌, ◌<◌, ◌≡◌, refl, ◌++◌, arith, length, All, eq→==, ne→==}
use path_oram_base.Common.Effect.{ok}
use path_oram_base.Encoding.{IsByte, IsBytes}
use path_oram_base.Types.{Bytes}
use path_oram_base.Utility.{
  Suite, IsCipher, BlockCipherMode, cbc, ctr, no_cipher, EncryptionMode, for_encryption,
  for_decryption, transform, encrypt,
}

module _ {ℓ} {S : Type ℓ} (u : Suite) (key iv input : Bytes) (h : length key ≡ 32)
    (k : length iv ≡ 16) (p : 0 < length input) (q : length input % 16 ≡ 0) where
  -- With a key and an IV of the right sizes and whole blocks, it does not throw.
  pub encrypt-runs :
      (output : Bytes) (mode : EncryptionMode) (s : S)
      → encrypt u key iv input output mode s ≡ ok (output ++ transform u key iv input mode) s
  unfolding encrypt
  encrypt-runs output mode s = rw (
    eq→== (length key) 32 h,
    ne→== (length input) 0 (omega arith),
    eq→== (length input % 16) 0 q,
    eq→== (length iv) 16 k,
  )

module _ (u : Suite) (law : IsCipher u.cipher) (key iv input : Bytes) (h : IsBytes 32 key)
    (k : IsBytes 16 iv) (b : All IsByte input) (q : length input % 16 ≡ 0) where
  pub length-transform : length (transform u key iv input for_encryption) ≡ length input
  unfolding transform
  length-transform = by_mode u.cipher_mode
    where
      by_mode :
          (m : BlockCipherMode)
          → length (transform (record u { cipher_mode = m }) key iv input for_encryption)
            ≡ length input
      by_mode cbc = law.cbc_length key iv input h k b q
      by_mode ctr = law.ctr_length key iv input h k b
      by_mode no_cipher = refl

  pub transform-transform :
      transform u key iv (transform u key iv input for_encryption) for_decryption ≡ input
  unfolding transform
  transform-transform = by_mode u.cipher_mode
    where
      by_mode :
          (m : BlockCipherMode)
          → transform
              (record u { cipher_mode = m })
              key
              iv
              (transform (record u { cipher_mode = m }) key iv input for_encryption)
              for_decryption
            ≡ input
      by_mode cbc = law.cbc_inverse key iv input h k b q
      by_mode ctr = law.ctr_inverse key iv input h k b
      by_mode no_cipher = refl
