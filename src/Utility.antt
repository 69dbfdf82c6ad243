-- ===== src/Utility.antt =====
-- path-oram/src/utility.cpp, but for the random numbers.
pub mod Encrypt
pub mod Text
pub mod Keys
use path_oram_base.Common.{
  ℕ, zero, suc, ◌+◌, ◌-◌, ◌*◌, ◌/◌, ◌%◌, ◌≡◌, Bool, true, false, not, List, [], ◌∷◌, ◌++◌, ◌==◌,
  ◌||◌, length, All,
}
use path_oram_base.Common.Effect.{
  M, ok, bind, throw_if, wrong_key_size, wrong_input_size, wrong_iv_size, ◌>>◌,
}
use path_oram_base.Encoding.{IsByte, IsBytes}
use path_oram_base.Types.{Bytes}

-- BlockCipherMode, of include/definitions.h.
pub data BlockCipherMode : Type 0 where
  cbc : BlockCipherMode
  ctr : BlockCipherMode
  no_cipher : BlockCipherMode

-- EncryptionMode.
pub data EncryptionMode : Type 0 where
  for_encryption : EncryptionMode
  for_decryption : EncryptionMode

-- What OpenSSL does with a key, an IV and an input: CRYPTO_cbc128_encrypt, CRYPTO_cbc128_decrypt
-- and CRYPTO_ctr128_encrypt on AES, each with the key schedule that it needs.
pub record Cipher : Type 0 where
  pub cbc_encrypt : Bytes → Bytes → Bytes → Bytes
  pub cbc_decrypt : Bytes → Bytes → Bytes → Bytes
  pub ctr_encrypt : Bytes → Bytes → Bytes → Bytes

-- That decryption undoes encryption, with a key of 32 bytes, an IV of 16 and whole blocks of 16.
pub record IsCipher (c : Cipher) : Type 0 where
  pub cbc_length :
      (key iv xs : Bytes)
      → IsBytes 32 key
      → IsBytes 16 iv
      → All IsByte xs
      → length xs % 16 ≡ 0
      → length (c.cbc_encrypt key iv xs) ≡ length xs
  pub cbc_inverse :
      (key iv xs : Bytes)
      → IsBytes 32 key
      → IsBytes 16 iv
      → All IsByte xs
      → length xs % 16 ≡ 0
      → c.cbc_decrypt key iv (c.cbc_encrypt key iv xs) ≡ xs
  pub ctr_length :
      (key iv xs : Bytes)
      → IsBytes 32 key
      → IsBytes 16 iv
      → All IsByte xs
      → length (c.ctr_encrypt key iv xs) ≡ length xs
  pub ctr_inverse :
      (key iv xs : Bytes)
      → IsBytes 32 key
      → IsBytes 16 iv
      → All IsByte xs
      → c.ctr_encrypt key iv (c.ctr_encrypt key iv xs) ≡ xs

-- The library, and the global __blockCipherMode.
pub record Suite : Type 0 where
  pub cipher : Cipher
  pub cipher_mode : BlockCipherMode

-- The part of encrypt after its checks.
unfoldable pub transform : Suite → Bytes → Bytes → Bytes → EncryptionMode → Bytes
transform u key iv input mode = elim u.cipher_mode [
  | no_cipher ↦ input
  | ctr ↦ u.cipher.ctr_encrypt key iv input
  | cbc ↦ elim mode [
    | for_encryption ↦ u.cipher.cbc_encrypt key iv input
    | for_decryption ↦ u.cipher.cbc_decrypt key iv input
  ]
]

-- encrypt: what it adds to the end of `output`.
unfoldable pub encrypt {ℓ} :
    {S : Type ℓ} → Suite → Bytes → Bytes → Bytes → Bytes → EncryptionMode → M S Bytes
unfolding transform
encrypt u key iv input output mode = do
  throw_if (not (length key == 32)) (wrong_key_size (length key))
  throw_if (length input == 0 || not (length input % 16 == 0)) (wrong_input_size (length input))
  throw_if (not (length iv == 16)) (wrong_iv_size (length iv))
  ok (output ++ transform u key iv input mode)
