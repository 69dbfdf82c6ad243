-- ===== src/ProxyLayer.antt =====
-- The encryption of files in path-oram/src/trusted_proxy_layer.cpp, and the commands that put it together
-- with the splitting of files and keys. The stream cipher of libsodium is a parameter.
pub mod RoundTrip
pub mod Sizes
pub mod Commands
use path_oram_base.Common.{
  ℕ, zero, suc, ◌+◌, ◌≤◌, ◌<◌, ◌≡◌, Bool, true, false, Option, none, some, List, ◌++◌, length, take,
  drop, ltb, if◌then◌else◌, ◌&&◌, not, All, [], ◌∷◌,
}
use path_oram_base.Common.Checked.{◌>>=◌}
use path_oram_base.Common.Int.{ℤ}
use path_oram_base.Encoding.{IsByte}
use path_oram_base.Oram.Memory.{bytes_eq}
use path_oram_base.Random.{Words}
use path_oram_base.Splitter.{
  ShareFiles, Combined, too_few, combined, read_file, handle_text, split_keys, join_keys,
}
use path_oram_base.Types.{Bytes}

-- The functions of crypto_secretstream_xchacha20poly1305, where the tag is whether it is TAG_FINAL.
-- `init_push` takes the random bytes of the header.
pub record SecretStream (S : Type 0) : Type 0 where
  pub init_push : Bytes → Bytes → Bytes × S
  pub push : S → Bytes → Bool → Bytes × S
  pub init_pull : Bytes → Bytes → Option S
  pub pull : S → Bytes → Option (Bytes × Bool × S)

-- What libsodium documents: a header has HEADERBYTES, a message grows by ABYTES, both are bytes, and
-- what was pushed is pulled in the same order, which keeps two states `Paired`.
pub record IsStream {S : Type 0} (c : SecretStream S) : Type 1 where
  pub Paired : S → S → Type 0
  pub header_size : (key seed : Bytes) → length (c.init_push key seed).0 ≡ 24
  pub header_bytes : (key seed : Bytes) → All IsByte (c.init_push key seed).0
  pub starts :
      (key seed : Bytes)
      → (t : S) × (c.init_pull key (c.init_push key seed).0 ≡ some t)
        × Paired (c.init_push key seed).1 t
  pub push_size : (s : S) (m : Bytes) (tag : Bool) → length (c.push s m tag).0 ≡ length m + 17
  pub push_bytes : (s : S) (m : Bytes) (tag : Bool) → All IsByte m → All IsByte (c.push s m tag).0
  pub pulls :
      (s t : S) (m : Bytes) (tag : Bool)
      → Paired s t
      → (u : S) × (c.pull t (c.push s m tag).0 ≡ some (m, tag, u)) × Paired (c.push s m tag).1 u

-- What the branch for "-encrypt" works on: the key, the random bytes of the header and the file, the
-- random coefficients of the two splittings, and the uninitialised bytes of their buffers.
pub record Input : Type 0 where
  pub key : Bytes
  pub seed : Bytes
  pub file : Bytes
  pub key_words : Words
  pub words : Words
  pub key_junk : Bytes
  pub junk : ℕ

-- What shamirSecretSharing does: it joins files, shares files, writes a configuration, or helps.
pub data Performed : Type 0 where
  joined : Combined → Performed
  shared : List (List ℤ) → List (List ℤ) → Performed
  configured : ℕ → ℕ → Performed
  helped : Performed

-- "-decrypt", "-encrypt" and "-config".
abbrev pub decrypt_option : Bytes
decrypt_option = 45 ∷ 100 ∷ 101 ∷ 99 ∷ 114 ∷ 121 ∷ 112 ∷ 116 ∷ []

abbrev pub encrypt_option : Bytes
encrypt_option = 45 ∷ 101 ∷ 110 ∷ 99 ∷ 114 ∷ 121 ∷ 112 ∷ 116 ∷ []

abbrev pub config_option : Bytes
config_option = 45 ∷ 99 ∷ 111 ∷ 110 ∷ 102 ∷ 105 ∷ 103 ∷ []

module _ {S : Type 0} (c : SecretStream S) where
  -- The loop of createSecretSharedData: `feof` holds once fewer bytes than asked for
  -- were read, and then the tag is TAG_FINAL.
  unfoldable pub push_pieces : ℕ → ℕ → S → Bytes → Option Bytes
  push_pieces zero size s file = none
  push_pieces (suc fuel) size s file = elim (ltb (length file) size) [
    | true ↦ some (c.push s (take size file) true).0
    | false ↦ do
      rest ← push_pieces fuel size (c.push s (take size file) false).1 (drop size file)
      some ((c.push s (take size file) false).0 ++ rest)
  ]

  -- createSecretSharedData: what it writes. Each round takes a piece, so the size is enough fuel.
  unfoldable pub create_secret_shared_data : Bytes → Bytes → Bytes → Option Bytes
  unfolding push_pieces
  create_secret_shared_data key seed source = do
    out ← push_pieces (suc (length source)) 4096 (c.init_push key seed).1 source
    some ((c.init_push key seed).0 ++ out)

  -- What a round of decryptSecretSharedData does after a pull: with a final tag before the end it closes
  -- its files and goes on, which is undefined.
  unfoldable pub pulled : Bool → Bool → Bytes → Option Bytes → Option Bytes
  pulled true eof m rest = if eof then some m else none
  pulled false true m rest = some m
  pulled false false m rest = do r ← rest; some (m ++ r)

  -- The loop of decryptSecretSharedData: it also goes on after a pull that fails.
  unfoldable pub pull_pieces : ℕ → ℕ → S → Bytes → Option Bytes
  unfolding pulled
  pull_pieces zero size s file = none
  pull_pieces (suc fuel) size s file = do
    r ← c.pull s (take size file)
    pulled r.1 (ltb (length file) size) r.0 (pull_pieces fuel size r.2 (drop size file))

  -- decryptSecretSharedData: what it writes, where it is defined.
  unfoldable pub decrypt_secret_shared_data : Bytes → Bytes → Option Bytes
  unfolding pull_pieces
  decrypt_secret_shared_data key source = do
    s ← c.init_pull key (take 24 source)
    pull_pieces (suc (length source)) 4113 s (drop 24 source)

  -- The branch of shamirSecretSharing for "-encrypt": the files of the key and of the file.
  unfoldable pub encrypt_and_split : ℕ → ℕ → Input → Option (List (List ℤ) × List (List ℤ))
  unfolding create_secret_shared_data
  encrypt_and_split n k input = do
    encrypted ← create_secret_shared_data input.key input.seed input.file
    key_files ← split_keys n k input.key_words input.key_junk input.key
    files ← read_file n k input.junk input.words encrypted
    some (key_files, files)

  -- After handle_text: without the encrypted file there is nothing to decrypt.
  unfoldable pub decrypt_combined : Bytes → Combined → Option Combined
  unfolding decrypt_secret_shared_data
  decrypt_combined key (too_few ct) = none
  decrypt_combined key (combined encrypted) = do
    file ← decrypt_secret_shared_data key encrypted
    some (combined file)

  unfoldable pub with_key : ℕ → ShareFiles → Combined → Option Combined
  unfolding decrypt_combined
  with_key k files (too_few ct) = some (too_few ct)
  with_key k files (combined key) = do result ← handle_text k files; decrypt_combined key result

  -- The branch for "-decrypt".
  unfoldable pub join_and_decrypt : ℕ → ShareFiles → ShareFiles → Option Combined
  unfolding with_key
  join_and_decrypt k key_files files = do result ← join_keys k key_files; with_key k files result

  -- The branches on the option. `stored` is what the servers have of the key and of the file.
  unfoldable pub run_option : Bytes → ℕ → ℕ → Input → ShareFiles × ShareFiles → Option Performed
  unfolding join_and_decrypt encrypt_and_split
  run_option option n k input stored =
      if bytes_eq option decrypt_option
      then (do result ← join_and_decrypt k stored.0 stored.1; some (joined result))
      else if bytes_eq option encrypt_option
      then (do files ← encrypt_and_split n k input; some (shared files.0 files.1))
      else some helped

  -- shamirSecretSharing, where sodium_init succeeds. The arguments are those of the program; with
  -- fewer than three it makes a string of a null pointer, and with three or more than four it does
  -- not look at the second one.
  unfoldable pub shamir_secret_sharing :
      List Bytes → ℕ → ℕ → Input → ShareFiles × ShareFiles → Option Performed
  unfolding run_option
  shamir_secret_sharing (program ∷ option ∷ value ∷ last ∷ []) n k input stored =
      some (if bytes_eq option config_option then configured 3 6 else helped)
  shamir_secret_sharing (program ∷ option ∷ value ∷ more) n k input stored =
      run_option decrypt_option n k input stored
  shamir_secret_sharing argv n k input stored = none
