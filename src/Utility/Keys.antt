-- ===== src/Utility/Keys.antt =====
-- storeKey, loadKey, hash and hashToNumber of path-oram/src/utility.cpp. A file is its bytes;
-- `opened` says whether it could be opened, and `fresh` is what the 32 bytes of a new buffer are.
-- Copying a longer key past the end of the buffer is undefined in the code; here the rest is dropped.
use mathlib.Core.List.{append-nil}
use path_oram_base.Common.{
  ℕ, ◌+◌, ◌%◌, ◌<◌, ◌≡◌, refl, ap, ◌∙◌, Bool, true, not, [], ◌++◌, arith, length, take, drop,
}
use native.Mathlib.Nat.{mod-lt}
use path_oram_base.Common.Effect.{M, ok, throw_if, cannot_open, bind}
use path_oram_base.Common.Slices.{splice, take-length_le, drop-length_le}
use path_oram_base.Encoding.{from_le}
use path_oram_base.Types.{Bytes}

-- storeKey
unfoldable pub store_key : Bool → Bytes → Bytes → M Bytes (Unit {0})
store_key opened fresh key file =
    bind (throw_if (not opened) cannot_open file) (λ _ _. ok tt (take 32 (splice 0 key fresh)))

-- loadKey
unfoldable pub load_key : Bool → Bytes → M Bytes Bytes
load_key opened fresh file =
    bind (throw_if (not opened) cannot_open file)
      (λ _ t. ok (take 32 (splice 0 (take 32 t) fresh)) t)

pub load_key-store_key :
    (fresh fresh' key old : Bytes)
    → length key ≡ 32
    → length fresh ≡ 32
    → length fresh' ≡ 32
    → bind (store_key true fresh key old) (λ _. load_key true fresh') ≡ ok key key
unfolding store_key load_key splice
load_key-store_key fresh fresh' key old h k q =
    let whole : (f : Bytes) → length f ≡ 32 → take 32 (key ++ drop (0 + length key) f) ≡ key =
      λ f e.
        ap (λ t. take 32 (key ++ t)) (drop-length_le (0 + length key) f (omega arith))
        ∙ ap (take 32) (append-nil key)
        ∙ take-length_le 32 key (omega arith) in
    rw (whole fresh k, take-length_le 32 key (omega arith), whole fresh' q) refl

module _ (digest : Bytes → Bytes) where
  -- hash, with the digest of OpenSSL's EVP: half of its 32 bytes go to the output.
  unfoldable pub hash : Bytes → Bytes → Bytes
  hash input output = output ++ take 16 (digest input)

  -- hashToNumber
  unfoldable pub hash_to_number : Bytes → ℕ → ℕ
  hash_to_number input max = from_le (take 8 (hash input [])) % max

  pub hash_to_number_lt : (input : Bytes) (max : ℕ) → 0 < max → hash_to_number input max < max
  unfolding hash_to_number
  hash_to_number_lt input max h = mod-lt _ h
