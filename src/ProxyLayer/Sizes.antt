-- ===== src/ProxyLayer/Sizes.antt =====
-- How long a file is that createSecretSharedData of path-oram/src/trusted_proxy_layer.cpp writes.
use mathlib.Core.Option.{some-injective}
use native.Mathlib.Nat.{div-eq-sub-div, div-eq_of_lt}
use path_oram_base.Common.{
  ℕ, zero, suc, ◌+◌, ◌*◌, ◌/◌, ◌≤◌, ◌<◌, ◌≡◌, refl, sym, ap, ◌∙◌, arith, true, false, some, ◌++◌,
  length, take, drop, ltb, ltb→lt, inl, inr, Bool-cases, length-append, length-take, length-drop,
  All, All-append, subst,
}
use path_oram_base.Common.Slices.{take-length_le}
use path_oram_base.Encoding.{IsByte}
use path_oram_base.ProxyLayer.{SecretStream, IsStream, push_pieces, create_secret_shared_data}
use path_oram_base.Splitter.Numbers.{take-All, drop-All}
use path_oram_base.Types.{Bytes}

-- The size of the encrypted file.
abbrev pub encrypted_size : ℕ → ℕ
encrypted_size m = 24 + m + 17 * (m / 4096 + 1)

module _ {S : Type 0} (c : SecretStream S) (r : IsStream c) where
  -- Each piece, the last short one too, grows by 17 bytes.
  push_pieces-sized :
      (fuel size : ℕ) (s : S) (file : Bytes)
      → length file < fuel
      → 0 < size
      → All IsByte file
      → (out : Bytes) × (push_pieces c fuel size s file ≡ some out)
        × (length out ≡ length file + 17 * (length file / size + 1))
        × All IsByte out
  unfolding push_pieces
  push_pieces-sized zero size s file h p a = absurd (omega arith)
  push_pieces-sized (suc fuel) size s file h p a = elim (Bool-cases (ltb (length file) size)) [
    | inl e ↦
        let short = ltb→lt (length file) size e in
        let none_left = div-eq_of_lt short in
        (
          (c.push s file true).0,
          rw (push_pieces, e, take-length_le size file (omega (arith, short))) refl,
          omega (arith, r.push_size s file true, none_left),
          r.push_bytes s file true a,
        )
    | inr e ↦
        let long : size ≤ length file = ground (arith, e) in
        let piece = take size file in
        let first = (c.push s piece false).0 in
        let left = length-drop size file in
        let (rest, k, size_rest, bytes_rest) =
          push_pieces-sized fuel size (c.push s piece false).1 (drop size file)
            (omega (arith, left)) p (drop-All size file a) in
        (
          first ++ rest,
          rw (push_pieces, e, k) refl,
          omega (
            arith,
            length-append first rest,
            size_rest,
            r.push_size s piece false,
            length-take size file,
            left,
            div-eq-sub-div p long,
            ap (λ t. t / size) left,
          ),
          All-append IsByte first rest (r.push_bytes s piece false (take-All size file a))
              bytes_rest,
        )
  ]

  pub create-sized :
      (key seed file encrypted : Bytes)
      → All IsByte file
      → create_secret_shared_data c key seed file ≡ some encrypted
      → (length encrypted ≡ encrypted_size (length file)) × All IsByte encrypted
  unfolding create_secret_shared_data
  create-sized key seed file encrypted a e =
      let first = (c.init_push key seed).0 in
      let (out, f, size, good) =
        push_pieces-sized (suc (length file)) 4096 (c.init_push key seed).1 file (omega arith)
          (omega arith) a in
      let same : first ++ out ≡ encrypted = some-injective (first ++ out) encrypted (rw f at e) in
      (
        sym (ap length same) ∙ omega (arith, length-append first out, size, r.header_size key seed),
        subst (All IsByte) same (All-append IsByte first out (r.header_bytes key seed) good),
      )
