-- ===== src/ProxyLayer/RoundTrip.antt =====
-- createSecretSharedData and decryptSecretSharedData of path-oram/src/trusted_proxy_layer.cpp together.
use path_oram_base.Common.{
  ℕ, zero, suc, ◌+◌, ◌-◌, ◌≤◌, ◌<◌, ◌≡◌, refl, ap, ◌∙◌, arith, true, false, some, ◌++◌, length,
  take, drop, ltb, le→ltb, lt→ltb, ltb→lt, inl, inr, Bool-cases, length-append, length-take,
  length-drop, take-append, drop-append, append-take-drop,
}
use path_oram_base.Common.Slices.{take-length_le}
use path_oram_base.ProxyLayer.{
  SecretStream, IsStream, push_pieces, pull_pieces, pulled, create_secret_shared_data,
  decrypt_secret_shared_data,
}
use path_oram_base.Types.{Bytes}

module _ {S : Type 0} (c : SecretStream S) (r : IsStream c) where
  -- What the loop pushes, a loop with enough fuel pulls.
  pull_pieces-push_pieces :
      (fuel size : ℕ) (s t : S) (file : Bytes)
      → length file < fuel
      → 0 < size
      → r.Paired s t
      → (out : Bytes) × (push_pieces c fuel size s file ≡ some out)
        × (length file ≤ length out)
        × ((more : ℕ) → pull_pieces c (fuel + more) (size + 17) t out ≡ some file)
  unfolding push_pieces pull_pieces pulled
  pull_pieces-push_pieces zero size s t file h p q = absurd (omega arith)
  pull_pieces-push_pieces (suc fuel) size s t file h p q =
      elim (Bool-cases (ltb (length file) size)) [
        | inl e ↦
            let short = ltb→lt (length file) size e in
            let whole = take-length_le size file (omega (arith, short)) in
            let out = (c.push s file true).0 in
            let (u, f, g) = r.pulls s t file true q in
            let grown = r.push_size s file true in
            (
              out,
              rw (push_pieces, e, whole) refl,
              omega (arith, grown),
              λ more.
                  ap (λ k. pull_pieces c k (size + 17) t out) (next fuel more)
                  ∙ (rw
                      (
                        pull_pieces,
                        take-length_le (size + 17) out (omega (arith, grown, short)),
                        f,
                        lt→ltb (length out) (size + 17) (omega (arith, grown, short)),
                      )
                      refl),
            )
        | inr e ↦
            let long : size ≤ length file = ground (arith, e) in
            let piece = take size file in
            let first = (c.push s piece false).0 in
            let (u, f, g) = r.pulls s t piece false q in
            let (rest, k, less, l) =
              pull_pieces-push_pieces fuel size (c.push s piece false).1 u (drop size file)
                (omega (arith, length-drop size file)) p g in
            let grown : length first ≡ size + 17 =
              omega (arith, r.push_size s piece false, length-take size file) in
            let all = length-append first rest in
            (
              first ++ rest,
              rw (push_pieces, e, k) refl,
              omega (arith, all, less, grown, length-drop size file),
              λ more.
                  ap (λ j. pull_pieces c j (size + 17) t (first ++ rest)) (next fuel more)
                  ∙ (rw
                      (
                        pull_pieces,
                        take-append (size + 17) first rest grown,
                        f,
                        le→ltb (length (first ++ rest)) (size + 17) (omega (arith, all, grown)),
                        drop-append (size + 17) first rest grown,
                        l more,
                      )
                      (ap some (append-take-drop size file))),
            )
      ]
    where
      next : (fuel more : ℕ) → suc fuel + more ≡ suc (fuel + more)
      next fuel more = omega arith

  -- Decrypting what was encrypted gives the file.
  pub decrypt-create :
      (key seed file : Bytes)
      → (encrypted : Bytes) × (create_secret_shared_data c key seed file ≡ some encrypted)
        × (decrypt_secret_shared_data c key encrypted ≡ some file)
  unfolding create_secret_shared_data decrypt_secret_shared_data
  decrypt-create key seed file =
      let (t, e, p) = r.starts key seed in
      let first = (c.init_push key seed).0 in
      let (out, f, less, g) =
        pull_pieces-push_pieces (suc (length file)) 4096 (c.init_push key seed).1 t file
          (omega arith) (omega arith) p in
      let size = r.header_size key seed in
      (
        first ++ out,
        rw f refl,
        rw (take-append 24 first out size, e, drop-append 24 first out size)
            (ap (λ k. pull_pieces c k 4113 t out)
                (enough (length (first ++ out)) (length file) (length out)
                  (omega (arith, length-append first out, size)) less)
              ∙ g (24 + (length out - length file))),
      )
    where
      enough : (all m l : ℕ) → all ≡ 24 + l → m ≤ l → suc all ≡ suc m + (24 + (l - m))
      enough all m l h k = omega arith
