-- ===== src/Storage/Adapter/Blocks.antt =====
-- The bytes of a bucket, in path-oram/src/storage-adapter.cpp, and reading them back.
use mathlib.Core.List.{append_assoc, append-nil}
use path_oram_base.Common.{
  ℕ, ◌+◌, ◌-◌, ◌*◌, ◌≤◌, ◌≡◌, sym, ap, ◌∙◌, List, [], ◌∷◌, ◌++◌, map, arith, length, take, drop,
  replicate, length-append, length-replicate, take-append, drop-append, replicate-All, All,
  All-append,
}
use path_oram_base.Encoding.{IsByte, le_bytes, from_le, le_bytes-IsBytes, from_le-le_bytes}
use path_oram_base.Storage.Adapter.{block_at, blocks_from, block_bytes}
use path_oram_base.Storage.{pad, pad_block, IsBlock}
use path_oram_base.Types.{Bytes, Block, Bucket}

unfoldable pub bucket_bytes : ℕ → Bucket → Bytes
bucket_bytes n [] = []
bucket_bytes n (e ∷ es) = block_bytes n e ++ bucket_bytes n es

pub length-pad : (n : ℕ) (xs : Bytes) → length xs ≤ n → length (pad n xs) ≡ n
unfolding pad
length-pad n xs h = omega (
  arith,
  length-append xs (replicate (n - length xs) 0),
  length-replicate {A = ℕ} (n - length xs) 0,
)

pub pad-IsByte : (n : ℕ) (xs : Bytes) → All IsByte xs → All IsByte (pad n xs)
unfolding pad
pad-IsByte n xs h = All-append IsByte xs _ h (replicate-All IsByte (n - length xs) 0 (omega arith))

-- The ID of a block, in 16 bytes.
abbrev id_bytes : ℕ → Bytes
id_bytes id = le_bytes 8 id ++ replicate 8 0

length-id_bytes : (id : ℕ) → length (id_bytes id) ≡ 16
length-id_bytes id =
    omega (arith, length-append (le_bytes 8 id) (replicate 8 0), (le_bytes-IsBytes 8 id).0)

pub length-block_bytes : (n : ℕ) (e : Block) → IsBlock n e → length (block_bytes n e) ≡ n + 16
unfolding block_bytes
length-block_bytes n e h =
    omega
      (arith, length-append (id_bytes e.0) (pad n e.1), length-id_bytes e.0, length-pad n e.1 h.1)

block_bytes-IsByte : (n : ℕ) (e : Block) → IsBlock n e → All IsByte (block_bytes n e)
unfolding block_bytes
block_bytes-IsByte n e h =
    All-append IsByte (id_bytes e.0) _
      (All-append IsByte (le_bytes 8 e.0) _ (le_bytes-IsBytes 8 e.0).1
        (replicate-All IsByte 8 0 (omega arith)))
      (pad-IsByte n e.1 h.2)

pub length-bucket_bytes :
    (n : ℕ) (es : Bucket) → All (IsBlock n) es → length (bucket_bytes n es) ≡ length es * (n + 16)
unfolding bucket_bytes
length-bucket_bytes n [] h = omega arith
length-bucket_bytes n (e ∷ es) h = omega (
  arith,
  length-append (block_bytes n e) (bucket_bytes n es),
  length-block_bytes n e h.0,
  length-bucket_bytes n es h.1,
)

pub bucket_bytes-IsByte :
    (n : ℕ) (es : Bucket) → All (IsBlock n) es → All IsByte (bucket_bytes n es)
unfolding bucket_bytes
bucket_bytes-IsByte n [] h = tt
bucket_bytes-IsByte n (e ∷ es) h =
    All-append IsByte (block_bytes n e) _ (block_bytes-IsByte n e h.0)
      (bucket_bytes-IsByte n es h.1)

-- One block, behind `pre`.
block_at-block_bytes :
    (n i : ℕ) (pre rest : Bytes) (e : Block)
    → IsBlock n e
    → length pre ≡ i * (n + 16)
    → block_at (n + 16) (pre ++ (block_bytes n e ++ rest)) i ≡ pad_block n e
unfolding block_at block_bytes pad_block
block_at-block_bytes n i pre rest e h k =
    let whole : drop (i * (n + 16)) (pre ++ (block_bytes n e ++ rest)) ≡ block_bytes n e ++ rest =
      drop-append (i * (n + 16)) pre _ k in
    let id : take 16 (block_bytes n e ++ rest) ≡ id_bytes e.0 =
      ap (take 16) (append_assoc (id_bytes e.0) (pad n e.1) rest)
      ∙ take-append 16 (id_bytes e.0) _ (length-id_bytes e.0) in
    let number : from_le (take 8 (id_bytes e.0)) ≡ e.0 =
      ap from_le (take-append 8 (le_bytes 8 e.0) _ (le_bytes-IsBytes 8 e.0).0)
      ∙ from_le-le_bytes 8 e.0 (omega (arith, h.0)) in
    let regroup : pre ++ (block_bytes n e ++ rest) ≡ (pre ++ id_bytes e.0) ++ (pad n e.1 ++ rest) =
      ap (λ t. pre ++ t) (append_assoc (id_bytes e.0) (pad n e.1) rest)
      ∙ sym (append_assoc pre (id_bytes e.0) (pad n e.1 ++ rest)) in
    let behind : drop (i * (n + 16) + 16) (pre ++ (block_bytes n e ++ rest)) ≡ pad n e.1 ++ rest =
      ap (drop (i * (n + 16) + 16)) regroup
      ∙ drop-append (i * (n + 16) + 16) (pre ++ id_bytes e.0) _
          (omega (arith, length-append pre (id_bytes e.0), length-id_bytes e.0, k)) in
    let size : n + 16 - 16 ≡ n = omega arith in
    ap
      (λ t. (
        from_le (take 8 (take 16 t)),
        take (n + 16 - 16) (drop (i * (n + 16) + 16) (pre ++ (block_bytes n e ++ rest))),
      ))
      whole
    ∙ ap
        (λ t. (t, take (n + 16 - 16) (drop (i * (n + 16) + 16) (pre ++ (block_bytes n e ++ rest)))))
        (ap (λ t. from_le (take 8 t)) id ∙ number)
    ∙ ap (λ t. (e.0, take (n + 16 - 16) t)) behind
    ∙ ap (λ t. (e.0, t))
        (ap (λ t. take t (pad n e.1 ++ rest)) size
          ∙ take-append n (pad n e.1) rest (length-pad n e.1 h.1))

-- Reading the bytes of a bucket gives its blocks, padded.
blocks_from-bucket_bytes_from :
    (n i : ℕ) (pre : Bytes) (es : Bucket) (response : List Block)
    → All (IsBlock n) es
    → length pre ≡ i * (n + 16)
    → blocks_from (length es) i (n + 16) (pre ++ bucket_bytes n es) response
      ≡ response ++ map (pad_block n) es
unfolding blocks_from bucket_bytes
blocks_from-bucket_bytes_from n i pre [] response h k = sym (append-nil response)
blocks_from-bucket_bytes_from n i pre (e ∷ es) response h k =
    ap
      (λ t.
        blocks_from (length es) (i + 1) (n + 16) (pre ++ (block_bytes n e ++ bucket_bytes n es))
          (response ++ t ∷ []))
      (block_at-block_bytes n i pre (bucket_bytes n es) e h.0 k)
    ∙ ap (λ t. blocks_from (length es) (i + 1) (n + 16) t (response ++ pad_block n e ∷ []))
        (sym (append_assoc pre (block_bytes n e) (bucket_bytes n es)))
    ∙ blocks_from-bucket_bytes_from n (i + 1) (pre ++ block_bytes n e) es
        (response ++ pad_block n e ∷ []) h.1
        (omega (arith, length-append pre (block_bytes n e), length-block_bytes n e h.0, k))
    ∙ append_assoc response (pad_block n e ∷ []) (map (pad_block n) es)

pub blocks_from-bucket_bytes :
    (n : ℕ) (es : Bucket) (response : List Block)
    → All (IsBlock n) es
    → blocks_from (length es) 0 (n + 16) (bucket_bytes n es) response
      ≡ response ++ map (pad_block n) es
blocks_from-bucket_bytes n es response h =
    blocks_from-bucket_bytes_from n 0 [] es response h (omega arith)
