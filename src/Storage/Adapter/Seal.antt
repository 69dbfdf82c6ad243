-- ===== src/Storage/Adapter/Seal.antt =====
-- What path-oram/src/storage-adapter.cpp writes for a bucket, and that reading undoes it.
use mathlib.Core.List.{append_assoc, append-nil}
use native.Mathlib.Nat.{mul-div_cancel_left, mul-le-mul_right}
use path_oram_base.Common.{
  ℕ, ◌+◌, ◌*◌, ◌/◌, ◌%◌, ◌<◌, ◌≤◌, ◌≡◌, refl, sym, ap, ◌∙◌, List, [], ◌∷◌, ◌++◌, map, arith, length,
  take, drop, length-append, take-append, drop-append, All, le→ltb, lt→leb, eq→==,
}
use path_oram_base.Common.Effect.{ok, bind, within}
use path_oram_base.Encoding.{IsByte, IsBytes}
use path_oram_base.Random.Blocks.{get_random_block-runs}
use path_oram_base.Random.{Words}
use path_oram_base.Storage.Adapter.Blocks.{
  bucket_bytes, length-bucket_bytes, bucket_bytes-IsByte, blocks_from-bucket_bytes,
}
use path_oram_base.Storage.Adapter.{
  Settings, RawStore, Adapter, blocks_from, block_bytes, blocks_bytes, check_block_size,
  check_capacity, seal_request, open_raws,
}
use path_oram_base.Storage.{pad_block, IsBlock, IsBucket}
use path_oram_base.Types.{Bytes, Block, Bucket}
use path_oram_base.Utility.Encrypt.{encrypt-runs, length-transform, transform-transform}
use path_oram_base.Utility.{Suite, IsCipher, transform, for_encryption, for_decryption}

-- What the constructor makes sure of.
pub record IsSettings (c : Settings) : Type 0 where
  pub key_good : IsBytes 32 c.key
  pub some_blocks : 0 < c.bucket_size
  pub long_enough : 32 ≤ c.user_block_size
  pub whole : c.user_block_size % 16 ≡ 0
  pub size : c.block_size ≡ (c.user_block_size + 16) * c.bucket_size + 16

module _ (u : Suite) (c : Settings) where
  -- An IV and the encrypted bytes of a bucket.
  abbrev pub sealed : Bytes → Bucket → Bytes
  sealed iv b = iv ++ transform u c.key iv (bucket_bytes c.user_block_size b) for_encryption

  -- What open_raws reads from bytes.
  abbrev pub opened : Bytes → Bucket
  opened raw =
      let decrypted = transform u c.key (take 16 raw) (drop 16 raw) for_decryption in
      blocks_from c.bucket_size 0 (length decrypted / c.bucket_size) decrypted []

  abbrev pub Good : Bucket → Type 0
  Good = IsBucket c.user_block_size c.bucket_size

  module _ (v : IsSettings c) (b : Bucket) (good : Good b) where
    plain_length :
        length (bucket_bytes c.user_block_size b) ≡ c.bucket_size * (c.user_block_size + 16)
    plain_length = rw (← good.0) (length-bucket_bytes c.user_block_size b good.1)

    plain_whole : length (bucket_bytes c.user_block_size b) % 16 ≡ 0
    plain_whole =
        let (q, e) = multiple in omega (arith, plain_length, ap (λ (t : ℕ). c.bucket_size * t) e)
      where
        multiple : (q : ℕ) × (c.user_block_size + 16 ≡ q * 16)
        multiple = ((c.user_block_size + 16) / 16, omega (arith, v.whole))

    plain_bytes : All IsByte (bucket_bytes c.user_block_size b)
    plain_bytes = bucket_bytes-IsByte c.user_block_size b good.1

    plain_filled : 0 < length (bucket_bytes c.user_block_size b)
    plain_filled =
        omega (arith, plain_length, mul-le-mul_right (c.user_block_size + 16) v.some_blocks)

  module _ (law : IsCipher u.cipher) (v : IsSettings c) (iv : Bytes) (b : Bucket)
      (iv_good : IsBytes 16 iv) (good : Good b) where
    pub length-sealed : length (sealed iv b) ≡ c.block_size
    length-sealed = omega (
      arith,
      length-append iv (transform u c.key iv (bucket_bytes c.user_block_size b) for_encryption),
      length-transform u law c.key iv (bucket_bytes c.user_block_size b) v.key_good iv_good
          (plain_bytes v b good) (plain_whole v b good),
      plain_length v b good,
      iv_good.0,
      v.size,
    )

    pub iv_part : take 16 (sealed iv b) ≡ iv
    iv_part = take-append 16 iv _ iv_good.0

    pub rest_part :
        drop 16 (sealed iv b)
        ≡ transform u c.key iv (bucket_bytes c.user_block_size b) for_encryption
    rest_part = drop-append 16 iv _ iv_good.0

    back :
        transform u c.key iv
          (transform u c.key iv (bucket_bytes c.user_block_size b) for_encryption)
          for_decryption
        ≡ bucket_bytes c.user_block_size b
    back =
        transform-transform u law c.key iv _ v.key_good iv_good (plain_bytes v b good)
          (plain_whole v b good)

    len : c.bucket_size * (c.user_block_size + 16) / c.bucket_size ≡ c.user_block_size + 16
    len = mul-div_cancel_left (c.user_block_size + 16) v.some_blocks

    blocks_back :
        (response : List Block)
        → blocks_from c.bucket_size 0
            (c.user_block_size + 16)
            (bucket_bytes c.user_block_size b)
            response
          ≡ response ++ map (pad_block c.user_block_size) b
    blocks_back response =
        ap
          (λ t.
            blocks_from t 0 (c.user_block_size + 16) (bucket_bytes c.user_block_size b) response)
          (sym good.0)
        ∙ blocks_from-bucket_bytes c.user_block_size b response good.1

    -- If the cipher undoes itself and the settings are as the constructor leaves them, then
    -- decrypting and cutting up what a good bucket is sealed to, with any IV of 16 bytes, gives
    -- the blocks of the bucket with their data padded.
    pub opened-sealed : opened (sealed iv b) ≡ map (pad_block c.user_block_size) b
    opened-sealed = rw (iv_part, rest_part, back, plain_length v b good, len) (blocks_back [])

    pub open_raws-sealed :
        {R : RawStore} (raws : List Bytes) (response : List Block) (s : Adapter R)
        → open_raws u c (sealed iv b ∷ raws) response s
          ≡ open_raws u c raws (response ++ map (pad_block c.user_block_size) b) s
    unfolding open_raws
    open_raws-sealed raws response s =
        rw
          (
            iv_part,
            rest_part,
            encrypt-runs u c.key iv
                (transform u c.key iv (bucket_bytes c.user_block_size b) for_encryption)
                v.key_good.0 iv_good.0 (omega (arith, same_length, plain_filled v b good))
                (omega (arith, same_length, plain_whole v b good)) [] for_decryption s,
            bind,
            back,
            plain_length v b good,
            len,
          )
          (ap (λ t. open_raws u c raws t s) (blocks_back response))
      where
        same_length :
            length (transform u c.key iv (bucket_bytes c.user_block_size b) for_encryption)
            ≡ length (bucket_bytes c.user_block_size b)
        same_length =
            length-transform u law c.key iv _ v.key_good iv_good (plain_bytes v b good)
              (plain_whole v b good)

  module _ {R : RawStore} where
    blocks_bytes-runs :
        (es : Bucket) (acc : Bytes) (s : Adapter R)
        → All (IsBlock c.user_block_size) es
        → blocks_bytes u c es acc s ≡ ok (acc ++ bucket_bytes c.user_block_size es) s
    unfolding blocks_bytes check_block_size bucket_bytes
    blocks_bytes-runs [] acc s h = ap (λ t. ok t s) (sym (append-nil acc))
    blocks_bytes-runs (e ∷ es) acc s h =
        rw (le→ltb c.user_block_size (length e.1) h.0.1, bind)
          (blocks_bytes-runs es (acc ++ block_bytes c.user_block_size e) s h.1
            ∙ ap (λ t. ok t s) (append_assoc acc (block_bytes c.user_block_size e) _))

    -- A good request does not throw, and is sealed with a new IV.
    pub seal_request-runs :
        IsSettings c
        → (l : ℕ) (b : Bucket) (s : Adapter R) → l < c.capacity
        → Good b
        → (iv : Bytes) × (w : Words) × IsBytes 16 iv
          × (seal_request u c (l, b) s ≡ ok (l, sealed iv b) (record s { words = w }))
    unfolding seal_request check_capacity
    seal_request-runs v l b s h good =
        let (iv, w, drawn, iv_good) = get_random_block-runs 16 s.words in
        (
          iv,
          w,
          iv_good,
          rw
              (
                lt→leb l c.capacity h,
                bind,
                eq→== (length b) c.bucket_size good.0,
                blocks_bytes-runs b [] s good.1,
                drawn,
                within,
                encrypt-runs u c.key iv (bucket_bytes c.user_block_size b) v.key_good.0 iv_good.0
                    (plain_filled v b good) (plain_whole v b good) iv for_encryption
                    (record s { words = w }),
              )
              refl,
        )
