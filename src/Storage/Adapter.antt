-- ===== src/Storage/Adapter.antt =====
-- AbsStorageAdapter of path-oram/src/storage-adapter.cpp. No handler is subscribed, so that the
-- calls that record a request only make it; time is not measured.
pub mod Blocks
pub mod Seal
pub mod Batches
pub mod Reading
pub mod Sealing
pub mod Zeroes
pub mod Meets
pub mod Settled
use path_oram_base.Common.{
  ℕ, zero, suc, ◌+◌, ◌-◌, ◌*◌, ◌/◌, ◌%◌, ◌^◌, Bool, true, false, not, ◌||◌, List, [], ◌∷◌, ◌++◌,
  length, take, drop, replicate, ◌==◌, ltb, leb, if◌then◌else◌,
}
use path_oram_base.Common.Effect.{
  M, ok, bind, within, throw_if, for_each, location_out_of_bound, block_too_long, wrong_bucket_size,
  ◌>>◌, ◌>>=◌, block_size_too_small, block_size_not_multiple, no_blocks_in_bucket,
}
use path_oram_base.Encoding.{le_bytes, from_le}
use path_oram_base.Random.{Words, get_random_block}
use path_oram_base.Storage.{pad}
use path_oram_base.Types.{Bytes, Block, Bucket, empty_id}
use path_oram_base.Utility.{Suite, encrypt, for_encryption, for_decryption}

-- The members that the constructor sets.
pub record Settings : Type 0 where
  pub key : Bytes
  pub bucket_size : ℕ
  pub batch_limit : ℕ
  pub capacity : ℕ
  pub block_size : ℕ
  pub user_block_size : ℕ

-- The virtual members of a class of adapters: one location at a time.
pub record RawStore : Type 1 where
  pub State : Type 0
  pub get_internal : ℕ → M State Bytes
  pub set_internal : ℕ → Bytes → M State (Unit {0})

-- An adapter's own state, and what the random source will deliver to it.
pub record Adapter (R : RawStore) : Type 0 where
  pub raw : R.State
  pub words : Words

-- The constructor: a key of another size than 32 bytes is replaced.
unfoldable pub new_settings : ℕ → ℕ → Bytes → ℕ → ℕ → M Words Settings
new_settings capacity user_block_size key z batch_limit w =
    bind (if length key == 32 then ok key w else get_random_block 32 w) (λ key'. do
      throw_if (ltb user_block_size 32) (block_size_too_small user_block_size)
      throw_if (not (user_block_size % 16 == 0)) (block_size_not_multiple user_block_size)
      throw_if (z == 0) no_blocks_in_bucket
      ok (record {
        key = key';
        bucket_size = z;
        batch_limit = batch_limit;
        capacity = capacity;
        block_size = ((user_block_size + 16) * z + 16) % 2 ^ 64;
        user_block_size = user_block_size;
      }))

-- The i-th block of the decrypted bytes, where blocks have `len` bytes: an ID in 16 bytes, then data.
unfoldable pub block_at : ℕ → Bytes → ℕ → Block
block_at len decrypted i = (
  from_le (take 8 (take 16 (drop (i * len) decrypted))),
  take (len - 16) (drop (i * len + 16) decrypted),
)

-- The loop over the blocks, from index `i` on.
unfoldable pub blocks_from : ℕ → ℕ → ℕ → Bytes → List Block → List Block
blocks_from zero i len decrypted response = response
blocks_from (suc rounds) i len decrypted response =
    blocks_from rounds (i + 1) len decrypted (response ++ block_at len decrypted i ∷ [])

-- An ID as 16 bytes, followed by the data, padded.
unfoldable pub block_bytes : ℕ → Block → Bytes
block_bytes n e = (le_bytes 8 e.0 ++ replicate 8 0) ++ pad n e.1

-- The requests of fillWithZeroes, for buckets of `z` blocks, from location `i` on.
unfoldable pub zero_requests : ℕ → ℕ → ℕ → List (ℕ × Bucket)
zero_requests z zero i = []
zero_requests z (suc rounds) i = (i, replicate z (empty_id, [])) ∷ zero_requests z rounds (i + 1)

module _ {R : RawStore} (u : Suite) (c : Settings) where
  abbrev pub on_raw {ℓ} : {A : Type ℓ} → M R.State A → M (Adapter R) A
  on_raw m s = within (λ t r. record t { raw = r }) s (m s.raw)

  unfoldable pub check_capacity : ℕ → M (Adapter R) (Unit {0})
  check_capacity location =
      throw_if (leb c.capacity location) (location_out_of_bound location c.capacity)

  unfoldable pub check_block_size : ℕ → M (Adapter R) (Unit {0})
  check_block_size size =
      throw_if (ltb c.user_block_size size) (block_too_long size c.user_block_size)

  -- getInternal of many locations.
  unfoldable pub get_batch : List ℕ → List Bytes → M (Adapter R) (List Bytes)
  get_batch [] raws s = ok raws s
  get_batch (l ∷ ls) raws s =
      bind (on_raw (R.get_internal l) s) (λ raw. get_batch ls (raws ++ raw ∷ []))

  -- The batches of what is left to read. Each takes `batch_limit` locations, which is more than
  -- none, so the number of the locations is fuel enough.
  unfoldable pub get_batches : ℕ → List ℕ → List Bytes → M (Adapter R) (List Bytes)
  get_batches zero ls raws s = ok raws s
  get_batches (suc fuel) [] raws s = ok raws s
  get_batches (suc fuel) (l ∷ ls) raws s =
      bind (get_batch (take c.batch_limit (l ∷ ls)) raws s)
        (get_batches fuel (drop c.batch_limit (l ∷ ls)))

  unfoldable pub get_raws : List ℕ → M (Adapter R) (List Bytes)
  get_raws ls =
      if c.batch_limit == 0 || leb (length ls) c.batch_limit
      then get_batch ls []
      else get_batches (length ls) ls []

  -- The loop that decrypts.
  unfoldable pub open_raws : List Bytes → List Block → M (Adapter R) (List Block)
  open_raws [] response s = ok response s
  open_raws (raw ∷ raws) response s =
      bind (encrypt u c.key (take 16 raw) (drop 16 raw) [] for_decryption s) (λ decrypted.
        open_raws raws
          (blocks_from c.bucket_size 0 (length decrypted / c.bucket_size) decrypted response))

  -- get: a single location is a batch of one.
  unfoldable pub get : List ℕ → M (Adapter R) (List Block)
  get ls = do for_each check_capacity ls; raws ← get_raws ls; open_raws raws []

  -- The loop over the blocks of a request.
  unfoldable pub blocks_bytes : List Block → Bytes → M (Adapter R) Bytes
  blocks_bytes [] to_encrypt s = ok to_encrypt s
  blocks_bytes (e ∷ es) to_encrypt s =
      bind (check_block_size (length e.1) s)
        (λ _. blocks_bytes es (to_encrypt ++ block_bytes c.user_block_size e))

  -- One request: the location, and an IV with the encrypted blocks.
  unfoldable pub seal_request : ℕ × Bucket → M (Adapter R) (ℕ × Bytes)
  seal_request (l, blocks) = do
    check_capacity l
    throw_if (not (length blocks == c.bucket_size))
        (wrong_bucket_size c.bucket_size (length blocks))
    to_encrypt ← blocks_bytes blocks []
    iv ← λ s. within (λ t w. record t { words = w }) s (get_random_block 16 s.words)
    raw ← encrypt u c.key iv to_encrypt iv for_encryption
    λ s. ok (l, raw) s

  unfoldable pub seal_requests :
      List (ℕ × Bucket) → List (ℕ × Bytes) → M (Adapter R) (List (ℕ × Bytes))
  seal_requests [] writes s = ok writes s
  seal_requests (r ∷ rs) writes s =
      bind (seal_request r s) (λ w. seal_requests rs (writes ++ w ∷ []))

  -- setInternal of many requests.
  unfoldable pub set_batch : List (ℕ × Bytes) → M (Adapter R) (Unit {0})
  set_batch ws = for_each (λ w. on_raw (R.set_internal w.0 w.1)) ws

  unfoldable pub set_batches : ℕ → List (ℕ × Bytes) → M (Adapter R) (Unit {0})
  set_batches zero ws s = ok tt s
  set_batches (suc fuel) [] s = ok tt s
  set_batches (suc fuel) (w ∷ ws) s =
      bind (set_batch (take c.batch_limit (w ∷ ws)) s)
        (λ _. set_batches fuel (drop c.batch_limit (w ∷ ws)))

  unfoldable pub set_raws : List (ℕ × Bytes) → M (Adapter R) (Unit {0})
  set_raws ws =
      if c.batch_limit == 0 || leb (length ws) c.batch_limit
      then set_batch ws
      else set_batches (length ws) ws

  -- set
  unfoldable pub set : List (ℕ × Bucket) → M (Adapter R) (Unit {0})
  set rs = do writes ← seal_requests rs []; set_raws writes

  unfoldable pub fill_with_zeroes : M (Adapter R) (Unit {0})
  fill_with_zeroes = set (zero_requests c.bucket_size c.capacity 0)
