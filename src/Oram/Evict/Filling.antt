-- ===== src/Oram/Evict/Filling.antt =====
-- The loop of writePath in path-oram/src/oram.cpp that writes a bucket.
use path_oram_base.Common.{
  ℕ, zero, suc, ◌≤◌, ◌<◌, ◌%◌, ◌≡◌, refl, ap, Bool, false, List, [], ◌∷◌, arith, length, tally,
  to_nat, All,
}
use path_oram_base.Common.Effect.{ok}
use path_oram_base.Oram.Evict.{fill_bucket}
use path_oram_base.Oram.{Oram}
use path_oram_base.Random.{Words, get_random_block}
use path_oram_base.Storage.{Storage}
use path_oram_base.Types.{Block, Bucket, Bytes, empty_id, is_real, real, real-false}

-- A random block has the length asked for, and is made of bytes.
pub record Drawn (n : ℕ) (w : Words) : Type 0 where
  pub bytes : Bytes
  pub words : Words
  pub runs : get_random_block n w ≡ ok bytes words
  pub long : length bytes ≡ n
  pub in_range : All (λ x. x < 256) bytes

pub get_random_block-Drawn : (n : ℕ) (w : Words) → Drawn n w
unfolding get_random_block
get_random_block-Drawn zero w = record {
  bytes = [];
  words = w;
  runs = refl;
  long = refl;
  in_range = tt;
}
get_random_block-Drawn (suc n) w =
    let r = get_random_block-Drawn n (λ i. w (suc i)) in
    record {
      bytes = (w 0 % 256) ∷ r.bytes;
      words = r.words;
      runs = rw (get_random_block, r.runs) refl;
      long = ap suc r.long;
      in_range = (omega arith, r.in_range);
    }

dummy : Bytes → Block
dummy bytes = (empty_id, bytes)

pub dummy-is_real : (bytes : Bytes) → is_real (empty_id, bytes) ≡ false
unfolding is_real
dummy-is_real bytes = refl

module _ {T : Storage} where
  -- A bucket of `z` blocks: what was to be inserted, and dummies.
  pub record Filled (s : Oram T) (z : ℕ) (to_insert : List Block) : Type 1 where
    pub bucket : Bucket
    pub words : Words
    pub runs : fill_bucket z to_insert s ≡ ok bucket (record s { words = words })
    pub full : length bucket ≡ z
    pub counts : (p : Block → Bool) → tally (real p) bucket ≡ tally (real p) to_insert
    pub every :
        (P : Block → Type 0)
        → All P to_insert
        → ((bytes : Bytes)
            → length bytes ≡ s.data_size
            → All (λ x. x < 256) bytes
            → P (empty_id, bytes))
        → All P bucket

  pub fill_bucket-Filled :
      (s : Oram T) (z : ℕ) (to_insert : List Block) → length to_insert ≤ z → Filled s z to_insert
  unfolding fill_bucket
  fill_bucket-Filled s zero [] h = record {
    bucket = [];
    words = s.words;
    runs = refl;
    full = refl;
    counts = λ p. refl;
    every = λ P a k. tt;
  }
  fill_bucket-Filled s zero (e ∷ es) h = absurd (omega arith)
  fill_bucket-Filled s (suc z) (e ∷ es) h =
      let r = fill_bucket-Filled s z es (omega arith) in
      record {
        bucket = e ∷ r.bucket;
        words = r.words;
        runs = rw (fill_bucket, r.runs) refl;
        full = ap suc r.full;
        counts = λ p. omega (arith, r.counts p);
        every = λ P a k. (a.0, r.every P a.1 k);
      }
  fill_bucket-Filled s (suc z) [] h =
      let d = get_random_block-Drawn s.data_size s.words in
      let r = fill_bucket-Filled (record s { words = d.words }) z [] (omega arith) in
      record {
        bucket = (empty_id, d.bytes) ∷ r.bucket;
        words = r.words;
        runs = rw (fill_bucket, d.runs, r.runs) refl;
        full = ap suc r.full;
        counts = λ p. omega (
          arith,
          r.counts p,
          ap to_nat (real-false p (empty_id, d.bytes) (dummy-is_real d.bytes)),
        );
        every = λ P a k. (k d.bytes d.long d.in_range, r.every P tt k);
      }
