-- ===== src/Tests/Plain.antt =====
-- A storage that keeps one bucket for each location, with which the statements about any storage
-- (path-oram/include/storage-adapter.hpp) are tried.
use path_oram_base.Common.{
  ℕ, ◌-◌, ◌<◌, ◌≡◌, refl, ◌∙◌, [], ◌∷◌, arith, inl, inr, length, length-replicate, replicate-All,
  false, length-append, map, replicate, All, All-append, Option-cases,
}
use path_oram_base.Common.Assoc.{lookup, lookup-All}
use path_oram_base.Common.Effect.{ok}
use path_oram_base.Storage.{Storage, IsBlock, IsBucket, pad, pad_block, gather, written}
use path_oram_base.Types.{Block, Bucket, empty_id, is_real}

pad_block-IsBlock : (n : ℕ) (e : Block) → IsBlock n e → IsBlock n (pad_block n e)
unfolding pad_block pad
pad_block-IsBlock n e h = (
  h.0,
  omega (
    arith,
    h.1,
    length-append e.1 (replicate (n - length e.1) 0),
    length-replicate {A = ℕ} (n - length e.1) 0,
  ),
  All-append _ e.1 _ h.2 (replicate-All (λ x. x < 256) (n - length e.1) 0 (omega arith)),
)

pub empty-is_real : is_real (empty_id, []) ≡ false
unfolding is_real
empty-is_real = refl

pub pad-IsBucket : (n z : ℕ) (b : Bucket) → IsBucket n z b → IsBucket n z (map (pad_block n) b)
pad-IsBucket n z b h = (same b ∙ h.0, go b h.1)
  where
    same : (b : Bucket) → length (map (pad_block n) b) ≡ length b
    same [] = refl
    same (e ∷ es) = omega (arith, same es)

    go : (b : Bucket) → All (IsBlock n) b → All (IsBlock n) (map (pad_block n) b)
    go [] k = tt
    go (e ∷ es) k = (pad_block-IsBlock n e k.0, go es k.1)

abbrev pub plain : ℕ → ℕ → ℕ → Storage
plain c n z = record {
  State = ℕ → Bucket;
  capacity = c;
  block_size = n;
  bucket_size = z;
  get = λ ls f. ok (gather f ls) f;
  set = λ rs f. ok tt (λ l. written n (lookup l rs) (f l));
  fill_with_zeroes = λ f. ok tt (λ l. replicate z (empty_id, []));
  IsReady = λ f. Unit;
  IsGood = λ f. (l : ℕ) → l < c → IsBucket n z (f l);
  view = λ f. f;
  view-IsBucket = λ f l h q. h l q;
  get-view = λ f ls h q. refl;
  set-view = λ f rs h m a. (
    (λ l. written n (lookup l rs) (f l)),
    refl,
    (λ l q. elim (Option-cases (lookup l rs)) [
      | inl e ↦ rw e (h l q)
      | inr (b, e) ↦ rw e (pad-IsBucket n z b (lookup-All _ l b rs e a).1)
    ]),
    (λ l q. refl),
  );
  fill_with_zeroes-view = λ f h. (
    (λ l. replicate z (empty_id, [])),
    refl,
    (λ l q. (
      length-replicate {A = Block} z (empty_id, []),
      replicate-All (IsBlock n) z (empty_id, []) (omega arith, omega arith, tt),
    )),
    (λ l q. replicate-All (λ e. is_real e ≡ false) z (empty_id, []) (empty-is_real)),
  );
}
