-- ===== src/Oram/Access/Calls.antt =====
-- get and put of path-oram/src/oram.cpp as the operations of a memory of blocks.
use native.Mathlib.Decide.{ℕ_discrete}
use path_oram_base.Common.{
  ℕ, ◌≤◌, ◌<◌, ◌≡◌, refl, sym, ap, ◌∙◌, [], none, some, Option, arith, length, to_nat, ne→==,
  ==_refl, All,
}
use path_oram_base.Common.Assoc.{has_key}
use path_oram_base.Common.Effect.{ok, bind}
use path_oram_base.Oram.Access.Reads.{SameSizes, access-HasRead}
use path_oram_base.Oram.Access.Sync.{sync_cache-Synced, has_key-IsStable, matches-IsStable}
use path_oram_base.Oram.Access.Writes.{access-HasWritten}
use path_oram_base.Oram.Access.{get, put}
use path_oram_base.Oram.Invariant.{census, Inv, HasRoom}
use path_oram_base.Oram.Memory.{
  Memory, write, Stores, Represents, Answers, matches, matches_only, matches_same,
}
use path_oram_base.Oram.{Oram}
use path_oram_base.Storage.{Storage}
use path_oram_base.Types.{Bytes}

module _ {T : Storage} where
  -- What a get does to an object that represents a memory.
  pub record Gets (s : Oram T) (m : Memory) (b : ℕ) (response : Bytes) : Type 1 where
    pub result : Bytes
    pub after : Oram T
    pub runs : get b response s ≡ ok result after
    pub inv : Inv after
    pub sizes : SameSizes s after
    pub represents : Represents m after
    pub answers : Answers T.block_size (m b) response result

  -- What a put does to an object that represents a memory.
  pub record Puts (s : Oram T) (m : Memory) (b : ℕ) (bytes : Bytes) : Type 1 where
    pub after : Oram T
    pub runs : put b bytes s ≡ ok tt after
    pub inv : Inv after
    pub sizes : SameSizes s after
    pub represents : Represents (write m b bytes) after

  -- What a state stores depends on the census alone.
  Stores-congr :
      (s t : Oram T) (b : ℕ) (o : Option Bytes)
      → census (has_key b) t ≡ census (has_key b) s
      → ((bytes : Bytes)
          → census (matches T.block_size b bytes) t ≡ census (matches T.block_size b bytes) s)
      → Stores s b o
      → Stores t b o
  Stores-congr s t b none h k q = h ∙ q
  Stores-congr s t b (some bytes) h k q = (h ∙ q.0, k bytes ∙ q.1)

  -- Let an object satisfy the invariant and represent a memory, the position map know the block,
  -- and the stash have room for a path and one more block. Then get does not throw; the response
  -- is what the memory has for the block, up to padding with zeros, before what the response held;
  -- and the object then satisfies the invariant, has the same dimensions and represents the same
  -- memory.
  pub get-Gets :
      (s : Oram T) (m : Memory) (b : ℕ) (response : Bytes)
      → Inv s
      → Represents m s
      → b < s.map.capacity
      → HasRoom s
      → Gets s m b response
  unfolding get
  get-Gets s m b response v rep h room =
      let a = access-HasRead s b v h room response in
      let c = sync_cache-Synced a.after_read a.inv in
      record {
        result = a.result;
        after = record a.after_read { storage = c.storage; cache = [] };
        runs = rw (a.runs, bind, c.runs) refl;
        inv = c.inv;
        sizes = record {
          config = a.sizes.config;
          map_capacity = a.sizes.map_capacity;
          stash_capacity = a.sizes.stash_capacity;
        };
        represents = λ j q.
            Stores-congr s (record a.after_read { storage = c.storage; cache = [] }) j (m j)
              (c.keeps (has_key j) (has_key-IsStable T.block_size j) ∙ a.keeps (has_key j))
              (λ bytes. c.keeps _ (matches-IsStable T.block_size j bytes) ∙ a.keeps _)
              (rep j (omega (arith, q, a.sizes.map_capacity)));
        answers = a.answers (m b) (rep b h);
      }

  -- Let an object satisfy the invariant and represent a memory, the position map know the block,
  -- the stash have room for a path and one more block, and the data be bytes that fit a block.
  -- Then put does not throw, and the object then satisfies the invariant, has the same dimensions
  -- and represents the memory in which the data are written to the block.
  pub put-Puts :
      (s : Oram T) (m : Memory) (b : ℕ) (bytes : Bytes)
      → Inv s
      → Represents m s
      → b < s.map.capacity
      → HasRoom s
      → length bytes ≤ T.block_size
      → All (λ x. x < 256) bytes
      → Puts s m b bytes
  unfolding put matches
  put-Puts s m b bytes v rep h room short range =
      let a = access-HasWritten s b v h room bytes (short, range) in
      let c = sync_cache-Synced a.after_write a.inv in
      record {
        after = record a.after_write { storage = c.storage; cache = [] };
        runs = rw ((a.runs []).1, bind, c.runs) refl;
        inv = c.inv;
        sizes = record {
          config = a.sizes.config;
          map_capacity = a.sizes.map_capacity;
          stash_capacity = a.sizes.stash_capacity;
        };
        represents = λ j q. elim (ℕ_discrete j b) [
          | yes e ↦
              rw (e, ==_refl b)
                (
                  c.keeps (has_key b) (has_key-IsStable T.block_size b)
                      ∙ a.self (has_key b) (λ i w n. ne→== i b n)
                      ∙ ap to_nat (==_refl b),
                  c.keeps _ (matches-IsStable T.block_size b bytes)
                      ∙ a.self _ (matches_only T.block_size b bytes)
                      ∙ ap to_nat (matches_same T.block_size b bytes bytes refl),
                )
          | no n ↦ rw (ne→== j b n) (
              Stores-congr s (record a.after_write { storage = c.storage; cache = [] }) j (m j)
                (c.keeps (has_key j) (has_key-IsStable T.block_size j)
                  ∙ a.others (has_key j) (λ w. ne→== b j (λ e. n (sym e))))
                (λ bytes'.
                  c.keeps _ (matches-IsStable T.block_size j bytes')
                  ∙ a.others _ (λ w. matches_only T.block_size j bytes' b w (λ e. n (sym e))))
                (rep j (omega (arith, q, a.sizes.map_capacity))))
        ];
      }
