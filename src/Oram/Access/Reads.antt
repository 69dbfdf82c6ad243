-- ===== src/Oram/Access/Reads.antt =====
-- A reading access of path-oram/src/oram.cpp.
use path_oram_base.Common.{
  ℕ, ◌<◌, ◌≡◌, ◌≢◌, refl, ◌∙◌, Bool, true, false, List, [], arith, tally, none, some, Option, ne→==,
}
use path_oram_base.Common.Assoc.{has_key, lookup-absent}
use path_oram_base.Common.Effect.{ok, within, bind}
use path_oram_base.Oram.Access.{access, update_stash, read_stash}
use path_oram_base.Oram.Access.Finding.{path_tally-total}
use path_oram_base.Oram.Access.Step.{
  remap-runs, remapped-Stashed, gathered-tally, gathered-IsMap, gathered-All, after, after-census,
  after-Inv, start-Written,
}
use path_oram_base.Oram.Invariant.{census, Inv, HasRoom}
use path_oram_base.Oram.Memory.{Stores, Answers, matches, matches_only, lookup-matches}
use path_oram_base.Oram.{Oram}
use path_oram_base.PositionMap.{get_within}
use path_oram_base.Stash
use path_oram_base.Storage.{Storage}
use path_oram_base.Types.{Bytes, Block}

module _ {T : Storage} where
  -- The dimensions of the object are the same.
  pub record SameSizes (s t : Oram T) : Type 0 where
    pub config : t.config ≡ s.config
    pub map_capacity : t.map.capacity ≡ s.map.capacity
    pub stash_capacity : t.stash.capacity ≡ s.stash.capacity

  -- What a reading access does.
  pub record HasRead (s : Oram T) (b : ℕ) (response : Bytes) : Type 1 where
    pub result : Bytes
    pub after_read : Oram T
    pub runs : access true b [] response s ≡ ok result after_read
    pub inv : Inv after_read
    pub sizes : SameSizes s after_read
    pub keeps : (p : Block → Bool) → census p after_read ≡ census p s
    pub answers : (o : Option Bytes) → Stores s b o → Answers T.block_size o response result

  module _ (s : Oram T) (b : ℕ) (v : Inv s) (h : b < s.map.capacity) (room : HasRoom s) where
    -- What the stash has after reading of a block on the path.
    found-tally :
        (p : Block → Bool)
        → ((j : ℕ) (w : Bytes) → j ≢ b → p (j, w) ≡ false)
        → tally p (remapped-Stashed s b v h room).entries ≡ census p s
    unfolding census
    found-tally p only =
        omega (arith, gathered-tally s b v h room p, path_tally-total p b only s v h)

    found-Answers :
        (response : Bytes) (o : Option Bytes)
        → Stores s b o
        → (e : List Block) → e ≡ (remapped-Stashed s b v h room).entries
        → (capacity : ℕ)
        → Answers T.block_size o response
            (Stash.get b response (record { capacity = capacity; entries = e }))
    unfolding Stash.get
    found-Answers response none k e q c =
        rw (Stash.get, lookup-absent b e (rw q (found-tally (has_key b) only ∙ k))) refl
      where
        only : (j : ℕ) (w : Bytes) → j ≢ b → has_key b (j, w) ≡ false
        only j w n = ne→== j b n
    found-Answers response (some bytes) k e q c =
        let (w, hit, same) =
          lookup-matches T.block_size b bytes e (rw q (gathered-IsMap s b v h room b)) (
            rw q (
              found-tally (matches T.block_size b bytes) (matches_only T.block_size b bytes)
              ∙ k.1)) in
        (w, rw (Stash.get, hit) refl, same)

    read-census :
        (p : Block → Bool)
        → census p (
            after s b v h room
              (remapped-Stashed s b v h room).entries
              (gathered-IsMap s b v h room)
              (gathered-All s b v h room))
          ≡ census p s
    unfolding census
    read-census p = omega (
      arith,
      after-census s b v h room (remapped-Stashed s b v h room).entries
          (gathered-IsMap s b v h room) (gathered-All s b v h room) p,
      gathered-tally s b v h room p,
    )

    pub access-HasRead : (response : Bytes) → HasRead s b response
    unfolding access update_stash read_stash
    access-HasRead response =
        let entries = (remapped-Stashed s b v h room).entries in
        let map_ok = gathered-IsMap s b v h room in
        let all_ok = gathered-All s b v h room in
        record {
          result = Stash.get b response (record { capacity = s.stash.capacity; entries = entries });
          after_read = after s b v h room entries map_ok all_ok;
          runs =
              rw
                (
                  get_within b s.map h,
                  within,
                  bind,
                  remap-runs s b h,
                  (remapped-Stashed s b v h room).runs,
                  (start-Written s b v h room entries map_ok all_ok).runs,
                )
                refl;
          inv =
              after-Inv s b v h room entries map_ok all_ok
                (λ j. omega (arith, v.alone j, read-census (has_key j)));
          sizes = record { config = refl; map_capacity = refl; stash_capacity = refl };
          keeps = λ p. read-census p;
          answers = λ o k. found-Answers response o k entries refl s.stash.capacity;
        }
