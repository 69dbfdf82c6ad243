-- ===== src/Oram/Access/Writes.antt =====
-- A writing access of path-oram/src/oram.cpp.
use native.Mathlib.Decide.{ℕ_discrete}
use path_oram_base.Common.{
  ℕ, ◌≤◌, ◌<◌, ◌≡◌, ◌≢◌, refl, sym, ap, Bool, false, List, arith, length, to_nat, ne→==, ==_refl,
  All,
}
use path_oram_base.Common.Assoc.{
  assign, has_key, IsMap, assign-IsMap, assign-All, tally-assign_other, tally-assign_self,
}
use path_oram_base.Common.Effect.{ok, within, bind}
use path_oram_base.Oram.Access.{access, update_stash, read_stash}
use path_oram_base.Oram.Access.Finding.{path_tally-total}
use path_oram_base.Oram.Access.Step.{
  remap-runs, remapped-Stashed, gathered-tally, gathered-IsMap, gathered-All, gathered-length,
  after, after-census, after-Inv, start-Written,
}
use path_oram_base.Oram.Invariant.{census, Inv, IsEntry, HasRoom}
use path_oram_base.Oram.Access.Reads.{SameSizes}
use path_oram_base.Oram.{Oram}
use path_oram_base.PositionMap.{get_within}
use path_oram_base.Stash.Laws.{update_room}
use path_oram_base.Stash
use path_oram_base.Storage.{Storage}
use path_oram_base.Types.{Bytes, Block}

module _ {T : Storage} where
  -- What a writing access does.
  pub record HasWritten (s : Oram T) (b : ℕ) (bytes : Bytes) : Type 1 where
    pub after_write : Oram T
    pub runs :
        (response : Bytes)
        → (result : Bytes) × (access false b bytes response s ≡ ok result after_write)
    pub inv : Inv after_write
    pub sizes : SameSizes s after_write
    pub others :
        (p : Block → Bool) → ((w : Bytes) → p (b, w) ≡ false) → census p after_write ≡ census p s
    pub self :
        (p : Block → Bool)
        → ((j : ℕ) (w : Bytes) → j ≢ b → p (j, w) ≡ false)
        → census p after_write ≡ to_nat (p (b, bytes))

  module _ (s : Oram T) (b : ℕ) (v : Inv s) (h : b < s.map.capacity) (room : HasRoom s)
      (bytes : Bytes) (good : (length bytes ≤ T.block_size) × All (λ x. x < 256) bytes) where
    abbrev updated : List Block
    updated = assign b bytes (remapped-Stashed s b v h room).entries

    updated-IsMap : IsMap updated
    updated-IsMap = assign-IsMap b bytes _ (gathered-IsMap s b v h room)

    updated-All : All (IsEntry T s.map) updated
    updated-All =
        assign-All (IsEntry T s.map) b bytes _ (h, (omega (arith, v.sized.small), good.0, good.1))
          (gathered-All s b v h room)

    abbrev written : Oram T
    written = after s b v h room updated updated-IsMap updated-All

    written_others :
        (p : Block → Bool) → ((w : Bytes) → p (b, w) ≡ false) → census p written ≡ census p s
    unfolding census
    written_others p n = omega (
      arith,
      after-census s b v h room updated updated-IsMap updated-All p,
      gathered-tally s b v h room p,
      tally-assign_other p b bytes (remapped-Stashed s b v h room).entries n,
    )

    written_self :
        (p : Block → Bool)
        → ((j : ℕ) (w : Bytes) → j ≢ b → p (j, w) ≡ false)
        → census p written ≡ to_nat (p (b, bytes))
    unfolding census
    written_self p only = omega (
      arith,
      after-census s b v h room updated updated-IsMap updated-All p,
      path_tally-total p b only s v h,
      tally-assign_self p b bytes (remapped-Stashed s b v h room).entries only
          (gathered-IsMap s b v h room b),
    )

    written_alone : (j : ℕ) → census (has_key j) written ≤ 1
    written_alone j = elim (ℕ_discrete j b) [
      | yes e ↦
          rw e
            (omega (arith, written_self (has_key b) (λ i w n. ne→== i b n), ap to_nat (==_refl b)))
      | no n ↦
          omega (arith, v.alone j, written_others (has_key j) (λ w. ne→== b j (λ e. n (sym e))))
    ]

    pub access-HasWritten : HasWritten s b bytes
    unfolding access update_stash read_stash
    access-HasWritten = record {
      after_write = written;
      runs = λ response. (
        Stash.get b response (record { capacity = s.stash.capacity; entries = updated }),
        rw
            (
              get_within b s.map h,
              within,
              bind,
              remap-runs s b h,
              (remapped-Stashed s b v h room).runs,
              update_room b bytes
                  (record {
                    capacity = s.stash.capacity;
                    entries = (remapped-Stashed s b v h room).entries;
                  })
                  (gathered-length s b v h room),
              (start-Written s b v h room updated updated-IsMap updated-All).runs,
            )
            refl,
      );
      inv = after-Inv s b v h room updated updated-IsMap updated-All written_alone;
      sizes = record { config = refl; map_capacity = refl; stash_capacity = refl };
      others = written_others;
      self = written_self;
    }
