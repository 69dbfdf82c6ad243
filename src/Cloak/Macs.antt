-- ===== src/Cloak/Macs.antt =====
-- The bucket MACs of path_oram_Cloak_Query/src/oram.cpp. The hmac of OpenSSL is a parameter, a function
-- of key and data.
pub mod Laws
pub mod RoundTrip
use path_oram_base.Common.{
  ℕ, zero, suc, ◌+◌, Bool, true, false, not, Option, none, some, List, [], ◌∷◌, ◌++◌, length, take,
  drop,
}
use path_oram_base.Common.Assoc.{lookup, assign}
use path_oram_base.Common.Effect.{M, ok, err, bind, throw_if, mac_not_found, mac_mismatch}
use path_oram_base.Encoding.{le_bytes, from_le}
use path_oram_base.Oram.Memory.{bytes_eq}
use path_oram_base.Tree.{bucket_for_level_leaf}
use path_oram_base.Types.{Bytes, Block, Bucket}

-- The members that the checks use.
pub record Macs : Type 0 where
  pub key : Bytes
  pub bucket_size : ℕ
  pub height : ℕ
  pub is_initializing : Bool
  pub mac_map : List (ℕ × Bytes)

-- The data of the blocks, one after the other.
unfoldable pub concatenated : List Block → Bytes
concatenated [] = []
concatenated (e ∷ es) = e.1 ++ concatenated es

module _ (hmac : Bytes → Bytes → Bytes) where
  -- computeAndStoreBucketMAC
  unfoldable pub compute_and_store_bucket_mac : ℕ → ℕ → Bucket → M Macs (Unit {0})
  compute_and_store_bucket_mac level leaf bucket s =
      let hash = hmac s.key (concatenated (take s.bucket_size bucket)) in
      ok tt
        (record s { mac_map = assign (bucket_for_level_leaf s.height level leaf) hash s.mac_map })

  -- The end of verifyBucketMAC: the code compares the computed MAC with itself.
  unfoldable pub compare_macs : Bytes → Bytes → M Macs Bool
  compare_macs stored computed s =
      bind (throw_if (not (bytes_eq computed computed)) mac_mismatch s) (λ _. ok true)

  -- verifyBucketMAC
  unfoldable pub verify_bucket_mac : ℕ → ℕ → Bucket → M Macs Bool
  unfolding compare_macs
  verify_bucket_mac level leaf bucket s = elim s.is_initializing [
    | true ↦ ok true s
    | false ↦
        let bucket_id = bucket_for_level_leaf s.height level leaf in
        elim (lookup bucket_id s.mac_map) [
          | none ↦ err (mac_not_found bucket_id) s
          | some stored ↦
              compare_macs stored (hmac s.key (concatenated (take s.bucket_size bucket))) s
        ]
  ]

-- saveMacMap: the file.
unfoldable pub save_entries : List (ℕ × Bytes) → Bytes
save_entries [] = []
save_entries (e ∷ es) = le_bytes 8 e.0 ++ (le_bytes 8 (length e.1) ++ (e.1 ++ save_entries es))

unfoldable pub save_mac_map : List (ℕ × Bytes) → Bytes
save_mac_map m = le_bytes 8 (length m) ++ save_entries m

-- loadMacMap, on what is left of the file.
unfoldable pub load_entries : ℕ → Bytes → List (ℕ × Bytes) → List (ℕ × Bytes)
load_entries zero ifs m = m
load_entries (suc count) ifs m =
    let size = from_le (take 8 (drop 8 ifs)) in
    load_entries count (drop size (drop 8 (drop 8 ifs)))
      (assign (from_le (take 8 ifs)) (take size (drop 8 (drop 8 ifs))) m)

unfoldable pub load_mac_map : Bytes → List (ℕ × Bytes) → List (ℕ × Bytes)
load_mac_map ifs m = load_entries (from_le (take 8 ifs)) (drop 8 ifs) m
