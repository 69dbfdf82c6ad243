-- ===== src/Cloak/Macs/Laws.antt =====
-- What the bucket MACs of path_oram_Cloak_Query/src/oram.cpp check.
use path_oram_base.Common.{ℕ, take, ◌≡◌, refl, ◌∙◌, ==_refl, Bool, true, false, some}
use path_oram_base.Cloak.Macs.{
  Macs, concatenated, compute_and_store_bucket_mac, compare_macs, verify_bucket_mac,
}
use path_oram_base.Common.Assoc.{lookup, assign, lookup-assign}
use path_oram_base.Common.Effect.{ok}
use path_oram_base.Oram.Memory.{bytes_eq_refl}
use path_oram_base.Tree.{bucket_for_level_leaf}
use path_oram_base.Types.{Bytes, Bucket}

module _ (hmac : Bytes → Bytes → Bytes) where
  compare_macs-true :
      (stored computed : Bytes) (s : Macs) → compare_macs hmac stored computed s ≡ ok true s
  unfolding compare_macs
  compare_macs-true stored computed s = rw (bytes_eq_refl computed) refl

  -- After the MAC of a bucket is computed and stored, the check of that bucket accepts every
  -- content, and does not throw.
  pub verify_bucket_mac_blind :
      (level leaf : ℕ) (stored given : Bucket) (s : Macs)
      → (t : Macs) × (compute_and_store_bucket_mac hmac level leaf stored s ≡ ok tt t)
        × (verify_bucket_mac hmac level leaf given t ≡ ok true t)
  unfolding compute_and_store_bucket_mac verify_bucket_mac
  verify_bucket_mac_blind level leaf stored given s =
      let id = bucket_for_level_leaf s.height level leaf in
      let hash = hmac s.key (concatenated (take s.bucket_size stored)) in
      let found : lookup id (assign id hash s.mac_map) ≡ some hash =
        lookup-assign id id hash s.mac_map ∙ rw (==_refl id) refl in
      (record s { mac_map = assign id hash s.mac_map }, refl, by_phase hash found s.is_initializing)
    where
      by_phase :
          (hash : Bytes)
          → lookup
              (bucket_for_level_leaf s.height level leaf)
              (assign (bucket_for_level_leaf s.height level leaf) hash s.mac_map)
            ≡ some hash
          → (b : Bool)
          → verify_bucket_mac hmac level leaf given (record s {
            is_initializing = b;
            mac_map = assign (bucket_for_level_leaf s.height level leaf) hash s.mac_map;
          })
            ≡ ok true (record s {
              is_initializing = b;
              mac_map = assign (bucket_for_level_leaf s.height level leaf) hash s.mac_map;
            })
      by_phase hash found true = refl
      by_phase hash found false = rw (verify_bucket_mac, found, compare_macs-true) refl
