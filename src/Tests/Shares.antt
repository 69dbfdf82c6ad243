-- ===== src/Tests/Shares.antt =====
-- Runs at concrete inputs, for the statements about secret sharing and about path_oram_Cloak_Query/.
use path_oram_base.Cloak.Containers.RoundTrip.{unframe-frame}
use path_oram_base.Cloak.Containers.{frame, unframe}
use path_oram_base.Cloak.Macs.Laws.{verify_bucket_mac_blind}
use path_oram_base.Cloak.Macs.RoundTrip.{load_mac_map-save_mac_map}
use path_oram_base.Cloak.Macs.{
  Macs, compute_and_store_bucket_mac, verify_bucket_mac, load_mac_map, save_mac_map,
}
use path_oram_base.Common.{
  ℕ, ◌+◌, ◌^◌, ◌<◌, ◌≡◌, refl, true, false, some, List, [], ◌∷◌, ◌++◌, arith, replicate,
  replicate-All, length-replicate, get_elem?, if◌then◌else◌, ltb, ◌-◌,
}
use path_oram_base.Common.Assoc.{lookup}
use path_oram_base.Common.Effect.{ok}
use path_oram_base.SecretSharing.Evaluate.{points, split-points}
use path_oram_base.SecretSharing.{split, random_coefficients}
use path_oram_base.ShamirParser.Strings.{int_to_string-string_to_int}
use path_oram_base.ShamirParser.Transposing.{held, transform_shares-held}
use path_oram_base.ShamirParser.{string_to_int, int_to_string, transform_shares}
use path_oram_base.Types.{Bytes}
use path_oram_base.Stash.{Stash}
use path_oram_base.Cloak.Stash as CloakStash
use path_oram_base.Cloak.Stash.Files.{load_from_file-stored}
use path_oram_base.Cloak.Stash.Uniform.{LeavesUniform, update-IsUniform}

split-points_example :
    split 42 3 2 (λ i. 1000 + i)
    ≡ some (if ltb 3 2 then [] else points 3 1 (42 ∷ random_coefficients (2 - 1) (λ i. 1000 + i)))
split-points_example = split-points 42 3 2 (λ i. 1000 + i) (omega arith) (omega arith) (omega arith)

int_to_string-string_to_int_example :
    (value : ℕ) × (string_to_int (65 ∷ 73 ∷ 82 ∷ []) ≡ some value)
    × (int_to_string value ≡ 65 ∷ 73 ∷ 82 ∷ [])
int_to_string-string_to_int_example =
    int_to_string-string_to_int (65 ∷ 73 ∷ 82 ∷ [])
      ((omega arith, omega arith), ((omega arith, omega arith), ((omega arith, omega arith), tt)))
      (omega arith)

-- Two servers with two tuples of two attributes.
abbrev servers : List (List (List ℕ))
servers = ((5 ∷ 6 ∷ []) ∷ (7 ∷ 8 ∷ []) ∷ []) ∷ ((1 ∷ 2 ∷ []) ∷ (3 ∷ 4 ∷ []) ∷ []) ∷ []

transform_shares-held_example :
    (result : List (List (List (ℕ × ℕ)))) × (row : List (List (ℕ × ℕ))) × (shares : List (ℕ × ℕ))
    × (transform_shares servers ≡ some result)
    × (get_elem? result 1 ≡ some row)
    × (get_elem? row 0 ≡ some shares)
    × (lookup 2 shares ≡ held 1 0 (get_elem? servers 1))
transform_shares-held_example =
    transform_shares-held (5 ∷ 6 ∷ []) ((7 ∷ 8 ∷ []) ∷ []) (((1 ∷ 2 ∷ []) ∷ (3 ∷ 4 ∷ []) ∷ []) ∷ [])
      1 0 1 (omega arith) (omega arith)

abbrev rows : List (List ℕ)
rows = replicate 16 700 ∷ []

unframe-frame_example : unframe (frame rows ++ replicate 3 0) ≡ rows
unframe-frame_example =
    unframe-frame rows 3
      ((length-replicate {A = ℕ} 16 700, replicate-All (λ v. v < 2 ^ 64) 16 700 (omega arith)), tt)
      (omega arith)

abbrev macs : List (ℕ × Bytes)
macs = (1, 7 ∷ 8 ∷ []) ∷ (2, 9 ∷ []) ∷ []

load_mac_map-save_mac_map_example : lookup 2 (load_mac_map (save_mac_map macs) []) ≡ lookup 2 macs
load_mac_map-save_mac_map_example =
    load_mac_map-save_mac_map macs 2 (λ k. ground arith)
      ((omega arith, omega arith), ((omega arith, omega arith), tt)) (omega arith)

abbrev checker : Macs
checker = record {
  key = 1 ∷ [];
  bucket_size = 1;
  height = 2;
  is_initializing = false;
  mac_map = [];
}

verify_bucket_mac_blind_example :
    (t : Macs) × (compute_and_store_bucket_mac (λ k x. k ++ x) 1 0 ((3, 4 ∷ []) ∷ []) checker
      ≡ ok tt t)
    × (verify_bucket_mac (λ k x. k ++ x) 1 0 ((3, 5 ∷ []) ∷ []) t ≡ ok true t)
verify_bucket_mac_blind_example =
    verify_bucket_mac_blind (λ k x. k ++ x) 1 0 ((3, 4 ∷ []) ∷ []) ((3, 5 ∷ []) ∷ []) checker

abbrev stash : Stash
stash = record { capacity = 9; entries = (1, 7 ∷ 8 ∷ []) ∷ (300, 5 ∷ 6 ∷ []) ∷ [] }

update-IsUniform_example :
    LeavesUniform 2 (CloakStash.add 4 (9 ∷ []) stash)
    × LeavesUniform 2 (CloakStash.update 4 (9 ∷ []) stash)
update-IsUniform_example = update-IsUniform 2 4 (9 ∷ []) stash (omega arith) (refl, (refl, tt))

load_from_file-stored_example :
    (file : Bytes) × (loaded : Stash) × (CloakStash.store_to_file true stash [] ≡ ok tt file)
    × (CloakStash.load_from_file true file 2 (record stash { entries = [] }) ≡ ok tt loaded)
    × (loaded.capacity ≡ 9)
    × ((k : ℕ) → lookup k loaded.entries ≡ lookup k stash.entries)
load_from_file-stored_example =
    load_from_file-stored 2 stash (record stash { entries = [] }) [] (λ k. ground arith)
      ((omega arith, refl), ((omega arith, refl), tt)) (omega arith) refl
