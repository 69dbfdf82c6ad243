-- ===== src/Tests/Sharing.antt =====
-- Runs at concrete inputs, for the statements about the reconstruction of a secret and about the files of
-- Shamir_Parser/.
use path_oram_base.Common.{
  ℕ, ◌+◌, ◌≡◌, refl, some, List, [], ◌∷◌, arith, inl, inr, get_elem?, ltb, if◌then◌else◌,
}
use path_oram_base.Common.Int.{ℤ, pos}
use path_oram_base.SecretSharing.{SecretPair, split, restore, gcd_extended, acc}
use path_oram_base.SecretSharing.Euclid.{Bezout, gcd_extended-Bezout}
use path_oram_base.SecretSharing.Lagrange.{IsIn, AllDistinct}
use path_oram_base.SecretSharing.RoundTrip.{select, restore-split}
use path_oram_base.ShamirParser.Servers.{ServerFiles, save_tuples, load_all_shares}
use path_oram_base.ShamirParser.Servers.Saved.{IsShared, tuples_at, load_all_shares-save_tuples}

-- Three of five servers.
abbrev chosen_servers : List ℕ
chosen_servers = 4 ∷ 0 ∷ 2 ∷ []

chosen_servers_distinct : AllDistinct chosen_servers
unfolding AllDistinct IsIn
chosen_servers_distinct = (
  (λ y m. elim m [
    | inl e ↦ ground (arith, e)
    | inr k ↦ elim k [ inl e ↦ ground (arith, e) | inr z ↦ absurd z ]
  ]),
  ((λ y m. elim m [ inl e ↦ ground (arith, e) | inr z ↦ absurd z ]), ((λ y m. absurd m), tt)),
)

restore-split_example :
    (pairs chosen : List SecretPair) × (split 42 5 3 (λ i. 1000 + i) ≡ some pairs)
    × (select chosen_servers pairs ≡ some chosen)
    × (restore 3 chosen ≡ some (pos 42))
restore-split_example =
    restore-split 42 5 3 (λ i. 1000 + i) chosen_servers (omega arith) (omega arith) (omega arith)
      (omega arith) chosen_servers_distinct (omega arith, (omega arith, (omega arith, tt)))
      (omega arith)

gcd_extended-Bezout_example :
    (x y : ℤ) × (gcd_extended 992429121339693967 12 (acc 12) ≡ some (x, y))
    × Bezout 992429121339693967 12 x y
gcd_extended-Bezout_example =
    gcd_extended-Bezout 992429121339693967 12 (acc 12) (omega arith) (omega arith) (omega arith)

-- A tuple of two attributes for three servers.
abbrev tuple : List (List (ℕ × ℕ))
tuple = ((1, 5) ∷ (2, 6) ∷ (3, 7) ∷ []) ∷ ((1, 8) ∷ (2, 9) ∷ (3, 10) ∷ []) ∷ []

tuple-IsShared : IsShared 3 tuple
tuple-IsShared = (
  omega arith,
  (refl, (refl, tt)),
  (
    (omega arith, (omega arith, (omega arith, tt))),
    ((omega arith, (omega arith, (omega arith, tt))), tt),
  ),
)

load_all_shares-save_tuples_example :
    (files : ServerFiles) × (loaded : List (List (List ℕ))) × (save_tuples
        (tuple ∷ tuple ∷ [])
        (λ server. [])
      ≡ some files)
    × (load_all_shares 3 files ≡ some loaded)
    × (get_elem? loaded 1 ≡ some (if ltb (1 + 1) 3 then tuples_at 1 (tuple ∷ tuple ∷ []) else []))
load_all_shares-save_tuples_example =
    load_all_shares-save_tuples 3 1 (tuple ∷ tuple ∷ []) (omega arith)
      (tuple-IsShared, (tuple-IsShared, tt))
