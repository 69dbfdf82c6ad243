-- ===== src/Cloak/Macs/RoundTrip.antt =====
-- loadMacMap of path_oram_Cloak_Query/src/oram.cpp reads what saveMacMap writes.
use native.Mathlib.Decide.{ℕ_discrete}
use path_oram_base.Common.{
  ℕ, suc, ◌^◌, ◌<◌, ◌≡◌, refl, sym, ap, ◌∙◌, Option, none, some, List, [], ◌∷◌, ◌++◌, arith, length,
  take, drop, take-append, drop-append, All, ◌==◌, if◌then◌else◌, eq→==, ne→==, ==_refl,
}
use path_oram_base.Cloak.Macs.{save_entries, save_mac_map, load_entries, load_mac_map}
use path_oram_base.Common.Assoc.{lookup, assign, count, IsMap, lookup-assign, lookup-absent}
use path_oram_base.Encoding.{le_bytes, from_le, le_bytes-IsBytes, from_le-le_bytes}
use path_oram_base.Types.{Bytes}

-- An entry whose key and size are 64-bit numbers.
abbrev pub IsEntry : ℕ × Bytes → Type 0
IsEntry e = (e.0 < 2 ^ 64) × (length e.1 < 2 ^ 64)

-- A number in front of other bytes.
number_first : (x : ℕ) (rest : Bytes) → x < 2 ^ 64 → from_le (take 8 (le_bytes 8 x ++ rest)) ≡ x
number_first x rest h =
    ap from_le (take-append 8 (le_bytes 8 x) rest (le_bytes-IsBytes 8 x).0)
    ∙ from_le-le_bytes 8 x (omega (arith, h))

after_number : (x : ℕ) (rest : Bytes) → drop 8 (le_bytes 8 x ++ rest) ≡ rest
after_number x rest = drop-append 8 (le_bytes 8 x) rest (le_bytes-IsBytes 8 x).0

abbrev or_else : Option Bytes → Option Bytes → Option Bytes
or_else (some v) o = some v
or_else none o = o

load_one :
    (n j : ℕ) (v rest : Bytes) (m : List (ℕ × Bytes))
    → IsEntry (j, v)
    → load_entries (suc n) (le_bytes 8 j ++ (le_bytes 8 (length v) ++ (v ++ rest))) m
      ≡ load_entries n rest (assign j v m)
unfolding load_entries
load_one n j v rest m h =
    let sized = le_bytes 8 (length v) ++ (v ++ rest) in
    ap
      (λ t. load_entries n (drop (from_le (take 8 t)) (drop 8 t)) (
        assign (from_le (take 8 (le_bytes 8 j ++ sized))) (take (from_le (take 8 t)) (drop 8 t)) m))
      (after_number j sized)
    ∙ ap
        (λ x.
          load_entries n (drop (from_le (take 8 sized)) (drop 8 sized))
            (assign x (take (from_le (take 8 sized)) (drop 8 sized)) m))
        (number_first j sized h.0)
    ∙ ap (λ x. load_entries n (drop x (drop 8 sized)) (assign j (take x (drop 8 sized)) m))
        (number_first (length v) (v ++ rest) h.1)
    ∙ ap (λ t. load_entries n (drop (length v) t) (assign j (take (length v) t) m))
        (after_number (length v) (v ++ rest))
    ∙ ap (λ t. load_entries n t (assign j (take (length v) (v ++ rest)) m))
        (drop-append (length v) v rest refl)
    ∙ ap (λ t. load_entries n rest (assign j t m)) (take-append (length v) v rest refl)

lookup_new :
    (k j : ℕ) (v : Bytes) (es m : List (ℕ × Bytes))
    → count j es ≡ 0
    → or_else (lookup k es) (if k == j then some v else lookup k m)
      ≡ or_else (lookup k ((j, v) ∷ es)) (lookup k m)
unfolding lookup
lookup_new k j v es m h = elim (ℕ_discrete k j) [
  | yes e ↦
      let absent : lookup k es ≡ none = lookup-absent k es (rw e h) in
      rw (absent, eq→== k j e, eq→== j k (sym e)) refl
  | no e ↦ rw (ne→== k j e, ne→== j k (λ q. e (sym q))) refl
]

load_entries-lookup :
    (es m : List (ℕ × Bytes)) (k : ℕ)
    → All IsEntry es
    → IsMap es
    → lookup k (load_entries (length es) (save_entries es) m) ≡ or_else (lookup k es) (lookup k m)
unfolding load_entries save_entries lookup
load_entries-lookup [] m k h c = refl
load_entries-lookup ((j, v) ∷ es) m k h c =
    ap (lookup k) (load_one (length es) j v (save_entries es) m h.0)
    ∙ load_entries-lookup es (assign j v m) k h.1 (λ i. omega (arith, c i))
    ∙ ap (or_else (lookup k es)) (lookup-assign k j v m)
    ∙ lookup_new k j v es m (ground (arith, c j, ==_refl j))

-- If the entries of a MAC map have 64-bit keys and sizes, and are fewer than 2 ^ 64, then loading
-- what was saved into an empty map gives for every key what the saved map has.
pub load_mac_map-save_mac_map :
    (m : List (ℕ × Bytes)) (k : ℕ)
    → IsMap m
    → All IsEntry m
    → length m < 2 ^ 64
    → lookup k (load_mac_map (save_mac_map m) []) ≡ lookup k m
unfolding load_mac_map save_mac_map lookup
load_mac_map-save_mac_map m k c h small =
    rw (number_first (length m) (save_entries m) small, after_number (length m) (save_entries m))
      (load_entries-lookup m [] k h c ∙ or_none (lookup k m))
  where
    or_none : (o : Option Bytes) → or_else o none ≡ o
    or_none none = refl
    or_none (some v) = refl
