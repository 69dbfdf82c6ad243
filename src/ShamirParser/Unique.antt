-- ===== src/ShamirParser/Unique.antt =====
-- mapUniqueValues of Shamir_Parser/shamir_parser.cpp.
use path_oram_base.Common.{
  ℕ, suc, ◌<◌, ◌≤◌, ◌≡◌, refl, inl, inr, Bool-cases, List, [], ◌∷◌, arith, length, ◌==◌, some,
  subst,
}
use path_oram_base.Common.Assoc.{count, lookup}
use path_oram_base.ShamirParser.{add_values, map_unique_values}

-- The numbers go down to 1, one for each entry.
abbrev IsNumbered : List (ℕ × ℕ) → Type 0
IsNumbered [] = Unit
IsNumbered (e ∷ m) = (e.1 ≡ suc (length m)) × IsNumbered m

numbered_bound :
    (m : List (ℕ × ℕ)) (k v : ℕ) → IsNumbered m → lookup k m ≡ some v → (0 < v) × (v ≤ length m)
unfolding lookup
numbered_bound [] k v h e = cc
numbered_bound ((j, w) ∷ m) k v h e = elim (Bool-cases (j == k)) [
  | inl t ↦
      let same : some w ≡ some v = rw (t, lookup) at e in
      let first : w ≡ v = cc in (omega (arith, first, h.0), omega (arith, first, h.0))
  | inr t ↦ let r = numbered_bound m k v h.1 (rw (t, lookup) at e) in (r.0, omega (arith, r.1))
]

numbered_injective :
    (m : List (ℕ × ℕ)) (k j v : ℕ)
    → IsNumbered m
    → lookup k m ≡ some v
    → lookup j m ≡ some v
    → k ≡ j
unfolding lookup
numbered_injective [] k j v h e f = cc
numbered_injective ((i, w) ∷ m) k j v h e f = elim (Bool-cases (i == k)) [
  | inl t ↦ elim (Bool-cases (i == j)) [
    | inl u ↦ ground arith
    | inr u ↦
        let same : some w ≡ some v = rw (t, lookup) at e in
        let first : w ≡ v = cc in
        absurd (omega (arith, first, h.0, numbered_bound m j v h.1 (rw (u, lookup) at f)))
  ]
  | inr t ↦ elim (Bool-cases (i == j)) [
    | inl u ↦
        let same : some w ≡ some v = rw (u, lookup) at f in
        let first : w ≡ v = cc in
        absurd (omega (arith, first, h.0, numbered_bound m k v h.1 (rw (t, lookup) at e)))
    | inr u ↦ numbered_injective m k j v h.1 (rw (t, lookup) at e) (rw (u, lookup) at f)
  ]
]

add_values-IsNumbered :
    (vs : List ℕ) (m : List (ℕ × ℕ)) → IsNumbered m → IsNumbered (add_values vs (suc (length m)) m)
unfolding add_values
add_values-IsNumbered [] m h = h
add_values-IsNumbered (v ∷ vs) m h = elim (Bool-cases (count v m == 0)) [
  | inl e ↦
      rw (add_values, e)
        (subst (λ n. IsNumbered (add_values vs n ((v, suc (length m)) ∷ m))) (omega arith)
          (add_values-IsNumbered vs ((v, suc (length m)) ∷ m) (refl, h)))
  | inr e ↦ rw (add_values, e) (add_values-IsNumbered vs m h)
]

pub map_unique_values-injective :
    (values : List ℕ) (k j v : ℕ)
    → lookup k (map_unique_values values) ≡ some v
    → lookup j (map_unique_values values) ≡ some v
    → k ≡ j
unfolding map_unique_values
map_unique_values-injective values k j v =
    numbered_injective (add_values values 1 []) k j v (add_values-IsNumbered values [] tt)
