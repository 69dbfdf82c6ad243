-- ===== src/Oram/Path/Stashing.antt =====
-- The loop of readPath in path-oram/src/oram.cpp that moves blocks to the stash.
use path_oram_base.Common.{
  ℕ, ◌+◌, ◌≤◌, ◌≡◌, refl, ap, Bool, true, false, List, [], ◌∷◌, inl, inr, arith, length, tally,
  to_nat, All, Bool-cases, ==_refl,
}
use path_oram_base.Common.Assoc.{count, has_key}
use path_oram_base.Common.Effect.{ok, for_each}
use path_oram_base.Oram.Path.{stash_real}
use path_oram_base.Oram.{Oram}
use path_oram_base.Stash.Laws.{add_room}
use path_oram_base.Storage.{Storage}
use path_oram_base.Types.{Block, is_real, real, real-true, real-false}

-- The entries after the loop, where no block is there twice.
pub stash_all : List Block → List Block → List Block
stash_all [] es = es
stash_all (e ∷ bs) es = elim (is_real e) [ true ↦ stash_all bs (e ∷ es) | false ↦ stash_all bs es ]

pub tally-stash_all :
    (p : Block → Bool) (bs es : List Block)
    → tally p (stash_all bs es) ≡ tally p es + tally (real p) bs
unfolding stash_all
tally-stash_all p [] es = omega arith
tally-stash_all p (e ∷ bs) es = elim (Bool-cases (is_real e)) [
  | inl r ↦ rw (stash_all, r, real-true p e r) (omega (arith, tally-stash_all p bs (e ∷ es)))
  | inr r ↦ rw (stash_all, r, real-false p e r) (omega (arith, tally-stash_all p bs es))
]

pub length-tally {ℓ} : {A : Type ℓ} (xs : List A) → length xs ≡ tally (λ _. true) xs
length-tally [] = refl
length-tally (x ∷ xs) = omega (arith, length-tally xs)

pub stash_all-All :
    (P : Block → Type 0) (bs es : List Block)
    → All P es
    → All (λ e. is_real e ≡ true → P e) bs
    → All P (stash_all bs es)
unfolding stash_all
stash_all-All P [] es h k = h
stash_all-All P (e ∷ bs) es h k = elim (Bool-cases (is_real e)) [
  | inl r ↦ rw (r, stash_all) (stash_all-All P bs (e ∷ es) (k.0 r, h) k.1)
  | inr r ↦ rw (r, stash_all) (stash_all-All P bs es h k.1)
]

module _ {T : Storage} where
  abbrev pub with_entries : Oram T → List Block → Oram T
  with_entries s es = record s { stash = record s.stash { entries = es } }

  -- With room, and no block there twice, the loop does not throw.
  pub stash_real-all :
      (bs : List Block) (s : Oram T)
      → ((b : ℕ) → count b s.stash.entries + tally (real (has_key b)) bs ≤ 1)
      → length s.stash.entries + tally is_real bs ≤ s.stash.capacity
      → for_each stash_real bs s ≡ ok tt (with_entries s (stash_all bs s.stash.entries))
  unfolding for_each stash_real stash_all
  stash_real-all [] s h k = refl
  stash_real-all ((id, bytes) ∷ bs) s h k = elim (Bool-cases (is_real (id, bytes))) [
    | inr r ↦
        rw (for_each, stash_real, stash_all, r)
          (stash_real-all bs s
            (λ b. omega (arith, h b, ap to_nat (real-false (has_key b) (id, bytes) r)))
            (omega (arith, ap to_nat r)))
    | inl r ↦
        rw
          (
            for_each,
            stash_real,
            stash_all,
            r,
            add_room id bytes s.stash
                (omega (
                  arith,
                  h id,
                  ap to_nat (real-true (has_key id) (id, bytes) r),
                  ap to_nat (==_refl id),
                ))
                (omega (arith, ap to_nat r)),
          )
          (stash_real-all bs (with_entries s ((id, bytes) ∷ s.stash.entries))
            (λ b. omega (arith, h b, ap to_nat (real-true (has_key b) (id, bytes) r)))
            (omega (arith, ap to_nat r)))
  ]
