-- ===== src/Random/Shuffle.antt =====
-- The Fisher-Yates shuffle of stash-adapter.cpp (getAll) and oram.cpp (load), in path-oram/src.
use native.Mathlib.Nat.{mod-lt}
use path_oram_base.Common.{
  ℕ, zero, suc, ◌+◌, ◌-◌, ◌%◌, ◌^◌, ◌≡◌, ◌<◌, ◌≤◌, refl, ap, ◌∙◌, Bool, Option, none, some, List,
  [], ◌∷◌, arith, if◌then◌else◌, leb, length, get_elem?, set, tally, tally-set, All, subst,
  Bool-cases, inl, inr,
}
use path_oram_base.Common.Effect.{M, Outcome, ok, bind, pure, throw, outside_vector}
use path_oram_base.Random.{Words, get_random_u_int}

module _ {ℓ} {A : Type ℓ} where
  exchange : Option A → Option A → ℕ → ℕ → List A → M Words (List A)
  exchange none b i j xs = throw outside_vector
  exchange (some a) none i j xs = throw outside_vector
  exchange (some a) (some b) i j xs = pure (set (set xs i b) j a)

  -- `swap(xs[i], xs[j])`: an index past the end is undefined.
  unfoldable pub swap : ℕ → ℕ → List A → M Words (List A)
  unfolding exchange
  swap i j xs = exchange (get_elem? xs i) (get_elem? xs j) i j xs

  -- `rounds` more rounds of the loop over i, with `n` elements.
  unfoldable pub shuffle_from : ℕ → ℕ → ℕ → List A → M Words (List A)
  shuffle_from zero n i xs w = ok xs w
  shuffle_from (suc rounds) n i xs w =
      bind (get_random_u_int (n - i) w)
        (λ d v. bind (swap i ((i + d) % 2 ^ 32) xs v) (shuffle_from rounds n (i + 1)))

  unfoldable pub shuffle : List A → M Words (List A)
  shuffle xs w =
      let n = length xs % 2 ^ 32 in if leb 2 n then shuffle_from (n - 1) n 0 xs w else ok xs w

  get_elem?-set_same :
      (xs : List A) (i j : ℕ) (b : A) → get_elem? xs j ≡ some b → get_elem? (set xs i b) j ≡ some b
  get_elem?-set_same [] i j b h = h
  get_elem?-set_same (x ∷ xs) zero zero b h = refl
  get_elem?-set_same (x ∷ xs) zero (suc j) b h = h
  get_elem?-set_same (x ∷ xs) (suc i) zero b h = h
  get_elem?-set_same (x ∷ xs) (suc i) (suc j) b h = get_elem?-set_same xs i j b h

  All-set : (P : A → Type 0) (xs : List A) (i : ℕ) (v : A) → P v → All P xs → All P (set xs i v)
  All-set P [] i v h a = tt
  All-set P (x ∷ xs) zero v h a = (h, a.1)
  All-set P (x ∷ xs) (suc i) v h a = (a.0, All-set P xs i v h a.1)

  All-get_elem? :
      (P : A → Type 0) (xs : List A) (i : ℕ) (v : A) → get_elem? xs i ≡ some v → All P xs → P v
  All-get_elem? P [] i v e a = cc
  All-get_elem? P (x ∷ xs) zero v e a = subst P (ground arith) a.0
  All-get_elem? P (x ∷ xs) (suc i) v e a = All-get_elem? P xs i v e a.1

  length-set : (xs : List A) (i : ℕ) (v : A) → length (set xs i v) ≡ length xs
  length-set [] i v = refl
  length-set (x ∷ xs) zero v = refl
  length-set (x ∷ xs) (suc i) v = ap suc (length-set xs i v)

  get_elem-lt : (xs : List A) (i : ℕ) → i < length xs → (a : A) × (get_elem? xs i ≡ some a)
  get_elem-lt [] i h = absurd (omega arith)
  get_elem-lt (x ∷ xs) zero h = (x, refl)
  get_elem-lt (x ∷ xs) (suc i) h = get_elem-lt xs i (omega arith)

  -- With both indices in the list, a swap reorders it.
  swap-reorders :
      (i j : ℕ) (xs : List A) (w : Words)
      → i < length xs
      → j < length xs
      → (ys : List A) × (swap i j xs w ≡ ok ys w)
        × (length ys ≡ length xs)
        × ((p : A → Bool) → tally p ys ≡ tally p xs)
        × ((P : A → Type 0) → All P xs → All P ys)
  unfolding swap exchange
  swap-reorders i j xs w h k =
      let (a, e) = get_elem-lt xs i h in
      let (b, f) = get_elem-lt xs j k in
      (
        set (set xs i b) j a,
        rw (e, f) refl,
        length-set (set xs i b) j a ∙ length-set xs i b,
        λ p. omega (
          arith,
          tally-set p xs i b e,
          tally-set p (set xs i b) j a (get_elem?-set_same xs i j b f),
        ),
        λ P q.
            All-set P _ j a (All-get_elem? P xs i a e q)
              (All-set P xs i b (All-get_elem? P xs j b f q) q),
      )

  -- A computation that ends and delivers a reordering of `xs`: what every test counts, and what
  -- holds of all elements, is the same.
  pub data Reorders (xs : List A) : Outcome Words (List A) → Type (ℓ ⊔ 1) where
    reordered :
        (ys : List A) (w : Words)
        → ((p : A → Bool) → tally p ys ≡ tally p xs)
        → ((P : A → Type 0) → All P xs → All P ys)
        → Reorders xs (ok ys w)

  Reorders-trans :
      {xs ys : List A} {o : Outcome Words (List A)}
      → ((p : A → Bool) → tally p ys ≡ tally p xs)
      → ((P : A → Type 0) → All P xs → All P ys)
      → Reorders ys o
      → Reorders xs o
  Reorders-trans h a (reordered zs w k b) = reordered zs w (λ p. k p ∙ h p) (λ P q. b P (a P q))

  -- Both indices are in the list, of n elements or more.
  shuffle_from-Reorders :
      (rounds n i : ℕ) (xs : List A) (w : Words)
      → rounds + i < n
      → n < 2 ^ 32
      → n ≤ length xs
      → Reorders xs (shuffle_from rounds n i xs w)
  unfolding shuffle_from get_random_u_int
  shuffle_from-Reorders zero n i xs w h k l = reordered xs w (λ p. refl) (λ P h. h)
  shuffle_from-Reorders (suc rounds) n i xs w h k l =
      let d = w 0 % 2 ^ 32 % (n - i) in
      let below : d < n - i = mod-lt (w 0 % 2 ^ 32) (omega arith) in
      let inside : (i + d) % 2 ^ 32 < length xs = omega (arith, below) in
      let (ys, e, same, counts, keeps) =
        swap-reorders i ((i + d) % 2 ^ 32) xs (λ m. w (suc m)) (omega arith) inside in
      rw e (
        Reorders-trans counts keeps (
          shuffle_from-Reorders rounds n (i + 1) ys (λ m. w (suc m)) (omega arith) k
            (omega (arith, same))))

  -- The shuffle ends, whatever the random source delivers, with every element as often as it was
  -- there.
  pub shuffle-Reorders : (xs : List A) (w : Words) → Reorders xs (shuffle xs w)
  unfolding shuffle
  shuffle-Reorders xs w = elim (Bool-cases (leb 2 (length xs % 2 ^ 32))) [
    | inl h ↦ rw h (
        shuffle_from-Reorders (length xs % 2 ^ 32 - 1) (length xs % 2 ^ 32) 0 xs w
          (ground (arith, h)) (omega arith) (omega arith))
    | inr h ↦ rw h (reordered xs w (λ p. refl) (λ P h. h))
  ]

  -- The same, as equations.
  pub record Shuffled (xs : List A) (w : Words) : Type (ℓ ⊔ 1) where
    pub result : List A
    pub words : Words
    pub runs : shuffle xs w ≡ ok result words
    pub counts : (p : A → Bool) → tally p result ≡ tally p xs
    pub keeps : (P : A → Type 0) → All P xs → All P result

  -- Whatever the random source delivers, the shuffle swaps no element with an index past the end,
  -- and its result has every element as often as the list had it.
  pub shuffle-Shuffled : (xs : List A) (w : Words) → Shuffled xs w
  shuffle-Shuffled xs w = go _ refl (shuffle-Reorders xs w)
    where
      go : (o : Outcome Words (List A)) → shuffle xs w ≡ o → Reorders xs o → Shuffled xs w
      go _ e (reordered ys v k a) = record {
        result = ys;
        words = v;
        runs = e;
        counts = k;
        keeps = a;
      }
