-- ===== src/Oram/Cache/Laws/Fill.antt =====
-- The second loop of getCache in path-oram/src/oram.cpp cuts the downloaded blocks into buckets.
use mathlib.Core.List.{append_assoc, append-nil}
use mathlib.Core.Path.{ap₂}
use native.Mathlib.Nat.{mod-eq_of_lt, add-mul-div_right, add-mul-mod_self_right, div-eq_of_lt}
use path_oram_base.Common.{
  ℕ, suc, ◌+◌, ◌-◌, ◌*◌, ◌/◌, ◌%◌, ◌<◌, ◌≡◌, refl, sym, ap, ◌∙◌, Bool, true, false, List, [], ◌∷◌,
  ◌++◌, arith, All, All-map, Option, none, some, ◌==◌, length, length-append, if◌then◌else◌,
  get_elem?, eq→==, ne→==,
}
use path_oram_base.Common.Assoc.{lookup, assign, IsMap, lookup-assign, assign-IsMap, assign-All}
use path_oram_base.Oram.Cache.{fill_cache, store_at}
use path_oram_base.Storage.{gather}
use path_oram_base.Types.{Block, Bucket}

abbrev pub choose_view : Option Bucket → Bucket → Bucket
choose_view none old = old
choose_view (some b) old = b

-- A cache in front of what stands behind it.
unfoldable pub through : List (ℕ × Bucket) → (ℕ → Bucket) → ℕ → Bucket
through cache f l = choose_view (lookup l cache) (f l)

pub through-assign :
    (f : ℕ → Bucket) (l j : ℕ) (b : Bucket) (cache : List (ℕ × Bucket))
    → through (assign l b cache) f j ≡ (if j == l then b else through cache f j)
unfolding through
through-assign f l j b cache = rw (lookup-assign j l b cache) (ground arith)

through-assign_same :
    (f : ℕ → Bucket) (l j : ℕ) (cache : List (ℕ × Bucket))
    → through cache f l ≡ f l
    → through (assign l (f l) cache) f j ≡ through cache f j
through-assign_same f l j cache h = ground (arith, through-assign f l j (f l) cache)

-- The buckets at some locations, put into the cache one after the other.
unfoldable pub fill_all : (ℕ → Bucket) → List ℕ → List (ℕ × Bucket) → List (ℕ × Bucket)
fill_all f [] cache = cache
fill_all f (l ∷ ls) cache = fill_all f ls (assign l (f l) cache)

row_mod : (k r z : ℕ) → r < z → (r + k * z) % z ≡ r
row_mod k r z h = add-mul-mod_self_right r k z ∙ mod-eq_of_lt h

row_div : (k r z : ℕ) → r < z → (r + k * z) / z ≡ k
row_div k r z h = add-mul-div_right r k (omega arith) ∙ (rw (div-eq_of_lt h) (omega arith))

-- One whole bucket, of which `bucket` was taken before.
fill_cache-bucket :
    (dry_run : Bool) (z : ℕ) (to_get : List ℕ) (k i : ℕ) (bucket : Bucket) (e : Block)
    (es rest : List Block) (response : List Block) (cache : List (ℕ × Bucket))
    → i ≡ length bucket + k * z
    → length bucket + suc (length es) ≡ z
    → fill_cache dry_run z to_get i ((e ∷ es) ++ rest) bucket response cache
      ≡ fill_cache dry_run z to_get
          (z + k * z)
          rest
          []
          (if dry_run then response else response ++ e ∷ es)
          (store_at (get_elem? to_get k) (bucket ++ e ∷ es) cache)
unfolding fill_cache
fill_cache-bucket d z to_get k i bucket e [] rest response cache h w =
    let r : i % z ≡ z - 1 =
      ap (λ (t : ℕ). t % z) h ∙ row_mod k (length bucket) z (omega arith) ∙ omega arith in
    let q : i / z ≡ k = ap (λ (t : ℕ). t / z) h ∙ row_div k (length bucket) z (omega arith) in
    let n : i + 1 ≡ z + k * z = omega arith in rw (fill_cache, eq→== _ _ r, q, n)
fill_cache-bucket d z to_get k i bucket e (x ∷ es) rest response cache h w =
    let r : i % z ≡ length bucket =
      ap (λ (t : ℕ). t % z) h ∙ row_mod k (length bucket) z (omega arith) in
    rw (fill_cache, ne→== (i % z) (z - 1) (λ q. omega arith))
      (fill_cache-bucket d z to_get k (i + 1) (bucket ++ e ∷ []) x es rest
          (if d then response else response ++ e ∷ []) cache
          (omega (arith, length-append bucket (e ∷ [])))
          (omega (arith, length-append bucket (e ∷ [])))
        ∙ ap₂ (fill_cache d z to_get (z + k * z) rest []) (collected d) (
            ap (λ b. store_at (get_elem? to_get k) b cache)
              (append_assoc bucket (e ∷ []) (x ∷ es))))
  where
    collected :
        (d : Bool)
        → (if d
            then (if d then response else response ++ e ∷ [])
            else (if d then response else response ++ e ∷ []) ++ x ∷ es)
          ≡ (if d then response else response ++ e ∷ x ∷ es)
    collected true = refl
    collected false = append_assoc response (e ∷ []) (x ∷ es)

get_elem?-middle :
    (done : List ℕ) (l : ℕ) (ls : List ℕ) → get_elem? (done ++ l ∷ ls) (length done) ≡ some l
get_elem?-middle [] l ls = refl
get_elem?-middle (x ∷ done) l ls = get_elem?-middle done l ls

first_block : (b : Bucket) → 0 < length b → (e : Block) × (es : List Block) × (b ≡ e ∷ es)
first_block [] h = elim h [ ]
first_block (e ∷ es) h = (e, es, refl)

-- From a bucket's start, the rest of the download fills the rest of the cache.
fill_cache-gather_from :
    (dry_run : Bool) (z : ℕ) (done ls : List ℕ) (i : ℕ) (f : ℕ → Bucket) (response : List Block)
    (cache : List (ℕ × Bucket))
    → 0 < z
    → i ≡ length done * z
    → All (λ l. length (f l) ≡ z) ls
    → fill_cache dry_run z (done ++ ls) i (gather f ls) [] response cache
      ≡ (if dry_run then response else response ++ gather f ls, fill_all f ls cache)
unfolding gather fill_all
fill_cache-gather_from d z done [] i f response cache p h w = nothing d
  where
    nothing :
        (d : Bool)
        → fill_cache d z (done ++ []) i [] [] response cache
          ≡ (if d then response else response ++ [], cache)
    nothing true = unfold fill_cache in refl
    nothing false = unfold fill_cache in ap (λ r. (r, cache)) (sym (append-nil response))
fill_cache-gather_from d z done (l ∷ ls) i f response cache p h w =
    let (e, es, q) = first_block (f l) (omega (arith, w.0)) in
    let n : length (f l) ≡ suc (length es) = ap length q in
    rw q (
      fill_cache-bucket d z (done ++ l ∷ ls) (length done) i [] e es (gather f ls) response cache
        (omega arith) (omega (arith, w.0))
      ∙ (rw (get_elem?-middle done l ls) (
          ap
            (λ t.
              fill_cache d z t (z + length done * z) (gather f ls) []
                (if d then response else response ++ e ∷ es) (assign l (e ∷ es) cache))
            (sym (append_assoc done (l ∷ []) ls))
          ∙ fill_cache-gather_from d z (done ++ l ∷ []) ls (z + length done * z) f
              (if d then response else response ++ e ∷ es) (assign l (e ∷ es) cache) p
              (rw (length-append done (l ∷ [])) (omega arith)) w.1
          ∙ ap (λ r. (r, fill_all f ls (assign l (e ∷ es) cache))) (collected d es e))))
  where
    collected :
        (d : Bool) (es : List Block) (e : Block)
        → (if d
            then (if d then response else response ++ e ∷ es)
            else (if d then response else response ++ e ∷ es) ++ gather f ls)
          ≡ (if d then response else response ++ ((e ∷ es) ++ gather f ls))
    collected true es e = refl
    collected false es e = append_assoc response (e ∷ es) (gather f ls)

-- If buckets have z blocks, more than none, and what was downloaded are the buckets of the
-- locations asked for, one after the other, then cutting it into pieces of z blocks puts into the
-- cache, under each location, its own bucket; a run that is not dry also adds all the blocks to
-- the response.
pub fill_cache-gather :
    (dry_run : Bool) (z : ℕ) (ls : List ℕ) (f : ℕ → Bucket) (response : List Block)
    (cache : List (ℕ × Bucket))
    → 0 < z
    → All (λ l. length (f l) ≡ z) ls
    → fill_cache dry_run z ls 0 (gather f ls) [] response cache
      ≡ (if dry_run then response else response ++ gather f ls, fill_all f ls cache)
fill_cache-gather d z ls f response cache p w =
    fill_cache-gather_from d z [] ls 0 f response cache p (omega arith) w

pub through-fill_all :
    (f : ℕ → Bucket) (ls : List ℕ) (cache : List (ℕ × Bucket)) (j : ℕ)
    → All (λ l. through cache f l ≡ f l) ls
    → through (fill_all f ls cache) f j ≡ through cache f j
unfolding fill_all
through-fill_all f [] cache j h = refl
through-fill_all f (l ∷ ls) cache j h =
    through-fill_all f ls (assign l (f l) cache) j
      (All-map _ _ (λ k e. through-assign_same f l k cache h.0 ∙ e) ls h.1)
    ∙ through-assign_same f l j cache h.0

pub fill_all-IsMap :
    (f : ℕ → Bucket) (ls : List ℕ) (cache : List (ℕ × Bucket))
    → IsMap cache
    → IsMap (fill_all f ls cache)
unfolding fill_all
fill_all-IsMap f [] cache h = h
fill_all-IsMap f (l ∷ ls) cache h = fill_all-IsMap f ls _ (assign-IsMap l (f l) cache h)

pub fill_all-All :
    (P : ℕ × Bucket → Type 0) (f : ℕ → Bucket) (ls : List ℕ) (cache : List (ℕ × Bucket))
    → All (λ l. P (l, f l)) ls
    → All P cache
    → All P (fill_all f ls cache)
unfolding fill_all
fill_all-All P f [] cache h k = k
fill_all-All P f (l ∷ ls) cache h k = fill_all-All P f ls _ h.1 (assign-All P l (f l) cache h.0 k)

pub through-missing :
    (f : ℕ → Bucket) (l : ℕ) (cache : List (ℕ × Bucket))
    → lookup l cache ≡ none
    → through cache f l ≡ f l
unfolding through
through-missing f l cache e = rw e refl
