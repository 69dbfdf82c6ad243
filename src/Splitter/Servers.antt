-- ===== src/Splitter/Servers.antt =====
-- The shares of many numbers among servers, and their reading from the files that are there:
-- path-oram/src/splitter.cpp and trusted_proxy_layer.cpp.
use mathlib.Core.List.{append_assoc, append-nil}
use path_oram_base.Common.{
  ℕ, zero, suc, ◌+◌, ◌-◌, ◌<◌, ◌≤◌, ◌≡◌, refl, sym, ap, ◌∙◌, arith, Bool, true, false, none, some,
  List, [], ◌∷◌, ◌++◌, length, map, drop, replicate, le→ltb, if◌then◌else◌, All,
}
use path_oram_base.Common.Int.{ℤ}
use path_oram_base.Random.{Words}
use path_oram_base.SecretSharing.{prime, SecretPair, random_coefficients}
use path_oram_base.SecretSharing.Evaluate.{share, points, split-points}
use path_oram_base.SecretSharing.Products.{shares}
use path_oram_base.Splitter.{
  ShareFiles, push_all, share_numbers, lines_of, find_head, push_values, read_shares, found,
}

-- The polynomials of these numbers.
unfoldable pub polynomials : ℕ → Words → List ℕ → List (List ℕ)
polynomials k words [] = []
polynomials k words (v ∷ vs) =
    (v ∷ random_coefficients (k - 1) words) ∷ polynomials k (λ i. words (k - 1 + i)) vs

-- What the n servers from this one on get of these polynomials.
unfoldable pub columns : ℕ → ℕ → List (List ℕ) → List (List SecretPair)
columns zero number polys = []
columns (suc n) number polys = map (share number) polys ∷ columns n (number + 1) polys

columns-nil : (n number : ℕ) → replicate n [] ≡ columns n number []
unfolding columns
columns-nil zero number = refl
columns-nil (suc n) number = ap (◌∷◌ []) (columns-nil n (number + 1))

map-snoc {ℓ κ} :
    {A : Type ℓ} {B : Type κ} (f : A → B) (xs : List A) (x : A)
    → map f xs ++ f x ∷ [] ≡ map f (xs ++ x ∷ [])
map-snoc f [] x = refl
map-snoc f (y ∷ xs) x = ap (◌∷◌ (f y)) (map-snoc f xs x)

push_all-columns :
    (n number : ℕ) (polys : List (List ℕ)) (cs : List ℕ)
    → push_all (columns n number polys) (points n number cs)
      ≡ some (columns n number (polys ++ cs ∷ []))
unfolding push_all columns points
push_all-columns zero number polys cs = refl
push_all-columns (suc n) number polys cs = rw (push_all-columns n (number + 1) polys cs) (
    ap (λ t. some (t ∷ columns n (number + 1) (polys ++ cs ∷ [])))
      (map-snoc (share number) polys cs))

share_numbers-columns :
    (n k : ℕ) (words : Words) (vs : List ℕ) (polys : List (List ℕ))
    → 0 < k
    → k ≤ n
    → n ≤ 9
    → All (λ v. v < prime) vs
    → share_numbers n k words vs (columns n 1 polys)
      ≡ some (columns n 1 (polys ++ polynomials k words vs))
unfolding share_numbers polynomials
share_numbers-columns n k words [] polys h p q a =
    ap (λ t. some (columns n 1 t)) (sym (append-nil polys))
share_numbers-columns n k words (v ∷ vs) polys h p q a =
    let cs = v ∷ random_coefficients (k - 1) words in
    rw
      (
        split-points v n k words h q a.0,
        le→ltb n k p,
        push_all-columns n 1 polys cs,
        share_numbers-columns n k (λ i. words (k - 1 + i)) vs (polys ++ cs ∷ []) h p q a.1,
      )
      (ap (λ t. some (columns n 1 t)) (append_assoc polys (cs ∷ []) _))

-- From no shares on, every server gets its points of the polynomials.
pub share_numbers-points :
    (n k : ℕ) (words : Words) (vs : List ℕ)
    → 0 < k
    → k ≤ n
    → n ≤ 9
    → All (λ v. v < prime) vs
    → share_numbers n k words vs (replicate n []) ≡ some (columns n 1 (polynomials k words vs))
share_numbers-points n k words vs h p q a =
    ap (share_numbers n k words vs) (columns-nil n 1)
    ∙ share_numbers-columns n k words vs [] h p q a

-- The files of the servers that are marked, while those of the others are missing.
unfoldable pub keep : List Bool → List (List ℤ) → ShareFiles
keep [] files = []
keep (b ∷ bs) [] = []
keep (b ∷ bs) (file ∷ files) = (if b then some file else none) ∷ keep bs files

-- The x of the servers that are marked.
unfoldable pub marked : ℕ → List Bool → List ℕ
marked number [] = []
marked number (true ∷ bs) = number ∷ marked (number + 1) bs
marked number (false ∷ bs) = marked (number + 1) bs

pub found-keep :
    (bs : List Bool) (number : ℕ) (polys : List (List ℕ))
    → found (keep bs (lines_of (columns (length bs) number polys))) ≡ length (marked number bs)
unfolding found keep columns lines_of marked
found-keep [] number polys = refl
found-keep (true ∷ bs) number polys = ap suc (found-keep bs (number + 1) polys)
found-keep (false ∷ bs) number polys = found-keep bs (number + 1) polys

-- The first lines are the shares of the first polynomial.
pub find_head-shares :
    (bs : List Bool) (number : ℕ) (cs : List ℕ) (polys : List (List ℕ))
    → find_head number (keep bs (lines_of (columns (length bs) number (cs ∷ polys))))
      ≡ some (shares cs (marked number bs))
unfolding find_head keep columns lines_of marked shares share
find_head-shares [] number cs polys = refl
find_head-shares (true ∷ bs) number cs polys = rw (find_head-shares bs (number + 1) cs polys) refl
find_head-shares (false ∷ bs) number cs polys = find_head-shares bs (number + 1) cs polys

-- The shares of each polynomial at these points.
unfoldable pub rows : List ℕ → List (List ℕ) → List (List SecretPair)
rows xs polys = map (λ cs. shares cs xs) polys

push_values-rows :
    (number : ℕ) (polys : List (List ℕ)) (xs : List ℕ)
    → push_values number (map (λ pair. pair.y) (map (share number) polys)) (rows xs polys)
      ≡ some (rows (xs ++ number ∷ []) polys)
unfolding push_values rows share shares
push_values-rows number [] xs = refl
push_values-rows number (cs ∷ polys) xs =
    rw (push_values-rows number polys xs)
      (ap (λ t. some (t ∷ rows (xs ++ number ∷ []) polys)) (map-snoc (λ x. share x cs) xs number))

-- With `heads` before them, the files give the shares of the polynomials at the points of the servers
-- that are marked.
pub read_shares-rows :
    (bs : List Bool) (number : ℕ) (heads polys : List (List ℕ)) (xs : List ℕ)
    → read_shares
        (length heads)
        number
        (keep bs (lines_of (columns (length bs) number (heads ++ polys))))
        (rows xs polys)
      ≡ some (rows (xs ++ marked number bs) polys)
unfolding read_shares keep columns lines_of marked
read_shares-rows [] number heads polys xs = ap (λ t. some (rows t polys)) (sym (append-nil xs))
read_shares-rows (false ∷ bs) number heads polys xs =
    read_shares-rows bs (number + 1) heads polys xs
read_shares-rows (true ∷ bs) number heads polys xs =
    rw
      (
        after heads polys number,
        push_values-rows number polys xs,
        read_shares-rows bs (number + 1) heads polys (xs ++ number ∷ []),
      )
      (ap (λ t. some (rows t polys)) (append_assoc xs (number ∷ []) _))
  where
    after :
        (heads polys : List (List ℕ)) (number : ℕ)
        → drop (length heads) (map (λ pair. pair.y) (map (share number) (heads ++ polys)))
          ≡ map (λ pair. pair.y) (map (share number) polys)
    after [] polys number = refl
    after (h ∷ heads) polys number = after heads polys number

-- Every server has a file.
pub length-lines_of :
    (n number : ℕ) (polys : List (List ℕ)) → length (lines_of (columns n number polys)) ≡ n
unfolding lines_of columns
length-lines_of zero number polys = refl
length-lines_of (suc n) number polys = ap suc (length-lines_of n (number + 1) polys)

pub found-marked :
    (bs : List Bool) (number : ℕ) (files : List (List ℤ))
    → length files ≡ length bs
    → found (keep bs files) ≡ length (marked number bs)
unfolding found keep marked
found-marked [] number files h = refl
found-marked (b ∷ bs) number [] h = absurd (omega arith)
found-marked (true ∷ bs) number (file ∷ files) h =
    ap suc (found-marked bs (number + 1) files (omega arith))
found-marked (false ∷ bs) number (file ∷ files) h = found-marked bs (number + 1) files (omega arith)
