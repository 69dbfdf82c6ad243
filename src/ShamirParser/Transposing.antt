-- ===== src/ShamirParser/Transposing.antt =====
-- transformShares of Shamir_Parser/shamir_parser.cpp.
use path_oram_base.Common.{
  ℕ, zero, suc, ◌+◌, ◌<◌, ◌≤◌, ◌≡◌, refl, ap, ◌∙◌, Option, none, some, List, [], ◌∷◌, arith, length,
  get_elem?, ne→==, ==_refl, ◌≢◌,
}
use path_oram_base.Common.Assoc.{lookup}
use path_oram_base.ShamirParser.{
  attribute_of, with_share, shares_at, tuples_of, attributes_of, transform_shares,
}

get_elem?-tuples_of :
    (a t n i : ℕ) (servers : List (List (List ℕ)))
    → i < n
    → get_elem? (tuples_of a t n servers) i ≡ some (shares_at a (t + i) 0 servers)
unfolding tuples_of
get_elem?-tuples_of a t zero i servers h = absurd (omega arith)
get_elem?-tuples_of a t (suc n) zero servers h =
    ap (λ k. some (shares_at a k 0 servers)) (omega arith)
get_elem?-tuples_of a t (suc n) (suc i) servers h =
    get_elem?-tuples_of a (t + 1) n i servers (omega arith)
    ∙ ap (λ k. some (shares_at a k 0 servers)) (omega arith)

get_elem?-attributes_of :
    (a n tuples i : ℕ) (servers : List (List (List ℕ)))
    → i < n
    → get_elem? (attributes_of a n tuples servers) i ≡ some (tuples_of (a + i) 0 tuples servers)
unfolding attributes_of
get_elem?-attributes_of a zero tuples i servers h = absurd (omega arith)
get_elem?-attributes_of a (suc n) tuples zero servers h =
    ap (λ k. some (tuples_of k 0 tuples servers)) (omega arith)
get_elem?-attributes_of a (suc n) tuples (suc i) servers h =
    get_elem?-attributes_of (a + 1) n tuples i servers (omega arith)
    ∙ ap (λ k. some (tuples_of k 0 tuples servers)) (omega arith)

-- What a server has for an attribute of a tuple.
abbrev pub held : ℕ → ℕ → Option (List (List ℕ)) → Option ℕ
held a t none = none
held a t (some server) = attribute_of a (get_elem? server t)

lookup-with_share_other :
    (x k : ℕ) (o : Option ℕ) (rest : List (ℕ × ℕ))
    → x ≢ k
    → lookup k (with_share x o rest) ≡ lookup k rest
unfolding lookup
lookup-with_share_other x k none rest h = refl
lookup-with_share_other x k (some y) rest h = rw (ne→== x k h) refl

lookup-with_share_self :
    (x : ℕ) (o : Option ℕ) (rest : List (ℕ × ℕ))
    → lookup x rest ≡ none
    → lookup x (with_share x o rest) ≡ o
unfolding lookup
lookup-with_share_self x none rest h = h
lookup-with_share_self x (some y) rest h = rw (==_refl x) refl

lookup_below :
    (a t i k : ℕ) (servers : List (List (List ℕ)))
    → k ≤ i
    → lookup k (shares_at a t i servers) ≡ none
unfolding shares_at lookup
lookup_below a t i k [] h = refl
lookup_below a t i k (server ∷ servers) h =
    lookup-with_share_other (i + 1) k _ _ (λ e. omega arith)
    ∙ lookup_below a t (i + 1) k servers (omega arith)

-- The share of the first server comes first, and hides no other.
lookup-shares_at :
    (a t i x : ℕ) (servers : List (List (List ℕ)))
    → lookup (i + 1 + x) (shares_at a t i servers) ≡ held a t (get_elem? servers x)
unfolding shares_at lookup
lookup-shares_at a t i x [] = refl
lookup-shares_at a t i zero (server ∷ servers) =
    let same : i + 1 + zero ≡ i + 1 = omega arith in
    rw same
      (lookup-with_share_self (i + 1) _ _ (lookup_below a t (i + 1) (i + 1) servers (omega arith)))
lookup-shares_at a t i (suc x) (server ∷ servers) =
    lookup-with_share_other (i + 1) (i + 1 + suc x) _ _ (λ e. omega arith)
    ∙ ap (λ k. lookup k (shares_at a t (i + 1) servers)) (omega arith)
    ∙ lookup-shares_at a t (i + 1) x servers

-- If the first server has a first tuple, then for every attribute of it, every tuple of that
-- server and every server, transformShares delivers for that attribute and tuple a list of shares
-- in which the one with the number of the server is what the server holds there, and none if it
-- holds nothing.
pub transform_shares-held :
    (tuple : List ℕ) (tuples : List (List ℕ)) (servers : List (List (List ℕ))) (a t x : ℕ)
    → a < length tuple
    → t < length (tuple ∷ tuples)
    → (result : List (List (List (ℕ × ℕ)))) × (row : List (List (ℕ × ℕ))) × (shares : List (ℕ × ℕ))
      × (transform_shares ((tuple ∷ tuples) ∷ servers) ≡ some result)
      × (get_elem? result a ≡ some row)
      × (get_elem? row t ≡ some shares)
      × (lookup (suc x) shares ≡ held a t (get_elem? ((tuple ∷ tuples) ∷ servers) x))
unfolding transform_shares
transform_shares-held tuple tuples servers a t x h k =
    let all = (tuple ∷ tuples) ∷ servers in
    (
      attributes_of 0 (length tuple) (length (tuple ∷ tuples)) all,
      tuples_of (0 + a) 0 (length (tuple ∷ tuples)) all,
      shares_at (0 + a) (0 + t) 0 all,
      refl,
      get_elem?-attributes_of 0 (length tuple) (length (tuple ∷ tuples)) a all h,
      get_elem?-tuples_of (0 + a) 0 (length (tuple ∷ tuples)) t all k,
      ap (λ n. lookup n (shares_at (0 + a) (0 + t) 0 all)) (omega arith)
          ∙ lookup-shares_at (0 + a) (0 + t) 0 x all
          ∙ ap (λ n. held n (0 + t) (get_elem? all x)) (omega arith)
          ∙ ap (λ n. held a n (get_elem? all x)) (omega arith),
    )
