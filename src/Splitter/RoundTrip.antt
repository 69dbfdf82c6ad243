-- ===== src/Splitter/RoundTrip.antt =====
-- read_file and handle_text of path-oram/src/splitter.cpp, and split_keys and the joining of keys of
-- path-oram/src/trusted_proxy_layer.cpp, one after the other.
use path_oram_base.Common.{
  ℕ, ◌<◌, ◌≤◌, ◌≡◌, refl, sym, ap, ◌∙◌, arith, Bool, some, List, [], ◌++◌, length, replicate,
  length-append, ltb, if◌then◌else◌, All, All-append, inl, inr, Bool-cases,
}
use path_oram_base.Common.Int.{ℤ}
use path_oram_base.Encoding.{IsByte}
use path_oram_base.Random.{Words}
use path_oram_base.Splitter.{too_few, read_shares, combined, lines_of, found, split_keys, join_keys}
use path_oram_base.Splitter.Numbers.{
  numbers_of, numbers_of-All, numbers_lem, written, written-numbers_of,
}
use path_oram_base.Splitter.Blocks.{
  marked-AllDistinct, marked-All, write_blocks-rows, replicate-rows, length-numbers_of, below_prime,
}
use path_oram_base.Splitter.Servers.{
  polynomials, columns, share_numbers-points, keep, marked, found-keep, length-lines_of, rows,
  read_shares-rows,
}
use path_oram_base.Types.{Bytes}

-- Let there be one to nine servers and no more coefficients than servers, at least one, let a key
-- have 32 bytes, whatever the three bytes behind it in the buffer are, and let some of the files
-- of shares that split_keys writes be missing. Then split_keys overflows nowhere, and the loops
-- that join the keys deliver the key if as many files of shares are there as there are
-- coefficients, and else say how few there are.
pub join_keys-split_keys :
    (n k : ℕ) (words : Words) (junk key : Bytes) (present : List Bool)
    → 0 < k
    → k ≤ n
    → n ≤ 9
    → length present ≡ n
    → length key ≡ 32
    → length junk ≡ 3
    → All IsByte key
    → All IsByte junk
    → (files : List (List ℤ)) × (split_keys n k words junk key ≡ some files)
      × (length files ≡ n)
      × (join_keys k (keep present files)
          ≡ some (
              if ltb (found (keep present files)) k
              then too_few (found (keep present files))
              else combined key))
unfolding split_keys join_keys
join_keys-split_keys n k words junk key present h p q e l j a b =
    let vs = numbers_of 5 (key ++ junk) in
    let polys = polynomials k words vs in
    let small = below_prime vs (numbers_of-All 5 (key ++ junk) (All-append IsByte key junk a b)) in
    let xs = marked 1 present in
    let files = lines_of (columns n 1 polys) in
    let count : found (keep present files) ≡ length xs = rw (← e) (found-keep present 1 polys) in
    let read : read_shares 0 1 (keep present files) (replicate 5 []) ≡ some (rows xs polys) =
      ap (read_shares 0 1 (keep present files))
        (replicate-rows 5 k words vs (length-numbers_of 5 (key ++ junk)))
      ∙ (rw (← e) (read_shares-rows present 1 [] polys [])) in
    (
      files,
      rw
          (
            numbers_lem 5 (key ++ junk) (omega (arith, length-append key junk)),
            share_numbers-points n k words vs h p q small,
          )
          refl,
      length-lines_of n 1 polys,
      rw read (elim (Bool-cases (ltb (found (keep present files)) k)) [
        | inl t ↦ rw t refl
        | inr t ↦
            rw
              (
                t,
                write_blocks-rows k words vs xs 32 h small (ground (arith, t, count))
                    (marked-All present 1 (omega arith)) (marked-AllDistinct present 1),
              )
              (ap (λ t. some (combined t))
                (ap (λ t. written t vs) (sym l)
                  ∙ written-numbers_of 5 key junk (omega arith) (omega arith) a))
      ]),
    )
