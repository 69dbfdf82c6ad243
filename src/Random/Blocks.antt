-- ===== src/Random/Blocks.antt =====
-- getRandomBlock of path-oram/src/utility.cpp ends, with as many bytes as it was asked for.
use path_oram_base.Common.{ℕ, zero, suc, ◌%◌, ◌≡◌, refl, [], ◌∷◌, arith}
use path_oram_base.Common.Effect.{ok, bind}
use path_oram_base.Encoding.{IsBytes}
use path_oram_base.Random.{Words, get_random_block}
use path_oram_base.Types.{Bytes}

pub get_random_block-runs :
    (n : ℕ) (w : Words)
    → (xs : Bytes) × (w' : Words) × (get_random_block n w ≡ ok xs w') × IsBytes n xs
unfolding get_random_block
get_random_block-runs zero w = ([], w, refl, (refl, tt))
get_random_block-runs (suc n) w =
    let (xs, w', r, h) = get_random_block-runs n (λ i. w (suc i)) in
    ((w 0 % 256) ∷ xs, w', rw (r, bind) refl, (omega (arith, h.0), (omega arith, h.1)))
