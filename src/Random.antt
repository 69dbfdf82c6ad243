-- ===== src/Random.antt =====
-- path-oram/src/utility.cpp, the random numbers. `RAND_bytes` of OpenSSL is not part of the
-- repository: what it will deliver is a sequence of words, a state that each draw moves on by one.
-- (The build flags TESTING and DEBUG take `rand()` instead; they are left out.)
pub mod Shuffle
pub mod Blocks
use path_oram_base.Common.{ℕ, zero, suc, ◌%◌, ◌^◌, [], ◌∷◌}
use path_oram_base.Common.Effect.{M, ok, bind}
use path_oram_base.Types.{Bytes}

abbrev pub Words : Type 0
Words = ℕ → ℕ

abbrev pub next_word : M Words ℕ
next_word w = ok (w 0) (λ i. w (suc i))

-- The remainder of a random 64-bit word.
unfoldable pub get_random_u_long : ℕ → M Words ℕ
get_random_u_long max w = bind (next_word w) (λ x. ok (x % 2 ^ 64 % max))

-- The remainder of a random 32-bit word.
unfoldable pub get_random_u_int : ℕ → M Words ℕ
get_random_u_int max w = bind (next_word w) (λ x. ok (x % 2 ^ 32 % max))

-- `n` random bytes.
unfoldable pub get_random_block : ℕ → M Words Bytes
get_random_block zero w = ok [] w
get_random_block (suc n) w =
    bind (next_word w) (λ x v. bind (get_random_block n v) (λ xs. ok ((x % 256) ∷ xs)))
