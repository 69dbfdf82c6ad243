-- ===== src/Tests/Proxy.antt =====
-- A run at a concrete input, for the statement about the commands of the proxy layer.
use path_oram_base.Common.{
  ℕ, ◌+◌, ◌≡◌, Option, Bool, none, some, [], ◌∷◌, ◌++◌, arith, length, drop, replicate,
  if◌then◌else◌, ◌==◌,
}
use path_oram_base.ProxyLayer.{SecretStream, Input}
use path_oram_base.Types.{Bytes}

tag_of : Bool → ℕ
tag_of b = if b then 1 else 0

pull_plain : (Unit {0}) → Bytes → Option (Bytes × Bool × (Unit {0}))
pull_plain t [] = none
pull_plain t (b ∷ bytes) = some (drop 16 bytes, b == 1, tt)

-- A stream that only puts the tag and 16 zeros before a message.
abbrev plain : SecretStream (Unit {0})
unfolding tag_of pull_plain
plain = record {
  init_push = λ key seed. (replicate 24 0, tt);
  push = λ s m tag. (tag_of tag ∷ (replicate 16 0 ++ m), tt);
  init_pull = λ key header. some tt;
  pull = pull_plain;
}

plain_push_size : (m : Bytes) → length (replicate 16 0 ++ m) + 1 ≡ length m + 17
plain_push_size m = omega arith

abbrev zip : Bytes
zip = 80 ∷ 75 ∷ 3 ∷ 4 ∷ 255 ∷ 0 ∷ 0 ∷ 17 ∷ 9 ∷ 200 ∷ []

abbrev input : Input
input = record {
  key = replicate 32 171;
  seed = [];
  file = zip;
  key_words = λ i. 1000 + i;
  words = λ i. 7 + i;
  key_junk = 5 ∷ 6 ∷ 7 ∷ [];
  junk = 77;
}
