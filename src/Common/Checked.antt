-- ===== src/Common/Checked.antt =====
-- Signed 64-bit arithmetic on numbers from 0 on: `none` where the code overflows, which is undefined.
use Prim.Native.Nat.{ℕ, ◌^◌, ◌<◌}
use mathlib.Core.Path.{◌≡◌, refl}
use mathlib.Core.Option.{Option, none, some}
use path_oram_base.Common.Tests.{ltb, if◌then◌else◌, lt→ltb}

unfoldable pub ll : ℕ → Option ℕ
ll x = if ltb x (2 ^ 63) then some x else none

infixl 5 ◌>>=◌
abbrev pub ◌>>=◌ {ℓ κ} : {A : Type ℓ} {B : Type κ} → Option A → (A → Option B) → Option B
◌>>=◌ none f = none
◌>>=◌ (some a) f = f a

pub ll_lt : (x : ℕ) → x < 2 ^ 63 → ll x ≡ some x
unfolding ll
ll_lt x h = rw (lt→ltb x (2 ^ 63) h) refl
