-- ===== src/Common/Effect.antt =====
-- State with C++ exceptions: a computation ends in a value or in an exception, and in both cases
-- with the state as it then is, since a thrown exception undoes nothing.
use Prim.Native.Nat.{ℕ}
use mathlib.Core.Path.{◌≡◌, refl, sym, ◌∙◌}
use mathlib.Core.Bool.{Bool, true, false}
use mathlib.Core.List.{List, [], ◌∷◌, ◌++◌}

-- What the PathORAM::Exception messages say, with the values that they print.
pub data Exception : Type 0 where
  over_capacity : ℕ → Exception
  block_out_of_bound : ℕ → ℕ → Exception
  location_out_of_bound : ℕ → ℕ → Exception
  wrong_bucket_size : ℕ → ℕ → Exception
  block_too_long : ℕ → ℕ → Exception
  block_size_too_small : ℕ → Exception
  block_size_not_multiple : ℕ → Exception
  no_blocks_in_bucket : Exception
  too_many_requests : ℕ → ℕ → Exception
  too_much_data : Exception
  wrong_key_size : ℕ → Exception
  wrong_input_size : ℕ → Exception
  wrong_iv_size : ℕ → Exception
  cannot_open : Exception
  mac_not_found : ℕ → Exception
  mac_mismatch : Exception
  size_mismatch : ℕ → ℕ → ℕ → Exception
  buffer_overflow : Exception
  -- Not an exception of the code: an index past the end, which is undefined.
  outside_vector : Exception

pub data Outcome {ℓ κ} (S : Type ℓ) (A : Type κ) : Type (ℓ ⊔ κ) where
  ok : A → S → Outcome S A
  err : Exception → S → Outcome S A

abbrev pub M {ℓ κ} : Type ℓ → Type κ → Type (ℓ ⊔ κ)
M S A = S → Outcome S A

abbrev pub pure {ℓ κ} : {S : Type ℓ} {A : Type κ} → A → M S A
pure a s = ok a s

abbrev pub throw {ℓ κ} : {S : Type ℓ} {A : Type κ} → Exception → M S A
throw e s = err e s

abbrev pub bind {ℓ κ μ} :
    {S : Type ℓ} {A : Type κ} {B : Type μ} → Outcome S A → (A → M S B) → Outcome S B
bind (ok a s) f = f a s
bind (err e s) f = err e s

infixl 5 ◌>>=◌ ◌>>◌
abbrev pub ◌>>=◌ {ℓ κ μ} : {S : Type ℓ} {A : Type κ} {B : Type μ} → M S A → (A → M S B) → M S B
◌>>=◌ m f s = bind (m s) f

abbrev pub ◌>>◌ {ℓ κ} : {S : Type ℓ} {B : Type κ} → M S (Unit {0}) → M S B → M S B
◌>>◌ m k s = bind (m s) (λ _. k)

-- `if (bad) throw e;`
abbrev pub throw_if {ℓ} : {S : Type ℓ} → Bool → Exception → M S (Unit {0})
throw_if true e s = err e s
throw_if false e s = ok tt s

-- A computation on a part of a larger state.
abbrev pub within {ℓ κ μ} :
    {S : Type ℓ} {T : Type κ} {A : Type μ} → (S → T → S) → S → Outcome T A → Outcome S A
within put s (ok a t) = ok a (put s t)
within put s (err e t) = err e (put s t)

-- A range-based for loop with a body that may throw.
unfoldable pub for_each {ℓ κ} :
    {S : Type ℓ} {A : Type κ} → (A → M S (Unit {0})) → List A → M S (Unit {0})
for_each f [] s = ok tt s
for_each f (x ∷ xs) s = bind (f x s) (λ _. for_each f xs)

-- Inversion of a bind that ended in a value.
pub bind-eq-ok {ℓ κ μ} :
    {S : Type ℓ} {A : Type κ} {B : Type μ} (m : Outcome S A) (f : A → M S B) {b : B} {s : S}
    → bind m f ≡ ok b s
    → (a : A) × (t : S) × (m ≡ ok a t) × (f a t ≡ ok b s)
bind-eq-ok (ok a t) f h = (a, t, refl, h)
bind-eq-ok (err e t) f h = cc

pub bind-congr {ℓ κ μ} :
    {S : Type ℓ} {A : Type κ} {B : Type μ} (m : Outcome S A) (f g : A → M S B)
    → ((a : A) (s : S) → f a s ≡ g a s)
    → bind m f ≡ bind m g
bind-congr (ok a s) f g h = h a s
bind-congr (err e s) f g h = refl

pub bind_assoc {ℓ κ μ ν} :
    {S : Type ℓ} {A : Type κ} {B : Type μ} {C : Type ν} (m : Outcome S A) (f : A → M S B)
    (g : B → M S C)
    → bind (bind m f) g ≡ bind m (λ a s. bind (f a s) g)
bind_assoc (ok a s) f g = refl
bind_assoc (err e s) f g = refl

-- A loop over two lists, one after the other.
pub for_each-append {ℓ κ} :
    {S : Type ℓ} {A : Type κ} (f : A → M S (Unit {0})) (xs ys : List A) (s : S)
    → for_each f (xs ++ ys) s ≡ bind (for_each f xs s) (λ _. for_each f ys)
unfolding for_each
for_each-append f [] ys s = refl
for_each-append f (x ∷ xs) ys s =
    bind-congr (f x s) _ _ (λ _ t. for_each-append f xs ys t)
    ∙ sym (bind_assoc (f x s) (λ _. for_each f xs) (λ _. for_each f ys))
