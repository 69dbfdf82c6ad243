-- ===== src/Oram/Access/History.antt =====
-- Sequences of calls of get and put of path-oram/src/oram.cpp.
use path_oram_base.Common.{ℕ, ◌≤◌, ◌<◌, ◌≡◌, sym, ap, ◌∙◌, subst, List, [], ◌∷◌, length, All}
use path_oram_base.Common.Effect.{Outcome, ok}
use path_oram_base.Oram.Access.Calls.{get-Gets, put-Puts}
use path_oram_base.Oram.Access.{get, put}
use path_oram_base.Oram.Invariant.{Inv, HasRoom}
use path_oram_base.Oram.Memory.{Memory, write, Represents, Answers}
use path_oram_base.Oram.{Oram}
use path_oram_base.Storage.{Storage}
use path_oram_base.Types.{Bytes}

-- A call: a get into an empty response, or a put.
pub data Call : Type 0 where
  get_call : ℕ → Call
  put_call : ℕ → Bytes → Call

-- A call that an object with `capacity` blocks of `n` bytes accepts.
abbrev pub IsCall : ℕ → ℕ → Call → Type 0
IsCall capacity n (get_call b) = b < capacity
IsCall capacity n (put_call b bytes) =
    (b < capacity) × (length bytes ≤ n) × All (λ x. x < 256) bytes

-- The responses are those of the memory, up to padding to `n` bytes.
abbrev pub Recall : ℕ → Memory → List Call → List Bytes → Type 0
Recall n m [] [] = Unit
Recall n m [] (r ∷ rs) = ⊥
Recall n m (get_call b ∷ calls) [] = ⊥
Recall n m (get_call b ∷ calls) (r ∷ rs) = Answers n (m b) [] r × Recall n m calls rs
Recall n m (put_call b bytes ∷ calls) rs = Recall n (write m b bytes) calls rs

module _ {T : Storage} where
  -- A run of calls: each starts where the one before it ended, from a stash that has room, and a
  -- get delivers a response.
  pub data Runs : Oram T → List Call → List Bytes → Oram T → Type 0 where
    done : {s : Oram T} → Runs s [] [] s
    get_step :
        {s t u : Oram T} {b : ℕ} {result : Bytes} {calls : List Call} {results : List Bytes}
        → HasRoom s
        → get b [] s ≡ ok result t
        → Runs t calls results u
        → Runs s (get_call b ∷ calls) (result ∷ results) u
    put_step :
        {s t u : Oram T} {b : ℕ} {bytes : Bytes} {calls : List Call} {results : List Bytes}
        → HasRoom s
        → put b bytes s ≡ ok tt t
        → Runs t calls results u
        → Runs s (put_call b bytes ∷ calls) results u

  ok-state : {A : Type 0} {a b : A} {s t : Oram T} → ok a s ≡ ok b t → s ≡ t
  ok-state e = cc

  ok-value : {A : Type 0} {a b : A} {s t : Oram T} → Outcome.ok a s ≡ ok b t → a ≡ b
  ok-value e = cc

  -- Let an object satisfy the invariant and represent a memory of blocks, and let the calls have
  -- IDs that the position map knows and data of bytes that fit a block. Then in every run of those
  -- calls of get and put in which the stash has room for a path and one more block before each
  -- call, each get delivers what the memory has for its block at that time, up to padding with
  -- zeros, and nothing for a block that was never written.
  pub Runs-Recall :
      {s u : Oram T} {calls : List Call} {results : List Bytes} (m : Memory)
      → Inv s
      → Represents m s
      → All (IsCall s.map.capacity T.block_size) calls
      → Runs s calls results u
      → Recall T.block_size m calls results
  Runs-Recall m v rep ok_calls done = tt
  Runs-Recall {s = s} m v rep ok_calls (get_step {t = t} {b = b} {calls = calls} room e r) =
      let g = get-Gets s m b [] v rep ok_calls.0 room in
      let same : g.after ≡ t = ok-state (sym g.runs ∙ e) in
      (
        subst (λ x. Answers T.block_size (m b) [] x) (ok-value (sym g.runs ∙ e)) g.answers,
        Runs-Recall m (subst Inv same g.inv) (subst (Represents m) same g.represents)
            (subst (λ c. All (IsCall c T.block_size) calls)
              (sym g.sizes.map_capacity ∙ ap (λ (x : Oram T). x.map.capacity) same) ok_calls.1)
            r,
      )
  Runs-Recall {s = s} m v rep ok_calls
        (put_step {t = t} {b = b} {bytes = bytes} {calls = calls} room e r) =
      let g = put-Puts s m b bytes v rep ok_calls.0.0 room ok_calls.0.1 ok_calls.0.2 in
      let same : g.after ≡ t = ok-state (sym g.runs ∙ e) in
      Runs-Recall (write m b bytes) (subst Inv same g.inv)
        (subst (Represents (write m b bytes)) same g.represents)
        (subst (λ c. All (IsCall c T.block_size) calls)
          (sym g.sizes.map_capacity ∙ ap (λ (x : Oram T). x.map.capacity) same) ok_calls.1)
        r
