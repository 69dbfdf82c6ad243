-- ===== src/Oram/Evict/Choice.antt =====
-- What the loop over the stash in writePath of path-oram/src/oram.cpp chooses for one bucket.
use mathlib.Core.List.{append_assoc, append-nil}
use path_oram_base.Common.{
  ℕ, suc, ◌+◌, ◌≤◌, ◌<◌, ◌≡◌, refl, sym, ◌∙◌, Bool, true, false, List, [], ◌∷◌, ◌++◌, map, inl, inr,
  arith, length, tally, All, Bool-cases, ◌==◌, ==_iff,
}
use path_oram_base.Common.Effect.{ok, within, bind}
use path_oram_base.Oram.Evict.Erase.Laws.{Picks, stop, skip, take}
use path_oram_base.Oram.Evict.{Chosen, include, choose}
use path_oram_base.Oram.{Oram}
use path_oram_base.PositionMap.{get_within}
use path_oram_base.Storage.{Storage}
use path_oram_base.Tree.{can_include}
use path_oram_base.Types.{Block}

abbrev pub ids : List Block → List ℕ
ids = map (λ e. e.0)

length-include :
    (e : Block) (i : ℕ) (c : Chosen) → length (include e i c).to_insert ≡ suc (length c.to_insert)
unfolding include
length-include e i c = refl

module _ {T : Storage} where
  -- May the block stand in the bucket of this level?
  abbrev pub Fits : Oram T → ℕ → ℕ → Block → Type 0
  Fits s leaf level e = can_include s.height (s.map.leaves e.0) leaf level ≡ true

  -- The loop from index `i` on has taken `taken` and left `rest`.
  pub record Choice (s : Oram T) (leaf level i : ℕ) (es : List Block) (c : Chosen) : Type 1 where
    pub result : Chosen
    pub positions : List ℕ
    pub taken : List Block
    pub rest : List Block
    pub picks : Picks i es positions taken rest
    pub indices : result.indices ≡ c.indices ++ positions
    pub deleted : result.to_delete ≡ c.to_delete ++ ids taken
    pub inserted :
        (p : Block → Bool) → tally p result.to_insert ≡ tally p c.to_insert + tally p taken
    pub inserted_all :
        (P : Block → Type 0) → All P c.to_insert → All P taken → All P result.to_insert
    pub few : length result.to_insert ≤ s.bucket_size
    pub fit : All (Fits s leaf level) taken

  nothing :
      (s : Oram T) (leaf level i : ℕ) (es : List Block) (c : Chosen)
      → length c.to_insert ≤ s.bucket_size
      → Choice s leaf level i es c
  nothing s leaf level i es c h = record {
    result = c;
    positions = [];
    taken = [];
    rest = es;
    picks = stop;
    indices = sym (append-nil c.indices);
    deleted = sym (append-nil c.to_delete);
    inserted = λ p. omega arith;
    inserted_all = λ P a b. a;
    few = h;
    fit = tt;
  }

  pass_over :
      (s : Oram T) (leaf level i : ℕ) (e : Block) (es : List Block) (c : Chosen)
      → Choice s leaf level (i + 1) es c
      → Choice s leaf level i (e ∷ es) c
  pass_over s leaf level i e es c r = record {
    result = r.result;
    positions = r.positions;
    taken = r.taken;
    rest = e ∷ r.rest;
    picks = skip r.picks;
    indices = r.indices;
    deleted = r.deleted;
    inserted = r.inserted;
    inserted_all = r.inserted_all;
    few = r.few;
    fit = r.fit;
  }

  take_one :
      (s : Oram T) (leaf level i : ℕ) (e : Block) (es : List Block) (c : Chosen)
      → Fits s leaf level e
      → Choice s leaf level (i + 1) es (include e i c)
      → Choice s leaf level i (e ∷ es) c
  unfolding include
  take_one s leaf level i e es c f r = record {
    result = r.result;
    positions = i ∷ r.positions;
    taken = e ∷ r.taken;
    rest = r.rest;
    picks = take r.picks;
    indices = r.indices ∙ append_assoc c.indices (i ∷ []) r.positions;
    deleted = r.deleted ∙ append_assoc c.to_delete (e.0 ∷ []) (ids r.taken);
    inserted = λ p. omega (arith, r.inserted p);
    inserted_all = λ P a b. r.inserted_all P (b.0, a) b.1;
    few = r.few;
    fit = (f, r.fit);
  }

  module _ (s : Oram T) (leaf level i : ℕ) (e : Block) (es : List Block) (c : Chosen)
      (known : e.0 < s.map.capacity) where
    choose_out :
        can_include s.height (s.map.leaves e.0) leaf level ≡ false
        → choose leaf level i (e ∷ es) c s ≡ choose leaf level (i + 1) es c s
    unfolding choose
    choose_out f = rw (get_within e.0 s.map known, within, bind, f) refl

    choose_full :
        Fits s leaf level e
        → (length (include e i c).to_insert == s.bucket_size) ≡ true
        → choose leaf level i (e ∷ es) c s ≡ ok (include e i c) s
    unfolding choose
    choose_full f full = rw (get_within e.0 s.map known, within, bind, f, full) refl

    choose_more :
        Fits s leaf level e
        → (length (include e i c).to_insert == s.bucket_size) ≡ false
        → choose leaf level i (e ∷ es) c s ≡ choose leaf level (i + 1) es (include e i c) s
    unfolding choose
    choose_more f more = rw (get_within e.0 s.map known, within, bind, f, more) refl

  -- If the position map knows the blocks that are left and the bucket is not yet full, the loop
  -- over the stash does not throw; the blocks that it chooses are those at the indices that it
  -- records, their IDs are recorded too, each may stand in the bucket of the level, and no more
  -- are chosen than the bucket holds.
  pub choose-Choice :
      (s : Oram T) (leaf level i : ℕ) (es : List Block) (c : Chosen)
      → All (λ e. e.0 < s.map.capacity) es
      → length c.to_insert < s.bucket_size
      → (r : Choice s leaf level i es c) × (choose leaf level i es c s ≡ ok r.result s)
  unfolding choose nothing pass_over take_one
  choose-Choice s leaf level i [] c h k = (nothing s leaf level i [] c (omega arith), refl)
  choose-Choice s leaf level i (e ∷ es) c h k =
      elim (Bool-cases (can_include s.height (s.map.leaves e.0) leaf level)) [
        | inr f ↦
            let (r, run) = choose-Choice s leaf level (i + 1) es c h.1 k in
            (pass_over s leaf level i e es c r, choose_out s leaf level i e es c h.0 f ∙ run)
        | inl f ↦ elim (Bool-cases (length (include e i c).to_insert == s.bucket_size)) [
          | inl full ↦ (
            take_one s leaf level i e es c f (
                nothing s leaf level (i + 1) es (include e i c)
                  (omega (arith, (==_iff _ _).0 full))),
            choose_full s leaf level i e es c h.0 f full,
          )
          | inr not_full ↦
              let (r, run) =
                choose-Choice s leaf level (i + 1) es (include e i c) h.1
                  (ground (arith, length-include e i c)) in
              (
                take_one s leaf level i e es c f r,
                choose_more s leaf level i e es c h.0 f not_full ∙ run,
              )
        ]
      ]
