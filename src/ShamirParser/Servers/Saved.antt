-- ===== src/ShamirParser/Servers/Saved.antt =====
-- What loadAllShares reads of what saveAllShares has written, in Shamir_Parser/shamir_parser.cpp.
use mathlib.Core.List.{append-nil, append_assoc}
use path_oram_base.Common.{
  ℕ, zero, suc, ◌+◌, ◌-◌, ◌<◌, ◌≤◌, ◌≡◌, refl, sym, ap, ◌∙◌, arith, some, List, [], ◌∷◌, ◌++◌,
  length, get_elem?, ltb, ltb→lt, ◌==◌, ne→==, if◌then◌else◌, inl, inr, Bool-cases, All,
}
use path_oram_base.ShamirParser.Servers.{
  ServerFiles, line_for, append_line, save_from, save_all_shares, save_tuples, load_from,
  load_all_shares, pieces, tuples_in,
}
use path_oram_base.ShamirParser.Servers.Written.{
  IsInRange, line_text, file_text, tuples_in-file_text,
}

-- A tuple has an attribute, each attribute has a share for each of n servers, and the shares are
-- numbers that std::stoll takes.
abbrev pub IsShared : ℕ → List (List (ℕ × ℕ)) → Type 0
IsShared n t =
    (0 < length t) × All (λ shares. length shares ≡ n) t × All (All (λ e. IsInRange e.1)) t

-- The y of the shares with this index; 0 stands for those that are missing.
unfoldable pub second_at : ℕ → List (ℕ × ℕ) → ℕ
second_at i [] = 0
second_at zero (e ∷ es) = e.1
second_at (suc i) (e ∷ es) = second_at i es

-- The numbers of the server with index `i`.
unfoldable pub numbers_at : ℕ → List (List (ℕ × ℕ)) → List ℕ
unfolding second_at
numbers_at i [] = []
numbers_at i (shares ∷ t) = second_at i shares ∷ numbers_at i t

unfoldable pub tuples_at : ℕ → List (List (List (ℕ × ℕ))) → List (List ℕ)
unfolding numbers_at
tuples_at i [] = []
tuples_at i (t ∷ ts) = numbers_at i t ∷ tuples_at i ts

get_elem-second_at :
    (i : ℕ) (shares : List (ℕ × ℕ))
    → i < length shares
    → (x : ℕ) × (get_elem? shares i ≡ some (x, second_at i shares))
unfolding second_at
get_elem-second_at i [] h = absurd (omega arith)
get_elem-second_at zero (e ∷ es) h = (e.0, refl)
get_elem-second_at (suc i) (e ∷ es) h = get_elem-second_at i es (omega arith)

line_for-numbers_at :
    (n i : ℕ) (t : List (List (ℕ × ℕ)))
    → i < n
    → All (λ shares. length shares ≡ n) t
    → line_for i t ≡ some (line_text (numbers_at i t))
unfolding line_for numbers_at line_text
line_for-numbers_at n i [] h a = refl
line_for-numbers_at n i (shares ∷ t) h a =
    let (x, e) = get_elem-second_at i shares (omega (arith, a.0)) in
    rw (e, line_for-numbers_at n i t h a.1) refl

-- The servers from i on get a line, the others keep what they have.
unfoldable pub appended : ℕ → ℕ → List (List (ℕ × ℕ)) → ServerFiles → ServerFiles
unfolding numbers_at append_line
appended zero i t files = files
appended (suc rounds) i t files =
    appended rounds (i + 1) t (append_line (i + 1) (line_text (numbers_at i t)) files)

save_from-appended :
    (n rounds i : ℕ) (t : List (List (ℕ × ℕ))) (files : ServerFiles)
    → i + rounds ≡ n
    → All (λ shares. length shares ≡ n) t
    → save_from rounds i t files ≡ some (appended rounds i t files)
unfolding save_from appended
save_from-appended n zero i t files h a = refl
save_from-appended n (suc rounds) i t files h a = rw (line_for-numbers_at n i t (omega arith) a) (
    save_from-appended n rounds (i + 1) t (append_line (i + 1) (line_text (numbers_at i t)) files)
      (omega arith) a)

appended_before :
    (rounds i : ℕ) (t : List (List (ℕ × ℕ))) (files : ServerFiles) (s : ℕ)
    → s < i
    → appended rounds i t files (s + 1) ≡ files (s + 1)
unfolding appended append_line
appended_before zero i t files s h = refl
appended_before (suc rounds) i t files s h =
    appended_before rounds (i + 1) t (append_line (i + 1) (line_text (numbers_at i t)) files) s
      (omega arith)
    ∙ (rw (ne→== (s + 1) (i + 1) (omega arith)) refl)

appended_at :
    (rounds i : ℕ) (t : List (List (ℕ × ℕ))) (files : ServerFiles) (s : ℕ)
    → i ≤ s
    → s < i + rounds
    → appended rounds i t files (s + 1) ≡ files (s + 1) ++ (line_text (numbers_at s t) ++ 10 ∷ [])
unfolding appended append_line
appended_at zero i t files s h k = absurd (omega arith)
appended_at (suc rounds) i t files s h k = elim (Bool-cases (s + 1 == i + 1)) [
  | inl e ↦
      let same : s ≡ i = ground (arith, e) in
      appended_before rounds (i + 1) t (append_line (i + 1) (line_text (numbers_at i t)) files) s
        (omega (arith, same))
      ∙ (rw e (ap (λ j. files (s + 1) ++ (line_text (numbers_at j t) ++ 10 ∷ [])) (sym same)))
  | inr e ↦
      appended_at rounds (i + 1) t (append_line (i + 1) (line_text (numbers_at i t)) files) s
        (ground (arith, e)) (omega arith)
      ∙ (rw e refl)
]

save_tuples-tuples_at :
    (n : ℕ) (ts : List (List (List (ℕ × ℕ)))) (files : ServerFiles)
    → All (IsShared n) ts
    → (files' : ServerFiles) × (save_tuples ts files ≡ some files')
      × ((s : ℕ) → s < n → files' (s + 1) ≡ files (s + 1) ++ file_text (tuples_at s ts))
unfolding save_tuples save_all_shares tuples_at file_text
save_tuples-tuples_at n [] files a = (files, refl, λ s h. sym (append-nil (files (s + 1))))
save_tuples-tuples_at n ([] ∷ ts) files ((h, b, fit), a) = absurd (omega arith)
save_tuples-tuples_at n ((shares ∷ t) ∷ ts) files ((h, b, fit), a) =
    let written = appended n 0 (shares ∷ t) files in
    let (files', e, held) = save_tuples-tuples_at n ts written a in
    (
      files',
      rw (b.0, save_from-appended n n 0 (shares ∷ t) files (omega arith) b) e,
      λ s k.
          held s k
          ∙ ap (λ l. l ++ file_text (tuples_at s ts))
              (appended_at n 0 (shares ∷ t) files s (omega arith) (omega arith))
          ∙ append_assoc (files (s + 1)) (line_text (numbers_at s (shares ∷ t)) ++ 10 ∷ [])
              (file_text (tuples_at s ts))
          ∙ ap (λ l. files (s + 1) ++ l)
              (append_assoc (line_text (numbers_at s (shares ∷ t))) (10 ∷ [])
                (file_text (tuples_at s ts))),
    )

second_at-IsInRange :
    (i : ℕ) (shares : List (ℕ × ℕ))
    → All (λ e. IsInRange e.1) shares
    → IsInRange (second_at i shares)
unfolding second_at
second_at-IsInRange i [] a = omega arith
second_at-IsInRange zero (e ∷ es) a = a.0
second_at-IsInRange (suc i) (e ∷ es) a = second_at-IsInRange i es a.1

numbers_at-IsInRange :
    (i : ℕ) (t : List (List (ℕ × ℕ)))
    → All (All (λ e. IsInRange e.1)) t
    → All IsInRange (numbers_at i t)
unfolding numbers_at
numbers_at-IsInRange i [] a = tt
numbers_at-IsInRange i (shares ∷ t) a =
    (second_at-IsInRange i shares a.0, numbers_at-IsInRange i t a.1)

tuples_at-IsInRange :
    (n i : ℕ) (ts : List (List (List (ℕ × ℕ))))
    → All (IsShared n) ts
    → All (All IsInRange) (tuples_at i ts)
unfolding tuples_at
tuples_at-IsInRange n i [] a = tt
tuples_at-IsInRange n i (t ∷ ts) ((h, b, fit), a) =
    (numbers_at-IsInRange i t fit, tuples_at-IsInRange n i ts a)

-- Behind what the server with number i has, the others follow.
get_elem-next :
    (n : ℕ) (held : ℕ → List (List ℕ)) (rounds i : ℕ) (loaded : List (List (List ℕ)))
    → ((s : ℕ)
        → s < rounds
        → get_elem? loaded s ≡ some (if ltb (s + (i + 1)) n then held (s + (i + 1)) else []))
    → (s : ℕ) → s < suc rounds
    → get_elem? ((if ltb i n then held i else []) ∷ loaded) s
      ≡ some (if ltb (s + i) n then held (s + i) else [])
get_elem-next n held rounds i loaded at zero h =
    ap (λ j. some (if ltb j n then held j else [])) (omega arith)
get_elem-next n held rounds i loaded at (suc s) h =
    at s (omega arith) ∙ ap (λ j. some (if ltb j n then held j else [])) (omega arith)

-- loadAllShares of files that hold lines of numbers: what was read starts with server i.
load_from-file_text :
    (n : ℕ) (held : ℕ → List (List ℕ)) (rounds i : ℕ) (files : ServerFiles)
    → ((server : ℕ)
        → i ≤ server
        → server < n
        → (files server ≡ file_text (held server)) × All (All IsInRange) (held server))
    → (loaded : List (List (List ℕ))) × (load_from rounds i n files ≡ some loaded)
      × ((s : ℕ)
          → s < rounds
          → get_elem? loaded s ≡ some (if ltb (s + i) n then held (s + i) else []))
unfolding load_from
load_from-file_text n held zero i files h = ([], refl, λ s k. absurd (omega arith))
load_from-file_text n held (suc rounds) i files h =
    let (loaded, e, at) =
      load_from-file_text n held rounds (i + 1) files (λ server k l. h server (omega arith) l) in
    let read : (if ltb i n then tuples_in (pieces 10 [] (files i)) else some [])
        ≡ some (if ltb i n then held i else []) =
      elim (Bool-cases (ltb i n)) [
        | inl below ↦
            let (same, fit) = h i (omega arith) (ltb→lt i n below) in
            rw (below, same) (tuples_in-file_text (held i) fit)
        | inr above ↦ rw above refl
      ] in
    (
      (if ltb i n then held i else []) ∷ loaded,
      rw (read, e) refl,
      λ s k. get_elem-next n held rounds i loaded at s k,
    )

-- Let each of some tuples have an attribute, each of its attributes a share for each of n servers,
-- and each share be below 2 ^ 63. Then saving them one after the other does not read past the end,
-- and loadAllShares can read every number of the text written. It delivers, for every server with
-- an index s below n, the numbers of that server, tuple by tuple, if the number s + 1 of the
-- server is below n, but nothing for the last server.
pub load_all_shares-save_tuples :
    (n s : ℕ) (ts : List (List (List (ℕ × ℕ))))
    → s < n
    → All (IsShared n) ts
    → (files : ServerFiles) × (loaded : List (List (List ℕ))) × (save_tuples ts (λ server. [])
        ≡ some files)
      × (load_all_shares n files ≡ some loaded)
      × (get_elem? loaded s ≡ some (if ltb (s + 1) n then tuples_at s ts else []))
unfolding load_all_shares
load_all_shares-save_tuples n s ts h a =
    let (files, e, held) = save_tuples-tuples_at n ts (λ server. []) a in
    let (loaded, f, at) =
      load_from-file_text n (λ server. tuples_at (server - 1) ts) n 1 files
        (λ server k l. (
          ap files (omega arith) ∙ held (server - 1) (omega arith),
          tuples_at-IsInRange n (server - 1) ts a,
        )) in
    (
      files,
      loaded,
      e,
      f,
      at s h ∙ ap (λ j. some (if ltb (s + 1) n then tuples_at j ts else [])) (omega arith),
    )
