-- ===== src/ShamirParser/Servers.antt =====
-- saveAllShares and loadAllShares of Shamir_Parser/shamir_parser.cpp. Characters are their codes. The
-- values of shares are from 0 on; a missing file has no text.
pub mod Lines
pub mod Written
pub mod Saved
use path_oram_base.Common.{
  ℕ, zero, suc, ◌+◌, ◌-◌, ◌*◌, ◌/◌, ◌%◌, ◌^◌, Bool, true, false, Option, none, some, List, [], ◌∷◌,
  ◌++◌, length, get_elem?, ltb, leb, ◌==◌, ◌&&◌, ◌||◌, if◌then◌else◌,
}
use path_oram_base.Common.Checked.{◌>>=◌}

abbrev pub Text : Type 0
Text = List ℕ

-- The text in the file of the server with this number.
abbrev pub ServerFiles : Type 0
ServerFiles = ℕ → Text

-- The decimal digits of a 64-bit value, which are 20 at most, before `text`.
unfoldable pub digits_before : ℕ → ℕ → Text → Text
digits_before zero value text = text
digits_before (suc fuel) value text =
    let more = digits_before fuel (value / 10) ((48 + value % 10) ∷ text) in
    if ltb value 10 then (48 + value % 10) ∷ text else more

-- What is written for the server with index `i`, each number as "| 17 ": `none` where an attribute
-- has no such share.
unfoldable pub line_for : ℕ → List (List (ℕ × ℕ)) → Option Text
unfolding digits_before
line_for i [] = some []
line_for i (shares ∷ all_shares) = do
  share ← get_elem? shares i
  rest ← line_for i all_shares
  some (124 ∷ 32 ∷ digits_before 20 share.1 (32 ∷ rest))

-- A line goes behind the others, with a line feed.
unfoldable pub append_line : ℕ → Text → ServerFiles → ServerFiles
append_line server line files s = if s == server then files s ++ (line ++ 10 ∷ []) else files s

-- The loop of saveAllShares, from index `i` on.
unfoldable pub save_from : ℕ → ℕ → List (List (ℕ × ℕ)) → ServerFiles → Option ServerFiles
save_from zero i all_shares files = some files
save_from (suc rounds) i all_shares files = do
  line ← line_for i all_shares
  save_from rounds (i + 1) all_shares (append_line (i + 1) line files)

-- saveAllShares: without attributes it reads past the end.
unfoldable pub save_all_shares : List (List (ℕ × ℕ)) → ServerFiles → Option ServerFiles
save_all_shares [] files = none
save_all_shares (shares ∷ all_shares) files =
    save_from (length shares) 0 (shares ∷ all_shares) files

-- One tuple after the other.
unfoldable pub save_tuples : List (List (List (ℕ × ℕ))) → ServerFiles → Option ServerFiles
save_tuples [] files = some files
save_tuples (t ∷ ts) files = do files' ← save_all_shares t files; save_tuples ts files'

-- At the end of the text, a piece of which nothing was read is none.
unfoldable pub last_piece : Text → List Text
last_piece [] = []
last_piece (c ∷ read) = (c ∷ read) ∷ []

-- What a loop over std::getline delivers, where `read` was read of the next piece.
unfoldable pub pieces : ℕ → Text → Text → List Text
unfolding last_piece
pieces separator read [] = last_piece read
pieces separator read (c ∷ text) =
    let ends = pieces separator [] text in
    let goes_on = pieces separator (read ++ c ∷ []) text in
    if c == separator then read ∷ ends else goes_on

-- One of " \t\n\r".
unfoldable pub is_blank : ℕ → Bool
is_blank c = c == 32 || c == 9 || c == 10 || c == 13

-- erase(0, find_first_not_of)
unfoldable pub trim_left : Text → Text
unfolding is_blank
trim_left [] = []
trim_left (c ∷ text) = let rest = trim_left text in if is_blank c then rest else c ∷ text

-- What is left of a character and of the text behind it.
unfoldable pub keep_before : ℕ → Text → Text
unfolding is_blank
keep_before c [] = if is_blank c then [] else c ∷ []
keep_before c (d ∷ text) = c ∷ d ∷ text

-- erase(find_last_not_of + 1)
unfoldable pub trim_right : Text → Text
unfolding keep_before
trim_right [] = []
trim_right (c ∷ text) = keep_before c (trim_right text)

abbrev pub is_digit : ℕ → Bool
is_digit c = leb 48 c && leb c 57

-- The number that the first digits make, after `value`.
unfoldable pub digits_value : ℕ → Text → ℕ
digits_value value [] = value
digits_value value (c ∷ text) =
    let rest = digits_value (value * 10 + (c - 48)) text in if is_digit c then rest else value

-- std::stoll, of a text without a sign: it throws if there is no digit or the number has no room.
unfoldable pub stoll : Text → Option ℕ
unfolding digits_value
stoll [] = none
stoll (c ∷ text) =
    let value = digits_value 0 (c ∷ text) in
    if is_digit c && ltb value (2 ^ 63) then some value else none

-- push_back of what was trimmed, if anything is left.
unfoldable pub push_number : Text → Option (List ℕ) → Option (List ℕ)
unfolding stoll
push_number [] rest = rest
push_number (c ∷ text) rest = do value ← stoll (c ∷ text); values ← rest; some (value ∷ values)

-- The numbers between the bars of a line.
unfoldable pub tuple_of : List Text → Option (List ℕ)
unfolding push_number trim_left trim_right
tuple_of [] = some []
tuple_of (y_str ∷ strs) = push_number (trim_right (trim_left y_str)) (tuple_of strs)

unfoldable pub tuples_in : List Text → Option (List (List ℕ))
unfolding tuple_of pieces
tuples_in [] = some []
tuples_in (line ∷ lines) = do
  tuple ← tuple_of (pieces 124 [] line)
  tuples ← tuples_in lines
  some (tuple ∷ tuples)

-- loadAllShares, from this server on: the loop ends before the server with number n.
unfoldable pub load_from : ℕ → ℕ → ℕ → ServerFiles → Option (List (List (List ℕ)))
unfolding tuples_in pieces
load_from zero server n files = some []
load_from (suc rounds) server n files = do
  tuples ← if ltb server n then tuples_in (pieces 10 [] (files server)) else some []
  rest ← load_from rounds (server + 1) n files
  some (tuples ∷ rest)

unfoldable pub load_all_shares : ℕ → ServerFiles → Option (List (List (List ℕ)))
load_all_shares n files = load_from n 1 n files
