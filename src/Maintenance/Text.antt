-- ===== src/Maintenance/Text.antt =====
-- The text helpers of public/maintenance.cpp. A `std::string` is the list of its bytes.
pub mod Lines
pub mod Hex
use antsdr_dfone.Prelude.{
  ℕ, ◌+◌, Bool, true, false, not, ◌&&◌, ◌||◌, List, [], ◌∷◌, Option, some, none, leb, ◌==◌,
  if◌then◌else◌, length, Bytes,
}

-- A byte of " \t\r\n".
abbrev pub is_space : ℕ → Bool
is_space c = c == b' ' || c == b'\t' || c == b'\r' || c == b'\n'

-- From `find_first_not_of` on.
unfoldable pub trim_left : Bytes → Bytes
trim_left [] = []
trim_left (c ∷ cs) = if is_space c then trim_left cs else c ∷ cs

abbrev pub keep_unless_blank : ℕ → Bytes → Bytes
keep_unless_blank c [] = if is_space c then [] else c ∷ []
keep_unless_blank c (d ∷ ds) = c ∷ d ∷ ds

-- Up to `find_last_not_of`.
unfoldable pub trim_right : Bytes → Bytes
trim_right [] = []
trim_right (c ∷ cs) = keep_unless_blank c (trim_right cs)

unfoldable pub trim_copy : Bytes → Bytes
unfolding trim_left trim_right
trim_copy text = trim_right (trim_left text)

-- The lines that `std::getline` gives: what follows the last newline is one only if it is not empty.
abbrev pub push_line : ℕ → List Bytes → List Bytes
push_line c [] = (c ∷ []) ∷ []
push_line c (l ∷ ls) = (c ∷ l) ∷ ls

unfoldable pub lines : Bytes → List Bytes
lines [] = []
lines (c ∷ cs) = if c == b'\n' then [] ∷ lines cs else push_line c (lines cs)

-- `if (!line.empty() && line.back() == '\r') line.pop_back();`
unfoldable pub pop_cr : Bytes → Bytes
pop_cr [] = []
pop_cr (c ∷ []) = if c == b'\r' then [] else c ∷ []
pop_cr (c ∷ d ∷ cs) = c ∷ pop_cr (d ∷ cs)

-- `line.erase(comment)` at the first '#'.
unfoldable pub cut_comment : Bytes → Bytes
cut_comment [] = []
cut_comment (c ∷ cs) = if c == b'#' then [] else c ∷ cut_comment cs

abbrev pub add_key_byte : ℕ → Option (Bytes × Bytes) → Option (Bytes × Bytes)
add_key_byte c none = none
add_key_byte c (some (k, v)) = some (c ∷ k, v)

-- What stands before and behind the first '='.
unfoldable pub split_equals : Bytes → Option (Bytes × Bytes)
split_equals [] = none
split_equals (c ∷ cs) = if c == b'=' then some ([], cs) else add_key_byte c (split_equals cs)

unfoldable pub bytes_eq : Bytes → Bytes → Bool
bytes_eq [] [] = true
bytes_eq (x ∷ xs) (y ∷ ys) = x == y && bytes_eq xs ys
bytes_eq _ _ = false

-- The `unordered_map`, as an association list without its order.
abbrev pub Values : Type 0
Values = List (Bytes × Bytes)

unfoldable pub find : Bytes → Values → Option Bytes
unfolding bytes_eq
find k [] = none
find k ((j, v) ∷ m) = if bytes_eq j k then some v else find k m

-- `values[key] = value`.
unfoldable pub store : Bytes → Bytes → Values → Values
unfolding bytes_eq
store k v [] = (k, v) ∷ []
store k v ((j, w) ∷ m) = if bytes_eq j k then (j, v) ∷ m else (j, w) ∷ store k v m

-- What one line is to the loop: nothing, a pair, or the end with false.
pub data Line : Type 0 where
  blank malformed : Line
  entry : Bytes → Bytes → Line

abbrev pub entry_of : Bytes → Bytes → Line
entry_of [] value = malformed
entry_of (c ∷ key) value = entry (c ∷ key) value

abbrev pub pair_of : Option (Bytes × Bytes) → Line
pair_of none = malformed
pair_of (some (k, v)) = entry_of (trim_copy k) (trim_copy v)

abbrev pub unless_blank : Bytes → Line
unless_blank [] = blank
unless_blank (c ∷ cs) = pair_of (split_equals (c ∷ cs))

unfoldable pub parse_line : Bytes → Line
unfolding trim_copy split_equals cut_comment pop_cr
parse_line line = unless_blank (trim_copy (cut_comment (pop_cr line)))

unfoldable pub parse_lines : List Bytes → Values → Option Values
unfolding parse_line store
parse_lines [] m = some m
parse_lines (l ∷ ls) m = elim (parse_line l) [
  | blank ↦ parse_lines ls m
  | malformed ↦ none
  | entry k v ↦ parse_lines ls (store k v m)
]

-- `parse_key_value_text`; `none` is false.
unfoldable pub parse_key_value_text : Bytes → Option Values
unfolding parse_lines lines
parse_key_value_text text = parse_lines (lines text) []

-- std::isxdigit and std::tolower on a byte, in the C locale.
abbrev pub is_xdigit : ℕ → Bool
is_xdigit c = (leb b'0' c && leb c b'9') || (leb b'a' c && leb c b'f') || (leb b'A' c && leb c b'F')

abbrev pub to_lower : ℕ → ℕ
to_lower c = if leb b'A' c && leb c b'Z' then c + 32 else c

unfoldable pub normalize_hex_copy : Bytes → Bytes
normalize_hex_copy [] = []
normalize_hex_copy (c ∷ cs) =
    if is_xdigit c then to_lower c ∷ normalize_hex_copy cs else normalize_hex_copy cs

abbrev pub all_xdigit : Bytes → Bool
all_xdigit [] = true
all_xdigit (c ∷ cs) = is_xdigit c && all_xdigit cs

unfoldable pub is_fixed_hex : Bytes → ℕ → Bool
is_fixed_hex text len = if not (length text == len) then false else all_xdigit text
