-- ===== src/Cli/Numerals.antt =====
-- `parse_u32`, `parse_u64` and `parse_size` of user_cli.cpp and of the example.
pub mod Decimal
pub mod Bounds
use antsdr_dfone.Prelude.{
  ℕ, zero, suc, ◌+◌, ◌-◌, ◌*◌, ◌%◌, ◌^◌, Bool, true, false, not, ◌&&◌, ◌||◌, List, [], ◌∷◌, Option,
  some, none, ltb, leb, ◌==◌, if◌then◌else◌, Bytes, codes,
}
use antsdr_dfone.Maintenance.Service.{skip_space}

-- `std::strtoul` and `std::strtoull` of the standard library with base 0, in the C locale: white space,
-- a sign, a prefix for octal or hexadecimal, digits. A text
-- is the bytes before its terminator.
pub record Scanned : Type 0 where
  pub value : ℕ
  pub rest : Bytes

abbrev pub digit_of : ℕ → ℕ
digit_of c =
    if leb b'0' c && leb c b'9'
    then c - b'0'
    else if leb b'a' c && leb c b'z'
    then c - b'a' + 10
    else if leb b'A' c && leb c b'Z'
    then c - b'A' + 10
    else 36

unfoldable pub scan_digits : ℕ → ℕ → Bytes → Scanned
scan_digits base acc [] = record { value = acc; rest = [] }
scan_digits base acc (c ∷ cs) = elim (ltb (digit_of c) base) [
  | true ↦ scan_digits base (acc * base + digit_of c) cs
  | false ↦ record { value = acc; rest = c ∷ cs }
]

-- Without a first digit there is no conversion: the value is 0, and the end is the text's start.
abbrev pub scan_decimal : Bytes → Bytes → Scanned
scan_decimal text [] = record { value = 0; rest = text }
scan_decimal text (c ∷ cs) =
    if ltb (digit_of c) 10 then scan_digits 10 0 (c ∷ cs) else record { value = 0; rest = text }

-- Behind a first 0: hexadecimal if an x and a digit follow, else octal.
abbrev pub scan_prefixed : Bytes → Scanned
scan_prefixed (x ∷ c ∷ cs) =
    if (x == b'x' || x == b'X') && ltb (digit_of c) 16
    then scan_digits 16 0 (c ∷ cs)
    else scan_digits 8 0 (x ∷ c ∷ cs)
scan_prefixed (x ∷ []) = scan_digits 8 0 (x ∷ [])
scan_prefixed [] = record { value = 0; rest = [] }

abbrev pub scan_unsigned : Bytes → Bytes → Scanned
scan_unsigned text (c ∷ cs) = if c == b'0' then scan_prefixed cs else scan_decimal text (c ∷ cs)
scan_unsigned text [] = record { value = 0; rest = text }

-- A number that does not fit gives the greatest one; a minus sign negates modulo the word.
abbrev pub fit_plus : ℕ → Scanned → Scanned
fit_plus bits r = record r { value = if ltb r.value (2 ^ bits) then r.value else 2 ^ bits - 1 }

abbrev pub fit_minus : ℕ → Scanned → Scanned
fit_minus bits r = record r {
  value = if ltb r.value (2 ^ bits) then (2 ^ bits - r.value) % 2 ^ bits else 2 ^ bits - 1;
}

abbrev pub scan_signed : ℕ → Bytes → Bytes → Scanned
scan_signed bits text [] = record { value = 0; rest = text }
scan_signed bits text (c ∷ cs) =
    if c == b'-'
    then fit_minus bits (scan_unsigned text cs)
    else if c == b'+'
    then fit_plus bits (scan_unsigned text cs)
    else fit_plus bits (scan_unsigned text (c ∷ cs))

unfoldable pub strtoul : ℕ → Bytes → Scanned
unfolding skip_space scan_digits
strtoul bits text = scan_signed bits text (skip_space text)

abbrev pub at_end : Bytes → Bool
at_end [] = true
at_end (c ∷ cs) = false

-- `unsigned long` has 64 bits on Linux and 32 on Windows: a parameter. `unsigned long long` has 64.
unfoldable pub parse_u32 : ℕ → Bytes → Option ℕ
unfolding strtoul
parse_u32 bits text =
    let r = strtoul bits text in
    if not (at_end r.rest) || ltb 0xffffffff r.value then none else some (r.value % 2 ^ 32)

unfoldable pub parse_u64 : Bytes → Option ℕ
unfolding strtoul
parse_u64 text = let r = strtoul 64 text in if not (at_end r.rest) then none else some r.value

-- `std::size_t` has 64 bits.
unfoldable pub parse_size : Bytes → Option ℕ
unfolding parse_u64
parse_size = parse_u64
