-- ===== src/Cli/Numerals/Decimal.antt =====
-- What the option values make of a number in decimal digits.
use antsdr_dfone.Prelude.{
  ℕ, zero, suc, ◌+◌, ◌-◌, ◌*◌, ◌/◌, ◌%◌, ◌^◌, ◌<◌, ◌≤◌, ◌≡◌, refl, sym, ap, ◌∙◌, Bool, true, false,
  ◌&&◌, [], ◌∷◌, ◌++◌, some, inl, inr, Bool-cases, arith, ltb, leb, ◌==◌, ltb→lt, lt→ltb, le→ltb,
  append-nil, Bytes,
}
use antsdr_dfone.Maintenance.Service.{
  is_digit, skips, skip_space, digits_value, digits_loop, to_string,
}
use antsdr_dfone.Maintenance.Service.Numbers.{
  all_digits, to_string-all_digits, to_string-value, digits_value-stop, digits_loop-last,
  digits_loop-more,
}
use antsdr_dfone.Cli.Numerals.{digit_of, scan_digits, fit_plus, strtoul, parse_u32, parse_u64}

digit_of-is_digit : (c : ℕ) → is_digit c ≡ true → digit_of c ≡ c - b'0'
digit_of-is_digit c h = ground arith

scan_digits-all_digits :
    (acc : ℕ) (ds : Bytes)
    → all_digits ds ≡ true
    → scan_digits 10 acc ds ≡ record { value = digits_value acc ds; rest = [] }
unfolding scan_digits digits_value
scan_digits-all_digits acc [] h = refl
scan_digits-all_digits acc (c ∷ cs) h =
    let digit : is_digit c ≡ true = ground arith in
    let small : ltb (digit_of c) 10 ≡ true = ground arith in
    rw (small, scan_digits)
      (rw (digit, digits_value) (scan_digits-all_digits (acc * 10 + (c - b'0')) cs (ground arith)))

-- The text begins with a digit from 1 to 9.
abbrev leads : Bytes → Bool
leads [] = false
leads (c ∷ cs) = leb b'1' c && leb c b'9'

leads-append : (xs ys : Bytes) → leads xs ≡ true → leads (xs ++ ys) ≡ true
leads-append [] ys h = absurd (ground arith)
leads-append (c ∷ cs) ys h = h

digits_loop-leads : (f n : ℕ) → n < f → 0 < n → leads (digits_loop f n) ≡ true
unfolding digits_loop
digits_loop-leads zero n h k = absurd (omega arith)
digits_loop-leads (suc f) n h k = elim (Bool-cases (ltb n 10)) [
  | inl t ↦ rw (digits_loop-last f n (ltb→lt n 10 t)) (ground arith)
  | inr t ↦ rw (digits_loop-more f n (ground arith)) (
      leads-append (digits_loop f (n / 10)) ((b'0' + n % 10) ∷ [])
        (digits_loop-leads f (n / 10) (ground arith) (ground arith)))
]

-- A text of digits that does not begin with 0 is decimal.
strtoul-decimal :
    (bits : ℕ) (ds : Bytes)
    → leads ds ≡ true
    → all_digits ds ≡ true
    → strtoul bits ds ≡ fit_plus bits (record { value = digits_value 0 ds; rest = [] })
unfolding strtoul skip_space
strtoul-decimal bits [] h k = absurd (ground arith)
strtoul-decimal bits (c ∷ cs) h k =
    let no_space : skips c ≡ false = ground arith in
    let no_minus : (c == b'-') ≡ false = ground arith in
    let no_plus : (c == b'+') ≡ false = ground arith in
    let no_zero : (c == b'0') ≡ false = ground arith in
    let small : ltb (digit_of c) 10 ≡ true = ground arith in
    rw no_space (
      rw (no_minus, no_plus)
        (rw no_zero (rw small (ap (fit_plus bits) (scan_digits-all_digits 0 (c ∷ cs) k)))))

digits_value-to_string : (n : ℕ) → digits_value 0 (to_string n) ≡ n
digits_value-to_string n =
    sym (ap (digits_value 0) (append-nil (to_string n)))
    ∙ to_string-value n []
    ∙ digits_value-stop n [] refl

strtoul-to_string :
    (bits n : ℕ) → n < 2 ^ bits → strtoul bits (to_string n) ≡ record { value = n; rest = [] }
unfolding to_string digits_loop strtoul skip_space scan_digits
strtoul-to_string bits zero h = rw (lt→ltb 0 (2 ^ bits) h) refl
strtoul-to_string bits (suc n) h =
    strtoul-decimal bits (to_string (suc n))
      (digits_loop-leads (suc (suc n)) (suc n) (omega arith) (omega arith))
      (to_string-all_digits (suc n))
    ∙ ap (λ v. fit_plus bits (record { value = v; rest = [] })) (digits_value-to_string (suc n))
    ∙ rw (lt→ltb (suc n) (2 ^ bits) h) refl

-- A 64-bit number in decimal is read as itself.
pub parse_u64-to_string : (n : ℕ) → n < 2 ^ 64 → parse_u64 (to_string n) ≡ some n
unfolding parse_u64
parse_u64-to_string n h = rw (strtoul-to_string 64 n h) refl

-- A 32-bit number in decimal is read as itself, whatever the size of `unsigned long`, if that has 32
-- bits at least.
pub parse_u32-to_string :
    (bits n : ℕ) → 2 ^ 32 ≤ 2 ^ bits → n < 2 ^ 32 → parse_u32 bits (to_string n) ≡ some n
unfolding parse_u32
parse_u32-to_string bits n w h =
    let fits : n < 2 ^ bits = omega arith in
    let small : ltb 0xffffffff n ≡ false = le→ltb 0xffffffff n (omega arith) in
    rw (strtoul-to_string bits n fits) (rw small (ap some (omega arith)))
