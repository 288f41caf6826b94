-- ===== src/Maintenance/Service/Numbers.antt =====
-- Numbers in the protocol: `std::to_string`, and what `iss >> size64` reads of it.
use antsdr_dfone.Prelude.{
  ℕ, zero, suc, ◌+◌, ◌*◌, ◌/◌, ◌%◌, ◌^◌, ◌<◌, ◌≤◌, ◌≡◌, refl, sym, ap, ◌∙◌, Bool, true, false, [],
  ◌∷◌, ◌++◌, some, ◌≢◌, inl, inr, Bool-cases, arith, ltb, ◌==◌, ltb→lt, lt→ltb, le→ltb, length,
  length-append, Bytes, append_assoc, ◌&&◌, not,
}
use antsdr_dfone.Maintenance.Service.{
  is_digit, digits_value, in_range, read_digits, skips, skip_space, read_signed, read_uint64,
  digits_loop, to_string,
}

-- What does not go on with a digit.
abbrev pub no_digit : Bytes → Bool
no_digit [] = true
no_digit (c ∷ cs) = not (is_digit c)

digit-is_digit : (d : ℕ) → d < 10 → is_digit (b'0' + d) ≡ true
digit-is_digit d h = ground arith

-- One digit more.
digits_value-digit :
    (acc d : ℕ) (rest : Bytes)
    → d < 10
    → digits_value acc ((b'0' + d) ∷ rest) ≡ digits_value (acc * 10 + d) rest
unfolding digits_value
digits_value-digit acc d rest h =
    rw (digit-is_digit d h) (ap (λ x. digits_value (acc * 10 + x) rest) (omega arith))

pub digits_value-stop :
    (acc : ℕ) (rest : Bytes) → no_digit rest ≡ true → digits_value acc rest ≡ acc
unfolding digits_value
digits_value-stop acc [] h = refl
digits_value-stop acc (c ∷ cs) h = ground arith

pub digits_loop-last : (f n : ℕ) → n < 10 → digits_loop (suc f) n ≡ (b'0' + n) ∷ []
unfolding digits_loop
digits_loop-last f n h = rw (lt→ltb n 10 h, digits_loop)

pub digits_loop-more :
    (f n : ℕ) → 10 ≤ n → digits_loop (suc f) n ≡ digits_loop f (n / 10) ++ (b'0' + n % 10) ∷ []
unfolding digits_loop
digits_loop-more f n h = rw (le→ltb n 10 h, digits_loop)

-- The digits of a number are read as that number.
digits_loop-value :
    (f n : ℕ) (rest : Bytes)
    → n < f
    → digits_value 0 (digits_loop f n ++ rest) ≡ digits_value n rest
digits_loop-value zero n rest h = absurd (omega arith)
digits_loop-value (suc f) n rest h = elim (Bool-cases (ltb n 10)) [
  | inl t ↦
      rw (digits_loop-last f n (ltb→lt n 10 t))
        (digits_value-digit 0 n rest (ltb→lt n 10 t) ∙ ap (λ x. digits_value x rest) (omega arith))
  | inr t ↦ rw (digits_loop-more f n (ground arith)) (
      ap (digits_value 0) (append_assoc (digits_loop f (n / 10)) ((b'0' + n % 10) ∷ []) rest)
      ∙ digits_loop-value f (n / 10) ((b'0' + n % 10) ∷ rest) (ground arith)
      ∙ digits_value-digit (n / 10) (n % 10) rest (omega arith)
      ∙ ap (λ x. digits_value x rest) (omega arith))
]

-- Nothing but digits.
abbrev pub all_digits : Bytes → Bool
all_digits [] = true
all_digits (c ∷ cs) = is_digit c && all_digits cs

all_digits-append :
    (xs ys : Bytes) → all_digits xs ≡ true → all_digits ys ≡ true → all_digits (xs ++ ys) ≡ true
all_digits-append [] ys h k = k
all_digits-append (c ∷ cs) ys h k = ground (arith, all_digits-append cs ys)

digits_loop-all_digits : (f n : ℕ) → all_digits (digits_loop f n) ≡ true
unfolding digits_loop
digits_loop-all_digits zero n = refl
digits_loop-all_digits (suc f) n = elim (Bool-cases (ltb n 10)) [
  | inl t ↦ rw (digits_loop-last f n (ltb→lt n 10 t)) (rw (digit-is_digit n (ltb→lt n 10 t)) refl)
  | inr t ↦ rw (digits_loop-more f n (ground arith)) (
      all_digits-append (digits_loop f (n / 10)) ((b'0' + n % 10) ∷ [])
        (digits_loop-all_digits f (n / 10)) (rw (digit-is_digit (n % 10) (omega arith)) refl))
]

abbrev pow10 : ℕ → ℕ
pow10 zero = 1
pow10 (suc k) = 10 * pow10 k

digits_loop-length : (k f n : ℕ) → n < pow10 (suc k) → length (digits_loop f n) ≤ suc k
unfolding digits_loop
digits_loop-length k zero n h = omega arith
digits_loop-length zero (suc f) n h = rw (digits_loop-last f n (omega arith)) (omega arith)
digits_loop-length (suc k) (suc f) n h = elim (Bool-cases (ltb n 10)) [
  | inl t ↦ rw (digits_loop-last f n (ltb→lt n 10 t)) (omega arith)
  | inr t ↦ rw (digits_loop-more f n (ground arith)) (
      omega (
        arith,
        digits_loop-length k f (n / 10) (omega arith),
        length-append (digits_loop f (n / 10)) ((b'0' + n % 10) ∷ []),
      ))
]

pub to_string-value :
    (n : ℕ) (rest : Bytes) → digits_value 0 (to_string n ++ rest) ≡ digits_value n rest
unfolding to_string
to_string-value n rest = digits_loop-value (suc n) n rest (omega arith)

read_uint64-all_digits :
    (ds rest : Bytes)
    → ds ≢ []
    → all_digits ds ≡ true
    → read_uint64 (ds ++ rest) ≡ in_range (digits_value 0 (ds ++ rest))
unfolding read_uint64 skip_space read_digits
read_uint64-all_digits [] rest h k = absurd (h refl)
read_uint64-all_digits (c ∷ cs) rest h k =
    let digit : is_digit c ≡ true = ground arith in
    let no_space : skips c ≡ false = ground arith in
    let no_minus : (c == b'-') ≡ false = ground arith in
    let no_plus : (c == b'+') ≡ false = ground arith in
    rw (no_space, read_signed) (rw (no_minus, no_plus, digit) refl)

to_string-nonempty : (n : ℕ) → to_string n ≢ []
unfolding to_string
to_string-nonempty n e = elim (Bool-cases (ltb n 10)) [
  | inl t ↦ absurd (ground (arith, digits_loop-last n n (ltb→lt n 10 t)))
  | inr t ↦ absurd (
      omega (
        arith,
        ap length (sym (digits_loop-more n n (ground arith)) ∙ e),
        length-append (digits_loop n (n / 10)) ((b'0' + n % 10) ∷ []),
      ))
]

pub to_string-all_digits : (n : ℕ) → all_digits (to_string n) ≡ true
unfolding to_string
to_string-all_digits n = digits_loop-all_digits (suc n) n

pub length-to_string : (n : ℕ) → n < 2 ^ 64 → length (to_string n) ≤ 20
unfolding to_string
length-to_string n h = digits_loop-length 19 (suc n) n (omega arith)

-- A 64-bit number that is written is read as itself, whatever follows it but a digit.
pub read_uint64-to_string :
    (n : ℕ) (rest : Bytes)
    → n < 2 ^ 64
    → no_digit rest ≡ true
    → read_uint64 (to_string n ++ rest) ≡ some n
read_uint64-to_string n rest h k =
    read_uint64-all_digits (to_string n) rest (to_string-nonempty n) (to_string-all_digits n)
    ∙ ap in_range (to_string-value n rest ∙ digits_value-stop n rest k)
    ∙ rw (lt→ltb n (2 ^ 64) h) refl
