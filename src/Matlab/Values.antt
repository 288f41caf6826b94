-- ===== src/Matlab/Values.antt =====
-- The conversions of arguments in dfone_mex.cpp: `get_string`, `get_u32` and their kin.
pub mod Ranges
use antsdr_dfone.Prelude.{
  ℕ, suc, ◌+◌, ◌%◌, ◌^◌, Bool, true, false, not, ◌&&◌, ◌||◌, List, [], ◌∷◌, ◌++◌, Option, some,
  none, ltb, ◌==◌, if◌then◌else◌, Bytes, codes,
}

-- A `double`, as far as the conversions look at it. `finite n f` is not negative, n is its integral
-- part, and f says whether a fraction follows; -0.0 is `finite 0 false`.
pub data Double : Type 0 where
  below_zero : Double
  finite : ℕ → Bool → Double
  infinite not_a_number : Double

-- What mxIsClass, mxIsChar and so on answer about an array. `converted` is what mexCallMATLAB makes
-- of it with "char", if it succeeds: whether that is a char array, and its text, if
-- mxArrayToString gives one. `first_word` is what stands where mxGetData points, and `scalar` what
-- mxGetScalar answers.
pub record MxArray : Type 0 where
  pub is_string_class : Bool
  pub converted : Option (Bool × Option Bytes)
  pub is_char : Bool
  pub text : Option Bytes
  pub is_uint32 : Bool
  pub is_uint64 : Bool
  pub is_logical : Bool
  pub is_numeric : Bool
  pub is_complex : Bool
  pub elements : ℕ
  pub first_word : ℕ
  pub scalar : Double

-- How a call into the binding ends: with a value, with MATLAB's error of a message, or with
-- behaviour that C++ leaves undefined.
pub data Result {ℓ} (A : Type ℓ) : Type ℓ where
  value : A → Result A
  raises : Bytes → Result A
  undefined : Result A

abbrev pub and_then {ℓ κ} : {A : Type ℓ} {B : Type κ} → Result A → (A → Result B) → Result B
and_then (value a) next = next a
and_then (raises e) next = raises e
and_then undefined next = undefined

abbrev pub text_of : Bytes → Bool → Option Bytes → Result Bytes
text_of name false t = raises (name ++ codes " must be a string")
text_of name true none = raises (codes "failed to read " ++ name)
text_of name true (some t) = value t

abbrev pub converted_text : Bytes → Option (Bool × Option Bytes) → Result Bytes
converted_text name none = raises (codes "failed to convert " ++ name ++ codes " to char")
converted_text name (some (is_char, t)) = text_of name is_char t

unfoldable pub get_string : MxArray → Bytes → Result Bytes
get_string v name =
    if v.is_string_class then converted_text name v.converted else text_of name v.is_char v.text

unfoldable pub get_scalar_double : MxArray → Bytes → Result Double
get_scalar_double v name =
    if not v.is_numeric || v.is_complex || not (v.elements == 1)
    then raises (name ++ codes " must be a real numeric scalar")
    else value v.scalar

-- `parsed < 0.0 || parsed > max`; both are false of NaN.
abbrev pub is_outside : ℕ → Double → Bool
is_outside max below_zero = true
is_outside max (finite n f) = ltb max n || (n == max && f)
is_outside max infinite = true
is_outside max not_a_number = false

-- A cast to an unsigned integer, which is undefined where the integral part does not fit.
abbrev pub cast_unsigned : ℕ → Double → Result ℕ
cast_unsigned limit below_zero = undefined
cast_unsigned limit (finite n f) = if ltb n limit then value n else undefined
cast_unsigned limit infinite = undefined
cast_unsigned limit not_a_number = undefined

abbrev pub ranged : ℕ → ℕ → Bytes → Double → Result ℕ
ranged max limit message d = if is_outside max d then raises message else cast_unsigned limit d

-- Reading the first element of an array without elements is undefined.
abbrev pub first_element : ℕ → MxArray → Result ℕ
first_element limit v = if v.elements == 0 then undefined else value (v.first_word % limit)

unfoldable pub get_u32 : MxArray → Bytes → Result ℕ
unfolding get_scalar_double
get_u32 v name =
    if v.is_uint32
    then first_element (2 ^ 32) v
    else and_then (get_scalar_double v name)
        (ranged 0xffffffff (2 ^ 32) (name ++ codes " is out of uint32 range"))

unfoldable pub get_u16 : MxArray → Bytes → Result ℕ
unfolding get_u32
get_u16 v name = and_then (get_u32 v name) (λ n.
    if ltb 0xffff n then raises (name ++ codes " is out of uint16 range") else value (n % 2 ^ 16))

unfoldable pub get_u64 : MxArray → Bytes → Result ℕ
unfolding get_scalar_double
get_u64 v name =
    if v.is_uint64
    then first_element (2 ^ 64) v
    else and_then (get_scalar_double v name) (
        ranged 9007199254740992 (2 ^ 64)
          (name ++ codes " must be a non-negative integer <= 2^53 unless passed as uint64"))

-- `std::size_t` has 64 bits, so that its own test never fails.
unfoldable pub get_size : MxArray → Bytes → Result ℕ
unfolding get_u64
get_size v name = get_u64 v name

abbrev pub is_nonzero : Double → Bool
is_nonzero below_zero = true
is_nonzero (finite n f) = not (n == 0) || f
is_nonzero infinite = true
is_nonzero not_a_number = true

-- mxIsLogicalScalarTrue of a logical scalar is its first byte.
unfoldable pub get_bool : MxArray → Bytes → Result Bool
unfolding get_scalar_double
get_bool v name =
    if v.is_logical && v.elements == 1
    then value (not (v.first_word == 0))
    else and_then (get_scalar_double v name) (λ d. value (is_nonzero d))
