-- ===== src/Matlab/Values/Ranges.antt =====
-- What the conversions accept, and where they are undefined.
use antsdr_dfone.Prelude.{
  ℕ, ◌^◌, ◌<◌, ◌≡◌, ◌↔◌, refl, Bool, true, false, inl, inr, ◌⊎◌, arith, Bytes, codes, ◌++◌,
}
use antsdr_dfone.Matlab.Values.{
  Double, below_zero, finite, infinite, not_a_number, MxArray, value, undefined, and_then,
  get_scalar_double, ranged, first_element, get_u32,
}

ranged_bound :
    (max limit : ℕ) (message : Bytes) (d : Double) (n : ℕ)
    → ranged max limit message d ≡ value n
    → n < limit
ranged_bound max limit message below_zero n h = absurd (ground arith)
ranged_bound max limit message (finite m f) n h = ground arith
ranged_bound max limit message infinite n h = absurd (ground arith)
ranged_bound max limit message not_a_number n h = absurd (ground arith)

ranged_undefined :
    (max limit : ℕ) (message : Bytes) (d : Double)
    → max < limit
    → (ranged max limit message d ≡ undefined) ↔ (d ≡ not_a_number)
ranged_undefined max limit message below_zero w = (λ h. absurd (ground arith), λ h. absurd (cc))
ranged_undefined max limit message (finite m f) w = (λ h. absurd (ground arith), λ h. absurd (cc))
ranged_undefined max limit message infinite w = (λ h. absurd (ground arith), λ h. absurd (cc))
ranged_undefined max limit message not_a_number w = (λ h. refl, λ h. refl)

pub get_u32_bound : (v : MxArray) (name : Bytes) (n : ℕ) → get_u32 v name ≡ value n → n < 2 ^ 32
unfolding get_u32 get_scalar_double
get_u32_bound v name n h = ground (arith, ranged_bound 0xffffffff (2 ^ 32) _ v.scalar n)

-- An argument that is a real numeric scalar, and no integer of the wanted class.
abbrev pub IsRealScalar : MxArray → Type 0
IsRealScalar v = (v.is_numeric ≡ true) × (v.is_complex ≡ false) × (v.elements ≡ 1)

module _ (max limit : ℕ) (message : Bytes) (v : MxArray) (name : Bytes) (w : max < limit) where
  ranged_scalar_undefined :
      (and_then (get_scalar_double v name) (ranged max limit message) ≡ undefined)
      ↔ (IsRealScalar v × (v.scalar ≡ not_a_number))
  unfolding get_scalar_double
  ranged_scalar_undefined =
      let nan = ranged_undefined max limit message v.scalar w in
      (λ h. ground (arith, nan.0), λ h. ground (arith, nan.1))

  first_element_undefined : (first_element limit v ≡ undefined) ↔ (v.elements ≡ 0)
  first_element_undefined = (λ h. ground arith, λ h. ground arith)

-- `get_u32` is undefined for two kinds of arguments and no other: an empty uint32 array, of which it
-- reads an element that is not there, and the real numeric scalar NaN, which passes the range check
-- and is then cast.
pub get_u32_undefined :
    (v : MxArray) (name : Bytes)
    → (get_u32 v name ≡ undefined) ↔ (
        ((v.is_uint32 ≡ true) × (v.elements ≡ 0))
        ⊎ ((v.is_uint32 ≡ false) × IsRealScalar v × (v.scalar ≡ not_a_number)))
unfolding get_u32
get_u32_undefined v name = go v.is_uint32 refl
  where
    first : (first_element (2 ^ 32) v ≡ undefined) ↔ (v.elements ≡ 0)
    first = first_element_undefined 0xffffffff (2 ^ 32) name v name (omega arith)

    scalar :
        (and_then
            (get_scalar_double v name)
            (ranged 0xffffffff (2 ^ 32) (name ++ codes " is out of uint32 range"))
          ≡ undefined)
        ↔ (IsRealScalar v × (v.scalar ≡ not_a_number))
    scalar =
        ranged_scalar_undefined 0xffffffff (2 ^ 32) (name ++ codes " is out of uint32 range") v name
          (omega arith)

    go :
        (b : Bool)
        → v.is_uint32 ≡ b
        → (get_u32 v name ≡ undefined) ↔ (
            ((v.is_uint32 ≡ true) × (v.elements ≡ 0))
            ⊎ ((v.is_uint32 ≡ false) × IsRealScalar v × (v.scalar ≡ not_a_number)))
    go true e = rw (e, get_u32) (λ h. inl (refl, first.0 h), λ h. ground (arith, first.1))
    go false e =
        rw (e, get_u32)
          (λ h. inr (refl, (scalar.0 h).0, (scalar.0 h).1), λ h. ground (arith, scalar.1))
