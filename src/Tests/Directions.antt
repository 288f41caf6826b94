-- ===== src/Tests/Directions.antt =====
-- The peaks of a spectrum of whole numbers.
use antsdr_dfone.Prelude.{
  ℕ, ◌+◌, ◌-◌, ◌≡◌, refl, [], ◌∷◌, List, inl, inr, arith, ltb, leb, Bool-cases,
}
use antsdr_dfone.Doa.Peaks.{Doubles, find_peaks}
use antsdr_dfone.Doa.Peaks.Selected.{IsSelection, find_peaks-IsSelection}
use antsdr_dfone.Doa.Peaks.Strongest.{IsOrder}
use antsdr_dfone.Doa.Peaks.First.{IsStrongest, find_peaks-IsStrongest}

abbrev whole_numbers : Doubles
whole_numbers = record {
  Number = ℕ;
  is_at_least = λ a b. leb b a;
  is_above = λ a b. ltb b a;
  is_below = λ a b. ltb a b;
  minus = λ a b. (a - b) + (b - a);
  absolute = λ a. a;
  nought = 0;
  one = 1;
}

abbrev angles : List ℕ
angles = 0 ∷ 10 ∷ 20 ∷ 30 ∷ 40 ∷ []

abbrev spectrum : List ℕ
spectrum = 3 ∷ 7 ∷ 2 ∷ 9 ∷ 9 ∷ []

two_peaks :
    find_peaks whole_numbers angles spectrum 2
    ≡ record { angle_deg = 30; value_db = 9 } ∷ record { angle_deg = 40; value_db = 9 } ∷ []
unfolding find_peaks
two_peaks = refl

find_peaks-IsSelection_example :
    IsSelection whole_numbers angles spectrum 2 (find_peaks whole_numbers angles spectrum 2)
find_peaks-IsSelection_example =
    find_peaks-IsSelection whole_numbers angles spectrum 2 (omega arith)

whole_order : IsOrder whole_numbers
whole_order = record {
  total = λ a b. elim (Bool-cases (leb b a)) [ inl t ↦ inl t | inr t ↦ inr (ground arith) ];
  trans = λ a b c p q. ground arith;
  strict = λ a b. ground arith;
}

find_peaks-IsStrongest_example :
    IsStrongest whole_numbers spectrum (find_peaks whole_numbers angles spectrum 2)
find_peaks-IsStrongest_example =
    find_peaks-IsStrongest whole_numbers whole_order angles spectrum 2 (omega arith)
