-- ===== src/Doa/Peaks.antt =====
-- `find_peaks` of factory/src/doa_processing.cpp.
pub mod Selected
pub mod Complete
pub mod Strongest
pub mod First
use antsdr_dfone.Prelude.{
  ℕ, zero, suc, ◌+◌, ◌-◌, Bool, true, false, not, ◌&&◌, List, [], ◌∷◌, ◌++◌, ltb, leb,
  if◌then◌else◌, length, get_or,
}

-- The arithmetic of `double`, as far as `find_peaks` uses it.
pub record Doubles : Type 1 where
  pub Number : Type 0
  pub is_at_least : Number → Number → Bool
  pub is_above : Number → Number → Bool
  pub is_below : Number → Number → Bool
  pub minus : Number → Number → Number
  pub absolute : Number → Number
  pub nought : Number
  pub one : Number

abbrev pub add_if : {A : Type 0} → Bool → A → List A → List A
add_if b x xs = if b then x ∷ xs else xs

module _ (d : Doubles) where
  -- `PeakCandidate`.
  pub record Candidate : Type 0 where
    pub index : ℕ
    pub value_db : d.Number

  -- `DoaPeak`.
  pub record Peak : Type 0 where
    pub angle_deg : d.Number
    pub value_db : d.Number

  -- A vector at an index that it has.
  abbrev pub at : List d.Number → ℕ → d.Number
  at v i = get_or v i d.nought

  abbrev pub candidate_at : List d.Number → ℕ → Candidate
  candidate_at spectrum i = record { index = i; value_db = at spectrum i }

  abbrev pub is_ridge : List d.Number → ℕ → Bool
  is_ridge spectrum i =
      d.is_at_least (at spectrum i) (at spectrum (i - 1))
      && d.is_at_least (at spectrum i) (at spectrum (i + 1))

  -- The loop over the angles with two neighbours, `i` on with `n` rounds left.
  unfoldable pub inner_candidates : List d.Number → ℕ → ℕ → List Candidate
  inner_candidates spectrum i zero = []
  inner_candidates spectrum i (suc n) =
      add_if (is_ridge spectrum i) (candidate_at spectrum i) (inner_candidates spectrum (suc i) n)

  -- The candidates of a spectrum of at least two values.
  unfoldable pub candidates : List d.Number → List Candidate
  unfolding inner_candidates
  candidates spectrum =
      let last = length spectrum - 1 in
      inner_candidates spectrum 1 (length spectrum - 2)
      ++ (add_if (d.is_at_least (at spectrum 0) (at spectrum 1)) (candidate_at spectrum 0) []
          ++ add_if (d.is_at_least (at spectrum last) (at spectrum (last - 1)))
              (candidate_at spectrum last) [])

  -- `std::sort` by falling values; among equal ones it may choose any order, and this is one.
  unfoldable pub insert_falling : Candidate → List Candidate → List Candidate
  insert_falling c [] = c ∷ []
  insert_falling c (x ∷ xs) =
      if d.is_above x.value_db c.value_db then x ∷ insert_falling c xs else c ∷ x ∷ xs

  unfoldable pub sort_falling : List Candidate → List Candidate
  unfolding insert_falling
  sort_falling [] = []
  sort_falling (x ∷ xs) = insert_falling x (sort_falling xs)

  -- `std::max(1.0, std::abs(angles[1] - angles[0]))`.
  abbrev pub min_separation : List d.Number → d.Number
  min_separation angles =
      let spacing = d.absolute (d.minus (at angles 1) (at angles 0)) in
      if d.is_below d.one spacing then spacing else d.one

  abbrev pub is_close : d.Number → d.Number → Peak → Bool
  is_close separation angle p = d.is_below (d.absolute (d.minus p.angle_deg angle)) separation

  unfoldable pub is_separated : d.Number → d.Number → List Peak → Bool
  is_separated separation angle [] = true
  is_separated separation angle (p ∷ ps) =
      not (is_close separation angle p) && is_separated separation angle ps

  -- The loop over the sorted candidates, with the peaks so far.
  unfoldable pub select_peaks : List d.Number → ℕ → List Candidate → List Peak → List Peak
  unfolding is_separated
  select_peaks angles count [] peaks = peaks
  select_peaks angles count (c ∷ cs) peaks =
      let angle = at angles c.index in
      let more = peaks ++ record { angle_deg = angle; value_db = c.value_db } ∷ [] in
      let skipping = select_peaks angles count cs peaks in
      let going_on = select_peaks angles count cs more in
      if not (is_separated (min_separation angles) angle peaks)
      then skipping
      else if leb count (length more)
      then more
      else going_on

  unfoldable pub find_peaks : List d.Number → List d.Number → ℕ → List Peak
  unfolding candidates sort_falling select_peaks
  find_peaks angles [] count = []
  find_peaks angles (x ∷ []) count = record { angle_deg = at angles 0; value_db = x } ∷ []
  find_peaks angles (x ∷ y ∷ rest) count =
      select_peaks angles count (sort_falling (candidates (x ∷ y ∷ rest))) []
