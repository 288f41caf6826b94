-- ===== src/Doa/Peaks/Complete.antt =====
-- The candidates of `find_peaks` are all values of the spectrum that are at least their neighbours.
use antsdr_dfone.Prelude.{
  ℕ, zero, suc, ◌+◌, ◌-◌, ◌<◌, ◌≡◌, sym, subst, Bool, true, false, ◌&&◌, List, [], ◌∷◌, ◌++◌, inl,
  inr, arith, Bool-cases, leb, length,
}
use antsdr_dfone.Doa.Peaks.{
  Doubles, Candidate, at, candidate_at, is_ridge, add_if, inner_candidates, candidates,
}
use antsdr_dfone.Doa.Peaks.Selected.{Every, IsRidge}

Every-left :
    {A : Type 0} (P : A → Type 0) (xs ys : List A) → Every P (xs ++ ys) → Every P xs × Every P ys
Every-left P [] ys h = (tt, h)
Every-left P (x ∷ xs) ys h = let r = Every-left P xs ys h.1 in ((h.0, r.0), r.1)

add_if_head :
    {A : Type 0} (P : A → Type 0) (b : Bool) (x : A) (xs : List A)
    → Every P (add_if b x xs)
    → b ≡ true
    → P x
add_if_head P true x xs h e = h.0
add_if_head P false x xs h e = absurd (ground arith)

add_if_tail :
    {A : Type 0} (P : A → Type 0) (b : Bool) (x : A) (xs : List A)
    → Every P (add_if b x xs)
    → Every P xs
add_if_tail P true x xs h = h.1
add_if_tail P false x xs h = h

both : (a b : Bool) → a ≡ true → b ≡ true → (a && b) ≡ true
both true b p q = q
both false b p q = p

module _ (d : Doubles) where
  -- What holds of the candidates holds of every value that is at least its neighbours.
  inner_candidates-ridge :
      (P : Candidate d → Type 0) (spectrum : List d.Number) (i n k : ℕ)
      → Every P (inner_candidates d spectrum i n)
      → k < n
      → is_ridge d spectrum (i + k) ≡ true
      → P (candidate_at d spectrum (i + k))
  unfolding inner_candidates
  inner_candidates-ridge P spectrum i zero k h l e = absurd (omega (arith, l))
  inner_candidates-ridge P spectrum i (suc n) zero h l e =
      let same : i + 0 ≡ i = omega arith in
      subst (λ j. P (candidate_at d spectrum j)) (sym same)
        (add_if_head P (is_ridge d spectrum i) (candidate_at d spectrum i) _ h
          (subst (λ j. is_ridge d spectrum j ≡ true) same e))
  inner_candidates-ridge P spectrum i (suc n) (suc k) h l e =
      let same : i + suc k ≡ suc i + k = omega arith in
      subst (λ j. P (candidate_at d spectrum j)) (sym same)
        (inner_candidates-ridge P spectrum (suc i) n k
          (add_if_tail P (is_ridge d spectrum i) (candidate_at d spectrum i) _ h) (omega (arith, l))
          (subst (λ j. is_ridge d spectrum j ≡ true) same e))

  pub candidates-ridge :
      (P : Candidate d → Type 0) (spectrum : List d.Number) (k : ℕ)
      → 1 < length spectrum
      → Every P (candidates d spectrum)
      → IsRidge d spectrum k
      → P (candidate_at d spectrum k)
  unfolding candidates
  candidates-ridge P spectrum zero h all r =
      let e = Every-left P (inner_candidates d spectrum 1 (length spectrum - 2)) _ all in
      add_if_head P _ (candidate_at d spectrum 0) []
        (Every-left P
          (add_if (d.is_at_least (at d spectrum 0) (at d spectrum 1)) (candidate_at d spectrum 0)
            [])
          _ e.1).0
        (r.above_right (omega (arith, h)))
  candidates-ridge P spectrum (suc k) h all r =
      let e = Every-left P (inner_candidates d spectrum 1 (length spectrum - 2)) _ all in
      let inside = r.inside in
      elim (Bool-cases (leb (length spectrum) (suc (suc k)))) [
        | inr t ↦
            let same : 1 + k ≡ suc k = omega arith in
            let more : suc k + 1 < length spectrum = ground arith in
            subst (λ j. P (candidate_at d spectrum j)) same
              (inner_candidates-ridge P spectrum 1 (length spectrum - 2) k e.0 (omega (arith, more))
                (subst (λ j. is_ridge d spectrum j ≡ true) (sym same)
                  (both _ _ (r.above_left (omega arith)) (r.above_right more))))
        | inl t ↦
            let same : length spectrum - 1 ≡ suc k = ground arith in
            subst (λ j. P (candidate_at d spectrum j)) same
              (add_if_head P _ (candidate_at d spectrum (length spectrum - 1)) []
                (Every-left P
                  (add_if (d.is_at_least (at d spectrum 0) (at d spectrum 1))
                    (candidate_at d spectrum 0) [])
                  _ e.1).1
                (subst (λ j. d.is_at_least (at d spectrum j) (at d spectrum (j - 1)) ≡ true)
                  (sym same) (r.above_left (omega arith))))
      ]
