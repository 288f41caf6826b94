-- ===== src/Doa/Peaks/Strongest.antt =====
-- The first peak of `find_peaks`, where the numbers are ordered (none of them is a NaN).
use antsdr_dfone.Prelude.{
  ℕ, zero, suc, ◌+◌, ◌-◌, ◌<◌, ◌≡◌, ◌⊎◌, subst, true, false, not, List, inl, inr, arith, Bool-cases,
  leb, length,
}
use antsdr_dfone.Doa.Peaks.{Doubles, Candidate, at, candidates}
use antsdr_dfone.Doa.Peaks.Selected.{Every, IsRidge}
use antsdr_dfone.Doa.Peaks.Complete.{candidates-ridge}

-- The comparisons are those of a total order.
pub record IsOrder (d : Doubles) : Type 0 where
  pub total : (a b : d.Number) → (d.is_at_least a b ≡ true) ⊎ (d.is_at_least b a ≡ true)
  pub trans :
      (a b c : d.Number)
      → d.is_at_least a b ≡ true
      → d.is_at_least b c ≡ true
      → d.is_at_least a c ≡ true
  pub strict : (a b : d.Number) → d.is_above a b ≡ not (d.is_at_least b a)

module _ (d : Doubles) (order : IsOrder d) where
  abbrev pub Tops : d.Number → List (Candidate d) → Type 0
  Tops m cs = Every (λ c. d.is_at_least m c.value_db ≡ true) cs

  pub reflexive : (a : d.Number) → d.is_at_least a a ≡ true
  reflexive a = elim (order.total a a) [ inl e ↦ e | inr e ↦ e ]

  -- The first `n` values have a greatest.
  record Greatest (spectrum : List d.Number) (n : ℕ) : Type 0 where
    index : ℕ
    early : index < n
    tops : (i : ℕ) → i < n → d.is_at_least (at d spectrum index) (at d spectrum i) ≡ true

  greatest : (spectrum : List d.Number) (n : ℕ) → Greatest spectrum (suc n)
  greatest spectrum zero = record {
    index = 0;
    early = omega arith;
    tops = λ i l.
        subst (λ j. d.is_at_least (at d spectrum 0) (at d spectrum j) ≡ true) (zero_first i l)
          (reflexive (at d spectrum 0));
  }
    where
      zero_first : (i : ℕ) → i < 1 → 0 ≡ i
      zero_first i l = omega (arith, l)
  greatest spectrum (suc n) =
      let g = greatest spectrum n in
      elim (order.total (at d spectrum g.index) (at d spectrum (suc n))) [
        | inl e ↦ extend g e
        | inr e ↦ replace g e
      ]
    where
      at_last :
          (m : d.Number)
          → ((i : ℕ) → i < suc n → d.is_at_least m (at d spectrum i) ≡ true)
          → d.is_at_least m (at d spectrum (suc n)) ≡ true
          → (i : ℕ) → i < suc (suc n)
          → d.is_at_least m (at d spectrum i) ≡ true
      at_last m before here i l = elim (Bool-cases (leb i n)) [
        | inl t ↦ before i (ground arith)
        | inr t ↦
            let same : suc n ≡ i = ground arith in
            subst (λ j. d.is_at_least m (at d spectrum j) ≡ true) same here
      ]

      extend :
          (g : Greatest spectrum (suc n))
          → d.is_at_least (at d spectrum g.index) (at d spectrum (suc n)) ≡ true
          → Greatest spectrum (suc (suc n))
      extend g e =
          let early = g.early in
          record {
            index = g.index;
            early = omega (arith, early);
            tops = at_last (at d spectrum g.index) g.tops e;
          }

      replace :
          (g : Greatest spectrum (suc n))
          → d.is_at_least (at d spectrum (suc n)) (at d spectrum g.index) ≡ true
          → Greatest spectrum (suc (suc n))
      replace g e = record {
        index = suc n;
        early = omega arith;
        tops =
            at_last (at d spectrum (suc n))
              (λ i l. order.trans _ (at d spectrum g.index) _ e (g.tops i l))
              (reflexive (at d spectrum (suc n)));
      }

  Greatest-IsRidge :
      (spectrum : List d.Number) (n : ℕ)
      → length spectrum ≡ suc n
      → (g : Greatest spectrum (suc n)) → IsRidge d spectrum g.index
  Greatest-IsRidge spectrum n e g =
      let early = g.early in
      record {
        inside = omega (arith, e, early);
        above_left = λ p. g.tops (g.index - 1) (omega (arith, early));
        above_right = λ p. g.tops (g.index + 1) (omega (arith, e, p));
      }

  -- A number that tops the candidates tops the spectrum.
  pub Tops-spectrum :
      (spectrum : List d.Number) (m : d.Number)
      → 1 < length spectrum
      → Tops m (candidates d spectrum)
      → (i : ℕ) → i < length spectrum
      → d.is_at_least m (at d spectrum i) ≡ true
  Tops-spectrum spectrum m h t i l =
      let n = length spectrum - 1 in
      let same : length spectrum ≡ suc n = omega (arith, h) in
      let g = greatest spectrum n in
      order.trans m (at d spectrum g.index) (at d spectrum i)
        (candidates-ridge d (λ c. d.is_at_least m c.value_db ≡ true) spectrum g.index h t
          (Greatest-IsRidge spectrum n same g))
        (g.tops i (omega (arith, l, same)))

  pub candidates-nonempty :
      (spectrum : List d.Number)
      → 1 < length spectrum
      → Every (λ c. true ≡ false) (candidates d spectrum)
      → true ≡ false
  candidates-nonempty spectrum h none =
      let n = length spectrum - 1 in
      let same : length spectrum ≡ suc n = omega (arith, h) in
      let g = greatest spectrum n in
      candidates-ridge d (λ c. true ≡ false) spectrum g.index h none
        (Greatest-IsRidge spectrum n same g)
