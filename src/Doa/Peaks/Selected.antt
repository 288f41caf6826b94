-- ===== src/Doa/Peaks/Selected.antt =====
-- What the peaks of `find_peaks` are.
use antsdr_dfone.Prelude.{
  ℕ, zero, suc, ◌+◌, ◌-◌, ◌<◌, ◌≤◌, ◌≡◌, refl, Bool, true, false, not, ◌&&◌, List, [], ◌∷◌, ◌++◌,
  inl, inr, arith, Bool-cases, if-elim, leb, length, length-append,
}
use antsdr_dfone.Doa.Peaks.{
  Doubles, Candidate, Peak, at, candidate_at, is_ridge, add_if, inner_candidates, candidates,
  insert_falling, sort_falling, min_separation, is_close, is_separated, select_peaks, find_peaks,
}

-- Every entry of a list.
abbrev pub Every : {A : Type 0} → (A → Type 0) → List A → Type 0
Every P [] = Unit {0}
Every P (x ∷ xs) = P x × Every P xs

Every-append :
    {A : Type 0} (P : A → Type 0) (xs ys : List A) → Every P xs → Every P ys → Every P (xs ++ ys)
Every-append P [] ys h k = k
Every-append P (x ∷ xs) ys h k = (h.0, Every-append P xs ys h.1 k)

Every-add_if :
    {A : Type 0} (P : A → Type 0) (b : Bool) (x : A) (xs : List A)
    → (b ≡ true → P x)
    → Every P xs
    → Every P (add_if b x xs)
Every-add_if P true x xs h k = (h refl, k)
Every-add_if P false x xs h k = k

and_left : (a b : Bool) → (a && b) ≡ true → a ≡ true
and_left true b h = refl
and_left false b h = h

and_right : (a b : Bool) → (a && b) ≡ true → b ≡ true
and_right true b h = h
and_right false b h = absurd (ground arith)

false_if_denied : (b : Bool) → not b ≡ true → b ≡ false
false_if_denied false h = refl
false_if_denied true h = absurd (ground arith)

module _ (d : Doubles) where
  -- A value of the spectrum that is at least its neighbours.
  pub record IsRidge (spectrum : List d.Number) (i : ℕ) : Type 0 where
    pub inside : i < length spectrum
    pub above_left : 0 < i → d.is_at_least (at d spectrum i) (at d spectrum (i - 1)) ≡ true
    pub above_right :
        i + 1 < length spectrum → d.is_at_least (at d spectrum i) (at d spectrum (i + 1)) ≡ true

  abbrev IsCandidate : List d.Number → Candidate d → Type 0
  IsCandidate spectrum c = IsRidge spectrum c.index × (c.value_db ≡ at d spectrum c.index)

  inner_candidates-IsCandidate :
      (spectrum : List d.Number) (i n : ℕ)
      → i + n < length spectrum
      → Every (IsCandidate spectrum) (inner_candidates d spectrum i n)
  unfolding inner_candidates
  inner_candidates-IsCandidate spectrum i zero h = tt
  inner_candidates-IsCandidate spectrum i (suc n) h =
      let left = d.is_at_least (at d spectrum i) (at d spectrum (i - 1)) in
      let right = d.is_at_least (at d spectrum i) (at d spectrum (i + 1)) in
      Every-add_if (IsCandidate spectrum) (is_ridge d spectrum i) (candidate_at d spectrum i) _
        (λ e. (
          record {
            inside = omega (arith, h);
            above_left = λ p. and_left left right e;
            above_right = λ p. and_right left right e;
          },
          refl,
        ))
        (inner_candidates-IsCandidate spectrum (suc i) n (omega (arith, h)))

  candidates-IsCandidate :
      (spectrum : List d.Number)
      → 1 < length spectrum
      → Every (IsCandidate spectrum) (candidates d spectrum)
  unfolding candidates
  candidates-IsCandidate spectrum h =
      let last = length spectrum - 1 in
      let P = IsCandidate spectrum in
      Every-append P (inner_candidates d spectrum 1 (length spectrum - 2)) _
        (inner_candidates-IsCandidate spectrum 1 (length spectrum - 2) (omega (arith, h)))
        (Every-append P
          (add_if (d.is_at_least (at d spectrum 0) (at d spectrum 1)) (candidate_at d spectrum 0)
            [])
          _
          (Every-add_if P _ _ []
            (λ e. (
              record {
                inside = omega (arith, h);
                above_left = λ p. absurd (omega (arith, p));
                above_right = λ p. e;
              },
              refl,
            ))
            tt)
          (Every-add_if P _ (candidate_at d spectrum last) []
            (λ e. (
              record {
                inside = omega (arith, h);
                above_left = λ p. e;
                above_right = λ p. absurd (omega (arith, p, h));
              },
              refl,
            ))
            tt))

  pub insert_falling-Every :
      (P : Candidate d → Type 0) (c : Candidate d) (cs : List (Candidate d))
      → P c
      → Every P cs
      → Every P (insert_falling d c cs)
  unfolding insert_falling
  insert_falling-Every P c [] h k = (h, k)
  insert_falling-Every P c (x ∷ xs) h k =
      if-elim (Every P) (d.is_above x.value_db c.value_db) (k.0, insert_falling-Every P c xs h k.1)
        (h, k)

  sort_falling-Every :
      (P : Candidate d → Type 0) (cs : List (Candidate d))
      → Every P cs
      → Every P (sort_falling d cs)
  unfolding sort_falling
  sort_falling-Every P [] h = tt
  sort_falling-Every P (x ∷ xs) h =
      insert_falling-Every P x (sort_falling d xs) h.0 (sort_falling-Every P xs h.1)

  -- A peak stands at such a value, with its angle.
  pub record IsPeak (angles spectrum : List d.Number) (p : Peak d) : Type 0 where
    pub index : ℕ
    pub ridge : IsRidge spectrum index
    pub angle : p.angle_deg ≡ at d angles index
    pub value : p.value_db ≡ at d spectrum index

  -- No peak is closer than the separation to one that stands before it.
  abbrev pub IsSpread : d.Number → List (Peak d) → Type 0
  IsSpread separation [] = Unit {0}
  IsSpread separation (p ∷ ps) =
      Every (λ q. is_close d separation q.angle_deg p ≡ false) ps × IsSpread separation ps

  pub record IsSelection (angles spectrum : List d.Number) (count : ℕ) (ps : List (Peak d))
      : Type 0 where
    pub real : Every (IsPeak angles spectrum) ps
    pub spread : IsSpread (min_separation d angles) ps
    pub few : length ps ≤ count

  IsSpread-append :
      (separation : d.Number) (ps : List (Peak d)) (q : Peak d)
      → is_separated d separation q.angle_deg ps ≡ true
      → IsSpread separation ps
      → IsSpread separation (ps ++ q ∷ [])
  unfolding is_separated
  IsSpread-append separation [] q e h = (tt, tt)
  IsSpread-append separation (p ∷ ps) q e h =
      let close = is_close d separation q.angle_deg p in
      let rest = is_separated d separation q.angle_deg ps in
      (
        Every-append (λ r. is_close d separation r.angle_deg p ≡ false) ps (q ∷ []) h.0
            (false_if_denied close (and_left (not close) rest e), tt),
        IsSpread-append separation ps q (and_right (not close) rest e) h.1,
      )

  select_peaks-IsSelection :
      (angles spectrum : List d.Number) (count : ℕ) (cs : List (Candidate d)) (ps : List (Peak d))
      → Every (IsCandidate spectrum) cs
      → IsSelection angles spectrum count ps
      → length ps < count
      → IsSelection angles spectrum count (select_peaks d angles count cs ps)
  unfolding select_peaks
  select_peaks-IsSelection angles spectrum count [] ps h k l = k
  select_peaks-IsSelection angles spectrum count (c ∷ cs) ps h k l =
      let angle = at d angles c.index in
      let q : Peak d = record { angle_deg = angle; value_db = c.value_db } in
      let longer = length-append ps (q ∷ []) in
      let skipping = select_peaks-IsSelection angles spectrum count cs ps h.1 k l in
      elim (Bool-cases (is_separated d (min_separation d angles) angle ps)) [
        | inr t ↦ rw (t, select_peaks) skipping
        | inl t ↦
            let more : IsSelection angles spectrum count (ps ++ q ∷ []) = record {
              real =
                  Every-append (IsPeak angles spectrum) ps (q ∷ []) k.real
                    (record { index = c.index; ridge = h.0.0; angle = refl; value = h.0.1 }, tt);
              spread = IsSpread-append (min_separation d angles) ps q t k.spread;
              few = omega (arith, longer, l);
            } in
            elim (Bool-cases (leb count (length (ps ++ q ∷ [])))) [
              | inl u ↦ rw (t, u, select_peaks) more
              | inr u ↦
                  rw (t, u, select_peaks)
                    (select_peaks-IsSelection angles spectrum count cs (ps ++ q ∷ []) h.1 more
                      (ground arith))
            ]
      ]

  -- Every peak is a value of the spectrum that is at least its neighbours, with the angle of that
  -- value; no two peaks are closer than the separation; there are at most as many as asked for.
  -- Condition: at least one was asked for.
  pub find_peaks-IsSelection :
      (angles spectrum : List d.Number) (count : ℕ)
      → 0 < count
      → IsSelection angles spectrum count (find_peaks d angles spectrum count)
  unfolding find_peaks
  find_peaks-IsSelection angles [] count h = record { real = tt; spread = tt; few = omega arith }
  find_peaks-IsSelection angles (x ∷ []) count h = record {
    real = (
      record {
        index = 0;
        ridge = record {
          inside = omega arith;
          above_left = λ p. absurd (omega (arith, p));
          above_right = λ p. absurd (omega (arith, p));
        };
        angle = refl;
        value = refl;
      },
      tt,
    );
    spread = (tt, tt);
    few = omega (arith, h);
  }
  find_peaks-IsSelection angles (x ∷ y ∷ rest) count h =
      let spectrum = x ∷ y ∷ rest in
      select_peaks-IsSelection angles spectrum count (sort_falling d (candidates d spectrum)) []
        (sort_falling-Every (IsCandidate spectrum) (candidates d spectrum)
          (candidates-IsCandidate spectrum (omega arith)))
        (record { real = tt; spread = tt; few = omega arith }) h
