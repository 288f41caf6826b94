-- ===== src/Doa/Peaks/First.antt =====
-- The first peak of `find_peaks` is the strongest.
use antsdr_dfone.Prelude.{
  ℕ, zero, suc, ◌<◌, ◌≡◌, refl, sym, ap, ◌∙◌, Bool, true, false, not, List, [], ◌∷◌, ◌++◌, inl, inr,
  arith, Bool-cases, if-elim, leb, if◌then◌else◌, length,
}
use mathlib.Core.Bool.{false≢true}
use antsdr_dfone.Doa.Peaks.{
  Doubles, Candidate, Peak, at, candidates, insert_falling, sort_falling, min_separation,
  is_separated, select_peaks, find_peaks,
}
use antsdr_dfone.Doa.Peaks.Selected.{Every, insert_falling-Every}
use antsdr_dfone.Doa.Peaks.Strongest.{IsOrder, Tops, reflexive, Tops-spectrum, candidates-nonempty}

Every-map :
    {A : Type 0} (P Q : A → Type 0) (xs : List A) → ((x : A) → P x → Q x) → Every P xs → Every Q xs
Every-map P Q [] f h = tt
Every-map P Q (x ∷ xs) f h = (f x h.0, Every-map P Q xs f h.1)

module _ (d : Doubles) where
  -- A list of peaks that begins with this one.
  record Begins (p : Peak d) (ps : List (Peak d)) : Type 0 where
    rest : List (Peak d)
    same : ps ≡ p ∷ rest

  select_peaks-Begins :
      (angles : List d.Number) (count : ℕ) (cs : List (Candidate d)) (p : Peak d)
      (ps : List (Peak d))
      → Begins p (select_peaks d angles count cs (p ∷ ps))
  unfolding select_peaks
  select_peaks-Begins angles count [] p ps = record { rest = ps; same = refl }
  select_peaks-Begins angles count (c ∷ cs) p ps =
      let q : Peak d = record { angle_deg = at d angles c.index; value_db = c.value_db } in
      let more = ps ++ q ∷ [] in
      if-elim (Begins p)
        (not (is_separated d (min_separation d angles) (at d angles c.index) (p ∷ ps)))
        (select_peaks-Begins angles count cs p ps)
        (if-elim (Begins p) (leb count (length (p ∷ more))) (record { rest = more; same = refl })
          (select_peaks-Begins angles count cs p more))

  -- What holds of the sorted list holds of the list.
  insert_falling-Every-back :
      (P : Candidate d → Type 0) (c : Candidate d) (cs : List (Candidate d))
      → Every P (insert_falling d c cs)
      → P c × Every P cs
  unfolding insert_falling
  insert_falling-Every-back P c [] h = h
  insert_falling-Every-back P c (x ∷ xs) h =
      go (d.is_above x.value_db c.value_db) h (insert_falling-Every-back P c xs)
    where
      go :
          (b : Bool)
          → Every P (if b then x ∷ insert_falling d c xs else c ∷ x ∷ xs)
          → (Every P (insert_falling d c xs) → P c × Every P xs)
          → P c × Every P (x ∷ xs)
      go true k rest = let r = rest k.1 in (r.0, (k.0, r.1))
      go false k rest = k

  sort_falling-Every-back :
      (P : Candidate d → Type 0) (cs : List (Candidate d))
      → Every P (sort_falling d cs)
      → Every P cs
  unfolding sort_falling
  sort_falling-Every-back P [] h = tt
  sort_falling-Every-back P (x ∷ xs) h =
      let r = insert_falling-Every-back P x (sort_falling d xs) h in
      (r.0, sort_falling-Every-back P xs r.1)

  -- The strongest of the spectrum comes first.
  pub record IsStrongest (spectrum : List d.Number) (ps : List (Peak d)) : Type 0 where
    pub first : Peak d
    pub rest : List (Peak d)
    pub same : ps ≡ first ∷ rest
    pub tops : (i : ℕ) → i < length spectrum → d.is_at_least first.value_db (at d spectrum i) ≡ true

  module _ (order : IsOrder d) where
    abbrev IsTopFirst : List (Candidate d) → Type 0
    IsTopFirst [] = Unit {0}
    IsTopFirst (x ∷ xs) = Tops d order x.value_db (x ∷ xs)

    insert_falling-IsTopFirst :
        (c : Candidate d) (cs : List (Candidate d))
        → IsTopFirst cs
        → IsTopFirst (insert_falling d c cs)
    unfolding insert_falling
    insert_falling-IsTopFirst c [] h = (reflexive d order c.value_db, tt)
    insert_falling-IsTopFirst c (x ∷ xs) h =
        elim (Bool-cases (d.is_at_least c.value_db x.value_db)) [
          | inl t ↦
              rw (order.strict x.value_db c.value_db ∙ ap not t, insert_falling)
                (
                  reflexive d order c.value_db,
                  Every-map _ _ (x ∷ xs) (λ y k. order.trans _ x.value_db _ t k) h,
                )
          | inr t ↦
              rw (order.strict x.value_db c.value_db ∙ ap not t, insert_falling)
                (
                  h.0,
                  insert_falling-Every d (λ y. d.is_at_least x.value_db y.value_db ≡ true) c xs
                      (other c.value_db x.value_db t) h.1,
                )
        ]
      where
        other : (a b : d.Number) → d.is_at_least a b ≡ false → d.is_at_least b a ≡ true
        other a b e = elim (order.total a b) [ inl k ↦ absurd (ground arith) | inr k ↦ k ]

    sort_falling-IsTopFirst : (cs : List (Candidate d)) → IsTopFirst (sort_falling d cs)
    unfolding sort_falling
    sort_falling-IsTopFirst [] = tt
    sort_falling-IsTopFirst (x ∷ xs) =
        insert_falling-IsTopFirst x (sort_falling d xs) (sort_falling-IsTopFirst xs)

    select_peaks-IsStrongest :
        (angles spectrum : List d.Number) (count : ℕ) (cs : List (Candidate d))
        → 1 < length spectrum
        → IsTopFirst cs
        → ((P : Candidate d → Type 0) → Every P cs → Every P (candidates d spectrum))
        → IsStrongest spectrum (select_peaks d angles count cs [])
    unfolding select_peaks is_separated
    select_peaks-IsStrongest angles spectrum count [] h top back =
        absurd
          (false≢true (sym (candidates-nonempty d order spectrum h (back (λ c. true ≡ false) tt))))
    select_peaks-IsStrongest angles spectrum count (c ∷ cs) h top back =
        let q : Peak d = record { angle_deg = at d angles c.index; value_db = c.value_db } in
        let b : Begins q (select_peaks d angles count (c ∷ cs) []) =
          if-elim (Begins q) (leb count 1) (record { rest = []; same = refl })
            (select_peaks-Begins angles count cs q []) in
        record {
          first = q;
          rest = b.rest;
          same = b.same;
          tops =
              Tops-spectrum d order spectrum c.value_db h
                (back (λ y. d.is_at_least c.value_db y.value_db ≡ true) top);
        }

    -- Where the numbers are ordered, the first peak of a spectrum that is not empty is at least every
    -- value of the spectrum.
    pub find_peaks-IsStrongest :
        (angles spectrum : List d.Number) (count : ℕ)
        → 0 < length spectrum
        → IsStrongest spectrum (find_peaks d angles spectrum count)
    unfolding find_peaks
    find_peaks-IsStrongest angles [] count h = absurd (omega (arith, h))
    find_peaks-IsStrongest angles (x ∷ []) count h = record {
      first = record { angle_deg = at d angles 0; value_db = x };
      rest = [];
      same = refl;
      tops = single;
    }
      where
        single : (i : ℕ) → i < 1 → d.is_at_least x (at d (x ∷ []) i) ≡ true
        single zero l = reflexive d order x
        single (suc i) l = absurd (omega (arith, l))
    find_peaks-IsStrongest angles (x ∷ y ∷ rest) count h =
        let spectrum = x ∷ y ∷ rest in
        select_peaks-IsStrongest angles spectrum count (sort_falling d (candidates d spectrum))
          (omega arith) (sort_falling-IsTopFirst (candidates d spectrum))
          (λ P. sort_falling-Every-back P (candidates d spectrum))
