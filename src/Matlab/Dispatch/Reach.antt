-- ===== src/Matlab/Dispatch/Reach.antt =====
-- Sequences of calls of the binding.
use antsdr_dfone.Prelude.{
  ℕ, ◌+◌, ◌^◌, ◌<◌, ◌≡◌, refl, ◌∙◌, List, [], ◌∷◌, some, none, arith, length, ◌==◌, ==_iff,
  Bool-cases, inl, inr, if-elim,
}
use antsdr_dfone.Matlab.Table.{MexState, new_mex}
use antsdr_dfone.Matlab.Commands.{Request, Reply}
use antsdr_dfone.Matlab.Dispatch.{mex_function, is_defined, run_mex}
use antsdr_dfone.Matlab.Dispatch.Effects.{
  IsValid, view, Effect, stays, opens, calls, closes, abstract_step, IsAllowed, Acts,
}
use antsdr_dfone.Matlab.Dispatch.Refinement.{mex_function-Acts}

-- A handle that has been given and closed.
abbrev pub IsClosed : MexState → ℕ → Type 0
IsClosed st h = (h < st.next_handle) × (view st h ≡ none)

abstract_step-IsClosed :
    (st : MexState) (q : Request) (e : Effect) (h : ℕ)
    → IsAllowed q st e
    → IsClosed st h
    → abstract_step e (view st) h ≡ none
abstract_step-IsClosed st q stays h a c = c.1
abstract_step-IsClosed st q (opens k s) h a c = ground arith
abstract_step-IsClosed st q (calls k d) h a c = elim (Bool-cases (h == k)) [
  | inl t ↦ absurd (other (rw ((==_iff h k).0 t) a.1))
  | inr t ↦ rw t c.1
]
  where
    other : ¬ (view st h ≡ some (a.0))
    other p = absurd (ground arith)
abstract_step-IsClosed st q (closes k) h a c = ground arith

Acts-IsClosed :
    (st : MexState) (q : Request) (r : Reply) (h : ℕ) → Acts st q r → IsClosed st h → IsClosed r.1 h
Acts-IsClosed st q r h a c =
    let below = a.not_below in
    (omega arith, a.refines h ∙ abstract_step-IsClosed st q a.effect h a.allowed c)

pub run_mex-keeps :
    (st : MexState) (qs : List Request)
    → IsValid st
    → st.next_handle + length qs < 2 ^ 64
    → IsValid (run_mex st qs) × ((h : ℕ) → IsClosed st h → IsClosed (run_mex st qs) h)
unfolding run_mex
run_mex-keeps st [] v w = (v, λ h c. c)
run_mex-keeps st (q ∷ qs) v w =
    let a = mex_function-Acts st q v (omega arith) in
    let above = a.not_above in
    let rest = run_mex-keeps (mex_function st q).1 qs a.keeps (omega arith) in
    let closed = Acts-IsClosed st q (mex_function st q) in
    if-elim (λ (e : MexState). IsValid e × ((h : ℕ) → IsClosed st h → IsClosed e h))
      (is_defined (mex_function st q).0) (rest.0, λ h c. rest.1 h (closed h a c))
      (a.keeps, λ h c. closed h a c)

new_mex-IsValid : IsValid new_mex
new_mex-IsValid = record { listed = tt; locked = refl }

-- After any sequence of fewer than 2^64 - 1 calls from the start, up to one whose behaviour is
-- undefined, the table is valid: handles distinct and below the next one, sessions sound, one lock for
-- each.
pub run_mex-IsValid : (qs : List Request) → 1 + length qs < 2 ^ 64 → IsValid (run_mex new_mex qs)
run_mex-IsValid qs w = (run_mex-keeps new_mex qs new_mex-IsValid w).0

-- A handle that has been closed stays closed, whatever calls follow, up to one whose behaviour is
-- undefined: no later session gets it.
pub run_mex-IsClosed :
    (st : MexState) (qs : List Request) (h : ℕ)
    → IsValid st
    → st.next_handle + length qs < 2 ^ 64
    → IsClosed st h
    → IsClosed (run_mex st qs) h
run_mex-IsClosed st qs h v w c = (run_mex-keeps st qs v w).1 h c
