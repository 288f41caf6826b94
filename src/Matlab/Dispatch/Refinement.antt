-- ===== src/Matlab/Dispatch/Refinement.antt =====
-- Each call of the binding as one operation on an abstract table.
use antsdr_dfone.Prelude.{
  ℕ, ◌+◌, ◌^◌, ◌<◌, ◌≡◌, refl, Bool, true, false, not, ◌||◌, List, [], ◌∷◌, some, if-elim, ◌==◌,
  ltb, length, Bytes, codes,
}
use antsdr_dfone.Maintenance.Text.{bytes_eq}
use antsdr_dfone.Session.{Session}
use antsdr_dfone.Session.Methods.{
  configure, set_sample_rate, set_rx_gain, set_rx_lo, set_reference_clock,
}
use antsdr_dfone.Session.Calls.{
  Call, configures, sets_sample_rate, sets_rx_gain, sets_rx_lo, sets_reference_clock, captures,
  captures_uncorrected, step,
}
use antsdr_dfone.Matlab.Values.{MxArray, value, get_string, get_u32, get_u64, get_size}
use antsdr_dfone.Matlab.Table.{MexState}
use antsdr_dfone.Matlab.Commands.{
  Request, logical_output, command_open, command_close, command_is_open, endpoint_of,
  slot_connected,
}
use antsdr_dfone.Matlab.Operations.{
  clock_argument, config_of, command_configure, command_set_u32, command_set_frequency,
  command_set_reference_clock, wants_uncorrected, capture_of, after_capture, command_capture,
}
use antsdr_dfone.Matlab.Dispatch.{dispatch, mex_call, mex_function}
use antsdr_dfone.Matlab.Dispatch.Effects.{
  IsValid, view, Acts, stays-Acts, failing_with-Acts, converting-Acts, opened_with-Acts,
  close_slot-Acts, with_session-Acts, after_call-Acts, after_capture-Acts,
}

module _ (st : MexState) (q : Request) (v : IsValid st) where
  command_open-Acts :
      (args : List MxArray) → st.next_handle + 1 < 2 ^ 64 → Acts st q (command_open st q args)
  unfolding command_open
  command_open-Acts args w =
      if-elim (Acts st q) (ltb (length args) 1 || ltb 3 (length args)) (failing_with-Acts st q v _)
        (if-elim (Acts st q) (ltb 1 q.nlhs) (failing_with-Acts st q v _)
          (converting-Acts st q v (endpoint_of args) _ (λ e. opened_with-Acts st q v e _ w refl)))

  command_close-Acts : (args : List MxArray) → Acts st q (command_close st q args)
  unfolding command_close
  command_close-Acts [] = failing_with-Acts st q v _
  command_close-Acts (x ∷ []) =
      if-elim (Acts st q) (not (q.nlhs == 0)) (failing_with-Acts st q v _) (
        converting-Acts st q v (get_u64 x (codes "handle")) _
          (λ h. close_slot-Acts st q v h (view st h) refl))
  command_close-Acts (x ∷ y ∷ more) = failing_with-Acts st q v _

  command_is_open-Acts : (args : List MxArray) → Acts st q (command_is_open st q args)
  unfolding command_is_open
  command_is_open-Acts [] = failing_with-Acts st q v _
  command_is_open-Acts (x ∷ []) = if-elim (Acts st q) (ltb 1 q.nlhs) (failing_with-Acts st q v _) (
      converting-Acts st q v (get_u64 x (codes "handle")) _
        (λ h. stays-Acts st q v (value (logical_output (slot_connected (view st h)))) (λ k e. cc)))
  command_is_open-Acts (x ∷ y ∷ more) = failing_with-Acts st q v _

  command_configure-Acts : (args : List MxArray) → Acts st q (command_configure st q args)
  unfolding command_configure step
  command_configure-Acts [] = failing_with-Acts st q v _
  command_configure-Acts (x ∷ args) =
      if-elim (Acts st q) (ltb (length args) 3 || ltb 4 (length args)) (failing_with-Acts st q v _)
        (if-elim (Acts st q) (not (q.nlhs == 0)) (failing_with-Acts st q v _) (
          with_session-Acts st q v x _ (λ h s e. converting-Acts st q v (config_of args) _ (λ c.
            after_call-Acts st q v h s (configures c) (codes "configure") (configure s c) e refl))))

  command_set_u32-Acts :
      (args : List MxArray) (usage : Bytes) (setter : Session → ℕ → Bool × Session) (label : Bytes)
      (c : ℕ → Call)
      → ((s : Session) (n : ℕ) → (step s (c n)).1 ≡ (setter s n).1)
      → Acts st q (command_set_u32 st q args usage setter label)
  unfolding command_set_u32
  command_set_u32-Acts [] usage setter label c p = failing_with-Acts st q v _
  command_set_u32-Acts (x ∷ []) usage setter label c p = failing_with-Acts st q v _
  command_set_u32-Acts (x ∷ y ∷ []) usage setter label c p =
      if-elim (Acts st q) (not (q.nlhs == 0)) (failing_with-Acts st q v _) (
        with_session-Acts st q v x _ (λ h s e.
          converting-Acts st q v (get_u32 y label) _
            (λ n. after_call-Acts st q v h s (c n) label (setter s n) e (p s n))))
  command_set_u32-Acts (x ∷ y ∷ z ∷ more) usage setter label c p = failing_with-Acts st q v _

  command_set_frequency-Acts : (args : List MxArray) → Acts st q (command_set_frequency st q args)
  unfolding command_set_frequency step
  command_set_frequency-Acts [] = failing_with-Acts st q v _
  command_set_frequency-Acts (x ∷ []) = failing_with-Acts st q v _
  command_set_frequency-Acts (x ∷ y ∷ []) =
      if-elim (Acts st q) (not (q.nlhs == 0)) (failing_with-Acts st q v _) (
        with_session-Acts st q v x _ (λ h s e.
          converting-Acts st q v (get_u64 y (codes "rxLoHz")) _ (λ n.
            after_call-Acts st q v h s (sets_rx_lo n) (codes "setFrequency") (set_rx_lo s n) e
              refl)))
  command_set_frequency-Acts (x ∷ y ∷ z ∷ more) = failing_with-Acts st q v _

  command_set_reference_clock-Acts :
      (args : List MxArray) → Acts st q (command_set_reference_clock st q args)
  unfolding command_set_reference_clock step
  command_set_reference_clock-Acts [] = failing_with-Acts st q v _
  command_set_reference_clock-Acts (x ∷ []) = failing_with-Acts st q v _
  command_set_reference_clock-Acts (x ∷ y ∷ []) =
      if-elim (Acts st q) (not (q.nlhs == 0)) (failing_with-Acts st q v _) (
        with_session-Acts st q v x _ (λ h s e.
          converting-Acts st q v (clock_argument y (codes "source")) _ (λ k.
            after_call-Acts st q v h s (sets_reference_clock k) (codes "setReferenceClock")
              (set_reference_clock s k) e refl)))
  command_set_reference_clock-Acts (x ∷ y ∷ z ∷ more) = failing_with-Acts st q v _

  captured-Acts :
      (h : ℕ) (s : Session) (n : ℕ) (raw : Bool)
      → view st h ≡ some s
      → Acts st q (after_capture st h (capture_of raw s n))
  unfolding step
  captured-Acts h s n true e = after_capture-Acts st q v h s (captures_uncorrected n) _ e refl
  captured-Acts h s n false e = after_capture-Acts st q v h s (captures n) _ e refl

  command_capture-Acts : (args : List MxArray) → Acts st q (command_capture st q args)
  unfolding command_capture
  command_capture-Acts [] = failing_with-Acts st q v _
  command_capture-Acts (x ∷ []) = failing_with-Acts st q v _
  command_capture-Acts (x ∷ frames ∷ more) =
      if-elim (Acts st q) (ltb 1 (length more)) (failing_with-Acts st q v _) (
        if-elim (Acts st q) (ltb 1 q.nlhs) (failing_with-Acts st q v _) (
          with_session-Acts st q v x _ (λ h s e.
            converting-Acts st q v (get_size frames (codes "frames")) _ (λ n.
              converting-Acts st q v (wants_uncorrected more) _
                (λ raw. captured-Acts h s n raw e)))))

  dispatch-Acts :
      (args : List MxArray) (command : Bytes)
      → st.next_handle + 1 < 2 ^ 64
      → Acts st q (dispatch st q args command)
  unfolding dispatch step
  dispatch-Acts args c w =
      if-elim (Acts st q) (bytes_eq c (codes "open")) (command_open-Acts args w) (
        if-elim (Acts st q) (bytes_eq c (codes "close")) (command_close-Acts args) (
          if-elim (Acts st q) (bytes_eq c (codes "isOpen")) (command_is_open-Acts args) (
            if-elim (Acts st q) (bytes_eq c (codes "configure")) (command_configure-Acts args) (
              if-elim (Acts st q) (bytes_eq c (codes "setSampleRate"))
                (command_set_u32-Acts args _ set_sample_rate _ sets_sample_rate (λ s n. refl))
                (if-elim (Acts st q) (bytes_eq c (codes "setGain"))
                  (command_set_u32-Acts args _ set_rx_gain _ sets_rx_gain (λ s n. refl))
                  (if-elim (Acts st q) (bytes_eq c (codes "setFrequency"))
                    (command_set_frequency-Acts args)
                    (if-elim (Acts st q) (bytes_eq c (codes "setReferenceClock"))
                      (command_set_reference_clock-Acts args)
                      (if-elim (Acts st q) (bytes_eq c (codes "capture"))
                        (command_capture-Acts args) (failing_with-Acts st q v _)))))))))

  mex_call-Acts :
      (args : List MxArray) → st.next_handle + 1 < 2 ^ 64 → Acts st q (mex_call st q args)
  mex_call-Acts [] w = failing_with-Acts st q v _
  mex_call-Acts (name ∷ args) w =
      converting-Acts st q v (get_string name (codes "command")) _ (λ c. dispatch-Acts args c w)

-- A call of the binding, whatever its arguments, is, up to where its behaviour becomes undefined, one operation on the table as a function from
-- handles to sessions: nothing, a new session that has connected under a handle that is free and is
-- returned, one method of one session, or the end of a handle; no other session changes. It keeps
-- the handles distinct and below the next one, the sessions sound, and one lock for each, as long as
-- the 64-bit counter of handles does not wrap around.
pub mex_function-Acts :
    (st : MexState) (q : Request)
    → IsValid st
    → st.next_handle + 1 < 2 ^ 64
    → Acts st q (mex_function st q)
unfolding mex_function
mex_function-Acts st q v w = mex_call-Acts st q v q.arguments w
