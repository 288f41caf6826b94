-- ===== src/Session/Steps.antt =====
-- What the answer of any call says: the captures and recordings, and all calls together.
use antsdr_dfone.Prelude.{
  ℕ, ◌≡◌, ◌≢◌, refl, subst, Bool, Option, some, none, inl, inr, arith, Bool-cases,
}
use mathlib.Core.Option.{some-injective}
use antsdr_dfone.Stream.{StreamClient, Disk}
use antsdr_dfone.Control.{ControlClient}
use antsdr_dfone.Acquire.{Clients, Captured, request_synchronized_iq, request_uncorrected_iq}
use antsdr_dfone.Session.{
  IqKind, calibrated, uncorrected, LastError, no_error, mode_not_implemented, capture_failed,
  capture_uncorrected_failed, IqCapture, RecordConfig, default_capture, Session,
}
use antsdr_dfone.Session.Methods.{connected}
use antsdr_dfone.Session.Calls.{
  CaptureCall, RecordCall, no_capture, no_record, end_capture, capture_with, capture_call,
  capture_iq, capture_uncorrected_iq, record_with, record_iq, Call, connects, disconnects,
  sets_work_mode, configures, sets_reference_clock, sets_rx_lo, sets_rx_gain, sets_sample_rate,
  asks_ssd, captures, captures_uncorrected, records, step,
}
use antsdr_dfone.Session.Answers.{
  IsHonest, require_mode-cases, connect_session-IsHonest, set_work_mode-IsHonest,
  set_reference_clock-IsHonest, set_rx_lo-IsHonest, set_rx_gain-IsHonest, set_sample_rate-IsHonest,
  configure-IsHonest, get_record_storage_has_ssd-IsHonest,
}

abbrev HonestCapture : Session → CaptureCall → Type 0
HonestCapture s r = IsHonest s r.done r.session

end_capture-IsHonest :
    (s : Session) (k : IqKind) (e : LastError) (out : IqCapture) (r : Captured)
    → e ≢ no_error
    → HonestCapture s (end_capture s k e out r)
unfolding end_capture
end_capture-IsHonest s k e out r ne = elim (Bool-cases r.done) [
  | inl t ↦ rw (t, end_capture) refl
  | inr t ↦ rw (t, end_capture) (ne, refl, refl)
]

capture_with-IsHonest :
    (request : Clients → ℕ → Captured) (s : Session) (k : IqKind) (e : LastError) (n : ℕ)
    (out : IqCapture) (c : Option ControlClient) (t : Option StreamClient)
    → e ≢ no_error
    → HonestCapture s (capture_with request s k e n out c t)
unfolding capture_with
capture_with-IsHonest request s k e n out (some c) (some t) ne =
    end_capture-IsHonest s k e out (request (record { control = c; stream = t }) n) ne
capture_with-IsHonest request s k e n out (some c) none ne = (λ x. cc, refl, refl)
capture_with-IsHonest request s k e n out none t ne = (λ x. cc, refl, refl)

capture_call-IsHonest :
    (request : Clients → ℕ → Captured) (s : Session) (k : IqKind) (e : LastError) (n : ℕ)
    (out : IqCapture)
    → e ≢ no_error
    → HonestCapture s (capture_call request s k e n out)
unfolding capture_call
capture_call-IsHonest request s k e n out ne = elim (Bool-cases (connected s)) [
  | inl t ↦
      rw (t, capture_call)
        (require_mode-cases (HonestCapture s) s.config.work_mode
          (capture_with request s k e n out s.control s.stream)
          (no_capture s mode_not_implemented out)
          (capture_with-IsHonest request s k e n out s.control s.stream ne) (λ x. cc, refl, refl))
  | inr t ↦ rw (t, capture_call) (λ x. cc, refl, refl)
]

abbrev HonestRecord : Session → RecordCall → Type 0
HonestRecord s r = IsHonest s r.done r.session

record_with-IsHonest :
    (disk : Disk) (s : Session) (q : RecordConfig) (b : Bool) (c : Option ControlClient)
    (t : Option StreamClient)
    → HonestRecord s (record_with disk s q b c t)
unfolding record_with
record_with-IsHonest disk s q b (some c) (some t) = ground arith
record_with-IsHonest disk s q b (some c) none = (λ x. cc, refl, refl)
record_with-IsHonest disk s q b none t = (λ x. cc, refl, refl)

record_iq-IsHonest :
    (disk : Disk) (s : Session) (q : RecordConfig) (b : Bool)
    → HonestRecord s (record_iq disk s q b)
unfolding record_iq
record_iq-IsHonest disk s q b = elim (Bool-cases (connected s)) [
  | inl t ↦
      rw (t, record_iq)
        (require_mode-cases (HonestRecord s) s.config.work_mode
          (record_with disk s q b s.control s.stream) (no_record s mode_not_implemented)
          (record_with-IsHonest disk s q b s.control s.stream) (λ x. cc, refl, refl))
  | inr t ↦ rw (t, record_iq) (λ x. cc, refl, refl)
]

answer : (s s' : Session) (b a : Bool) → some b ≡ some a → IsHonest s b s' → IsHonest s a s'
answer s s' b a q h = subst (λ x. IsHonest s x s') (some-injective b a q) h

-- Whatever call is answered: true comes with an empty `last_error`; false comes with a text there,
-- and with the configuration and the endpoint as they were before the call.
pub step-IsHonest :
    (s : Session) (c : Call) (a : Bool) → (step s c).0 ≡ some a → IsHonest s a (step s c).1
unfolding step capture_iq capture_uncorrected_iq capture_call
step-IsHonest s (connects d t e) a q = answer s _ _ a q (connect_session-IsHonest d t s e)
step-IsHonest s disconnects a q = absurd (ground arith)
step-IsHonest s (sets_work_mode m) a q = answer s _ _ a q (set_work_mode-IsHonest s m)
step-IsHonest s (configures c) a q = answer s _ _ a q (configure-IsHonest s c)
step-IsHonest s (sets_reference_clock k) a q = answer s _ _ a q (set_reference_clock-IsHonest s k)
step-IsHonest s (sets_rx_lo v) a q = answer s _ _ a q (set_rx_lo-IsHonest s v)
step-IsHonest s (sets_rx_gain v) a q = answer s _ _ a q (set_rx_gain-IsHonest s v)
step-IsHonest s (sets_sample_rate v) a q = answer s _ _ a q (set_sample_rate-IsHonest s v)
step-IsHonest s asks_ssd a q = answer s _ _ a q (get_record_storage_has_ssd-IsHonest s)
step-IsHonest s (captures n) a q = answer s _ _ a q (
    capture_call-IsHonest request_synchronized_iq s calibrated capture_failed n default_capture
      (λ e. cc))
step-IsHonest s (captures_uncorrected n) a q = answer s _ _ a q (
    capture_call-IsHonest request_uncorrected_iq s uncorrected capture_uncorrected_failed n
      default_capture (λ e. cc))
step-IsHonest s (records disk c b) a q = answer s _ _ a q (record_iq-IsHonest disk s c b)
