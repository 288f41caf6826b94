-- ===== src/Session/Stored.antt =====
-- What the session keeps of a setting that succeeded, and what a capture takes from it.
use antsdr_dfone.Prelude.{ℕ, ◌≡◌, refl, true, Option, some, none, inl, inr, arith, Bool-cases}
use antsdr_dfone.Dial.{Dial}
use antsdr_dfone.Stream.{StreamClient}
use antsdr_dfone.Control.{ControlClient}
use antsdr_dfone.Acquire.{Clients, Captured, request_synchronized_iq, request_uncorrected_iq}
use antsdr_dfone.Session.{
  ReferenceClock, default_config, Endpoint, IqKind, calibrated, uncorrected, LastError,
  capture_failed, capture_uncorrected_failed, mode_not_implemented, IqCapture, Session,
  payload_frames,
}
use antsdr_dfone.Session.Methods.{
  connected, setting, connect_session, set_reference_clock, set_sample_rate, set_rx_lo, set_rx_gain,
}
use antsdr_dfone.Session.Calls.{
  CaptureCall, no_capture, end_capture, capture_with, capture_call, capture_iq,
  capture_uncorrected_iq,
}
use antsdr_dfone.Session.Answers.{require_mode-cases}

pub connect_session-stores :
    (d t : Dial) (s : Session) (e : Endpoint)
    → (connect_session d t s e).0 ≡ true
    → (connect_session d t s e).1.config ≡ default_config
unfolding connect_session
connect_session-stores d t s e h = ground arith

pub set_reference_clock-stores :
    (s : Session) (v : ReferenceClock)
    → (set_reference_clock s v).0 ≡ true
    → (set_reference_clock s v).1.config ≡ record (s.config) { reference_clock = v }
unfolding set_reference_clock setting
set_reference_clock-stores s v h = ground arith

pub set_sample_rate-stores :
    (s : Session) (v : ℕ)
    → (set_sample_rate s v).0 ≡ true
    → (set_sample_rate s v).1.config ≡ record (s.config) { sample_rate_hz = v }
unfolding set_sample_rate setting
set_sample_rate-stores s v h = ground arith

pub set_rx_lo-stores :
    (s : Session) (v : ℕ)
    → (set_rx_lo s v).0 ≡ true
    → (set_rx_lo s v).1.config ≡ record (s.config) { rx_lo_hz = v }
unfolding set_rx_lo setting
set_rx_lo-stores s v h = ground arith

pub set_rx_gain-stores :
    (s : Session) (v : ℕ)
    → (set_rx_gain s v).0 ≡ true
    → (set_rx_gain s v).1.config ≡ record (s.config) { rx_gain_db = v }
unfolding set_rx_gain setting
set_rx_gain-stores s v h = ground arith

-- A capture of the kind and with the settings of the session, of whole frames.
pub record Describes (s : Session) (kind : IqKind) (c : IqCapture) : Type 0 where
  pub of_kind : c.kind ≡ kind
  pub at_rate : c.sample_rate_hz ≡ s.config.sample_rate_hz
  pub at_lo : c.rx_lo_hz ≡ s.config.rx_lo_hz
  pub counts : c.frames ≡ payload_frames c.payload
  pub has_channels : c.channels ≡ 8
  pub has_frame_bytes : c.frame_bytes ≡ 32

abbrev IsDescribed : Session → IqKind → CaptureCall → Type 0
IsDescribed s k r = r.done ≡ true → Describes s k r.out

end_capture-IsDescribed :
    (s : Session) (k : IqKind) (e : LastError) (out : IqCapture) (r : Captured)
    → IsDescribed s k (end_capture s k e out r)
unfolding end_capture
end_capture-IsDescribed s k e out r = elim (Bool-cases r.done) [
  | inl t ↦
      rw (t, end_capture)
        (λ h. record {
          of_kind = refl;
          at_rate = refl;
          at_lo = refl;
          counts = refl;
          has_channels = refl;
          has_frame_bytes = refl;
        })
  | inr t ↦ rw (t, end_capture) (λ h. absurd (ground arith))
]

capture_with-IsDescribed :
    (request : Clients → ℕ → Captured) (s : Session) (k : IqKind) (e : LastError) (n : ℕ)
    (out : IqCapture) (c : Option ControlClient) (t : Option StreamClient)
    → IsDescribed s k (capture_with request s k e n out c t)
unfolding capture_with
capture_with-IsDescribed request s k e n out (some c) (some t) =
    end_capture-IsDescribed s k e out (request (record { control = c; stream = t }) n)
capture_with-IsDescribed request s k e n out (some c) none = λ h. absurd (ground arith)
capture_with-IsDescribed request s k e n out none t = λ h. absurd (ground arith)

capture_call-Describes :
    (request : Clients → ℕ → Captured) (s : Session) (k : IqKind) (e : LastError) (n : ℕ)
    (out : IqCapture)
    → IsDescribed s k (capture_call request s k e n out)
unfolding capture_call
capture_call-Describes request s k e n out = elim (Bool-cases (connected s)) [
  | inl t ↦
      rw (t, capture_call)
        (require_mode-cases (IsDescribed s k) s.config.work_mode
          (capture_with request s k e n out s.control s.stream)
          (no_capture s mode_not_implemented out)
          (capture_with-IsDescribed request s k e n out s.control s.stream)
          (λ h. absurd (ground arith)))
  | inr t ↦ rw (t, capture_call) (λ h. absurd (ground arith))
]

pub capture_iq-Describes :
    (s : Session) (n : ℕ) (out : IqCapture)
    → (capture_iq s n out).done ≡ true
    → Describes s calibrated (capture_iq s n out).out
unfolding capture_iq
capture_iq-Describes s n out =
    capture_call-Describes request_synchronized_iq s calibrated capture_failed n out

pub capture_uncorrected_iq-Describes :
    (s : Session) (n : ℕ) (out : IqCapture)
    → (capture_uncorrected_iq s n out).done ≡ true
    → Describes s uncorrected (capture_uncorrected_iq s n out).out
unfolding capture_uncorrected_iq
capture_uncorrected_iq-Describes s n out =
    capture_call-Describes request_uncorrected_iq s uncorrected capture_uncorrected_failed n out
