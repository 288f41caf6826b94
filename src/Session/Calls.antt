-- ===== src/Session/Calls.antt =====
-- The methods of `DfOneSession::Impl` that use both channels, the constructors and aliases of
-- `DfOneSession`, and a call of any method as one step (public/session.cpp).
use antsdr_dfone.Prelude.{
  ℕ, Bool, true, false, List, [], ◌∷◌, Option, some, none, ◌⊎◌, inl, inr, if◌then◌else◌, Bytes,
}
use antsdr_dfone.Dial.{Dial}
use antsdr_dfone.Stream.{StreamClient, Disk}
use antsdr_dfone.Control.{ControlClient}
use antsdr_dfone.Acquire.{
  Clients, Captured, Started, request_synchronized_iq, request_uncorrected_iq, start_record,
}
use antsdr_dfone.Session.{
  WorkMode, ReferenceClock, IqKind, calibrated, uncorrected, cs16_le_interleaved_channels, Endpoint,
  CaptureConfig, IqCapture, default_capture, RecordConfig, LastError, no_error, connect_failed,
  not_connected, mode_not_implemented, capture_failed, capture_uncorrected_failed, record_failed,
  Session, new_session, to_internal_record_request, payload_frames, channel_count, bytes_per_frame,
}
use antsdr_dfone.Session.Methods.{
  connected, require_mode, connect_session, disconnect_session, set_work_mode, configure,
  set_reference_clock, set_rx_lo, set_rx_gain, set_sample_rate, get_record_storage_has_ssd,
}

-- `fill_capture` writes every member of `out`.
abbrev pub fill_capture : IqKind → CaptureConfig → Bytes → IqCapture
fill_capture kind config payload = record {
  kind = kind;
  sample_format = cs16_le_interleaved_channels;
  sample_rate_hz = config.sample_rate_hz;
  rx_lo_hz = config.rx_lo_hz;
  frames = payload_frames payload;
  channels = channel_count;
  frame_bytes = bytes_per_frame;
  payload = payload;
}

-- The answer of a capture, what `out` holds, the session.
pub record CaptureCall : Type 0 where
  pub done : Bool
  pub out : IqCapture
  pub session : Session

abbrev pub no_capture : Session → LastError → IqCapture → CaptureCall
no_capture s e out = record { done = false; out = out; session = record s { last_error = e } }

-- The end of a capture method, by what the control client answers.
unfoldable pub end_capture : Session → IqKind → LastError → IqCapture → Captured → CaptureCall
end_capture s kind e out r =
    let s' : Session = record s {
      control = some (r.clients.control);
      stream = some (r.clients.stream);
    } in
    if r.done
    then record {
      done = true;
      out = fill_capture kind s.config r.capture.payload;
      session = record s' { last_error = no_error };
    }
    else no_capture s' e out

-- Behind `require_synchronized_mode`, with both clients there; a session that is connected has them.
unfoldable pub capture_with :
    (Clients → ℕ → Captured)
    → Session
    → IqKind
    → LastError
    → ℕ
    → IqCapture
    → Option ControlClient
    → Option StreamClient
    → CaptureCall
unfolding end_capture
capture_with request s kind e frames out (some c) (some t) =
    end_capture s kind e out (request (record { control = c; stream = t }) frames)
capture_with request s kind e frames out (some c) none = no_capture s not_connected out
capture_with request s kind e frames out none t = no_capture s not_connected out

-- What `capture_iq` and `capture_uncorrected_iq` have in common.
unfoldable pub capture_call :
    (Clients → ℕ → Captured) → Session → IqKind → LastError → ℕ → IqCapture → CaptureCall
unfolding capture_with connected
capture_call request s kind e frames out =
    if connected s
    then require_mode s.config.work_mode
        (capture_with request s kind e frames out s.control s.stream)
        (no_capture s mode_not_implemented out)
    else no_capture s not_connected out

unfoldable pub capture_iq : Session → ℕ → IqCapture → CaptureCall
unfolding capture_call
capture_iq s frames out =
    capture_call request_synchronized_iq s calibrated capture_failed frames out

unfoldable pub capture_uncorrected_iq : Session → ℕ → IqCapture → CaptureCall
unfolding capture_call
capture_uncorrected_iq s frames out =
    capture_call request_uncorrected_iq s uncorrected capture_uncorrected_failed frames out

-- The answer of a recording, the file if it was opened, the pairs of written and total bytes from
-- which the callback's progress is computed, the session.
pub record RecordCall : Type 0 where
  pub done : Bool
  pub file : Option Bytes
  pub reports : List (ℕ × ℕ)
  pub session : Session

abbrev pub no_record : Session → LastError → RecordCall
no_record s e = record {
  done = false;
  file = none;
  reports = [];
  session = record s { last_error = e };
}

unfoldable pub end_record : Session → Started → RecordCall
end_record s r = record {
  done = r.outcome.done;
  file = r.outcome.file;
  reports = r.outcome.reports;
  session = record s {
    control = some (r.control);
    stream = some (r.outcome.client);
    last_error = if r.outcome.done then no_error else record_failed;
  };
}

unfoldable pub record_with :
    Disk → Session → RecordConfig → Bool → Option ControlClient → Option StreamClient → RecordCall
unfolding end_record
record_with disk s q callback (some c) (some t) =
    end_record s (start_record disk c t (to_internal_record_request q) callback)
record_with disk s q callback (some c) none = no_record s not_connected
record_with disk s q callback none t = no_record s not_connected

unfoldable pub record_iq : Disk → Session → RecordConfig → Bool → RecordCall
unfolding record_with connected
record_iq disk s q callback =
    if connected s
    then require_mode s.config.work_mode (record_with disk s q callback s.control s.stream)
        (no_record s mode_not_implemented)
    else no_record s not_connected

-- `get_iq` and `get_uncorrected_iq` drop the answer.
unfoldable pub get_iq : Session → ℕ → IqCapture × Session
unfolding capture_iq
get_iq s frames = let r = capture_iq s frames default_capture in (r.out, r.session)

unfoldable pub get_uncorrected_iq : Session → ℕ → IqCapture × Session
unfolding capture_uncorrected_iq
get_uncorrected_iq s frames =
    let r = capture_uncorrected_iq s frames default_capture in (r.out, r.session)

unfoldable pub get_iq_payload : Session → ℕ → Bytes × Session
unfolding get_iq
get_iq_payload s frames = let (capture, s') = get_iq s frames in (capture.payload, s')

unfoldable pub get_uncorrected_iq_payload : Session → ℕ → Bytes × Session
unfolding get_uncorrected_iq
get_uncorrected_iq_payload s frames =
    let (capture, s') = get_uncorrected_iq s frames in (capture.payload, s')

unfoldable pub open_session : Dial → Dial → Session → Bytes → ℕ → ℕ → Bool × Session
unfolding connect_session
open_session d t s ip command_port data_port =
    connect_session d t s
      (record { device_ip = ip; command_port = command_port; data_port = data_port })

abbrev or_connect_failed : LastError → LastError
or_connect_failed no_error = connect_failed
or_connect_failed e = e

-- The constructors that connect: a session, or the text of the exception.
unfoldable pub construct_session : Dial → Dial → Endpoint → Session ⊎ LastError
unfolding connect_session
construct_session d t e =
    let (done, s) = connect_session d t new_session e in
    if done then inl s else inr (or_connect_failed s.last_error)

-- A call of a method, with what the system does meanwhile.
pub data Call : Type 0 where
  connects : Dial → Dial → Endpoint → Call
  disconnects : Call
  sets_work_mode : WorkMode → Call
  configures : CaptureConfig → Call
  sets_reference_clock : ReferenceClock → Call
  sets_rx_lo sets_rx_gain sets_sample_rate : ℕ → Call
  asks_ssd : Call
  captures captures_uncorrected : ℕ → Call
  records : Disk → RecordConfig → Bool → Call

-- The answer and the session; `disconnect` has no answer.
unfoldable pub step : Session → Call → Option Bool × Session
step s (connects d t e) = let (a, s') = connect_session d t s e in (some a, s')
step s disconnects = (none, disconnect_session s)
step s (sets_work_mode m) = let (a, s') = set_work_mode s m in (some a, s')
step s (configures c) = let (a, s') = configure s c in (some a, s')
step s (sets_reference_clock k) = let (a, s') = set_reference_clock s k in (some a, s')
step s (sets_rx_lo v) = let (a, s') = set_rx_lo s v in (some a, s')
step s (sets_rx_gain v) = let (a, s') = set_rx_gain s v in (some a, s')
step s (sets_sample_rate v) = let (a, s') = set_sample_rate s v in (some a, s')
step s asks_ssd = let r = get_record_storage_has_ssd s in (some r.0, r.2)
step s (captures n) = let r = capture_iq s n default_capture in (some r.done, r.session)
step s (captures_uncorrected n) =
    let r = capture_uncorrected_iq s n default_capture in (some r.done, r.session)
step s (records disk q b) = let r = record_iq disk s q b in (some r.done, r.session)

unfoldable pub run : Session → List Call → Session
run s [] = s
run s (c ∷ cs) = run (step s c).1 cs
