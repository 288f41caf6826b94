-- ===== src/Session/Methods.antt =====
-- The methods of `DfOneSession::Impl` in public/session.cpp. Each returns its answer and the
-- session that it leaves; an out-parameter is passed in and given back.
use antsdr_dfone.Prelude.{ℕ, ◌%◌, Bool, true, false, not, Option, some, none, if◌then◌else◌}
use antsdr_dfone.Dial.{Dial}
use antsdr_dfone.Stream.{StreamClient, new_stream, open_stream}
use antsdr_dfone.Control.{
  ControlClient, new_control, connect, control_set_rx_gain, control_set_ref_clock_source,
  control_set_sample_rate, control_set_rx_lo_frequency, control_has_ssd,
}
use antsdr_dfone.Session.{
  WorkMode, synchronized_capture, independent_ad9361, ReferenceClock, clock_code, Endpoint,
  CaptureConfig, default_config, LastError, no_error, connect_failed, connect_data_channel_failed,
  not_connected, mode_not_implemented, set_reference_clock_failed, set_sample_rate_failed,
  set_rx_gain_failed, set_rx_lo_failed, get_ssd_failed, Session, to_internal_endpoint,
}

-- A failing method sets `last_error_` and returns false; a successful one clears it.
abbrev pub failing : Session → LastError → Bool × Session
failing s e = (false, record s { last_error = e })

abbrev pub succeeding : Session → Bool × Session
succeeding s = (true, record s { last_error = no_error })

-- `disconnect` closes both channels, if they are there, and drops the clients.
unfoldable pub disconnect_session : Session → Session
disconnect_session s = record s { control = none; stream = none }

-- `connect`; the two clients reach the device by their own system calls.
unfoldable pub connect_session : Dial → Dial → Session → Endpoint → Bool × Session
unfolding disconnect_session
connect_session dial_control dial_stream s e =
    let s0 = disconnect_session s in
    let (reached, control) = connect dial_control (new_control (to_internal_endpoint e)) in
    let (opened, stream) = open_stream dial_stream (new_stream (to_internal_endpoint e)) in
    if not reached
    then failing s0 connect_failed
    else if not opened
    then failing s0 connect_data_channel_failed
    else succeeding (record s0 {
      endpoint = e;
      config = default_config;
      control = some control;
      stream = some stream;
    })

unfoldable pub both_connected : Option ControlClient → Option StreamClient → Bool
both_connected (some c) (some t) = if c.connected then t.opened else false
both_connected (some c) none = false
both_connected none t = false

unfoldable pub connected : Session → Bool
unfolding both_connected
connected s = both_connected s.control s.stream

-- `if (!require_connected()) return false;`, then the rest of a method.
abbrev pub require_connected : Session → Bool × Session → Bool × Session
require_connected s rest = if connected s then rest else failing s not_connected

unfoldable pub set_work_mode : Session → WorkMode → Bool × Session
set_work_mode s independent_ad9361 = failing s mode_not_implemented
set_work_mode s synchronized_capture =
    succeeding (record s { config = record (s.config) { work_mode = synchronized_capture } })

-- `if (!control_->op(...)) { last_error_ = e; return false; }`, then the rest of a method. The
-- methods come here connected, so that there is a control client.
unfoldable pub setting :
    Session
    → (ControlClient → Bool × ControlClient)
    → LastError
    → (Session → Bool × Session)
    → Bool × Session
setting s op e rest = elim s.control [
  | none ↦ failing s not_connected
  | some c ↦
      let (done, c') = op c in
      if done
      then rest (record s { control = some c' })
      else failing (record s { control = some c' }) e
]

abbrev pub clock_setting : ReferenceClock → ControlClient → Bool × ControlClient
clock_setting source c = control_set_ref_clock_source c (clock_code source % 4)

abbrev pub store_reference_clock : ReferenceClock → Session → Bool × Session
store_reference_clock v s =
    succeeding (record s { config = record (s.config) { reference_clock = v } })

unfoldable pub set_reference_clock : Session → ReferenceClock → Bool × Session
unfolding setting connected
set_reference_clock s source =
    require_connected s
      (setting s (clock_setting source) set_reference_clock_failed (store_reference_clock source))

abbrev pub store_rx_lo : ℕ → Session → Bool × Session
store_rx_lo v s = succeeding (record s { config = record (s.config) { rx_lo_hz = v } })

unfoldable pub set_rx_lo : Session → ℕ → Bool × Session
unfolding setting connected
set_rx_lo s rx_lo_hz = require_connected s (
    setting s (λ c. control_set_rx_lo_frequency c rx_lo_hz) set_rx_lo_failed (store_rx_lo rx_lo_hz))

abbrev pub store_rx_gain : ℕ → Session → Bool × Session
store_rx_gain v s = succeeding (record s { config = record (s.config) { rx_gain_db = v } })

unfoldable pub set_rx_gain : Session → ℕ → Bool × Session
unfolding setting connected
set_rx_gain s gain_db =
    require_connected s
      (setting s (λ c. control_set_rx_gain c gain_db) set_rx_gain_failed (store_rx_gain gain_db))

abbrev pub store_sample_rate : ℕ → Session → Bool × Session
store_sample_rate v s = succeeding (record s { config = record (s.config) { sample_rate_hz = v } })

unfoldable pub set_sample_rate : Session → ℕ → Bool × Session
unfolding setting connected
set_sample_rate s rate = require_connected s (
    setting s (λ c. control_set_sample_rate c rate) set_sample_rate_failed (store_sample_rate rate))

abbrev pub store_config : CaptureConfig → Session → Bool × Session
store_config config s = succeeding (record s { config = config })

-- The four commands of `configure`, from the last to the first.
unfoldable pub configure_lo : CaptureConfig → Session → Bool × Session
unfolding setting
configure_lo config s =
    setting s (λ c. control_set_rx_lo_frequency c config.rx_lo_hz) set_rx_lo_failed
      (store_config config)

unfoldable pub configure_gain : CaptureConfig → Session → Bool × Session
unfolding setting configure_lo
configure_gain config s =
    setting s (λ c. control_set_rx_gain c config.rx_gain_db) set_rx_gain_failed
      (configure_lo config)

unfoldable pub configure_rate : CaptureConfig → Session → Bool × Session
unfolding setting configure_gain
configure_rate config s =
    setting s (λ c. control_set_sample_rate c config.sample_rate_hz) set_sample_rate_failed
      (configure_gain config)

unfoldable pub configure_all : CaptureConfig → Session → Bool × Session
unfolding setting configure_rate
configure_all config s =
    setting s (clock_setting config.reference_clock) set_reference_clock_failed
      (configure_rate config)

abbrev pub require_mode {ℓ} : {A : Type ℓ} → WorkMode → A → A → A
require_mode synchronized_capture rest refused = rest
require_mode independent_ad9361 rest refused = refused

unfoldable pub configure : Session → CaptureConfig → Bool × Session
unfolding configure_all connected
configure s config =
    require_connected s
      (require_mode config.work_mode (configure_all config s) (failing s mode_not_implemented))

-- The answer, `has_ssd`, the session.
unfoldable pub end_ssd : Session → Option Bool × ControlClient → Bool × Bool × Session
end_ssd s (none, c) = (false, false, record s { control = some c; last_error = get_ssd_failed })
end_ssd s (some has_ssd, c) = (true, has_ssd, record s { control = some c; last_error = no_error })

unfoldable pub ssd_with : Session → Option ControlClient → Bool × Bool × Session
unfolding end_ssd
ssd_with s none = (false, false, record s { last_error = not_connected })
ssd_with s (some c) = end_ssd s (control_has_ssd c)

unfoldable pub get_record_storage_has_ssd : Session → Bool × Bool × Session
unfolding ssd_with connected
get_record_storage_has_ssd s =
    if connected s
    then ssd_with s s.control
    else (false, false, record s { last_error = not_connected })
