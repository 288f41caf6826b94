-- ===== src/Gui/Connection.antt =====
-- The session of the program: how it is opened, marked as lost and opened again, and the settings
-- that wait for the worker.
use antsdr_dfone.Prelude.{
  Bool, true, false, not, ◌&&◌, ◌||◌, [], ◌∷◌, Option, some, none, if◌then◌else◌, Bytes, codes,
  ◌++◌,
}
use antsdr_dfone.Dial.{Dial}
use antsdr_dfone.Session.{Session, LastError, error_text, new_session}
use antsdr_dfone.Session.Methods.{
  connect_session, disconnect_session, connected, configure, get_record_storage_has_ssd,
  set_reference_clock, set_sample_rate, set_rx_lo, set_rx_gain,
}
use antsdr_dfone.Gui.App.{Pending, no_pending, App, Snapshot, make_endpoint, make_config}

-- What a connection meets: the system calls of the two channels.
pub record Line : Type 0 where
  pub dial_control : Dial
  pub dial_stream : Dial

-- A session and whether the device records on an SSD, or the text of an error.
pub data Opened : Type 0 where
  opened_session : Session → Bool → Opened
  not_opened : LastError → Opened

abbrev pub end_opening : Bool × Bool × Session → Opened
end_opening (true, has_ssd, s) = opened_session s has_ssd
end_opening (false, has_ssd, s) = not_opened (s.last_error)

abbrev pub ask_storage : Bool × Session → Opened
ask_storage (true, s) = end_opening (get_record_storage_has_ssd s)
ask_storage (false, s) = not_opened (s.last_error)

abbrev pub configure_opened : Snapshot → Bool × Session → Opened
configure_opened w (true, s) = ask_storage (configure s (make_config w))
configure_opened w (false, s) = not_opened (s.last_error)

-- The session is a new one; on an error it is dropped.
unfoldable pub open_configured_session : Line → Snapshot → Opened
unfolding connect_session configure get_record_storage_has_ssd make_endpoint make_config
open_configured_session l w =
    configure_opened w (connect_session l.dial_control l.dial_stream new_session (make_endpoint w))

abbrev pub forget_session : App → App
forget_session a = record a {
  session = disconnect_session a.session;
  is_connected = false;
  pending = no_pending;
}

unfoldable pub mark_disconnected_if_session_closed : App → App
unfolding disconnect_session connected
mark_disconnected_if_session_closed a = if not (connected a.session) then forget_session a else a

unfoldable pub app_session_is_connected : App → Bool
unfolding connected
app_session_is_connected a = a.is_connected && connected a.session

-- The answer, the error, the program.
pub record Ending : Type 0 where
  pub ok : Bool
  pub message : Bytes
  pub app : App

abbrev pub fails_with : Bytes → App → Ending
fails_with message a = record { ok = false; message = message; app = a }

abbrev pub succeeds : App → Ending
succeeds a = record { ok = true; message = []; app = a }

abbrev pub adopt : App → Opened → Ending
adopt a (not_opened e) =
    fails_with (error_text e) (record a { is_connected = false; pending = no_pending })
adopt a (opened_session s has_ssd) =
    succeeds (record a {
      session = s;
      is_connected = true;
      record_has_ssd = has_ssd;
      pending = no_pending;
    })

unfoldable pub reconnect_app_session : App → Line → Snapshot → Ending
unfolding disconnect_session open_configured_session
reconnect_app_session a l w = adopt (forget_session a) (open_configured_session l w)

-- What `reconnect_until_ready` meets: attempts, one per second, until the interface asks it to stop.
pub data Retries : Type 0 where
  stops : Retries
  tries : Line → Retries → Retries

abbrev pub lost_text : Bytes → Bytes
lost_text [] = codes "connection lost; reconnecting"
lost_text (c ∷ cs) = codes "connection lost; reconnecting: " ++ c ∷ cs

-- An attempt ends the loop, or is followed by another.
abbrev pub attempted : Ending → Bool × App → Bool × App
attempted r rest = if r.ok then (true, r.app) else rest

-- For the continuous capture. True is a new session; false is that the interface has asked to stop,
-- with no error.
unfoldable pub reconnect_until_ready : Retries → Bytes → App → Snapshot → Bool × App
unfolding reconnect_app_session
reconnect_until_ready stops last a w = (false, record a { capture_cancel = true })
reconnect_until_ready (tries l more) last a w =
    if a.capture_cancel
    then (false, a)
    else let r = reconnect_app_session (record a { error = lost_text last }) l w in
      attempted r (reconnect_until_ready more r.message r.app w)

abbrev pub is_there : {A : Type 0} → Option A → Bool
is_there none = false
is_there (some x) = true

abbrev pub has_update : Pending → Bool
has_update p =
    is_there p.reference_clock
    || is_there p.sample_rate_hz
    || is_there p.rx_lo_hz
    || is_there p.rx_gain_db

-- What was waiting, if anything was, and the program without it.
unfoldable pub take_pending_control_update : App → Option Pending × App
take_pending_control_update a =
    if has_update a.pending
    then (some (a.pending), record a { pending = no_pending })
    else (none, a)

-- `if (update.has_x && !session.set_x(update.x)) return false;`, then the rest.
abbrev pub apply_one :
    {A : Type 0}
    → Option A
    → (Session → A → Bool × Session)
    → Session
    → (Session → Bool × Session)
    → Bool × Session
apply_one none op s rest = rest s
apply_one (some v) op s rest = let (done, s') = op s v in if done then rest s' else (false, s')

unfoldable pub apply_pending_control_update : Session → Pending → Bool × Session
unfolding set_reference_clock set_sample_rate set_rx_lo set_rx_gain
apply_pending_control_update s0 p = apply_one p.reference_clock set_reference_clock s0 (λ s1.
    apply_one p.sample_rate_hz set_sample_rate s1 (λ s2.
      apply_one p.rx_lo_hz set_rx_lo s2
        (λ s3. apply_one p.rx_gain_db set_rx_gain s3 (λ s4. (true, s4)))))

-- `take_pending_control_update(...) && !apply_pending_control_update(...)`: whether the settings, if
-- any waited, went through.
abbrev pub apply_taken : Option Pending × App → Bool × App
apply_taken (none, a) = (true, a)
apply_taken (some p, a) =
    let (done, s) = apply_pending_control_update a.session p in (done, record a { session = s })

unfoldable pub apply_waiting : App → Bool × App
unfolding take_pending_control_update apply_pending_control_update
apply_waiting a = apply_taken (take_pending_control_update a)
