-- ===== src/Gui/Jobs.antt =====
-- The other jobs of the worker: connecting, single captures, recordings on the device's storage, and
-- the settings.
use antsdr_dfone.Prelude.{
  ℕ, ◌*◌, ◌&&◌, Bool, true, false, not, List, [], ◌∷◌, if◌then◌else◌, Bytes, codes, at_least,
}
use antsdr_dfone.Stream.{Disk}
use antsdr_dfone.Session.{ReferenceClock, IqCapture, default_capture, Session, error_text}
use antsdr_dfone.Session.Methods.{
  configure, get_record_storage_has_ssd, set_reference_clock, set_sample_rate, set_rx_lo,
  set_rx_gain,
}
use antsdr_dfone.Session.Calls.{
  CaptureCall, capture_iq, capture_uncorrected_iq, RecordCall, record_iq,
}
use antsdr_dfone.Gui.App.{App, Progress, Snapshot, no_pending, make_config, make_record_config}
use antsdr_dfone.Gui.Connection.{
  Line, Opened, opened_session, not_opened, open_configured_session, Ending, fails_with, succeeds,
  mark_disconnected_if_session_closed,
}
use antsdr_dfone.Gui.Baseband.{Output, save_baseband_iq}
use antsdr_dfone.Gui.Continuous.{Beat, start_continuous_capture}
use antsdr_dfone.Gui.Updating.{update_firmware_job}
use antsdr_dfone.Maintenance.Service.Requests.{Resolver}
use antsdr_dfone.Maintenance.Update.{FirmwareTarget, Files}

abbrev pub adopt_first : App → Opened → Ending
adopt_first a (not_opened e) = fails_with (error_text e) a
adopt_first a (opened_session s has_ssd) = succeeds (record a {
  session = s;
  is_connected = true;
  record_has_ssd = has_ssd;
  pending = no_pending;
  iterations = 0;
})

unfoldable pub connect_device : Line → Snapshot → App → Ending
unfolding open_configured_session
connect_device l w a = adopt_first a (open_configured_session l w)

-- `write_capture_file`, by whether the file takes its bytes.
abbrev pub keep_capture : (Bytes → Bytes → Bool) → Snapshot → App → IqCapture → Ending
keep_capture writes w a capture =
    if w.save_to_file && not (writes w.output_path capture.payload)
    then fails_with (codes "write output failed") a
    else succeeds (record a { last_capture = capture })

abbrev pub captured_iq : (Bytes → Bytes → Bool) → Snapshot → App → CaptureCall → Ending
captured_iq writes w a r =
    let a' : App = record a { session = r.session } in
    if r.done
    then keep_capture writes w a' r.out
    else fails_with (error_text r.session.last_error) (mark_disconnected_if_session_closed a')

unfoldable pub capture_job : (Bytes → Bytes → Bool) → Snapshot → Bool → App → Ending
unfolding capture_iq capture_uncorrected_iq mark_disconnected_if_session_closed
capture_job writes w uncorrected a =
    if not a.is_connected
    then fails_with (codes "connect first") a
    else captured_iq writes w a (
        if uncorrected
        then capture_uncorrected_iq a.session (at_least 1 w.frames) default_capture
        else capture_iq a.session (at_least 1 w.frames) default_capture)

-- The callback of a recording, from report to report.
abbrev pub show_reports : List (ℕ × ℕ) → Progress → Progress
show_reports [] p = p
show_reports ((written, total) ∷ rs) p =
    show_reports rs
      (record p { written_bytes = written; total_bytes = total; stage = codes "Recording IQ" })

abbrev pub begin_recording : Snapshot → App → App
begin_recording w a = record a {
  recording = record {
    running = true;
    written_bytes = 0;
    total_bytes = at_least 0 w.record_length_mb * 1024 * 1024;
    stage = codes "Starting IQ record";
  };
}

abbrev pub stop_recording : App → Bytes → Ending
stop_recording a message =
    fails_with message
      (record a { recording = record (a.recording) { running = false; stage = message } })

abbrev pub recorded_iq : App → RecordCall → Ending
recorded_iq a r =
    let a' : App = record a {
      session = r.session;
      recording = show_reports r.reports a.recording;
    } in
    if r.done
    then succeeds (record a' {
      recording = record (a'.recording) {
        running = false;
        written_bytes = a'.recording.total_bytes;
        stage = codes "IQ record complete";
      };
    })
    else stop_recording a' (error_text r.session.last_error)

abbrev pub record_configured : Disk → Snapshot → App → Bool × Session → Ending
record_configured disk w a (true, s) = recorded_iq a (record_iq disk s (make_record_config w) true)
record_configured disk w a (false, s) =
    stop_recording (record a { session = s }) (error_text s.last_error)

unfoldable pub record_job : Disk → Snapshot → App → Ending
unfolding record_iq configure make_config make_record_config
record_job disk w a =
    if not a.is_connected
    then fails_with (codes "connect first") a
    else let b = begin_recording w a in
      record_configured disk w b (configure b.session (make_config w))

unfoldable pub refresh_record_storage_status : App → Ending
unfolding get_record_storage_has_ssd
refresh_record_storage_status a =
    let (done, has_ssd, s) = get_record_storage_has_ssd a.session in
    let a' : App = record a { session = s } in
    if done
    then succeeds (record a' { record_has_ssd = has_ssd })
    else fails_with (error_text s.last_error) a'

-- A setting outside a capture.
abbrev pub set_now : App → Bool × Session → Ending
set_now a (done, s) =
    let a' : App = record a { session = s } in
    if done then succeeds a' else fails_with (error_text s.last_error) a'

-- What the interface gives to the worker, with what the job meets.
pub data Job : Type 0 where
  connecting : Line → Snapshot → Job
  capturing : (Bytes → Bytes → Bool) → Snapshot → Bool → Job
  saving : Output → Snapshot → Job
  streaming : List Beat → Snapshot → Job
  recording_iq : Disk → Snapshot → Job
  updating : Resolver → Files → FirmwareTarget → Snapshot → Job
  refreshing : Job
  setting_clock : ReferenceClock → Job
  setting_sample_rate setting_rx_lo setting_rx_gain : ℕ → Job

unfoldable pub run_job : Job → App → Ending
unfolding connect_device capture_job save_baseband_iq start_continuous_capture record_job
    update_firmware_job refresh_record_storage_status set_reference_clock set_sample_rate set_rx_lo
    set_rx_gain
run_job (connecting l w) a = connect_device l w a
run_job (capturing writes w uncorrected) a = capture_job writes w uncorrected a
run_job (saving d w) a = (save_baseband_iq d w a).ending
run_job (streaming bs w) a = start_continuous_capture bs w a
run_job (recording_iq disk w) a = record_job disk w a
run_job (updating r files target w) a = update_firmware_job r files target w a
run_job refreshing a = refresh_record_storage_status a
run_job (setting_clock v) a = set_now a (set_reference_clock a.session v)
run_job (setting_sample_rate v) a = set_now a (set_sample_rate a.session v)
run_job (setting_rx_lo v) a = set_now a (set_rx_lo a.session v)
run_job (setting_rx_gain v) a = set_now a (set_rx_gain a.session v)
