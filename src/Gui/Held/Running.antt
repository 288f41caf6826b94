-- ===== src/Gui/Held/Running.antt =====
-- The session through every job.
use antsdr_dfone.Prelude.{
  ◌≡◌, refl, Bool, true, false, not, ◌&&◌, arith, if-elim, if◌then◌else◌, Bytes, at_least, [],
}
use antsdr_dfone.Stream.{Disk}
use antsdr_dfone.Session.{Session, default_capture}
use antsdr_dfone.Session.Methods.{
  configure, get_record_storage_has_ssd, set_reference_clock, set_sample_rate, set_rx_lo,
  set_rx_gain,
}
use antsdr_dfone.Session.Calls.{
  CaptureCall, capture_iq, capture_uncorrected_iq, RecordCall, record_iq, Call, captures,
  captures_uncorrected, records, configures, asks_ssd, sets_reference_clock, sets_sample_rate,
  sets_rx_lo, sets_rx_gain, step,
}
use antsdr_dfone.Session.Empty.{IsNoConnection}
use antsdr_dfone.Gui.App.{App, Snapshot, make_config, make_record_config}
use antsdr_dfone.Gui.Connection.{
  Opened, opened_session, not_opened, open_configured_session, Ending,
}
use antsdr_dfone.Gui.Jobs.{
  adopt_first, connect_device, captured_iq, capture_job, begin_recording, recorded_iq,
  record_configured, record_job, refresh_record_storage_status, set_now, Job, connecting, capturing,
  saving, streaming, recording_iq, refreshing, setting_clock, setting_sample_rate, setting_rx_lo,
  setting_rx_gain, updating, run_job,
}
use antsdr_dfone.Gui.Updating.{make_maintenance_endpoint, firmware_config, update_firmware_job}
use antsdr_dfone.Maintenance.Service.Requests.{Maintenance}
use antsdr_dfone.Maintenance.Update.{update_firmware}
use antsdr_dfone.Gui.Held.{
  IsHeld, Holds, call-IsHeld, mark_disconnected-Holds, OpensSound,
  open_configured_session-OpensSound,
}
use antsdr_dfone.Gui.Held.Saving.{save_baseband_iq-Holds}
use antsdr_dfone.Gui.Held.Streaming.{start_continuous_capture-Holds}

abbrev EndHolds : Ending → Type 0
EndHolds r = Holds r.app

adopt_first-Holds : (a : App) (o : Opened) → Holds a → OpensSound o → EndHolds (adopt_first a o)
adopt_first-Holds a (opened_session s has_ssd) h k = (k, λ e. absurd (ground arith))
adopt_first-Holds a (not_opened e) h k = h

captured_iq-Holds :
    (writes : Bytes → Bytes → Bool) (w : Snapshot) (a : App) (r : CaptureCall)
    → IsHeld r.session a.is_connected
    → EndHolds (captured_iq writes w a r)
captured_iq-Holds writes w a r h =
    let b : App = record a { session = r.session } in
    if-elim EndHolds r.done
      (if-elim EndHolds (w.save_to_file && not (writes w.output_path r.out.payload)) h h)
      (mark_disconnected-Holds b h)

capture_job-Holds :
    (writes : Bytes → Bytes → Bool) (w : Snapshot) (uncorrected : Bool) (a : App)
    → Holds a
    → EndHolds (capture_job writes w uncorrected a)
unfolding capture_job step
capture_job-Holds writes w uncorrected a h =
    let n = at_least 1 w.frames in
    let raw = capture_uncorrected_iq a.session n default_capture in
    let corrected = capture_iq a.session n default_capture in
    if-elim EndHolds (not a.is_connected) h (
      captured_iq-Holds writes w a (if uncorrected then raw else corrected) (
        if-elim (λ (r : CaptureCall). IsHeld r.session a.is_connected) uncorrected
          (call-IsHeld a.session a.is_connected (captures_uncorrected n) raw.session tt refl h)
          (call-IsHeld a.session a.is_connected (captures n) corrected.session tt refl h)))

recorded_iq-Holds :
    (a : App) (r : RecordCall) → IsHeld r.session a.is_connected → EndHolds (recorded_iq a r)
recorded_iq-Holds a r h = if-elim EndHolds r.done h h

record_configured-Holds :
    (disk : Disk) (w : Snapshot) (a : App) (r : Bool × Session)
    → IsHeld r.1 a.is_connected
    → EndHolds (record_configured disk w a r)
unfolding step
record_configured-Holds disk w a (true, s) h =
    let r = record_iq disk s (make_record_config w) true in
    recorded_iq-Holds a r
      (call-IsHeld s a.is_connected (records disk (make_record_config w) true) r.session tt refl h)
record_configured-Holds disk w a (false, s) h = h

record_job-Holds : (disk : Disk) (w : Snapshot) (a : App) → Holds a → EndHolds (record_job disk w a)
unfolding record_job step
record_job-Holds disk w a h =
    let c = make_config w in
    if-elim EndHolds (not a.is_connected) h (
      record_configured-Holds disk w (begin_recording w a) (configure a.session c)
        (call-IsHeld a.session a.is_connected (configures c) (configure a.session c).1 tt refl h))

set_now-Holds :
    (a : App) (c : Call) (r : Bool × Session)
    → IsNoConnection c
    → (step a.session c).1 ≡ r.1
    → Holds a
    → EndHolds (set_now a r)
set_now-Holds a c r n e h =
    let k = call-IsHeld a.session a.is_connected c r.1 n e h in if-elim EndHolds r.0 k k

refresh-Holds : (a : App) → Holds a → EndHolds (refresh_record_storage_status a)
unfolding refresh_record_storage_status step
refresh-Holds a h =
    let r = get_record_storage_has_ssd a.session in
    let k = call-IsHeld a.session a.is_connected asks_ssd r.2 tt refl h in if-elim EndHolds r.0 k k

-- Every job keeps the session sound, and empty when the program shows no connection.
pub run_job-Holds : (job : Job) (a : App) → Holds a → EndHolds (run_job job a)
unfolding run_job step connect_device update_firmware_job
run_job-Holds (connecting l w) a h =
    adopt_first-Holds a (open_configured_session l w) h (open_configured_session-OpensSound l w)
run_job-Holds (capturing writes w uncorrected) a h = capture_job-Holds writes w uncorrected a h
run_job-Holds (saving d w) a h = save_baseband_iq-Holds d w a h
run_job-Holds (streaming bs w) a h = start_continuous_capture-Holds bs w a h
run_job-Holds (recording_iq disk w) a h = record_job-Holds disk w a h
run_job-Holds (updating r files target w) a h =
    let m : Maintenance = record { endpoint = make_maintenance_endpoint w; last_error = [] } in
    if-elim EndHolds (update_firmware r files m (firmware_config target w) []).done h h
run_job-Holds refreshing a h = refresh-Holds a h
run_job-Holds (setting_clock v) a h =
    set_now-Holds a (sets_reference_clock v) (set_reference_clock a.session v) tt refl h
run_job-Holds (setting_sample_rate v) a h =
    set_now-Holds a (sets_sample_rate v) (set_sample_rate a.session v) tt refl h
run_job-Holds (setting_rx_lo v) a h =
    set_now-Holds a (sets_rx_lo v) (set_rx_lo a.session v) tt refl h
run_job-Holds (setting_rx_gain v) a h =
    set_now-Holds a (sets_rx_gain v) (set_rx_gain a.session v) tt refl h
