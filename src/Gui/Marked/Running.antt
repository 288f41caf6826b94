-- ===== src/Gui/Marked/Running.antt =====
-- What the program shows as running, through every job.
use antsdr_dfone.Prelude.{
  refl, Bool, true, false, not, ◌&&◌, if-elim, if◌then◌else◌, Bytes, at_least, [],
}
use antsdr_dfone.Stream.{Disk}
use antsdr_dfone.Session.{Session, default_capture}
use antsdr_dfone.Session.Methods.{
  configure, get_record_storage_has_ssd, set_reference_clock, set_sample_rate, set_rx_lo,
  set_rx_gain,
}
use antsdr_dfone.Session.Calls.{
  CaptureCall, capture_iq, capture_uncorrected_iq, RecordCall, record_iq,
}
use antsdr_dfone.Maintenance.Service.Requests.{Maintenance}
use antsdr_dfone.Maintenance.Update.{Updated, update_firmware}
use antsdr_dfone.Gui.App.{App, Snapshot, make_config, make_record_config}
use antsdr_dfone.Gui.Connection.{
  Opened, opened_session, not_opened, open_configured_session, Ending,
}
use antsdr_dfone.Gui.Updating.{
  make_maintenance_endpoint, firmware_config, begin_updating, end_updating, update_firmware_job,
}
use antsdr_dfone.Gui.Jobs.{
  adopt_first, connect_device, captured_iq, capture_job, begin_recording, recorded_iq,
  record_configured, record_job, refresh_record_storage_status, set_now, Job, connecting, capturing,
  saving, streaming, recording_iq, updating, refreshing, setting_clock, setting_sample_rate,
  setting_rx_lo, setting_rx_gain, run_job,
}
use antsdr_dfone.Gui.Marked.{Marks, IsMarked, no_marks, mark_disconnected-IsMarked}
use antsdr_dfone.Gui.Marked.Saving.{save_baseband_iq-Marked}
use antsdr_dfone.Gui.Marked.Streaming.{start_continuous_capture-Marked}

abbrev EndMarked : Ending → Type 0
EndMarked r = IsMarked no_marks r.app

-- While a recording on the device's storage runs.
abbrev marks : Marks
marks = record no_marks { recording = true }

adopt_first-Marked : (a : App) (o : Opened) → IsMarked no_marks a → EndMarked (adopt_first a o)
adopt_first-Marked a (opened_session s has_ssd) h = h
adopt_first-Marked a (not_opened e) h = h

captured_iq-Marked :
    (writes : Bytes → Bytes → Bool) (w : Snapshot) (a : App) (r : CaptureCall)
    → IsMarked no_marks a
    → EndMarked (captured_iq writes w a r)
captured_iq-Marked writes w a r h =
    if-elim EndMarked r.done
      (if-elim EndMarked (w.save_to_file && not (writes w.output_path r.out.payload)) h h)
      (mark_disconnected-IsMarked no_marks (record a { session = r.session }) h)

capture_job-Marked :
    (writes : Bytes → Bytes → Bool) (w : Snapshot) (uncorrected : Bool) (a : App)
    → IsMarked no_marks a
    → EndMarked (capture_job writes w uncorrected a)
unfolding capture_job
capture_job-Marked writes w uncorrected a h =
    let n = at_least 1 w.frames in
    if-elim EndMarked (not a.is_connected) h (
      captured_iq-Marked writes w a
        (if uncorrected
          then capture_uncorrected_iq a.session n default_capture
          else capture_iq a.session n default_capture)
        h)

recorded_iq-Marked : (a : App) (r : RecordCall) → IsMarked marks a → EndMarked (recorded_iq a r)
recorded_iq-Marked a r h =
    if-elim EndMarked r.done (h.0, (h.1.0, (refl, h.1.1.1))) (h.0, (h.1.0, (refl, h.1.1.1)))

record_configured-Marked :
    (disk : Disk) (w : Snapshot) (a : App) (r : Bool × Session)
    → IsMarked marks a
    → EndMarked (record_configured disk w a r)
record_configured-Marked disk w a (true, s) h =
    recorded_iq-Marked a (record_iq disk s (make_record_config w) true) h
record_configured-Marked disk w a (false, s) h = (h.0, (h.1.0, (refl, h.1.1.1)))

record_job-Marked :
    (disk : Disk) (w : Snapshot) (a : App) → IsMarked no_marks a → EndMarked (record_job disk w a)
unfolding record_job
record_job-Marked disk w a h = if-elim EndMarked (not a.is_connected) h (
    record_configured-Marked disk w (begin_recording w a) (configure a.session (make_config w))
      (h.0, (h.1.0, (refl, h.1.1.1))))

set_now-Marked : (a : App) (r : Bool × Session) → IsMarked no_marks a → EndMarked (set_now a r)
set_now-Marked a r h = if-elim EndMarked r.0 h h

refresh-Marked : (a : App) → IsMarked no_marks a → EndMarked (refresh_record_storage_status a)
unfolding refresh_record_storage_status
refresh-Marked a h = if-elim EndMarked (get_record_storage_has_ssd a.session).0 h h

end_updating-Marked :
    (a : App) (r : Updated) → IsMarked no_marks a → EndMarked (end_updating (begin_updating a) r)
end_updating-Marked a r h =
    if-elim EndMarked r.done (h.0, (h.1.0, (h.1.1.0, refl))) (h.0, (h.1.0, (h.1.1.0, refl)))

-- When a job ends, nothing is shown as running that was not before it.
pub run_job-Marked : (job : Job) (a : App) → IsMarked no_marks a → EndMarked (run_job job a)
unfolding run_job connect_device update_firmware_job
run_job-Marked (connecting l w) a h = adopt_first-Marked a (open_configured_session l w) h
run_job-Marked (capturing writes w uncorrected) a h = capture_job-Marked writes w uncorrected a h
run_job-Marked (saving d w) a h = save_baseband_iq-Marked d w a h
run_job-Marked (streaming bs w) a h = start_continuous_capture-Marked bs w a h
run_job-Marked (recording_iq disk w) a h = record_job-Marked disk w a h
run_job-Marked (updating r files target w) a h =
    let m : Maintenance = record { endpoint = make_maintenance_endpoint w; last_error = [] } in
    end_updating-Marked a (update_firmware r files m (firmware_config target w) []) h
run_job-Marked refreshing a h = refresh-Marked a h
run_job-Marked (setting_clock v) a h = set_now-Marked a (set_reference_clock a.session v) h
run_job-Marked (setting_sample_rate v) a h = set_now-Marked a (set_sample_rate a.session v) h
run_job-Marked (setting_rx_lo v) a h = set_now-Marked a (set_rx_lo a.session v) h
run_job-Marked (setting_rx_gain v) a h = set_now-Marked a (set_rx_gain a.session v) h
