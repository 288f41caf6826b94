-- ===== src/Gui/Worker/Stops.antt =====
-- A request to stop that comes before the worker's function has begun.
use antsdr_dfone.Prelude.{◌≡◌, refl, ap, true, List, some}
use antsdr_dfone.Gui.App.{App, Snapshot, cancels_capture, cancels_baseband, touch}
use antsdr_dfone.Gui.Baseband.{Output, save_baseband_iq}
use antsdr_dfone.Gui.Continuous.{Beat, start_continuous_capture}
use antsdr_dfone.Gui.Jobs.{streaming, saving, run_job}
use antsdr_dfone.Gui.Worker.{end_job, work}

start_continuous_capture-touch :
    (bs : List Beat) (w : Snapshot) (a : App)
    → a.is_connected ≡ true
    → start_continuous_capture bs w (touch cancels_capture a) ≡ start_continuous_capture bs w a
unfolding start_continuous_capture
start_continuous_capture-touch bs w a h = rw (h, start_continuous_capture) refl

save_baseband_iq-touch :
    (d : Output) (w : Snapshot) (a : App)
    → a.is_connected ≡ true
    → save_baseband_iq d w (touch cancels_baseband a) ≡ save_baseband_iq d w a
unfolding save_baseband_iq
save_baseband_iq-touch d w a h = rw (h, save_baseband_iq) refl

-- A request to stop a continuous capture or a baseband recording that comes when the worker has been
-- started but its function has not begun is lost: the connected program goes on as without it.
pub work-touch :
    (bs : List Beat) (d : Output) (w : Snapshot) (a : App)
    → a.is_connected ≡ true
    → (work (some (streaming bs w)) (touch cancels_capture a) ≡ work (some (streaming bs w)) a)
      × (work (some (saving d w)) (touch cancels_baseband a) ≡ work (some (saving d w)) a)
unfolding work run_job
work-touch bs d w a h = (
  ap end_job (start_continuous_capture-touch bs w a h),
  ap (λ r. end_job r.ending) (save_baseband_iq-touch d w a h),
)
