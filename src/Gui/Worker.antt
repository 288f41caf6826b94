-- ===== src/Gui/Worker.antt =====
-- The two threads: the interface starts jobs, asks them to stop, disconnects and shuts down, and the
-- worker runs one job at a time (`start_worker`, `disconnect_device`, `shutdown_app`).
pub mod Reach
pub mod Stops
use antsdr_dfone.Prelude.{
  ℕ, Bool, true, false, not, ◌≡◌, List, [], ◌∷◌, Option, some, none, if◌then◌else◌, Bytes, codes,
}
use antsdr_dfone.Session.{default_capture, new_session}
use antsdr_dfone.Session.Methods.{disconnect_session}
use antsdr_dfone.Gui.App.{
  App, Progress, no_pending, Touch, cancels_capture, cancels_baseband, touch,
}
use antsdr_dfone.Gui.Connection.{Ending}
use antsdr_dfone.Gui.Jobs.{Job, run_job}

-- The shared state, and the job of the worker's thread while it has one.
pub record Desk : Type 0 where
  pub app : App
  pub worker : Option Job

abbrev pub no_progress : Progress
no_progress = record { running = false; written_bytes = 0; total_bytes = 0; stage = [] }

abbrev pub new_app : App
new_app = record {
  session = new_session;
  is_connected = false;
  busy = false;
  status = codes "Idle";
  error = [];
  record_has_ssd = false;
  pending = no_pending;
  last_capture = default_capture;
  capture_running = false;
  capture_cancel = false;
  iterations = 0;
  baseband = no_progress;
  baseband_cancel = false;
  recording = no_progress;
  firmware_running = false;
  maintenance_output = [];
}

abbrev pub new_desk : Desk
new_desk = record { app = new_app; worker = none }

-- The worker's thread has begun.
abbrev pub started : Desk → Bytes → Job → Desk
started d status job = record {
  app = record (d.app) { busy = true; status = status; error = [] };
  worker = some job;
}

unfoldable pub start_worker : Desk → Bytes → Job → Desk
start_worker d status job = if d.app.busy then d else started d status job

-- The end of the worker's function.
abbrev pub end_job : Ending → App
end_job r = record (r.app) {
  busy = false;
  status = if r.ok then codes "Ready" else codes "Failed";
  error = if r.ok then [] else r.message;
}

-- The worker runs its job to the end.
unfoldable pub work : Option Job → App → App
unfolding run_job
work none a = a
work (some job) a = end_job (run_job job a)

unfoldable pub finish_worker : Desk → Desk
unfolding work
finish_worker d = record { app = work d.worker d.app; worker = none }

unfoldable pub disconnect_device : App → App
unfolding disconnect_session
disconnect_device a = if a.busy then a else record a {
  session = disconnect_session a.session;
  is_connected = false;
  status = codes "Disconnected";
  error = [];
  pending = no_pending;
}

-- Jobs are asked to stop, the worker is joined, the session closed.
unfoldable pub shutdown_app : Desk → Desk
unfolding finish_worker disconnect_session
shutdown_app d =
    let e =
      finish_worker (record d { app = touch cancels_baseband (touch cancels_capture d.app) }) in
    record e {
      app = record (e.app) { session = disconnect_session e.app.session; is_connected = false };
    }

-- What the two threads do, in any order: the interface starts a job, waits for its end, stops it or
-- changes its settings, disconnects, and shuts down behind its loop.
pub data Step : Desk → Desk → Type 0 where
  starts : (d : Desk) (status : Bytes) (job : Job) → Step d (start_worker d status job)
  works : (d : Desk) → Step d (finish_worker d)
  touches : (d : Desk) (t : Touch) → Step d (record d { app = touch t d.app })
  disconnects : (d : Desk) → Step d (record d { app = disconnect_device d.app })
  shuts_down : (d : Desk) → Step d (shutdown_app d)

pub data Reaches (d : Desk) : Desk → Type 0 where
  here : Reaches d d
  next : {e f : Desk} → Reaches d e → Step e f → Reaches d f
