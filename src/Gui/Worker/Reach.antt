-- ===== src/Gui/Worker/Reach.antt =====
-- Every state that the two threads can bring about.
use antsdr_dfone.Prelude.{◌≡◌, refl, Option, some, none, if-elim, Bytes}
use antsdr_dfone.Session.Methods.{disconnect_session}
use antsdr_dfone.Gui.App.{
  App, Touch, cancels_capture, cancels_baseband, wants_clock, wants_sample_rate, wants_rx_lo,
  wants_rx_gain, touch,
}
use antsdr_dfone.Gui.Connection.{is_there}
use antsdr_dfone.Gui.Jobs.{Job}
use antsdr_dfone.Gui.Held.{Holds}
use antsdr_dfone.Gui.Held.Running.{run_job-Holds}
use antsdr_dfone.Gui.Marked.{IsMarked, no_marks}
use antsdr_dfone.Gui.Marked.Running.{run_job-Marked}
use antsdr_dfone.Gui.Worker.{
  Desk, new_desk, started, start_worker, work, finish_worker, disconnect_device, shutdown_app, Step,
  starts, works, touches, disconnects, shuts_down, Reaches, here, next,
}

-- The session's clients are sound, and there are none when the program shows no connection; the
-- program is busy exactly while the worker has a job; outside the worker's function nothing is shown
-- as running.
pub record IsTidy (d : Desk) : Type 0 where
  pub held : Holds d.app
  pub paired : d.app.busy ≡ is_there d.worker
  pub unmarked : IsMarked no_marks d.app

start_worker-IsTidy :
    (d : Desk) (status : Bytes) (job : Job) → IsTidy d → IsTidy (start_worker d status job)
unfolding start_worker
start_worker-IsTidy d status job v =
    let begun : IsTidy (started d status job) = record {
      held = v.held;
      paired = refl;
      unmarked = v.unmarked;
    } in
    if-elim IsTidy d.app.busy v begun

finish_worker-IsTidy : (d : Desk) → IsTidy d → IsTidy (finish_worker d)
unfolding finish_worker work
finish_worker-IsTidy d v = go d.worker v.paired
  where
    go :
        (o : Option Job)
        → d.app.busy ≡ is_there o
        → IsTidy (record { app = work o d.app; worker = none })
    go none e = record { held = v.held; paired = e; unmarked = v.unmarked }
    go (some job) e = record {
      held = run_job-Holds job d.app v.held;
      paired = refl;
      unmarked = run_job-Marked job d.app v.unmarked;
    }

touch-IsTidy : (d : Desk) (t : Touch) → IsTidy d → IsTidy (record d { app = touch t d.app })
touch-IsTidy d cancels_capture v = record {
  held = v.held;
  paired = v.paired;
  unmarked = v.unmarked;
}
touch-IsTidy d cancels_baseband v = record {
  held = v.held;
  paired = v.paired;
  unmarked = v.unmarked;
}
touch-IsTidy d (wants_clock k) v = record {
  held = v.held;
  paired = v.paired;
  unmarked = v.unmarked;
}
touch-IsTidy d (wants_sample_rate n) v = record {
  held = v.held;
  paired = v.paired;
  unmarked = v.unmarked;
}
touch-IsTidy d (wants_rx_lo n) v = record {
  held = v.held;
  paired = v.paired;
  unmarked = v.unmarked;
}
touch-IsTidy d (wants_rx_gain n) v = record {
  held = v.held;
  paired = v.paired;
  unmarked = v.unmarked;
}

disconnect_device-IsTidy :
    (d : Desk) → IsTidy d → IsTidy (record d { app = disconnect_device d.app })
unfolding disconnect_device disconnect_session
disconnect_device-IsTidy d v =
    if-elim (λ (a : App). IsTidy (record d { app = a })) d.app.busy v
      (record { held = (tt, λ e. (refl, refl)); paired = v.paired; unmarked = v.unmarked })

shutdown_app-IsTidy : (d : Desk) → IsTidy d → IsTidy (shutdown_app d)
unfolding shutdown_app disconnect_session
shutdown_app-IsTidy d v =
    let a = touch-IsTidy d cancels_capture v in
    let b = touch-IsTidy (record d { app = touch cancels_capture d.app }) cancels_baseband a in
    let c = finish_worker-IsTidy _ b in
    record { held = (tt, λ e. (refl, refl)); paired = c.paired; unmarked = c.unmarked }

Step-IsTidy : {d e : Desk} → Step d e → IsTidy d → IsTidy e
Step-IsTidy (starts d status job) v = start_worker-IsTidy d status job v
Step-IsTidy (works d) v = finish_worker-IsTidy d v
Step-IsTidy (touches d t) v = touch-IsTidy d t v
Step-IsTidy (disconnects d) v = disconnect_device-IsTidy d v
Step-IsTidy (shuts_down d) v = shutdown_app-IsTidy d v

Reaches-IsTidy : {d e : Desk} → IsTidy d → Reaches d e → IsTidy e
Reaches-IsTidy v here = v
Reaches-IsTidy v (next r s) = Step-IsTidy s (Reaches-IsTidy v r)

-- In every state that the interface and the worker can reach from the start, by jobs, requests to
-- stop, waiting settings, disconnections and shutdowns in any order: the session's clients are sound,
-- there are none when the program shows that it is not connected, the program is busy exactly while
-- the worker has a job, and, before and after the function of a job, no capture, recording or update
-- is shown as running.
pub Reaches-new-IsTidy : (d : Desk) → Reaches new_desk d → IsTidy d
unfolding disconnect_session
Reaches-new-IsTidy d r =
    Reaches-IsTidy
      (record {
        held = (tt, λ e. (refl, refl));
        paired = refl;
        unmarked = (refl, (refl, (refl, refl)));
      })
      r
