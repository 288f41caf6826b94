-- ===== src/Gui/Continuous.antt =====
-- `start_continuous_capture`: captures one after another until the interface asks to stop, with the
-- session opened again when it is lost.
use antsdr_dfone.Prelude.{
  suc, Bool, true, false, not, List, [], ◌∷◌, if◌then◌else◌, Bytes, codes, at_least,
}
use antsdr_dfone.Session.{IqCapture, default_capture, error_text}
use antsdr_dfone.Session.Calls.{CaptureCall, capture_iq}
use antsdr_dfone.Gui.App.{App, Snapshot, Touch, cancels_capture, touch, touch_all}
use antsdr_dfone.Gui.Connection.{
  Ending, fails_with, succeeds, mark_disconnected_if_session_closed, app_session_is_connected,
  Retries, reconnect_until_ready, apply_waiting,
}

-- What a round meets: what the interface does before it, the attempts to connect if the session is
-- lost, and whether the interface asks to stop while the worker sleeps.
pub record Beat : Type 0 where
  pub touches : List Touch
  pub retries : Retries
  pub stops_asleep : Bool

-- The loop ends because the interface has asked to stop, or because of an error.
pub data Streak : Type 0 where
  stopped : App → Streak
  broke : Bytes → App → Streak

-- A round is followed by another, or ends the loop.
pub data After : Type 0 where
  again : App → After
  over : Streak → After

abbrev pub after_reconnect : Bool × App → After
after_reconnect (true, a) = again a
after_reconnect (false, a) = over (stopped a)

-- A setting or a capture has failed, with the session's error.
unfoldable pub after_failure : Beat → Snapshot → App → After
unfolding app_session_is_connected reconnect_until_ready
after_failure b w a =
    if not (app_session_is_connected a)
    then after_reconnect (reconnect_until_ready b.retries [] a w)
    else over (broke (error_text a.session.last_error) a)

abbrev pub stored : App → IqCapture → App
stored a capture = record a { last_capture = capture; iterations = suc a.iterations }

abbrev pub after_shot : Beat → Snapshot → App → CaptureCall → After
after_shot b w a r =
    let a' : App = record a { session = r.session } in
    if r.done
    then (if b.stops_asleep
        then over (stopped (touch cancels_capture (stored a' r.out)))
        else again (stored a' r.out))
    else after_failure b w a'

abbrev pub shoot : Beat → Snapshot → Bool × App → After
shoot b w (true, a) = after_shot b w a (capture_iq a.session (at_least 1 w.frames) default_capture)
shoot b w (false, a) = after_failure b w a

unfoldable pub capture_round : Beat → Snapshot → App → After
unfolding touch_all apply_waiting capture_iq after_failure
capture_round b w a0 =
    let a = touch_all b.touches a0 in
    if a.capture_cancel then over (stopped a) else shoot b w (apply_waiting a)

-- Behind the last round the interface asks to stop.
unfoldable pub capture_rounds : List Beat → Snapshot → App → Streak
unfolding capture_round
capture_rounds [] w a = stopped (touch cancels_capture a)
capture_rounds (b ∷ bs) w a = elim (capture_round b w a) [
  | again a' ↦ capture_rounds bs w a'
  | over s ↦ s
]

abbrev pub end_streak : Streak → Ending
end_streak (stopped a) = succeeds (record a { capture_running = false; capture_cancel = false })
end_streak (broke message a) = fails_with message (record (mark_disconnected_if_session_closed a) {
  capture_running = false;
  capture_cancel = false;
})

abbrev pub begin_streak : App → App
begin_streak a = record a { capture_running = true; capture_cancel = false; iterations = 0 }

unfoldable pub start_continuous_capture : List Beat → Snapshot → App → Ending
unfolding capture_rounds mark_disconnected_if_session_closed
start_continuous_capture bs w a =
    if not a.is_connected
    then fails_with (codes "connect first") a
    else end_streak (capture_rounds bs w (begin_streak a))
