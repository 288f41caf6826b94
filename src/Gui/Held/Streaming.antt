-- ===== src/Gui/Held/Streaming.antt =====
-- The session through the continuous capture.
use antsdr_dfone.Prelude.{Bool, true, false, not, List, [], ◌∷◌, if-elim, at_least}
use antsdr_dfone.Session.{default_capture}
use antsdr_dfone.Session.Calls.{CaptureCall, capture_iq}
use antsdr_dfone.Gui.App.{App, Snapshot, touch_all}
use antsdr_dfone.Gui.Connection.{
  Ending, app_session_is_connected, reconnect_until_ready, apply_waiting,
}
use antsdr_dfone.Gui.Continuous.{
  Beat, Streak, stopped, broke, After, again, over, after_reconnect, after_failure, after_shot,
  shoot, capture_round, capture_rounds, begin_streak, end_streak, start_continuous_capture,
}
use antsdr_dfone.Gui.Held.Saving.{capture-IsHeld}
use antsdr_dfone.Gui.Held.{
  IsHeld, Holds, touch_all-Holds, mark_disconnected-Holds, reconnect_until_ready-Holds,
  apply_waiting-Holds,
}

abbrev StreakHolds : Streak → Type 0
StreakHolds (stopped a) = Holds a
StreakHolds (broke message a) = Holds a

abbrev AfterHolds : After → Type 0
AfterHolds (again a) = Holds a
AfterHolds (over s) = StreakHolds s

after_reconnect-Holds : (r : Bool × App) → Holds r.1 → AfterHolds (after_reconnect r)
after_reconnect-Holds (true, a) h = h
after_reconnect-Holds (false, a) h = h

after_failure-Holds :
    (b : Beat) (w : Snapshot) (a : App) → Holds a → AfterHolds (after_failure b w a)
unfolding after_failure
after_failure-Holds b w a h =
    if-elim AfterHolds (not (app_session_is_connected a))
      (after_reconnect-Holds (reconnect_until_ready b.retries [] a w)
        (reconnect_until_ready-Holds b.retries [] a w h))
      h

after_shot-Holds :
    (b : Beat) (w : Snapshot) (a : App) (r : CaptureCall)
    → IsHeld r.session a.is_connected
    → AfterHolds (after_shot b w a r)
after_shot-Holds b w a r h =
    if-elim AfterHolds r.done (if-elim AfterHolds b.stops_asleep h h)
      (after_failure-Holds b w (record a { session = r.session }) h)

shoot-Holds : (b : Beat) (w : Snapshot) (r : Bool × App) → Holds r.1 → AfterHolds (shoot b w r)
shoot-Holds b w (true, a) h =
    after_shot-Holds b w a (capture_iq a.session (at_least 1 w.frames) default_capture)
      (capture-IsHeld a.session a.is_connected (at_least 1 w.frames) h)
shoot-Holds b w (false, a) h = after_failure-Holds b w a h

capture_round-Holds :
    (b : Beat) (w : Snapshot) (a : App) → Holds a → AfterHolds (capture_round b w a)
unfolding capture_round
capture_round-Holds b w a0 h =
    let a = touch_all b.touches a0 in
    let k = touch_all-Holds b.touches a0 h in
    if-elim AfterHolds a.capture_cancel k
      (shoot-Holds b w (apply_waiting a) (apply_waiting-Holds a k))

capture_rounds-Holds :
    (bs : List Beat) (w : Snapshot) (a : App) → Holds a → StreakHolds (capture_rounds bs w a)
unfolding capture_rounds
capture_rounds-Holds [] w a h = h
capture_rounds-Holds (b ∷ bs) w a h =
    go (capture_round b w a) (capture_round-Holds b w a h) (λ a' p. capture_rounds-Holds bs w a' p)
  where
    go :
        (r : After)
        → AfterHolds r
        → ((a' : App) → Holds a' → StreakHolds (capture_rounds bs w a'))
        → StreakHolds (elim r [ again a' ↦ capture_rounds bs w a' | over s ↦ s ])
    go (again a') p rest = rest a' p
    go (over s) p rest = p

end_streak-Holds : (s : Streak) → StreakHolds s → Holds (end_streak s).app
end_streak-Holds (stopped a) h = h
end_streak-Holds (broke message a) h = mark_disconnected-Holds a h

pub start_continuous_capture-Holds :
    (bs : List Beat) (w : Snapshot) (a : App)
    → Holds a
    → Holds (start_continuous_capture bs w a).app
unfolding start_continuous_capture
start_continuous_capture-Holds bs w a h =
    if-elim (λ (e : Ending). Holds e.app) (not a.is_connected) h
      (end_streak-Holds (capture_rounds bs w (begin_streak a))
        (capture_rounds-Holds bs w (begin_streak a) h))
