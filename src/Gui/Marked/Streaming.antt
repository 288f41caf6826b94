-- ===== src/Gui/Marked/Streaming.antt =====
-- What the program shows as running, through the continuous capture.
use antsdr_dfone.Prelude.{refl, Bool, true, false, not, List, [], ◌∷◌, if-elim, at_least}
use antsdr_dfone.Session.{default_capture}
use antsdr_dfone.Session.Calls.{CaptureCall, capture_iq}
use antsdr_dfone.Gui.App.{App, Snapshot, touch_all}
use antsdr_dfone.Gui.Connection.{
  Ending, app_session_is_connected, reconnect_until_ready, apply_waiting,
}
use antsdr_dfone.Gui.Continuous.{
  Beat, Streak, stopped, broke, After, again, over, after_reconnect, after_failure, after_shot,
  shoot, capture_round, capture_rounds, begin_streak, end_streak, start_continuous_capture,
}
use antsdr_dfone.Gui.Marked.{
  Marks, IsMarked, no_marks, touch_all-IsMarked, mark_disconnected-IsMarked,
  reconnect_until_ready-IsMarked, apply_waiting-IsMarked,
}

-- While the job runs.
abbrev marks : Marks
marks = record no_marks { capture = true }

abbrev StreakMarked : Streak → Type 0
StreakMarked (stopped a) = IsMarked marks a
StreakMarked (broke message a) = IsMarked marks a

abbrev AfterMarked : After → Type 0
AfterMarked (again a) = IsMarked marks a
AfterMarked (over s) = StreakMarked s

after_reconnect-Marked : (r : Bool × App) → IsMarked marks r.1 → AfterMarked (after_reconnect r)
after_reconnect-Marked (true, a) h = h
after_reconnect-Marked (false, a) h = h

after_failure-Marked :
    (b : Beat) (w : Snapshot) (a : App) → IsMarked marks a → AfterMarked (after_failure b w a)
unfolding after_failure
after_failure-Marked b w a h =
    if-elim AfterMarked (not (app_session_is_connected a))
      (after_reconnect-Marked (reconnect_until_ready b.retries [] a w)
        (reconnect_until_ready-IsMarked marks b.retries [] a w h))
      h

after_shot-Marked :
    (b : Beat) (w : Snapshot) (a : App) (r : CaptureCall)
    → IsMarked marks a
    → AfterMarked (after_shot b w a r)
after_shot-Marked b w a r h =
    if-elim AfterMarked r.done (if-elim AfterMarked b.stops_asleep h h)
      (after_failure-Marked b w (record a { session = r.session }) h)

shoot-Marked :
    (b : Beat) (w : Snapshot) (r : Bool × App) → IsMarked marks r.1 → AfterMarked (shoot b w r)
shoot-Marked b w (true, a) h =
    after_shot-Marked b w a (capture_iq a.session (at_least 1 w.frames) default_capture) h
shoot-Marked b w (false, a) h = after_failure-Marked b w a h

capture_round-Marked :
    (b : Beat) (w : Snapshot) (a : App) → IsMarked marks a → AfterMarked (capture_round b w a)
unfolding capture_round
capture_round-Marked b w a0 h =
    let a = touch_all b.touches a0 in
    let k = touch_all-IsMarked marks b.touches a0 h in
    if-elim AfterMarked a.capture_cancel k
      (shoot-Marked b w (apply_waiting a) (apply_waiting-IsMarked marks a k))

capture_rounds-Marked :
    (bs : List Beat) (w : Snapshot) (a : App)
    → IsMarked marks a
    → StreakMarked (capture_rounds bs w a)
unfolding capture_rounds
capture_rounds-Marked [] w a h = h
capture_rounds-Marked (b ∷ bs) w a h =
    go (capture_round b w a) (capture_round-Marked b w a h)
      (λ a' p. capture_rounds-Marked bs w a' p)
  where
    go :
        (r : After)
        → AfterMarked r
        → ((a' : App) → IsMarked marks a' → StreakMarked (capture_rounds bs w a'))
        → StreakMarked (elim r [ again a' ↦ capture_rounds bs w a' | over s ↦ s ])
    go (again a') p rest = rest a' p
    go (over s) p rest = p

end_streak-Marked : (s : Streak) → StreakMarked s → IsMarked no_marks (end_streak s).app
end_streak-Marked (stopped a) h = (refl, h.1)
end_streak-Marked (broke message a) h = (refl, (mark_disconnected-IsMarked marks a h).1)

pub start_continuous_capture-Marked :
    (bs : List Beat) (w : Snapshot) (a : App)
    → IsMarked no_marks a
    → IsMarked no_marks (start_continuous_capture bs w a).app
unfolding start_continuous_capture
start_continuous_capture-Marked bs w a h =
    if-elim (λ (e : Ending). IsMarked no_marks e.app) (not a.is_connected) h
      (end_streak-Marked (capture_rounds bs w (begin_streak a))
        (capture_rounds-Marked bs w (begin_streak a) (refl, h.1)))
