-- ===== src/Gui/Marked.antt =====
-- What the program shows as running, through the operations that the jobs share.
pub mod Saving
pub mod Streaming
pub mod Running
use antsdr_dfone.Prelude.{
  ◌≡◌, Bool, true, false, not, List, [], ◌∷◌, Option, inl, inr, Bool-cases, if-elim, if◌then◌else◌,
  Bytes,
}
use antsdr_dfone.Session.Methods.{connected}
use antsdr_dfone.Gui.App.{
  App, Snapshot, Pending, Touch, cancels_capture, cancels_baseband, wants_clock, wants_sample_rate,
  wants_rx_lo, wants_rx_gain, touch, touch_all,
}
use antsdr_dfone.Gui.Connection.{
  Line, Opened, opened_session, not_opened, open_configured_session, forget_session,
  mark_disconnected_if_session_closed, adopt, Ending, reconnect_app_session, Retries, stops, tries,
  reconnect_until_ready, lost_text, attempted, has_update, apply_taken, take_pending_control_update,
  apply_waiting,
}

pub record Marks : Type 0 where
  pub capture : Bool
  pub baseband : Bool
  pub recording : Bool
  pub firmware : Bool

abbrev pub IsMarked : Marks → App → Type 0
IsMarked m a =
    (a.capture_running ≡ m.capture)
    × ((a.baseband.running ≡ m.baseband)
        × ((a.recording.running ≡ m.recording) × (a.firmware_running ≡ m.firmware)))

-- Nothing is shown as running.
abbrev pub no_marks : Marks
no_marks = record { capture = false; baseband = false; recording = false; firmware = false }

module _ (m : Marks) where
  pub touch_all-IsMarked : (ts : List Touch) (a : App) → IsMarked m a → IsMarked m (touch_all ts a)
  unfolding touch_all
  touch_all-IsMarked [] a h = h
  touch_all-IsMarked (cancels_capture ∷ ts) a h = touch_all-IsMarked ts (touch cancels_capture a) h
  touch_all-IsMarked (cancels_baseband ∷ ts) a h =
      touch_all-IsMarked ts (touch cancels_baseband a) h
  touch_all-IsMarked (wants_clock v ∷ ts) a h = touch_all-IsMarked ts (touch (wants_clock v) a) h
  touch_all-IsMarked (wants_sample_rate v ∷ ts) a h =
      touch_all-IsMarked ts (touch (wants_sample_rate v) a) h
  touch_all-IsMarked (wants_rx_lo v ∷ ts) a h = touch_all-IsMarked ts (touch (wants_rx_lo v) a) h
  touch_all-IsMarked (wants_rx_gain v ∷ ts) a h =
      touch_all-IsMarked ts (touch (wants_rx_gain v) a) h

  pub mark_disconnected-IsMarked :
      (a : App) → IsMarked m a → IsMarked m (mark_disconnected_if_session_closed a)
  unfolding mark_disconnected_if_session_closed
  mark_disconnected-IsMarked a h = if-elim (IsMarked m) (not (connected a.session)) h h

  reconnect_app_session-IsMarked :
      (a : App) (l : Line) (w : Snapshot)
      → IsMarked m a
      → IsMarked m (reconnect_app_session a l w).app
  unfolding reconnect_app_session
  reconnect_app_session-IsMarked a l w h = go (open_configured_session l w)
    where
      go : (o : Opened) → IsMarked m (adopt (forget_session a) o).app
      go (opened_session s has_ssd) = h
      go (not_opened e) = h

  pub reconnect_until_ready-IsMarked :
      (rs : Retries) (last : Bytes) (a : App) (w : Snapshot)
      → IsMarked m a
      → IsMarked m (reconnect_until_ready rs last a w).1
  unfolding reconnect_until_ready
  reconnect_until_ready-IsMarked stops last a w h = h
  reconnect_until_ready-IsMarked (tries l more) last a w h =
      let b : App = record a { error = lost_text last } in
      let k = reconnect_app_session-IsMarked b l w h in
      if-elim (λ (x : Bool × App). IsMarked m x.1) a.capture_cancel h
        (go (reconnect_app_session b l w) k (reconnect_until_ready-IsMarked more _ _ w k))
    where
      go :
          (r : Ending)
          → IsMarked m r.app
          → IsMarked m (reconnect_until_ready more r.message r.app w).1
          → IsMarked m (attempted r (reconnect_until_ready more r.message r.app w)).1
      go r k rest = elim (Bool-cases r.ok) [ inl t ↦ rw t k | inr t ↦ rw t rest ]

  pub apply_waiting-IsMarked : (a : App) → IsMarked m a → IsMarked m (apply_waiting a).1
  unfolding apply_waiting take_pending_control_update
  apply_waiting-IsMarked a h =
      if-elim (λ (x : Option Pending × App). IsMarked m (apply_taken x).1) (has_update a.pending) h
        h
