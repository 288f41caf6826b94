-- ===== src/Gui/Held.antt =====
-- What holds of the program's session through every job: its clients are sound, and there are none
-- when the program shows that it is not connected.
pub mod Saving
pub mod Streaming
pub mod Running
use antsdr_dfone.Prelude.{
  ℕ, ◌≡◌, refl, sym, subst, ap, Bool, true, false, not, List, [], ◌∷◌, Option, some, none, inl, inr,
  arith, Bool-cases, if-elim, if◌then◌else◌, Bytes,
}
use antsdr_dfone.Session.{Session, new_session, ReferenceClock}
use antsdr_dfone.Session.Methods.{
  disconnect_session, connected, connect_session, configure, get_record_storage_has_ssd,
  set_reference_clock, set_sample_rate, set_rx_lo, set_rx_gain,
}
use antsdr_dfone.Session.Calls.{
  Call, configures, asks_ssd, sets_reference_clock, sets_sample_rate, sets_rx_lo, sets_rx_gain,
  step,
}
use antsdr_dfone.Session.Invariant.{IsSound, connect_session-IsSound}
use antsdr_dfone.Session.Reach.{step-IsSound}
use antsdr_dfone.Session.Empty.{IsEmpty, IsNoConnection, step-IsEmpty}
use antsdr_dfone.Gui.App.{
  App, Snapshot, Pending, Touch, cancels_capture, cancels_baseband, wants_clock, wants_sample_rate,
  wants_rx_lo, wants_rx_gain, touch, touch_all, make_endpoint, make_config,
}
use antsdr_dfone.Gui.Connection.{
  Line, Opened, opened_session, not_opened, end_opening, ask_storage, configure_opened,
  open_configured_session, forget_session, mark_disconnected_if_session_closed, adopt, Ending,
  reconnect_app_session, Retries, stops, tries, reconnect_until_ready, lost_text, attempted,
  apply_one, has_update, apply_pending_control_update, apply_taken, take_pending_control_update,
  apply_waiting,
}

-- Of the session and of what the program shows of it.
abbrev pub IsHeld : Session → Bool → Type 0
IsHeld s shown = IsSound s × (shown ≡ false → IsEmpty s)

abbrev pub Holds : App → Type 0
Holds a = IsHeld a.session a.is_connected

pub call-IsHeld :
    (s : Session) (shown : Bool) (c : Call) (s' : Session)
    → IsNoConnection c
    → (step s c).1 ≡ s'
    → IsHeld s shown
    → IsHeld s' shown
call-IsHeld s shown c s' n e h =
    subst (λ x. IsHeld x shown) e (step-IsSound s c h.0, λ p. step-IsEmpty s c n (h.1 p))

pub touch_all-Holds : (ts : List Touch) (a : App) → Holds a → Holds (touch_all ts a)
unfolding touch_all
touch_all-Holds [] a h = h
touch_all-Holds (cancels_capture ∷ ts) a h = touch_all-Holds ts (touch cancels_capture a) h
touch_all-Holds (cancels_baseband ∷ ts) a h = touch_all-Holds ts (touch cancels_baseband a) h
touch_all-Holds (wants_clock v ∷ ts) a h = touch_all-Holds ts (touch (wants_clock v) a) h
touch_all-Holds (wants_sample_rate v ∷ ts) a h =
    touch_all-Holds ts (touch (wants_sample_rate v) a) h
touch_all-Holds (wants_rx_lo v ∷ ts) a h = touch_all-Holds ts (touch (wants_rx_lo v) a) h
touch_all-Holds (wants_rx_gain v ∷ ts) a h = touch_all-Holds ts (touch (wants_rx_gain v) a) h

pub forget_session-Holds : (a : App) → Holds (forget_session a)
unfolding disconnect_session
forget_session-Holds a = (tt, λ e. (refl, refl))

pub mark_disconnected-Holds : (a : App) → Holds a → Holds (mark_disconnected_if_session_closed a)
unfolding mark_disconnected_if_session_closed
mark_disconnected-Holds a h = if-elim Holds (not (connected a.session)) (forget_session-Holds a) h

abbrev pub OpensSound : Opened → Type 0
OpensSound (opened_session s has_ssd) = IsSound s
OpensSound (not_opened e) = Unit {0}

pub open_configured_session-OpensSound :
    (l : Line) (w : Snapshot) → OpensSound (open_configured_session l w)
unfolding open_configured_session step
open_configured_session-OpensSound l w =
    configured (connect_session l.dial_control l.dial_stream new_session (make_endpoint w))
      (connect_session-IsSound l.dial_control l.dial_stream (make_endpoint w) new_session tt)
  where
    ended : (r : Bool × Bool × Session) → IsSound r.2 → OpensSound (end_opening r)
    ended (true, has_ssd, s) h = h
    ended (false, has_ssd, s) h = tt

    asked : (r : Bool × Session) → IsSound r.1 → OpensSound (ask_storage r)
    asked (true, s) h = ended (get_record_storage_has_ssd s) (step-IsSound s asks_ssd h)
    asked (false, s) h = tt

    configured : (r : Bool × Session) → IsSound r.1 → OpensSound (configure_opened w r)
    configured (true, s) h =
        asked (configure s (make_config w)) (step-IsSound s (configures (make_config w)) h)
    configured (false, s) h = tt

pub reconnect_app_session-Holds :
    (a : App) (l : Line) (w : Snapshot) → Holds (reconnect_app_session a l w).app
unfolding reconnect_app_session
reconnect_app_session-Holds a l w =
    go (open_configured_session l w) (open_configured_session-OpensSound l w)
  where
    go : (o : Opened) → OpensSound o → Holds (adopt (forget_session a) o).app
    go (opened_session s has_ssd) h = (h, λ e. absurd (ground arith))
    go (not_opened e) h = forget_session-Holds a

pub reconnect_until_ready-Holds :
    (rs : Retries) (last : Bytes) (a : App) (w : Snapshot)
    → Holds a
    → Holds (reconnect_until_ready rs last a w).1
unfolding reconnect_until_ready
reconnect_until_ready-Holds stops last a w h = h
reconnect_until_ready-Holds (tries l more) last a w h =
    let b : App = record a { error = lost_text last } in
    if-elim (λ (x : Bool × App). Holds x.1) a.capture_cancel h
      (go (reconnect_app_session b l w) (reconnect_app_session-Holds b l w)
        (reconnect_until_ready-Holds more _ _ w (reconnect_app_session-Holds b l w)))
  where
    go :
        (r : Ending)
        → Holds r.app
        → Holds (reconnect_until_ready more r.message r.app w).1
        → Holds (attempted r (reconnect_until_ready more r.message r.app w)).1
    go r k rest = elim (Bool-cases r.ok) [ inl t ↦ rw t k | inr t ↦ rw t rest ]

-- A setting that waits is one call.
apply_one-IsHeld :
    {A : Type 0} (o : Option A) (op : Session → A → Bool × Session) (call : A → Call)
    (rest : Session → Bool × Session) (shown : Bool)
    → ((v : A) → IsNoConnection (call v))
    → ((s : Session) (v : A) → (step s (call v)).1 ≡ (op s v).1)
    → ((s : Session) → IsHeld s shown → IsHeld (rest s).1 shown)
    → (s : Session) → IsHeld s shown
    → IsHeld (apply_one o op s rest).1 shown
apply_one-IsHeld none op call rest shown n e k s h = k s h
apply_one-IsHeld (some v) op call rest shown n e k s h =
    go (op s v) (call-IsHeld s shown (call v) (op s v).1 (n v) (e s v) h)
  where
    go :
        (r : Bool × Session)
        → IsHeld r.1 shown
        → IsHeld (if r.0 then rest r.1 else (false, r.1)).1 shown
    go (true, s') h' = k s' h'
    go (false, s') h' = h'

apply_pending-IsHeld :
    (p : Pending) (shown : Bool) (s : Session)
    → IsHeld s shown
    → IsHeld (apply_pending_control_update s p).1 shown
unfolding apply_pending_control_update step
apply_pending-IsHeld p shown =
    apply_one-IsHeld p.reference_clock set_reference_clock sets_reference_clock _ shown (λ v. tt)
      (λ s v. refl)
      (apply_one-IsHeld p.sample_rate_hz set_sample_rate sets_sample_rate _ shown (λ v. tt)
        (λ s v. refl)
        (apply_one-IsHeld p.rx_lo_hz set_rx_lo sets_rx_lo _ shown (λ v. tt) (λ s v. refl)
          (apply_one-IsHeld p.rx_gain_db set_rx_gain sets_rx_gain _ shown (λ v. tt) (λ s v. refl)
            (λ s h. h))))

pub apply_waiting-Holds : (a : App) → Holds a → Holds (apply_waiting a).1
unfolding apply_waiting take_pending_control_update
apply_waiting-Holds a h =
    if-elim (λ (x : Option Pending × App). Holds (apply_taken x).1) (has_update a.pending)
      (apply_pending-IsHeld a.pending a.is_connected a.session h) h
