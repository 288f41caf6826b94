-- ===== src/Session/Invariant.antt =====
-- The clients that a session holds, and the settings.
use antsdr_dfone.Prelude.{ℕ, ◌%◌, ◌≡◌, refl, Bool, Option, some, none, inl, inr, arith, Bool-cases}
use antsdr_dfone.Dial.{Dial}
use antsdr_dfone.Stream.{StreamClient, new_stream}
use antsdr_dfone.Stream.Invariant.{new_stream-IsValid, open_stream-IsValid}
use antsdr_dfone.Control.{
  ControlClient, new_control, control_set_rx_gain, control_set_ref_clock_source,
  control_set_sample_rate, control_set_rx_lo_frequency,
}
use antsdr_dfone.Control.Commands
use antsdr_dfone.Control.Commands.{
  new_control-IsValid, connect-IsValid, send_command-IsValid, control_has_ssd-IsValid,
}
use antsdr_dfone.Acquire.Invariant
use antsdr_dfone.Acquire.Invariant.{send_command_for_capture-IsValid, start_record-IsValid}
use antsdr_dfone.Session.{
  WorkMode, synchronized_capture, independent_ad9361, ReferenceClock, clock_code, CaptureConfig,
  Endpoint, LastError, set_reference_clock_failed, set_sample_rate_failed, set_rx_gain_failed,
  set_rx_lo_failed, mode_not_implemented, Session, to_internal_endpoint,
}
use antsdr_dfone.Session.Methods.{
  setting, require_connected, require_mode, connect_session, disconnect_session, set_work_mode,
  configure_lo, configure_gain, configure_rate, configure_all, configure, set_reference_clock,
  set_rx_lo, set_rx_gain, set_sample_rate, failing, clock_setting, store_config,
  store_reference_clock, store_rx_lo, store_rx_gain, store_sample_rate,
}
use antsdr_dfone.Session.Answers.{require_mode-cases}

abbrev pub Held : Option ControlClient → Option StreamClient → Type 0
Held none none = Unit {0}
Held (some c) (some t) = Invariant.IsValid c t
Held none (some t) = ⊥
Held (some c) none = ⊥

abbrev pub IsSound : Session → Type 0
IsSound s = Held s.control s.stream

abbrev KeepsValid : (ControlClient → Bool × ControlClient) → Type 0
KeepsValid op = (c : ControlClient) → Commands.IsValid c → Commands.IsValid (op c).1

clock_setting-KeepsValid : (k : ReferenceClock) → KeepsValid (clock_setting k)
unfolding control_set_ref_clock_source
clock_setting-KeepsValid k c v = send_command-IsValid c 0x1e (clock_code k % 4 % 4) v

rx_lo-KeepsValid : (x : ℕ) → KeepsValid (λ c. control_set_rx_lo_frequency c x)
unfolding control_set_rx_lo_frequency
rx_lo-KeepsValid x c v = send_command-IsValid c 0x31 x v

rx_gain-KeepsValid : (x : ℕ) → KeepsValid (λ c. control_set_rx_gain c x)
unfolding control_set_rx_gain
rx_gain-KeepsValid x c v = send_command-IsValid c 0x00 x v

sample_rate-KeepsValid : (x : ℕ) → KeepsValid (λ c. control_set_sample_rate c x)
unfolding control_set_sample_rate
sample_rate-KeepsValid x c v = send_command-IsValid c 0x01 x v

abbrev pub KeepsSound : (Session → Bool × Session) → Type 0
KeepsSound f = (s : Session) → IsSound s → IsSound (f s).1

setting-IsSound :
    (op : ControlClient → Bool × ControlClient) (e : LastError) (rest : Session → Bool × Session)
    → KeepsValid op
    → KeepsSound rest
    → KeepsSound (λ s. setting s op e rest)
unfolding setting
setting-IsSound op e rest k h s v = go s.control s.stream refl refl v
  where
    go :
        (c : Option ControlClient) (t : Option StreamClient)
        → s.control ≡ c
        → s.stream ≡ t
        → Held c t
        → IsSound (setting s op e rest).1
    go none none p q w = rw (p, setting) v
    go none (some t) p q w = absurd w
    go (some c) none p q w = absurd w
    go (some c) (some t) p q w =
        let s' : Session = record s { control = some (op c).1 } in
        let w' : IsSound s' =
          rw q (record { control_valid = k c w.control_valid; stream_valid = w.stream_valid }) in
        elim (Bool-cases (op c).0) [
          | inl b ↦ rw (p, setting) (rw b (h s' w'))
          | inr b ↦ rw (p, setting) (rw b w')
        ]

require_connected-IsSound :
    (s : Session) (rest : Bool × Session)
    → IsSound s
    → IsSound rest.1
    → IsSound (require_connected s rest).1
require_connected-IsSound s rest v w = ground arith

pub set_reference_clock-IsSound : (x : ReferenceClock) → KeepsSound (λ s. set_reference_clock s x)
unfolding set_reference_clock
set_reference_clock-IsSound x s v =
    require_connected-IsSound s
      (setting s (clock_setting x) set_reference_clock_failed (store_reference_clock x)) v
      (setting-IsSound (clock_setting x) set_reference_clock_failed (store_reference_clock x)
        (clock_setting-KeepsValid x) (λ s' v'. v') s v)

pub set_rx_lo-IsSound : (x : ℕ) → KeepsSound (λ s. set_rx_lo s x)
unfolding set_rx_lo
set_rx_lo-IsSound x s v =
    require_connected-IsSound s
      (setting s (λ c. control_set_rx_lo_frequency c x) set_rx_lo_failed (store_rx_lo x)) v
      (setting-IsSound (λ c. control_set_rx_lo_frequency c x) set_rx_lo_failed (store_rx_lo x)
        (rx_lo-KeepsValid x) (λ s' v'. v') s v)

pub set_rx_gain-IsSound : (x : ℕ) → KeepsSound (λ s. set_rx_gain s x)
unfolding set_rx_gain
set_rx_gain-IsSound x s v =
    require_connected-IsSound s
      (setting s (λ c. control_set_rx_gain c x) set_rx_gain_failed (store_rx_gain x)) v
      (setting-IsSound (λ c. control_set_rx_gain c x) set_rx_gain_failed (store_rx_gain x)
        (rx_gain-KeepsValid x) (λ s' v'. v') s v)

pub set_sample_rate-IsSound : (x : ℕ) → KeepsSound (λ s. set_sample_rate s x)
unfolding set_sample_rate
set_sample_rate-IsSound x s v =
    require_connected-IsSound s
      (setting s (λ c. control_set_sample_rate c x) set_sample_rate_failed (store_sample_rate x)) v
      (setting-IsSound (λ c. control_set_sample_rate c x) set_sample_rate_failed
        (store_sample_rate x) (sample_rate-KeepsValid x) (λ s' v'. v') s v)

configure_all-IsSound : (c : CaptureConfig) → KeepsSound (configure_all c)
unfolding configure_all configure_rate configure_gain configure_lo
configure_all-IsSound c =
    setting-IsSound (clock_setting c.reference_clock) set_reference_clock_failed (configure_rate c)
      (clock_setting-KeepsValid c.reference_clock)
      (setting-IsSound (λ k. control_set_sample_rate k c.sample_rate_hz) set_sample_rate_failed
        (configure_gain c) (sample_rate-KeepsValid c.sample_rate_hz)
        (setting-IsSound (λ k. control_set_rx_gain k c.rx_gain_db) set_rx_gain_failed
          (configure_lo c) (rx_gain-KeepsValid c.rx_gain_db)
          (setting-IsSound (λ k. control_set_rx_lo_frequency k c.rx_lo_hz) set_rx_lo_failed
            (store_config c) (rx_lo-KeepsValid c.rx_lo_hz) (λ s v. v))))

pub configure-IsSound : (c : CaptureConfig) → KeepsSound (λ s. configure s c)
unfolding configure
configure-IsSound c s v =
    require_connected-IsSound s
      (require_mode c.work_mode (configure_all c s) (failing s mode_not_implemented)) v
      (require_mode-cases (λ (r : Bool × Session). IsSound r.1) c.work_mode (configure_all c s)
        (failing s mode_not_implemented) (configure_all-IsSound c s v) v)

pub connect_session-IsSound :
    (d t : Dial) (e : Endpoint) → KeepsSound (λ s. connect_session d t s e)
unfolding connect_session disconnect_session
connect_session-IsSound d t e s v = ground (
  arith,
  connect-IsValid d (new_control (to_internal_endpoint e)) (new_control-IsValid _),
  open_stream-IsValid t (new_stream (to_internal_endpoint e)) (new_stream-IsValid _),
)

pub set_work_mode-IsSound : (m : WorkMode) → KeepsSound (λ s. set_work_mode s m)
unfolding set_work_mode
set_work_mode-IsSound synchronized_capture s v = v
set_work_mode-IsSound independent_ad9361 s v = v
