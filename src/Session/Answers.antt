-- ===== src/Session/Answers.antt =====
-- What the answer of a call says: about `last_error`, and about the configuration that is kept.
use antsdr_dfone.Prelude.{
  ℕ, ◌≡◌, ◌≢◌, refl, Bool, true, false, Option, some, none, inl, inr, arith, Bool-cases,
}
use antsdr_dfone.Dial.{Dial}
use antsdr_dfone.Control.{
  ControlClient, control_set_rx_gain, control_set_sample_rate, control_set_rx_lo_frequency,
}
use antsdr_dfone.Session.{
  WorkMode, synchronized_capture, independent_ad9361, ReferenceClock, CaptureConfig, Endpoint,
  LastError, no_error, set_reference_clock_failed, set_sample_rate_failed, set_rx_gain_failed,
  set_rx_lo_failed, mode_not_implemented, Session,
}
use antsdr_dfone.Session.Methods.{
  connected, setting, require_connected, require_mode, connect_session, set_work_mode, configure_lo,
  configure_gain, configure_rate, configure_all, configure, set_reference_clock, set_rx_lo,
  set_rx_gain, set_sample_rate, get_record_storage_has_ssd, failing, clock_setting, store_config,
  store_reference_clock, store_rx_lo, store_rx_gain, store_sample_rate,
}

-- True comes with an empty `last_error`. False comes with a text there, and leaves the configuration
-- and the endpoint that the session reports as they were.
abbrev pub IsHonest : Session → Bool → Session → Type 0
IsHonest s true s' = s'.last_error ≡ no_error
IsHonest s false s' =
    (s'.last_error ≢ no_error) × (s'.config ≡ s.config) × (s'.endpoint ≡ s.endpoint)

pub connect_session-IsHonest :
    (d t : Dial) (s : Session) (e : Endpoint)
    → (let r = connect_session d t s e in IsHonest s r.0 r.1)
unfolding connect_session
connect_session-IsHonest d t s e = ground arith

pub set_work_mode-IsHonest :
    (s : Session) (m : WorkMode) → (let r = set_work_mode s m in IsHonest s r.0 r.1)
unfolding set_work_mode
set_work_mode-IsHonest s synchronized_capture = refl
set_work_mode-IsHonest s independent_ad9361 = (λ e. cc, refl, refl)

abbrev Honest : Session → Bool × Session → Type 0
Honest s r = IsHonest s r.0 r.1

setting-IsHonest :
    (s0 s : Session) (op : ControlClient → Bool × ControlClient) (e : LastError)
    (rest : Session → Bool × Session)
    → e ≢ no_error
    → s.config ≡ s0.config
    → s.endpoint ≡ s0.endpoint
    → ((s' : Session) → s'.config ≡ s0.config → s'.endpoint ≡ s0.endpoint → Honest s0 (rest s'))
    → Honest s0 (setting s op e rest)
unfolding setting
setting-IsHonest s0 s op e rest ne same same' h = go s.control refl
  where
    go : (o : Option ControlClient) → s.control ≡ o → Honest s0 (setting s op e rest)
    go none q = rw (q, setting) (λ x. cc, same, same')
    go (some c) q = elim (Bool-cases (op c).0) [
      | inl t ↦ rw (q, setting) (rw t (h (record s { control = some (op c).1 }) same same'))
      | inr t ↦ rw (q, setting) (rw t (ne, same, same'))
    ]

require_connected-IsHonest :
    (s : Session) (rest : Bool × Session) → Honest s rest → Honest s (require_connected s rest)
require_connected-IsHonest s rest h = elim (Bool-cases (connected s)) [
  | inl t ↦ rw t h
  | inr t ↦ rw t (λ e. cc, refl, refl)
]

pub set_reference_clock-IsHonest :
    (s : Session) (k : ReferenceClock) → Honest s (set_reference_clock s k)
unfolding set_reference_clock
set_reference_clock-IsHonest s k =
    require_connected-IsHonest s
      (setting s (clock_setting k) set_reference_clock_failed (store_reference_clock k))
      (setting-IsHonest s s (clock_setting k) set_reference_clock_failed (store_reference_clock k)
        (λ e. cc) refl refl (λ s' _ _. refl))

pub set_rx_lo-IsHonest : (s : Session) (v : ℕ) → Honest s (set_rx_lo s v)
unfolding set_rx_lo
set_rx_lo-IsHonest s v =
    require_connected-IsHonest s
      (setting s (λ c. control_set_rx_lo_frequency c v) set_rx_lo_failed (store_rx_lo v))
      (setting-IsHonest s s (λ c. control_set_rx_lo_frequency c v) set_rx_lo_failed (store_rx_lo v)
        (λ e. cc) refl refl (λ s' _ _. refl))

pub set_rx_gain-IsHonest : (s : Session) (v : ℕ) → Honest s (set_rx_gain s v)
unfolding set_rx_gain
set_rx_gain-IsHonest s v =
    require_connected-IsHonest s
      (setting s (λ c. control_set_rx_gain c v) set_rx_gain_failed (store_rx_gain v))
      (setting-IsHonest s s (λ c. control_set_rx_gain c v) set_rx_gain_failed (store_rx_gain v)
        (λ e. cc) refl refl (λ s' _ _. refl))

pub set_sample_rate-IsHonest : (s : Session) (v : ℕ) → Honest s (set_sample_rate s v)
unfolding set_sample_rate
set_sample_rate-IsHonest s v =
    require_connected-IsHonest s
      (setting s (λ c. control_set_sample_rate c v) set_sample_rate_failed (store_sample_rate v))
      (setting-IsHonest s s (λ c. control_set_sample_rate c v) set_sample_rate_failed
        (store_sample_rate v) (λ e. cc) refl refl (λ s' _ _. refl))

-- A part of `configure` that runs after others, from a session with the first one's configuration.
abbrev KeepsHonest : (Session → Bool × Session) → Type 0
KeepsHonest f = (s0 s : Session) → s.config ≡ s0.config → s.endpoint ≡ s0.endpoint → Honest s0 (f s)

configure_lo-IsHonest : (c : CaptureConfig) → KeepsHonest (configure_lo c)
unfolding configure_lo
configure_lo-IsHonest c s0 s a b =
    setting-IsHonest s0 s (λ k. control_set_rx_lo_frequency k c.rx_lo_hz) set_rx_lo_failed
      (store_config c) (λ e. cc) a b (λ s' _ _. refl)

configure_gain-IsHonest : (c : CaptureConfig) → KeepsHonest (configure_gain c)
unfolding configure_gain
configure_gain-IsHonest c s0 s a b =
    setting-IsHonest s0 s (λ k. control_set_rx_gain k c.rx_gain_db) set_rx_gain_failed
      (configure_lo c) (λ e. cc) a b (configure_lo-IsHonest c s0)

configure_rate-IsHonest : (c : CaptureConfig) → KeepsHonest (configure_rate c)
unfolding configure_rate
configure_rate-IsHonest c s0 s a b =
    setting-IsHonest s0 s (λ k. control_set_sample_rate k c.sample_rate_hz) set_sample_rate_failed
      (configure_gain c) (λ e. cc) a b (configure_gain-IsHonest c s0)

configure_all-IsHonest : (c : CaptureConfig) → KeepsHonest (configure_all c)
unfolding configure_all
configure_all-IsHonest c s0 s a b =
    setting-IsHonest s0 s (clock_setting c.reference_clock) set_reference_clock_failed
      (configure_rate c) (λ e. cc) a b (configure_rate-IsHonest c s0)

pub require_mode-cases {ℓ κ} :
    {A : Type ℓ} (P : A → Type κ) (m : WorkMode) (rest refused : A)
    → P rest
    → P refused
    → P (require_mode m rest refused)
require_mode-cases P synchronized_capture rest refused p q = p
require_mode-cases P independent_ad9361 rest refused p q = q

pub configure-IsHonest : (s : Session) (c : CaptureConfig) → Honest s (configure s c)
unfolding configure
configure-IsHonest s c =
    require_connected-IsHonest s
      (require_mode c.work_mode (configure_all c s) (failing s mode_not_implemented))
      (require_mode-cases (Honest s) c.work_mode (configure_all c s)
        (failing s mode_not_implemented) (configure_all-IsHonest c s s refl refl)
        (λ e. cc, refl, refl))

pub get_record_storage_has_ssd-IsHonest :
    (s : Session) → (let r = get_record_storage_has_ssd s in IsHonest s r.0 r.2)
unfolding get_record_storage_has_ssd
get_record_storage_has_ssd-IsHonest s = ground arith
