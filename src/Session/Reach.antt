-- ===== src/Session/Reach.antt =====
-- The invariant over captures, recordings and any sequence of calls.
use antsdr_dfone.Prelude.{
  ℕ, ◌≡◌, refl, Bool, List, [], ◌∷◌, Option, some, none, inl, inr, arith, Bool-cases,
}
use antsdr_dfone.Stream.{StreamClient, Disk}
use antsdr_dfone.Control.{ControlClient, control_has_ssd, encode_capture_sample_count}
use antsdr_dfone.Control.Commands.{control_has_ssd-IsValid}
use antsdr_dfone.Acquire.{Clients, Captured, request_synchronized_iq, request_uncorrected_iq}
use antsdr_dfone.Acquire.Invariant
use antsdr_dfone.Acquire.Invariant.{send_command_for_capture-IsValid, start_record-IsValid}
use antsdr_dfone.Session.{
  IqKind, calibrated, uncorrected, capture_failed, capture_uncorrected_failed, LastError,
  mode_not_implemented, IqCapture, RecordConfig, default_capture, Session,
  to_internal_record_request,
}
use antsdr_dfone.Session.Methods.{
  connected, disconnect_session, ssd_with, end_ssd, get_record_storage_has_ssd,
}
use antsdr_dfone.Session.Answers.{require_mode-cases}
use antsdr_dfone.Session.Calls.{
  CaptureCall, RecordCall, end_capture, capture_with, capture_call, capture_iq,
  capture_uncorrected_iq, end_record, record_with, record_iq, Call, connects, disconnects,
  sets_work_mode, configures, sets_reference_clock, sets_rx_lo, sets_rx_gain, sets_sample_rate,
  asks_ssd, captures, captures_uncorrected, records, step, run, no_capture, no_record,
}
use antsdr_dfone.Session.{new_session}
use antsdr_dfone.Session.Invariant.{
  Held, IsSound, connect_session-IsSound, set_work_mode-IsSound, set_reference_clock-IsSound,
  set_rx_lo-IsSound, set_rx_gain-IsSound, set_sample_rate-IsSound, configure-IsSound,
}

module _ (s : Session) where
  end_ssd-IsSound :
      (t : StreamClient) (r : Option Bool × ControlClient)
      → s.stream ≡ some t
      → Invariant.IsValid r.1 t
      → IsSound (end_ssd s r).2
  unfolding end_ssd
  end_ssd-IsSound t (none, c) q v = rw q v
  end_ssd-IsSound t (some b, c) q v = rw q v

  ssd_with-IsSound :
      (c : Option ControlClient) (t : Option StreamClient)
      → s.control ≡ c
      → s.stream ≡ t
      → Held c t
      → IsSound (ssd_with s c).2
  unfolding ssd_with
  ssd_with-IsSound none none p q v = rw (p, q) v
  ssd_with-IsSound none (some t) p q v = absurd v
  ssd_with-IsSound (some c) none p q v = absurd v
  ssd_with-IsSound (some c) (some t) p q v = end_ssd-IsSound t (control_has_ssd c) q (record {
    control_valid = control_has_ssd-IsValid c v.control_valid;
    stream_valid = v.stream_valid;
  })

  get_record_storage_has_ssd-IsSound : IsSound s → IsSound (get_record_storage_has_ssd s).2
  unfolding get_record_storage_has_ssd
  get_record_storage_has_ssd-IsSound v =
      ground (arith, ssd_with-IsSound s.control s.stream refl refl v)

-- A request that keeps both clients in order.
abbrev KeepsClients : (Clients → ℕ → Captured) → Type 0
KeepsClients request =
    (k : Clients) (n : ℕ)
    → Invariant.IsValid k.control k.stream
    → (let k' = (request k n).clients in Invariant.IsValid k'.control k'.stream)

module _ (request : Clients → ℕ → Captured) (keeps : KeepsClients request) (s : Session)
    (k : IqKind) (e : LastError) (n : ℕ) (out : IqCapture) where
  end_capture-IsSound :
      (r : Captured)
      → Invariant.IsValid r.clients.control r.clients.stream
      → IsSound (end_capture s k e out r).session
  unfolding end_capture
  end_capture-IsSound r v = ground arith

  capture_with-IsSound :
      (c : Option ControlClient) (t : Option StreamClient)
      → s.control ≡ c
      → s.stream ≡ t
      → Held c t
      → IsSound (capture_with request s k e n out c t).session
  unfolding capture_with
  capture_with-IsSound none none p q v = rw (p, q) v
  capture_with-IsSound none (some t) p q v = absurd v
  capture_with-IsSound (some c) none p q v = absurd v
  capture_with-IsSound (some c) (some t) p q v =
      end_capture-IsSound (request (record { control = c; stream = t }) n)
        (keeps (record { control = c; stream = t }) n v)

  capture_call-IsSound : IsSound s → IsSound (capture_call request s k e n out).session
  unfolding capture_call
  capture_call-IsSound v = elim (Bool-cases (connected s)) [
    | inl b ↦
        rw (b, capture_call)
          (require_mode-cases (λ (r : CaptureCall). IsSound r.session) s.config.work_mode
            (capture_with request s k e n out s.control s.stream)
            (no_capture s mode_not_implemented out)
            (capture_with-IsSound s.control s.stream refl refl v) v)
    | inr b ↦ rw (b, capture_call) v
  ]

module _ (disk : Disk) (s : Session) (q : RecordConfig) (b : Bool) where
  record_with-IsSound :
      (c : Option ControlClient) (t : Option StreamClient)
      → s.control ≡ c
      → s.stream ≡ t
      → Held c t
      → IsSound (record_with disk s q b c t).session
  unfolding record_with end_record
  record_with-IsSound none none p e v = rw (p, e) v
  record_with-IsSound none (some t) p e v = absurd v
  record_with-IsSound (some c) none p e v = absurd v
  record_with-IsSound (some c) (some t) p e v =
      start_record-IsValid disk c t (to_internal_record_request q) b v

  record_iq-IsSound : IsSound s → IsSound (record_iq disk s q b).session
  unfolding record_iq
  record_iq-IsSound v = elim (Bool-cases (connected s)) [
    | inl t ↦
        rw (t, record_iq)
          (require_mode-cases (λ (r : RecordCall). IsSound r.session) s.config.work_mode
            (record_with disk s q b s.control s.stream) (no_record s mode_not_implemented)
            (record_with-IsSound s.control s.stream refl refl v) v)
    | inr t ↦ rw (t, record_iq) v
  ]

request_synchronized_iq-KeepsClients : KeepsClients request_synchronized_iq
unfolding request_synchronized_iq
request_synchronized_iq-KeepsClients k n v =
    send_command_for_capture-IsValid k 0x06 (encode_capture_sample_count n) v

request_uncorrected_iq-KeepsClients : KeepsClients request_uncorrected_iq
unfolding request_uncorrected_iq
request_uncorrected_iq-KeepsClients k n v =
    send_command_for_capture-IsValid k 0x1b (encode_capture_sample_count n) v

pub step-IsSound : (s : Session) (c : Call) → IsSound s → IsSound (step s c).1
unfolding step capture_iq capture_uncorrected_iq disconnect_session
step-IsSound s (connects d t e) v = connect_session-IsSound d t e s v
step-IsSound s disconnects v = tt
step-IsSound s (sets_work_mode m) v = set_work_mode-IsSound m s v
step-IsSound s (configures c) v = configure-IsSound c s v
step-IsSound s (sets_reference_clock x) v = set_reference_clock-IsSound x s v
step-IsSound s (sets_rx_lo x) v = set_rx_lo-IsSound x s v
step-IsSound s (sets_rx_gain x) v = set_rx_gain-IsSound x s v
step-IsSound s (sets_sample_rate x) v = set_sample_rate-IsSound x s v
step-IsSound s asks_ssd v = get_record_storage_has_ssd-IsSound s v
step-IsSound s (captures n) v =
    capture_call-IsSound request_synchronized_iq request_synchronized_iq-KeepsClients s calibrated
      capture_failed n default_capture v
step-IsSound s (captures_uncorrected n) v =
    capture_call-IsSound request_uncorrected_iq request_uncorrected_iq-KeepsClients s uncorrected
      capture_uncorrected_failed n default_capture v
step-IsSound s (records disk q b) v = record_iq-IsSound disk s q b v

run-IsSound : (s : Session) (cs : List Call) → IsSound s → IsSound (run s cs)
unfolding run
run-IsSound s [] v = v
run-IsSound s (c ∷ cs) v = run-IsSound (step s c).1 cs (step-IsSound s c v)

-- After any sequence of calls on a new session, whatever the system and the device did, the
-- session holds no client, or both: the command client with a handle exactly while it is
-- connected, the data client with a handle exactly while it is open.
pub run-new-IsSound : (cs : List Call) → IsSound (run new_session cs)
run-new-IsSound cs = run-IsSound new_session cs tt
