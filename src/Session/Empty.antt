-- ===== src/Session/Empty.antt =====
-- A session without clients gets none but by connecting.
use antsdr_dfone.Prelude.{◌≡◌, refl, false, none}
use antsdr_dfone.Session.{Session, synchronized_capture, independent_ad9361}
use antsdr_dfone.Session.Methods.{
  both_connected, connected, disconnect_session, set_work_mode, configure, set_reference_clock,
  set_rx_lo, set_rx_gain, set_sample_rate, get_record_storage_has_ssd,
}
use antsdr_dfone.Session.Calls.{
  capture_call, capture_iq, capture_uncorrected_iq, record_iq, Call, connects, disconnects,
  sets_work_mode, configures, sets_reference_clock, sets_rx_lo, sets_rx_gain, sets_sample_rate,
  asks_ssd, captures, captures_uncorrected, records, step,
}

-- Neither channel has a client.
abbrev pub IsEmpty : Session → Type 0
IsEmpty s = (s.control ≡ none) × (s.stream ≡ none)

abbrev pub IsNoConnection : Call → Type 0
IsNoConnection (connects d t e) = ⊥
IsNoConnection c = Unit {0}

connected-IsEmpty : (s : Session) → IsEmpty s → connected s ≡ false
unfolding connected both_connected
connected-IsEmpty s h = rw (h.0, both_connected) refl

pub step-IsEmpty : (s : Session) (c : Call) → IsNoConnection c → IsEmpty s → IsEmpty (step s c).1
unfolding step set_work_mode configure set_reference_clock set_rx_lo set_rx_gain set_sample_rate
    get_record_storage_has_ssd capture_iq capture_uncorrected_iq capture_call record_iq
    disconnect_session
step-IsEmpty s (connects d t e) n h = absurd n
step-IsEmpty s disconnects n h = (refl, refl)
step-IsEmpty s (sets_work_mode synchronized_capture) n h = h
step-IsEmpty s (sets_work_mode independent_ad9361) n h = h
step-IsEmpty s (configures c) n h = rw (connected-IsEmpty s h, configure) h
step-IsEmpty s (sets_reference_clock v) n h = rw (connected-IsEmpty s h, set_reference_clock) h
step-IsEmpty s (sets_rx_lo v) n h = rw (connected-IsEmpty s h, set_rx_lo) h
step-IsEmpty s (sets_rx_gain v) n h = rw (connected-IsEmpty s h, set_rx_gain) h
step-IsEmpty s (sets_sample_rate v) n h = rw (connected-IsEmpty s h, set_sample_rate) h
step-IsEmpty s asks_ssd n h = rw (connected-IsEmpty s h, get_record_storage_has_ssd) h
step-IsEmpty s (captures k) n h = rw (connected-IsEmpty s h, capture_call) h
step-IsEmpty s (captures_uncorrected k) n h = rw (connected-IsEmpty s h, capture_call) h
step-IsEmpty s (records d q b) n h = rw (connected-IsEmpty s h, record_iq) h
