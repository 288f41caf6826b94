-- ===== src/Matlab/Operations.antt =====
-- The commands of dfone_mex.cpp that use an open session: the settings and the captures.
use antsdr_dfone.Prelude.{
  ℕ, ◌%◌, Bool, true, false, not, ◌||◌, List, [], ◌∷◌, ◌++◌, ltb, ◌==◌, if◌then◌else◌, length,
  Bytes, codes,
}
use antsdr_dfone.Maintenance.Text.{bytes_eq}
use antsdr_dfone.Session.{
  ReferenceClock, CaptureConfig, default_config, default_capture, error_text, Session,
}
use antsdr_dfone.Session.Methods.{configure, set_rx_lo, set_reference_clock}
use antsdr_dfone.Session.Calls.{CaptureCall, capture_iq, capture_uncorrected_iq}
use antsdr_dfone.Cli.Arguments.{clock_of}
use antsdr_dfone.Matlab.Values.{
  MxArray, Result, value, undefined, and_then, get_string, get_u32, get_u64, get_size, get_bool,
}
use antsdr_dfone.Matlab.Capture.{make_capture_struct}
use antsdr_dfone.Matlab.Table.{MexState, change_slot}
use antsdr_dfone.Matlab.Commands.{
  Request, Reply, failing_with, converting, with_session, after_call, capture_output,
}

abbrev pub clock_argument : MxArray → Bytes → Result ReferenceClock
clock_argument v name = and_then (get_u32 v name) (λ n. value (clock_of (n % 4)))

-- The configuration, without and with a reference clock.
unfoldable pub config_of : List MxArray → Result CaptureConfig
unfolding get_u32 get_u64
config_of (rate ∷ lo ∷ gain ∷ more) = and_then (get_u32 rate (codes "sampleRateHz")) (λ rate_hz.
    and_then (get_u64 lo (codes "rxLoHz")) (λ lo_hz.
      and_then (get_u32 gain (codes "rxGainDb")) (λ gain_db. clocked rate_hz lo_hz gain_db more)))
  where
    clocked : ℕ → ℕ → ℕ → List MxArray → Result CaptureConfig
    clocked rate_hz lo_hz gain_db [] =
        value (record default_config {
          sample_rate_hz = rate_hz;
          rx_lo_hz = lo_hz;
          rx_gain_db = gain_db;
        })
    clocked rate_hz lo_hz gain_db (clock ∷ rest) =
        and_then (clock_argument clock (codes "refClock")) (λ source. value (record default_config {
          reference_clock = source;
          sample_rate_hz = rate_hz;
          rx_lo_hz = lo_hz;
          rx_gain_db = gain_db;
        }))
config_of args = undefined

abbrev pub configure_usage : Bytes
configure_usage =
    codes "usage: dfone_mex('configure', handle, sampleRateHz, rxLoHz, rxGainDb[, refClock])"

unfoldable pub command_configure : MexState → Request → List MxArray → Reply
unfolding with_session config_of after_call
command_configure st q [] = failing_with st configure_usage
command_configure st q (v ∷ args) =
    if ltb (length args) 3 || ltb 4 (length args)
    then failing_with st configure_usage
    else if not (q.nlhs == 0)
    then failing_with st (codes "configure returns no outputs")
    else with_session st v (λ h s.
      converting st (config_of args)
        (λ config. after_call st h (codes "configure") (configure s config)))

unfoldable pub command_set_u32 :
    MexState → Request → List MxArray → Bytes → (Session → ℕ → Bool × Session) → Bytes → Reply
unfolding with_session get_u32 after_call
command_set_u32 st q (v ∷ x ∷ []) usage setter label =
    if not (q.nlhs == 0)
    then failing_with st (label ++ codes " returns no outputs")
    else with_session st v
        (λ h s. converting st (get_u32 x label) (λ n. after_call st h label (setter s n)))
command_set_u32 st q args usage setter label = failing_with st usage

unfoldable pub command_set_frequency : MexState → Request → List MxArray → Reply
unfolding with_session get_u64 after_call
command_set_frequency st q (v ∷ x ∷ []) =
    if not (q.nlhs == 0)
    then failing_with st (codes "setFrequency returns no outputs")
    else with_session st v (λ h s.
      converting st (get_u64 x (codes "rxLoHz"))
        (λ n. after_call st h (codes "setFrequency") (set_rx_lo s n)))
command_set_frequency st q args =
    failing_with st (codes "usage: dfone_mex('setFrequency', handle, rxLoHz)")

unfoldable pub command_set_reference_clock : MexState → Request → List MxArray → Reply
unfolding with_session get_u32 after_call
command_set_reference_clock st q (v ∷ x ∷ []) =
    if not (q.nlhs == 0)
    then failing_with st (codes "setReferenceClock returns no outputs")
    else with_session st v (λ h s.
      converting st (clock_argument x (codes "source"))
        (λ source. after_call st h (codes "setReferenceClock") (set_reference_clock s source)))
command_set_reference_clock st q args =
    failing_with st (codes "usage: dfone_mex('setReferenceClock', handle, source)")

-- The fourth argument of `capture`: a text or a truth value.
unfoldable pub wants_uncorrected : List MxArray → Result Bool
unfolding get_string get_bool bytes_eq
wants_uncorrected [] = value false
wants_uncorrected (x ∷ more) =
    if x.is_char || x.is_string_class
    then and_then (get_string x (codes "kind"))
        (λ kind. value (bytes_eq kind (codes "uncorrected") || bytes_eq kind (codes "raw")))
    else get_bool x (codes "uncorrected")

abbrev pub capture_of : Bool → Session → ℕ → CaptureCall
capture_of true s frames = capture_uncorrected_iq s frames default_capture
capture_of false s frames = capture_iq s frames default_capture

unfoldable pub after_capture : MexState → ℕ → CaptureCall → Reply
unfolding change_slot make_capture_struct
after_capture st h r =
    let st' : MexState = record st { sessions = change_slot h r.session st.sessions } in
    if r.done
    then (and_then (make_capture_struct r.out) (λ c. value (capture_output c)), st')
    else failing_with st' (codes "DFONE capture failed: " ++ error_text r.session.last_error)

abbrev pub capture_usage : Bytes
capture_usage = codes "usage: capture = dfone_mex('capture', handle, frames[, uncorrected])"

unfoldable pub command_capture : MexState → Request → List MxArray → Reply
unfolding with_session get_size wants_uncorrected after_capture
command_capture st q (v ∷ frames ∷ more) =
    if ltb 1 (length more)
    then failing_with st capture_usage
    else if ltb 1 q.nlhs
    then failing_with st (codes "capture returns one output")
    else with_session st v (λ h s. converting st (get_size frames (codes "frames")) (λ n.
      converting st (wants_uncorrected more) (λ raw. after_capture st h (capture_of raw s n))))
command_capture st q args = failing_with st capture_usage
