-- ===== src/Matlab/Dispatch.antt =====
-- `mexFunction` of dfone_mex.cpp, which chooses a command by the name in its first argument.
pub mod Effects
pub mod Refinement
pub mod Reach
use antsdr_dfone.Prelude.{
  ℕ, suc, ◌+◌, ◌-◌, ◌%◌, ◌^◌, Bool, true, false, not, ◌||◌, List, [], ◌∷◌, ◌++◌, Option, some, none,
  ltb, ◌==◌, if◌then◌else◌, length, Bytes, codes,
}
use antsdr_dfone.Maintenance.Text.{bytes_eq}
use antsdr_dfone.Dial.{Dial}
use antsdr_dfone.Session.{
  ReferenceClock, Endpoint, CaptureConfig, default_config, IqCapture, default_capture, error_text,
  Session, new_session,
}
use antsdr_dfone.Session.Methods.{
  connect_session, connected, configure, set_sample_rate, set_rx_gain, set_rx_lo,
  set_reference_clock,
}
use antsdr_dfone.Session.Calls.{CaptureCall, capture_iq, capture_uncorrected_iq}
use antsdr_dfone.Cli.Arguments.{clock_of}
use antsdr_dfone.Matlab.Values.{
  MxArray, Result, value, raises, undefined, and_then, get_string, get_u32, get_u16, get_u64,
  get_size, get_bool,
}
use antsdr_dfone.Matlab.Capture.{CaptureStruct, make_capture_struct}
use antsdr_dfone.Matlab.Table.{MexState, find_slot, emplace_slot, erase_slot, change_slot, next_of}
use antsdr_dfone.Matlab.Commands.{
  Request, Reply, failing_with, converting, with_session, after_call, capture_output, command_open,
  command_close, command_is_open,
}
use antsdr_dfone.Matlab.Operations.{
  command_configure, command_set_u32, command_set_frequency, command_set_reference_clock,
  command_capture,
}

-- The commands by their names.
unfoldable pub dispatch : MexState → Request → List MxArray → Bytes → Reply
unfolding command_open command_close command_is_open command_configure command_set_u32
    command_set_frequency command_set_reference_clock command_capture bytes_eq
dispatch st q args command =
    if bytes_eq command (codes "open")
    then command_open st q args
    else if bytes_eq command (codes "close")
    then command_close st q args
    else if bytes_eq command (codes "isOpen")
    then command_is_open st q args
    else if bytes_eq command (codes "configure")
    then command_configure st q args
    else if bytes_eq command (codes "setSampleRate")
    then command_set_u32 st q args (codes "usage: dfone_mex('setSampleRate', handle, sampleRateHz)")
        set_sample_rate (codes "setSampleRate")
    else if bytes_eq command (codes "setGain")
    then command_set_u32 st q args (codes "usage: dfone_mex('setGain', handle, rxGainDb)")
        set_rx_gain (codes "setGain")
    else if bytes_eq command (codes "setFrequency")
    then command_set_frequency st q args
    else if bytes_eq command (codes "setReferenceClock")
    then command_set_reference_clock st q args
    else if bytes_eq command (codes "capture")
    then command_capture st q args
    else failing_with st (codes "unknown dfone_mex command: " ++ command)

-- The answer of `mexFunction`, and what the binding keeps.
abbrev pub mex_call : MexState → Request → List MxArray → Reply
mex_call st q [] = failing_with st (codes "usage: dfone_mex(command, ...)")
mex_call st q (name ∷ args) =
    converting st (get_string name (codes "command")) (λ command. dispatch st q args command)

unfoldable pub mex_function : MexState → Request → Reply
unfolding get_string dispatch
mex_function st q = mex_call st q q.arguments

abbrev pub is_defined : {A : Type 0} → Result A → Bool
is_defined (value a) = true
is_defined (raises e) = true
is_defined undefined = false

-- A sequence of calls, up to one whose behaviour is undefined: what would follow it is not described.
unfoldable pub run_mex : MexState → List Request → MexState
unfolding mex_function
run_mex st [] = st
run_mex st (q ∷ qs) =
    let r = mex_function st q in let rest = run_mex r.1 qs in if is_defined r.0 then rest else r.1
