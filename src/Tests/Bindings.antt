-- ===== src/Tests/Bindings.antt =====
-- The MATLAB binding at concrete inputs.
use antsdr_dfone.Prelude.{
  ◌≡◌, ◌↔◌, ◌⊎◌, refl, true, false, [], ◌∷◌, some, none, arith, Bytes, List, codes, replicate, ◌++◌,
}
use antsdr_dfone.Session.{IqCapture, calibrated, cs16_le_interleaved_channels, new_session}
use antsdr_dfone.Session.Stored.{Describes}
use antsdr_dfone.Stream.{open_stream, new_stream}
use antsdr_dfone.Control.{connect, new_control}
use antsdr_dfone.Matlab.Values.{Double, finite, not_a_number, MxArray, value, undefined, get_u32}
use antsdr_dfone.Matlab.Values.Ranges.{get_u32_undefined, IsRealScalar}
use antsdr_dfone.Matlab.Capture.{CaptureStruct, make_capture_struct}
use antsdr_dfone.Matlab.Capture.Holds.{Holds, make_capture_struct-Holds}
use antsdr_dfone.Matlab.Table.{MexState, new_mex}
use antsdr_dfone.Matlab.Commands.{Request, handle_output}
use antsdr_dfone.Matlab.Dispatch.{mex_function, run_mex}
use antsdr_dfone.Matlab.Dispatch.Effects.{IsValid, Acts}
use antsdr_dfone.Matlab.Dispatch.Refinement.{mex_function-Acts}
use antsdr_dfone.Matlab.Dispatch.Reach.{IsClosed, run_mex-IsValid, run_mex-IsClosed}
use antsdr_dfone.Tests.Data.{responds, brings_iq, ended, dial}

abbrev scalar_array : Double → MxArray
scalar_array d = record {
  is_string_class = false;
  converted = none;
  is_char = false;
  text = none;
  is_uint32 = false;
  is_uint64 = false;
  is_logical = false;
  is_numeric = true;
  is_complex = false;
  elements = 1;
  first_word = 0;
  scalar = d;
}

abbrev char_array : Bytes → MxArray
char_array t = record (scalar_array not_a_number) {
  is_numeric = false;
  is_char = true;
  text = some t;
}

fraction_is_cut : get_u32 (scalar_array (finite 7 true)) (codes "x") ≡ value 7
unfolding get_u32
fraction_is_cut = refl

abbrev empty_uint32 : MxArray
empty_uint32 = record (scalar_array not_a_number) { is_uint32 = true; elements = 0 }

get_u32_undefined_example : (get_u32 empty_uint32 (codes "rxGainDb") ≡ undefined) ↔ (
    ((empty_uint32.is_uint32 ≡ true) × (empty_uint32.elements ≡ 0))
    ⊎ ((empty_uint32.is_uint32 ≡ false)
        × IsRealScalar empty_uint32
        × (empty_uint32.scalar ≡ not_a_number)))
get_u32_undefined_example = get_u32_undefined empty_uint32 (codes "rxGainDb")

-- Two frames of eight channels.
abbrev small_capture : IqCapture
small_capture = record {
  kind = calibrated;
  sample_format = cs16_le_interleaved_channels;
  sample_rate_hz = 30720000;
  rx_lo_hz = 2400000000;
  frames = 2;
  channels = 8;
  frame_bytes = 32;
  payload = replicate 60 1 ++ 0xfe ∷ 0xff ∷ 5 ∷ 0 ∷ [];
}

small_capture-Describes : Describes new_session calibrated small_capture
small_capture-Describes = record {
  of_kind = refl;
  at_rate = refl;
  at_lo = refl;
  counts = refl;
  has_channels = refl;
  has_frame_bytes = refl;
}

make_capture_struct-Holds_example :
    (r : CaptureStruct) × (make_capture_struct small_capture ≡ value r) × Holds small_capture r
make_capture_struct-Holds_example =
    make_capture_struct-Holds new_session calibrated small_capture small_capture-Describes
      (omega arith)

abbrev call : List MxArray → Request
call args = record {
  nlhs = 0;
  arguments = args;
  dial_control = dial (responds (responds ended));
  dial_stream = dial (brings_iq ended);
}

abbrev open_call : Request
open_call = call (char_array (codes "open") ∷ char_array (codes "10.0.0.2") ∷ [])

abbrev gain_call : Request
gain_call = call (
    char_array (codes "setGain")
    ∷ scalar_array (finite 1 false)
    ∷ scalar_array (finite 40 false)
    ∷ [])

abbrev close_call : Request
close_call = call (char_array (codes "close") ∷ scalar_array (finite 1 false) ∷ [])

opened_first : (mex_function new_mex open_call).0 ≡ value (handle_output 1)
unfolding mex_function connect new_control open_stream new_stream
opened_first = refl

run_mex-IsValid_example : IsValid (run_mex new_mex (open_call ∷ gain_call ∷ close_call ∷ []))
run_mex-IsValid_example = run_mex-IsValid (open_call ∷ gain_call ∷ close_call ∷ []) (omega arith)

abbrev opened : MexState
opened = run_mex new_mex (open_call ∷ [])

mex_function-Acts_example : Acts opened gain_call (mex_function opened gain_call)
unfolding run_mex connect new_control open_stream new_stream
mex_function-Acts_example =
    mex_function-Acts opened gain_call (run_mex-IsValid (open_call ∷ []) (omega arith))
      (omega arith)

abbrev closed : MexState
closed = run_mex new_mex (open_call ∷ close_call ∷ [])

run_mex-IsClosed_example : IsClosed (run_mex closed (open_call ∷ [])) 1
unfolding run_mex connect new_control open_stream new_stream
run_mex-IsClosed_example =
    run_mex-IsClosed closed (open_call ∷ []) 1
      (run_mex-IsValid (open_call ∷ close_call ∷ []) (omega arith)) (omega arith)
      (omega arith, refl)
