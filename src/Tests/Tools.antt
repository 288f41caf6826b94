-- ===== src/Tests/Tools.antt =====
-- The command-line tools at concrete inputs.
use antsdr_dfone.Prelude.{◌≡◌, refl, true, [], ◌∷◌, some, none, arith, List, codes}
use antsdr_dfone.Net.{write_all, read_exact}
use antsdr_dfone.Wire.{command_frame, decode_header, read_u32_le}
use antsdr_dfone.Control.{
  control_set_ref_clock_source, control_set_sample_rate, control_set_rx_gain,
  control_set_rx_lo_frequency, send_command, connect, new_control,
}
use antsdr_dfone.Stream.{open_stream, new_stream}
use antsdr_dfone.Acquire.{send_command_for_capture, request_synchronized_iq}
use antsdr_dfone.Session.Methods.{
  connect_session, set_reference_clock, set_sample_rate, set_rx_lo, set_rx_gain,
}
use antsdr_dfone.Session.Calls.{capture_iq}
use antsdr_dfone.Session.{external, new_session}
use antsdr_dfone.Cli.Numerals.{parse_u32, parse_u64}
use antsdr_dfone.Cli.Arguments.{Options, default_options, runs_with, exits, parse_options}
use antsdr_dfone.Cli.Arguments.RoundTrip.{
  Setting, cmd_port, rx_lo, rx_gain, ref_clock, output, uncorrected, command_line, apply_settings,
  parse_options-command_line,
}
use antsdr_dfone.Cli.Main.{Machine, run_capture, guarded, cli_main}
use antsdr_dfone.Cli.Main.Outcome.{
  IsDisconnected, cli_main-IsDisconnected, run_until, all_calls, capture_if, run_capture-run_until,
}
use antsdr_dfone.Cli.Main.Success.{Delivered, run_capture-Delivered}
use antsdr_dfone.Tests.Data.{good_closing, responds, flows, brings_iq, ended, dial}

hexadecimal : parse_u32 64 (codes "0x1F") ≡ some 31
unfolding parse_u32
hexadecimal = refl

octal_with_space : parse_u32 64 (codes " 017") ≡ some 15
unfolding parse_u32
octal_with_space = refl

trailing_text : parse_u64 (codes "12Hz") ≡ none
unfolding parse_u64
trailing_text = refl

-- No digits at all are taken for 0, and a number that is too great for the greatest one.
empty_text : parse_u32 64 [] ≡ some 0
unfolding parse_u32
empty_text = refl

negative_text : parse_u64 (codes "-1") ≡ some 18446744073709551615
unfolding parse_u64
negative_text = refl

too_great : parse_u64 (codes "99999999999999999999") ≡ some 18446744073709551615
unfolding parse_u64
too_great = refl

too_great_for_32 : parse_u32 64 (codes "4294967296") ≡ none
unfolding parse_u32
too_great_for_32 = refl

too_great_on_windows : parse_u32 32 (codes "4294967296") ≡ some 4294967295
unfolding parse_u32
too_great_on_windows = refl

missing_value : parse_options 64 (codes "--frames" ∷ []) default_options ≡ exits 2
unfolding parse_options
missing_value = refl

bad_port : parse_options 64 (codes "--cmd-port" ∷ codes "65536" ∷ []) default_options ≡ exits 2
unfolding parse_options
bad_port = refl

abbrev settings : List Setting
settings =
    cmd_port 4000
    ∷ rx_lo 5800000000
    ∷ ref_clock external
    ∷ rx_gain 40
    ∷ uncorrected
    ∷ output (codes "x.cs16")
    ∷ rx_gain 55
    ∷ []

parse_options-command_line_example :
    parse_options 64 (command_line settings) default_options
    ≡ runs_with (apply_settings settings default_options)
parse_options-command_line_example =
    parse_options-command_line 64 settings default_options (omega arith)
      (omega arith, (omega arith, (tt, (omega arith, (tt, (tt, (omega arith, tt)))))))

-- A device that answers every command, and a disk that takes every file.
abbrev machine : Machine
machine = record {
  dial_control = dial (responds (responds (responds (responds (flows (responds ended))))));
  dial_stream = dial (brings_iq ended);
  opens_file = λ _. true;
  takes_bytes = λ _ _. true;
  at_end = good_closing;
}

abbrev options : Options
options = record default_options { output_path = codes "x.cs16" }

cli_main-IsDisconnected_example :
    IsDisconnected (cli_main 64 machine (codes "capture" ∷ codes "--uncorrected" ∷ [])).session
cli_main-IsDisconnected_example =
    cli_main-IsDisconnected 64 machine (codes "capture" ∷ codes "--uncorrected" ∷ [])

run_capture-run_until_example :
    run_capture machine options
    ≡ guarded (capture_if machine options (run_until new_session (all_calls machine options)))
run_capture-run_until_example = run_capture-run_until machine options

run_capture-Delivered_example : Delivered machine options (run_capture machine options)
unfolding run_capture connect new_control open_stream new_stream set_reference_clock
    control_set_ref_clock_source send_command write_all command_frame read_exact decode_header
    read_u32_le set_sample_rate control_set_sample_rate set_rx_lo control_set_rx_lo_frequency
    set_rx_gain control_set_rx_gain capture_iq request_synchronized_iq send_command_for_capture
    connect_session
run_capture-Delivered_example = run_capture-Delivered machine options refl
