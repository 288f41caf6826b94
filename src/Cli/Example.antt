-- ===== src/Cli/Example.antt =====
-- `main` of examples/windows_cli_capture/main.cpp. It has no guard: the session stays as the last
-- call leaves it.
use antsdr_dfone.Prelude.{ℕ, false, not, List, some, if◌then◌else◌, Bytes, codes}
use antsdr_dfone.Session.{Session, new_session}
use antsdr_dfone.Maintenance.Text.{bytes_eq}
use antsdr_dfone.Session.Methods.{connect_session, set_sample_rate, set_rx_lo, set_rx_gain}
use antsdr_dfone.Cli.Arguments.{
  Options, default_options, Flag, takes_value, uncorrected_flag, help_flag, unknown_flag,
  device_ip_field, frames_field, sample_rate_field, rx_lo_field, rx_gain_field, output_field,
  Parsed, runs_with, exits, parse_with,
}
use antsdr_dfone.Cli.Main.{
  FileWrite, file_write, Machine, Finish, stops_with, or_return, requested_capture,
}

unfoldable pub example_flag_of : Bytes → Flag
unfolding bytes_eq
example_flag_of arg =
    if bytes_eq arg (codes "--help")
    then help_flag
    else if bytes_eq arg (codes "--device-ip")
    then takes_value device_ip_field
    else if bytes_eq arg (codes "--frames")
    then takes_value frames_field
    else if bytes_eq arg (codes "--sample-rate")
    then takes_value sample_rate_field
    else if bytes_eq arg (codes "--rx-lo")
    then takes_value rx_lo_field
    else if bytes_eq arg (codes "--rx-gain")
    then takes_value rx_gain_field
    else if bytes_eq arg (codes "--uncorrected")
    then uncorrected_flag
    else if bytes_eq arg (codes "--output")
    then takes_value output_field
    else unknown_flag

abbrev pub example_options : Options
example_options = record default_options { output_path = codes "customer_capture.cs16" }

-- Unlike `write_bytes`, also for no bytes.
unfoldable pub write_file : Machine → Bytes → Bytes → FileWrite
write_file m path payload =
    file_write m payload (if m.opens_file path then m.takes_bytes path payload else false)

unfoldable pub example_capture : Machine → Options → Session → Finish
unfolding write_file
example_capture m o s =
    let r = requested_capture o s in
    let w = write_file m o.output_path r.out.payload in
    if not r.done
    then stops_with 1 r.session
    else if not w.ok
    then stops_with 1 r.session
    else record {
      code = 0;
      session = r.session;
      written = some (o.output_path, r.out.payload);
      file = w.left;
    }

unfoldable pub run_example : Machine → Options → Finish
unfolding example_capture
run_example m o =
    or_return (connect_session m.dial_control m.dial_stream new_session o.endpoint) (λ s0.
      or_return (set_sample_rate s0 o.config.sample_rate_hz) (λ s1.
        or_return (set_rx_lo s1 o.config.rx_lo_hz)
          (λ s2. or_return (set_rx_gain s2 o.config.rx_gain_db) (λ s3. example_capture m o s3))))

abbrev pub run_example_parsed : Machine → Parsed → Finish
run_example_parsed m (exits code) = stops_with code new_session
run_example_parsed m (runs_with o) = run_example m o

-- `main`; `args` is what follows the program's name.
unfoldable pub example_main : ℕ → Machine → List Bytes → Finish
unfolding example_flag_of run_example
example_main bits m args =
    run_example_parsed m (parse_with example_flag_of bits args example_options)
