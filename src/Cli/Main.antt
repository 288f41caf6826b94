-- ===== src/Cli/Main.antt =====
-- `main` of user_cli.cpp from the parsed options on: the calls of the session, and the output.
pub mod Outcome
pub mod Success
use antsdr_dfone.Prelude.{
  ℕ, zero, suc, ◌+◌, ◌-◌, ◌*◌, ◌%◌, ◌^◌, Bool, true, false, not, ◌&&◌, ◌||◌, List, [], ◌∷◌, Option,
  some, none, ltb, leb, ◌==◌, if◌then◌else◌, Bytes, codes,
}
use antsdr_dfone.Session.{
  ReferenceClock, default_clock, external, source2, source3, Endpoint, CaptureConfig,
  default_config, IqCapture, default_capture, Session, new_session,
}
use antsdr_dfone.Dial.{Dial}
use antsdr_dfone.OutputFile.{Closing, file_after}
use antsdr_dfone.Maintenance.Text.{bytes_eq}
use antsdr_dfone.Session.Methods.{
  connect_session, disconnect_session, set_reference_clock, set_sample_rate, set_rx_lo, set_rx_gain,
}
use antsdr_dfone.Session.Calls.{CaptureCall, capture_iq, capture_uncorrected_iq}
use antsdr_dfone.Cli.Arguments.{Options, default_options, Parsed, runs_with, exits, parse_options}

-- What the system does: the connections, and the output file, up to the unchecked end of its stream.
pub record Machine : Type 0 where
  pub dial_control : Dial
  pub dial_stream : Dial
  pub opens_file : Bytes → Bool
  pub takes_bytes : Bytes → Bytes → Bool
  pub at_end : Closing

-- The answer of a function that writes a file, and what is in the file when its stream has been
-- destroyed, which is behind the answer. Behind a failed write that is not known.
pub record FileWrite : Type 0 where
  pub ok : Bool
  pub left : Option Bytes

abbrev pub file_write : Machine → Bytes → Bool → FileWrite
file_write m payload ok = record {
  ok = ok;
  left = if ok then some (file_after m.at_end payload) else none;
}

unfoldable pub write_bytes : Machine → Bytes → Bytes → FileWrite
write_bytes m path [] = file_write m [] (m.opens_file path)
write_bytes m path (b ∷ bs) =
    file_write m (b ∷ bs) (if m.opens_file path then m.takes_bytes path (b ∷ bs) else false)

-- The exit code, the session as `main` leaves it, the path and the bytes that the stream of the output
-- has accepted, if it has, and what is left of them in the file.
pub record Finish : Type 0 where
  pub code : ℕ
  pub session : Session
  pub written : Option (Bytes × Bytes)
  pub file : Option Bytes

abbrev pub stops_with : ℕ → Session → Finish
stops_with code s = record { code = code; session = s; written = none; file = none }

-- `if (!session.op(...)) return 1;`, then the rest.
abbrev pub or_return : Bool × Session → (Session → Finish) → Finish
or_return (true, s) rest = rest s
or_return (false, s) rest = stops_with 1 s

abbrev pub write_output : Machine → Bytes → IqCapture → Session → Finish
write_output m [] capture s = stops_with 0 s
write_output m (c ∷ cs) capture s =
    let w = write_bytes m (c ∷ cs) capture.payload in
    if w.ok
    then record { code = 0; session = s; written = some (c ∷ cs, capture.payload); file = w.left }
    else stops_with 1 s

abbrev pub requested_capture : Options → Session → CaptureCall
requested_capture o s =
    if o.wants_uncorrected
    then capture_uncorrected_iq s o.frames default_capture
    else capture_iq s o.frames default_capture

unfoldable pub capture_then_write : Machine → Options → Session → Finish
unfolding write_bytes
capture_then_write m o s =
    let r = requested_capture o s in
    if r.done then write_output m o.output_path r.out r.session else stops_with 1 r.session

unfoldable pub configured_capture : Machine → Options → Session → Finish
unfolding capture_then_write
configured_capture m o s0 = or_return (set_reference_clock s0 o.config.reference_clock) (λ s1.
    or_return (set_sample_rate s1 o.config.sample_rate_hz) (λ s2.
      or_return (set_rx_lo s2 o.config.rx_lo_hz)
        (λ s3. or_return (set_rx_gain s3 o.config.rx_gain_db) (λ s4. capture_then_write m o s4))))

-- `~SessionDisconnectGuard`, at every return behind the connection.
abbrev pub guarded : Finish → Finish
guarded r = record r { session = disconnect_session r.session }

unfoldable pub run_capture : Machine → Options → Finish
unfolding configured_capture
run_capture m o =
    or_return (connect_session m.dial_control m.dial_stream new_session o.endpoint)
      (λ s. guarded (configured_capture m o s))

abbrev pub run_parsed : Machine → Parsed → Finish
run_parsed m (exits code) = stops_with code new_session
run_parsed m (runs_with o) = run_capture m o

-- `main`; `args` is what follows the program's name.
unfoldable pub cli_main : ℕ → Machine → List Bytes → Finish
unfolding parse_options run_capture
cli_main bits m [] = stops_with 1 new_session
cli_main bits m (command ∷ args) =
    if bytes_eq command (codes "capture")
    then run_parsed m (parse_options bits args default_options)
    else stops_with 0 new_session
