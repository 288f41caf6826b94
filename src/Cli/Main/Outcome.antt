-- ===== src/Cli/Main/Outcome.antt =====
-- `main` against a plain run of the session's calls, and what its exit code says.
use antsdr_dfone.Prelude.{
  ℕ, ◌≡◌, refl, sym, ap, Bool, true, false, List, [], ◌∷◌, Option, some, none, arith, if◌then◌else◌,
  Bytes,
}
use antsdr_dfone.Session.{Session, new_session}
use antsdr_dfone.Session.Methods.{
  connect_session, disconnect_session, set_reference_clock, set_sample_rate, set_rx_lo, set_rx_gain,
}
use antsdr_dfone.Session.Calls.{
  Call, connects, sets_reference_clock, sets_sample_rate, sets_rx_lo, sets_rx_gain, step,
}
use antsdr_dfone.Cli.Arguments.{Options, default_options, Parsed, runs_with, exits, parse_options}
use antsdr_dfone.Cli.Main.{
  Machine, Finish, stops_with, or_return, capture_then_write, configured_capture, guarded,
  run_capture, run_parsed, cli_main,
}

-- Neither channel has a client any more.
abbrev pub IsDisconnected : Session → Type 0
IsDisconnected s = (s.control ≡ none) × (s.stream ≡ none)

run_capture-IsDisconnected : (m : Machine) (o : Options) → IsDisconnected (run_capture m o).session
unfolding run_capture connect_session disconnect_session
run_capture-IsDisconnected m o = ground arith

-- Whatever the arguments and the device do, `main` leaves a session that holds neither channel.
pub cli_main-IsDisconnected :
    (bits : ℕ) (m : Machine) (args : List Bytes) → IsDisconnected (cli_main bits m args).session
unfolding cli_main
cli_main-IsDisconnected bits m [] = (refl, refl)
cli_main-IsDisconnected bits m (c ∷ args) =
    ground (arith, run_parsed-IsDisconnected (parse_options bits args default_options))
  where
    run_parsed-IsDisconnected : (p : Parsed) → IsDisconnected (run_parsed m p).session
    run_parsed-IsDisconnected (exits code) = (refl, refl)
    run_parsed-IsDisconnected (runs_with o) = run_capture-IsDisconnected m o

-- The calls one after another, up to the first that answers false.
abbrev went_well : Option Bool → Bool
went_well none = true
went_well (some a) = a

unfoldable pub run_until : Session → List Call → Bool × Session
run_until s [] = (true, s)
run_until s (c ∷ cs) =
    let (a, s') = step s c in if went_well a then run_until s' cs else (false, s')

-- The calls that the options ask for before the capture.
abbrev gain_calls : Options → List Call
gain_calls o = sets_rx_gain (o.config.rx_gain_db) ∷ []

abbrev lo_calls : Options → List Call
lo_calls o = sets_rx_lo (o.config.rx_lo_hz) ∷ gain_calls o

abbrev rate_calls : Options → List Call
rate_calls o = sets_sample_rate (o.config.sample_rate_hz) ∷ lo_calls o

abbrev pub setup_calls : Options → List Call
setup_calls o = sets_reference_clock (o.config.reference_clock) ∷ rate_calls o

abbrev pub all_calls : Machine → Options → List Call
all_calls m o = connects (m.dial_control) (m.dial_stream) (o.endpoint) ∷ setup_calls o

abbrev pub capture_if : Machine → Options → Bool × Session → Finish
capture_if m o (true, s) = capture_then_write m o s
capture_if m o (false, s) = stops_with 1 s

or_return-step :
    (m : Machine) (o : Options) (r : Bool × Session) (cs : List Call) (rest : Session → Finish)
    → ((s : Session) → rest s ≡ capture_if m o (run_until s cs))
    → or_return r rest ≡ capture_if m o (if r.0 then run_until r.1 cs else (false, r.1))
or_return-step m o (true, s) cs rest h = h s
or_return-step m o (false, s) cs rest h = refl

configured_capture-run_until :
    (m : Machine) (o : Options) (s : Session)
    → configured_capture m o s ≡ capture_if m o (run_until s (setup_calls o))
unfolding configured_capture run_until step
configured_capture-run_until m o s0 =
    or_return-step m o (set_reference_clock s0 o.config.reference_clock) (rate_calls o) _ λ s1.
      or_return-step m o (set_sample_rate s1 o.config.sample_rate_hz) (lo_calls o) _ λ s2.
        or_return-step m o (set_rx_lo s2 o.config.rx_lo_hz) (gain_calls o) _
          λ s3. or_return-step m o (set_rx_gain s3 o.config.rx_gain_db) [] _ λ s4. refl

-- A connection that fails leaves nothing to disconnect.
connect_session-fails :
    (m : Machine) (o : Options)
    → let r = connect_session m.dial_control m.dial_stream new_session o.endpoint in
      r.0 ≡ false → disconnect_session r.1 ≡ r.1
unfolding connect_session disconnect_session
connect_session-fails m o h = ground arith

connected-run_until :
    (m : Machine) (o : Options) (r : Bool × Session)
    → (r.0 ≡ false → disconnect_session r.1 ≡ r.1)
    → or_return r (λ s. guarded (configured_capture m o s))
      ≡ guarded (capture_if m o (if r.0 then run_until r.1 (setup_calls o) else (false, r.1)))
connected-run_until m o (true, s) h = ap guarded (configured_capture-run_until m o s)
connected-run_until m o (false, s) h = ap (stops_with 1) (sym (h refl))

-- `main` behind the options does what a plain run of the calls does, connect, reference clock, sample
-- rate, local oscillator, gain, up to the first that answers false: if all answer true it captures
-- and writes, else its code is 1, and it disconnects in every case.
pub run_capture-run_until :
    (m : Machine) (o : Options)
    → run_capture m o ≡ guarded (capture_if m o (run_until new_session (all_calls m o)))
unfolding run_capture run_until step
run_capture-run_until m o =
    connected-run_until m o (connect_session m.dial_control m.dial_stream new_session o.endpoint)
      (connect_session-fails m o)
