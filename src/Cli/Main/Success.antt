-- ===== src/Cli/Main/Success.antt =====
-- What exit code 0 says of a run behind the options.
use antsdr_dfone.Prelude.{
  ◌≡◌, refl, sym, ap, subst, ◌∙◌, Bool, true, false, [], ◌∷◌, Option, some, none, arith,
  if◌then◌else◌, Bytes,
}
use antsdr_dfone.Session.{
  CaptureConfig, default_config, IqCapture, IqKind, calibrated, uncorrected, default_capture,
  Session, new_session,
}
use antsdr_dfone.Session.Methods.{connect_session, set_reference_clock, set_sample_rate, set_rx_lo}
use antsdr_dfone.Session.Calls.{CaptureCall, step, capture_iq, capture_uncorrected_iq}
use antsdr_dfone.Session.Stored.{
  connect_session-stores, set_reference_clock-stores, set_sample_rate-stores, set_rx_lo-stores,
  set_rx_gain-stores, Describes, capture_iq-Describes, capture_uncorrected_iq-Describes,
}
use antsdr_dfone.OutputFile.{Closing, file_after}
use antsdr_dfone.Cli.Arguments.{Options}
use antsdr_dfone.Cli.Main.{
  Machine, write_bytes, Finish, stops_with, write_output, requested_capture, capture_then_write,
  guarded, run_capture,
}
use antsdr_dfone.Cli.Main.Outcome.{run_until, all_calls, capture_if, run_capture-run_until}

abbrev pub options_config : Options → CaptureConfig
options_config o = record default_config {
  reference_clock = o.config.reference_clock;
  sample_rate_hz = o.config.sample_rate_hz;
  rx_lo_hz = o.config.rx_lo_hz;
  rx_gain_db = o.config.rx_gain_db;
}

abbrev pub kind_of : Options → IqKind
kind_of o = if o.wants_uncorrected then uncorrected else calibrated

-- The file that a payload is handed to, if there is a path.
abbrev pub file_of : Bytes → Bytes → Option (Bytes × Bytes)
file_of [] payload = none
file_of (c ∷ cs) payload = some (c ∷ cs, payload)

-- What is left of it behind the unchecked end of its stream.
abbrev pub left_of : Closing → Bytes → Bytes → Option Bytes
left_of e [] payload = none
left_of e (c ∷ cs) payload = some (file_after e payload)

pub record Delivered (m : Machine) (o : Options) (r : Finish) : Type 0 where
  pub before : Session
  pub set_up : run_until new_session (all_calls m o) ≡ (true, before)
  pub configured : before.config ≡ options_config o
  pub captured : (requested_capture o before).done ≡ true
  pub describes : Describes before (kind_of o) (requested_capture o before).out
  pub has_written : r.written ≡ file_of o.output_path (requested_capture o before).out.payload
  pub has_left : r.file ≡ left_of m.at_end o.output_path (requested_capture o before).out.payload

all_calls-configured :
    (m : Machine) (o : Options)
    → (run_until new_session (all_calls m o)).0 ≡ true
    → (run_until new_session (all_calls m o)).1.config ≡ options_config o
unfolding step run_until
all_calls-configured m o h =
    let r0 = connect_session m.dial_control m.dial_stream new_session o.endpoint in
    let r1 = set_reference_clock r0.1 o.config.reference_clock in
    let r2 = set_sample_rate r1.1 o.config.sample_rate_hz in
    let r3 = set_rx_lo r2.1 o.config.rx_lo_hz in
    ground (
      arith,
      connect_session-stores m.dial_control m.dial_stream new_session o.endpoint,
      set_reference_clock-stores r0.1 o.config.reference_clock,
      set_sample_rate-stores r1.1 o.config.sample_rate_hz,
      set_rx_lo-stores r2.1 o.config.rx_lo_hz,
      set_rx_gain-stores r3.1 o.config.rx_gain_db,
    )

requested_capture-Describes :
    (o : Options) (s : Session)
    → (requested_capture o s).done ≡ true
    → Describes s (kind_of o) (requested_capture o s).out
requested_capture-Describes o s h = go o.wants_uncorrected refl h
  where
    go :
        (b : Bool)
        → o.wants_uncorrected ≡ b
        → (if b
            then capture_uncorrected_iq s o.frames default_capture
            else capture_iq s o.frames default_capture).done
          ≡ true
        → Describes s (kind_of o) (requested_capture o s).out
    go true e k = rw e (capture_uncorrected_iq-Describes s o.frames default_capture k)
    go false e k = rw e (capture_iq-Describes s o.frames default_capture k)

write_output-written :
    (m : Machine) (path : Bytes) (c : IqCapture) (s : Session)
    → (write_output m path c s).code ≡ 0
    → ((write_output m path c s).written ≡ file_of path c.payload)
      × ((write_output m path c s).file ≡ left_of m.at_end path c.payload)
unfolding write_bytes
write_output-written m [] c s h = (refl, refl)
write_output-written m (b ∷ bs) c s h = go c.payload h
  where
    go :
        (payload : Bytes)
        → (write_output m (b ∷ bs) (record c { payload = payload }) s).code ≡ 0
        → ((write_output m (b ∷ bs) (record c { payload = payload }) s).written
            ≡ file_of (b ∷ bs) payload)
          × ((write_output m (b ∷ bs) (record c { payload = payload }) s).file
              ≡ left_of m.at_end (b ∷ bs) payload)
    go [] k = ground arith
    go (x ∷ xs) k = ground arith

capture_then_write-written :
    (m : Machine) (path : Bytes) (r : CaptureCall)
    → (let f : Finish =
          if r.done then write_output m path r.out r.session else stops_with 1 r.session in
        f.code ≡ 0
        → (r.done ≡ true)
          × ((f.written ≡ file_of path r.out.payload)
              × (f.file ≡ left_of m.at_end path r.out.payload)))
capture_then_write-written m path r h = ground (arith, write_output-written m path r.out r.session)

capture_if-Delivered :
    (m : Machine) (o : Options) (x : Bool × Session)
    → run_until new_session (all_calls m o) ≡ x
    → (capture_if m o x).code ≡ 0
    → Delivered m o (guarded (capture_if m o x))
unfolding capture_then_write
capture_if-Delivered m o (false, s) e h = absurd (ground arith)
capture_if-Delivered m o (true, s) e h =
    let w = capture_then_write-written m o.output_path (requested_capture o s) h in
    record {
      before = s;
      set_up = e;
      configured =
          ap (λ (x : Bool × Session). x.1.config) (sym e)
          ∙ all_calls-configured m o (ap (λ (x : Bool × Session). x.0) e);
      captured = w.0;
      describes = requested_capture-Describes o s w.0;
      has_written = w.1.0;
      has_left = w.1.1;
    }

-- A run that exits with 0 has connected and configured the session exactly as the options say, has
-- captured the kind of samples that they ask for, with these settings in the capture's description,
-- and, if the options name an output, has handed the captured bytes to its stream, which has accepted
-- them: the file is what the unchecked end of the stream leaves of them, all if it flushes them.
pub run_capture-Delivered :
    (m : Machine) (o : Options) → (run_capture m o).code ≡ 0 → Delivered m o (run_capture m o)
run_capture-Delivered m o h =
    let e = run_capture-run_until m o in
    subst (Delivered m o) (sym e) (
      capture_if-Delivered m o (run_until new_session (all_calls m o)) refl
        (ap (λ (r : Finish). r.code) (sym e) ∙ h))
