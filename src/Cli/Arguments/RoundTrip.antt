-- ===== src/Cli/Arguments/RoundTrip.antt =====
-- Arguments that are printed from settings, and what the loop over the arguments makes of them.
use antsdr_dfone.Prelude.{
  ℕ, ◌%◌, ◌^◌, ◌<◌, ◌≤◌, ◌≡◌, refl, ap, ◌∙◌, true, false, List, [], ◌∷◌, ◌++◌, some, arith, ltb,
  le→ltb, Bytes, codes,
}
use antsdr_dfone.Maintenance.Text.{bytes_eq}
use antsdr_dfone.Maintenance.Service.{to_string}
use antsdr_dfone.Session.{ReferenceClock, default_clock, external, source2, source3, clock_code}
use antsdr_dfone.Cli.Numerals.{parse_size}
use antsdr_dfone.Cli.Numerals.Decimal.{parse_u32-to_string, parse_u64-to_string}
use antsdr_dfone.Cli.Arguments.{
  Options, cmd_port_field, data_port_field, sample_rate_field, rx_lo_field, rx_gain_field,
  ref_clock_field, frames_field, flag_of, assign, runs_with, parse_with, parse_options, keep_if,
  is_port,
}

-- One option with its value.
pub data Setting : Type 0 where
  device_ip output : Bytes → Setting
  cmd_port data_port sample_rate rx_lo rx_gain frames : ℕ → Setting
  ref_clock : ReferenceClock → Setting
  uncorrected : Setting

abbrev pub arguments_of : Setting → List Bytes
arguments_of (device_ip v) = codes "--device-ip" ∷ v ∷ []
arguments_of (output v) = codes "--output" ∷ v ∷ []
arguments_of (cmd_port n) = codes "--cmd-port" ∷ to_string n ∷ []
arguments_of (data_port n) = codes "--data-port" ∷ to_string n ∷ []
arguments_of (sample_rate n) = codes "--sample-rate" ∷ to_string n ∷ []
arguments_of (rx_lo n) = codes "--rx-lo" ∷ to_string n ∷ []
arguments_of (rx_gain n) = codes "--rx-gain" ∷ to_string n ∷ []
arguments_of (frames n) = codes "--frames" ∷ to_string n ∷ []
arguments_of (ref_clock k) = codes "--ref-clock" ∷ to_string (clock_code k) ∷ []
arguments_of uncorrected = codes "--uncorrected" ∷ []

abbrev pub command_line : List Setting → List Bytes
command_line [] = []
command_line (s ∷ ss) = arguments_of s ++ command_line ss

-- The ranges of the fields.
abbrev pub IsInRange : Setting → Type 0
IsInRange (device_ip v) = Unit {0}
IsInRange (output v) = Unit {0}
IsInRange (cmd_port n) = n < 2 ^ 16
IsInRange (data_port n) = n < 2 ^ 16
IsInRange (sample_rate n) = n < 2 ^ 32
IsInRange (rx_lo n) = n < 2 ^ 64
IsInRange (rx_gain n) = n < 2 ^ 32
IsInRange (frames n) = n < 2 ^ 64
IsInRange (ref_clock k) = Unit {0}
IsInRange uncorrected = Unit {0}

abbrev pub AllInRange : List Setting → Type 0
AllInRange [] = Unit {0}
AllInRange (s ∷ ss) = IsInRange s × AllInRange ss

abbrev pub apply_setting : Setting → Options → Options
apply_setting (device_ip v) o = record o { endpoint = record (o.endpoint) { device_ip = v } }
apply_setting (output v) o = record o { output_path = v }
apply_setting (cmd_port n) o = record o { endpoint = record (o.endpoint) { command_port = n } }
apply_setting (data_port n) o = record o { endpoint = record (o.endpoint) { data_port = n } }
apply_setting (sample_rate n) o = record o { config = record (o.config) { sample_rate_hz = n } }
apply_setting (rx_lo n) o = record o { config = record (o.config) { rx_lo_hz = n } }
apply_setting (rx_gain n) o = record o { config = record (o.config) { rx_gain_db = n } }
apply_setting (frames n) o = record o { frames = n }
apply_setting (ref_clock k) o = record o { config = record (o.config) { reference_clock = k } }
apply_setting uncorrected o = record o { wants_uncorrected = true }

-- From the first to the last, so that a later option wins.
abbrev pub apply_settings : List Setting → Options → Options
apply_settings [] o = o
apply_settings (s ∷ ss) o = apply_settings ss (apply_setting s o)

keep_if-port :
    (set : ℕ → Options) (n : ℕ)
    → n < 2 ^ 16
    → keep_if is_port (λ k. set (k % 2 ^ 16)) (some n) ≡ some (set n)
keep_if-port set n h =
    let small : ltb 65535 n ≡ false = le→ltb 65535 n (omega arith) in
    rw small (ap (λ k. some (set k)) (omega arith))

module _ (bits : ℕ) (w : 2 ^ 32 ≤ 2 ^ bits) (o : Options) where
  assign-cmd_port :
      (n : ℕ)
      → n < 2 ^ 16
      → assign bits cmd_port_field (to_string n) o ≡ some (apply_setting (cmd_port n) o)
  unfolding assign
  assign-cmd_port n h =
      rw (parse_u32-to_string bits n w (omega arith))
        (keep_if-port (λ k. apply_setting (cmd_port k) o) n h)

  assign-data_port :
      (n : ℕ)
      → n < 2 ^ 16
      → assign bits data_port_field (to_string n) o ≡ some (apply_setting (data_port n) o)
  unfolding assign
  assign-data_port n h =
      rw (parse_u32-to_string bits n w (omega arith))
        (keep_if-port (λ k. apply_setting (data_port k) o) n h)

  assign-sample_rate :
      (n : ℕ)
      → n < 2 ^ 32
      → assign bits sample_rate_field (to_string n) o ≡ some (apply_setting (sample_rate n) o)
  unfolding assign
  assign-sample_rate n h = rw (parse_u32-to_string bits n w h) refl

  assign-rx_gain :
      (n : ℕ)
      → n < 2 ^ 32
      → assign bits rx_gain_field (to_string n) o ≡ some (apply_setting (rx_gain n) o)
  unfolding assign
  assign-rx_gain n h = rw (parse_u32-to_string bits n w h) refl

  assign-rx_lo :
      (n : ℕ)
      → n < 2 ^ 64
      → assign bits rx_lo_field (to_string n) o ≡ some (apply_setting (rx_lo n) o)
  unfolding assign
  assign-rx_lo n h = rw (parse_u64-to_string n h) refl

  assign-frames :
      (n : ℕ)
      → n < 2 ^ 64
      → assign bits frames_field (to_string n) o ≡ some (apply_setting (frames n) o)
  unfolding assign parse_size
  assign-frames n h = rw (parse_u64-to_string n h) refl

  assign-ref_clock :
      (k : ReferenceClock)
      → assign bits ref_clock_field (to_string (clock_code k)) o
        ≡ some (apply_setting (ref_clock k) o)
  unfolding assign
  assign-ref_clock default_clock = rw (parse_u32-to_string bits 0 w (omega arith)) refl
  assign-ref_clock external = rw (parse_u32-to_string bits 1 w (omega arith)) refl
  assign-ref_clock source2 = rw (parse_u32-to_string bits 2 w (omega arith)) refl
  assign-ref_clock source3 = rw (parse_u32-to_string bits 3 w (omega arith)) refl

parse_with-uncorrected :
    (bits : ℕ) (args : List Bytes) (o : Options)
    → parse_with flag_of bits (codes "--uncorrected" ∷ args) o
      ≡ parse_with flag_of bits args (record o { wants_uncorrected = true })
unfolding parse_with flag_of bytes_eq
parse_with-uncorrected bits [] o = refl
parse_with-uncorrected bits (v ∷ args) o = refl

module _ (bits : ℕ) (w : 2 ^ 32 ≤ 2 ^ bits) (args : List Bytes) (o : Options) where
  parse_with-setting :
      (s : Setting)
      → IsInRange s
      → parse_with flag_of bits (arguments_of s ++ args) o
        ≡ parse_with flag_of bits args (apply_setting s o)
  unfolding parse_with flag_of bytes_eq
  parse_with-setting (device_ip v) h = refl
  parse_with-setting (output v) h = refl
  parse_with-setting (cmd_port n) h = rw (assign-cmd_port bits w o n h, parse_with) refl
  parse_with-setting (data_port n) h = rw (assign-data_port bits w o n h, parse_with) refl
  parse_with-setting (sample_rate n) h = rw (assign-sample_rate bits w o n h, parse_with) refl
  parse_with-setting (rx_lo n) h = rw (assign-rx_lo bits w o n h, parse_with) refl
  parse_with-setting (rx_gain n) h = rw (assign-rx_gain bits w o n h, parse_with) refl
  parse_with-setting (frames n) h = rw (assign-frames bits w o n h, parse_with) refl
  parse_with-setting (ref_clock k) h = rw (assign-ref_clock bits w o k, parse_with) refl
  parse_with-setting uncorrected h = parse_with-uncorrected bits args o

-- Options that are printed from settings in range are parsed into these settings, applied from the
-- first to the last, so that of two options for one field the later one wins.
pub parse_options-command_line :
    (bits : ℕ) (ss : List Setting) (o : Options)
    → 2 ^ 32 ≤ 2 ^ bits
    → AllInRange ss
    → parse_options bits (command_line ss) o ≡ runs_with (apply_settings ss o)
unfolding parse_options parse_with
parse_options-command_line bits [] o w h = refl
parse_options-command_line bits (s ∷ ss) o w h =
    parse_with-setting bits w (command_line ss) o s h.0
    ∙ parse_options-command_line bits ss (apply_setting s o) w h.1
