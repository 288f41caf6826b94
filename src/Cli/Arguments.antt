-- ===== src/Cli/Arguments.antt =====
-- The options of `capture`: the loop over the arguments in `main` of user_cli.cpp. The example's
-- loop is the same with fewer options.
pub mod RoundTrip
use antsdr_dfone.Prelude.{
  ℕ, zero, suc, ◌+◌, ◌-◌, ◌*◌, ◌%◌, ◌^◌, Bool, true, false, not, ◌&&◌, ◌||◌, List, [], ◌∷◌, Option,
  some, none, ltb, leb, ◌==◌, if◌then◌else◌, Bytes, codes,
}
use antsdr_dfone.Session.{
  ReferenceClock, default_clock, external, source2, source3, Endpoint, CaptureConfig,
  default_config, IqCapture, default_capture, Session, new_session,
}
use antsdr_dfone.Maintenance.Text.{bytes_eq}
use antsdr_dfone.Cli.Numerals.{parse_u32, parse_u64, parse_size}

-- The values that the options of `capture` set.
pub record Options : Type 0 where
  pub endpoint : Endpoint
  pub config : CaptureConfig
  pub frames : ℕ
  pub wants_uncorrected : Bool
  pub output_path : Bytes

abbrev pub default_options : Options
default_options = record {
  endpoint = new_session.endpoint;
  config = default_config;
  frames = 65536;
  wants_uncorrected = false;
  output_path = [];
}

pub data Field : Type 0 where
  device_ip_field cmd_port_field data_port_field sample_rate_field rx_lo_field : Field
  rx_gain_field ref_clock_field frames_field output_field : Field

-- What `main` compares an argument with.
pub data Flag : Type 0 where
  takes_value : Field → Flag
  uncorrected_flag help_flag unknown_flag : Flag

unfoldable pub flag_of : Bytes → Flag
unfolding bytes_eq
flag_of arg =
    if bytes_eq arg (codes "--device-ip")
    then takes_value device_ip_field
    else if bytes_eq arg (codes "--cmd-port")
    then takes_value cmd_port_field
    else if bytes_eq arg (codes "--data-port")
    then takes_value data_port_field
    else if bytes_eq arg (codes "--sample-rate")
    then takes_value sample_rate_field
    else if bytes_eq arg (codes "--rx-lo")
    then takes_value rx_lo_field
    else if bytes_eq arg (codes "--rx-gain")
    then takes_value rx_gain_field
    else if bytes_eq arg (codes "--ref-clock")
    then takes_value ref_clock_field
    else if bytes_eq arg (codes "--frames")
    then takes_value frames_field
    else if bytes_eq arg (codes "--uncorrected")
    then uncorrected_flag
    else if bytes_eq arg (codes "--output")
    then takes_value output_field
    else if bytes_eq arg (codes "--help") || bytes_eq arg (codes "-h")
    then help_flag
    else unknown_flag

abbrev pub keep_if : (ℕ → Bool) → (ℕ → Options) → Option ℕ → Option Options
keep_if good set none = none
keep_if good set (some v) = if good v then some (set v) else none

abbrev pub any_number : ℕ → Bool
any_number v = true

abbrev pub is_port : ℕ → Bool
is_port v = not (ltb 65535 v)

abbrev pub is_clock : ℕ → Bool
is_clock v = not (ltb 3 v)

abbrev pub clock_of : ℕ → ReferenceClock
clock_of zero = default_clock
clock_of (suc zero) = external
clock_of (suc (suc zero)) = source2
clock_of (suc (suc (suc n))) = source3

-- An option with its value; `none` is the exit with an "invalid" message.
unfoldable pub assign : ℕ → Field → Bytes → Options → Option Options
unfolding parse_u32 parse_u64 parse_size
assign bits device_ip_field v o =
    some (record o { endpoint = record (o.endpoint) { device_ip = v } })
assign bits cmd_port_field v o =
    keep_if is_port (λ n. record o { endpoint = record (o.endpoint) { command_port = n % 2 ^ 16 } })
      (parse_u32 bits v)
assign bits data_port_field v o =
    keep_if is_port (λ n. record o { endpoint = record (o.endpoint) { data_port = n % 2 ^ 16 } })
      (parse_u32 bits v)
assign bits sample_rate_field v o =
    keep_if any_number (λ n. record o { config = record (o.config) { sample_rate_hz = n } })
      (parse_u32 bits v)
assign bits rx_lo_field v o =
    keep_if any_number (λ n. record o { config = record (o.config) { rx_lo_hz = n } }) (parse_u64 v)
assign bits rx_gain_field v o =
    keep_if any_number (λ n. record o { config = record (o.config) { rx_gain_db = n } })
      (parse_u32 bits v)
assign bits ref_clock_field v o =
    keep_if is_clock (λ n. record o { config = record (o.config) { reference_clock = clock_of n } })
      (parse_u32 bits v)
assign bits frames_field v o = keep_if any_number (λ n. record o { frames = n }) (parse_size v)
assign bits output_field v o = some (record o { output_path = v })

-- How the loop over the arguments ends: with options, or with an exit code.
pub data Parsed : Type 0 where
  runs_with : Options → Parsed
  exits : ℕ → Parsed

unfoldable pub parse_with : (Bytes → Flag) → ℕ → List Bytes → Options → Parsed
unfolding assign
parse_with flags bits [] o = runs_with o
parse_with flags bits (arg ∷ []) o = elim (flags arg) [
  | takes_value k ↦ exits 2
  | uncorrected_flag ↦ runs_with (record o { wants_uncorrected = true })
  | help_flag ↦ exits 0
  | unknown_flag ↦ exits 2
]
parse_with flags bits (arg ∷ v ∷ args) o = elim (flags arg) [
  | takes_value k ↦ elim (assign bits k v o) [
    | none ↦ exits 2
    | some o' ↦ parse_with flags bits args o'
  ]
  | uncorrected_flag ↦ parse_with flags bits (v ∷ args) (record o { wants_uncorrected = true })
  | help_flag ↦ exits 0
  | unknown_flag ↦ exits 2
]

unfoldable pub parse_options : ℕ → List Bytes → Options → Parsed
unfolding flag_of parse_with
parse_options = parse_with flag_of
