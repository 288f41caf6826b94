-- ===== src/Gui/App.antt =====
-- The state that the user interface and the worker share, and the settings that a job takes from the
-- interface (`AppState`, `AppSnapshot`).
use antsdr_dfone.Prelude.{
  ℕ, zero, suc, Bool, true, List, [], ◌∷◌, Option, some, none, Bytes, ℤ, clamp, at_least,
}
use antsdr_dfone.Session.{
  ReferenceClock, synchronized_capture, Endpoint, CaptureConfig, IqCapture, RecordConfig, Session,
}
use antsdr_dfone.Cli.Arguments.{clock_of}

-- `PendingControlUpdate`; a value that it has not is `none`.
pub record Pending : Type 0 where
  pub reference_clock : Option ReferenceClock
  pub sample_rate_hz : Option ℕ
  pub rx_lo_hz : Option ℕ
  pub rx_gain_db : Option ℕ

abbrev pub no_pending : Pending
no_pending = record {
  reference_clock = none;
  sample_rate_hz = none;
  rx_lo_hz = none;
  rx_gain_db = none;
}

-- What the interface shows of a job with a length: whether it runs, its bytes and its stage.
pub record Progress : Type 0 where
  pub running : Bool
  pub written_bytes : ℕ
  pub total_bytes : ℕ
  pub stage : Bytes

pub record App : Type 0 where
  pub session : Session
  pub is_connected : Bool
  pub busy : Bool
  pub status : Bytes
  pub error : Bytes
  pub record_has_ssd : Bool
  pub pending : Pending
  pub last_capture : IqCapture
  pub capture_running : Bool
  pub capture_cancel : Bool
  pub iterations : ℕ
  pub baseband : Progress
  pub baseband_cancel : Bool
  pub recording : Progress
  pub firmware_running : Bool
  pub maintenance_output : Bytes

-- The settings, as the interface has them when a job starts. The sample rate and the local
-- oscillator are what the conversions from MS/s and MHz give.
pub record Snapshot : Type 0 where
  pub device_ip : Bytes
  pub command_port : ℤ
  pub data_port : ℤ
  pub reference_clock : ℤ
  pub rx_gain_db : ℤ
  pub sample_rate_hz : ℕ
  pub rx_lo_hz : ℕ
  pub frames : ℤ
  pub save_to_file : Bool
  pub output_path : Bytes
  pub record_channel_index : ℤ
  pub record_length_mb : ℤ
  pub record_output_path : Bytes
  pub baseband_length_mb : ℤ
  pub baseband_output_path : Bytes
  pub firmware_update_port : ℤ
  pub emmc_firmware_path : Bytes
  pub qspi_firmware_path : Bytes
  pub firmware_update_reboot_after : Bool

unfoldable pub make_endpoint : Snapshot → Endpoint
make_endpoint w = record {
  device_ip = w.device_ip;
  command_port = clamp 1 65535 w.command_port;
  data_port = clamp 1 65535 w.data_port;
}

unfoldable pub make_config : Snapshot → CaptureConfig
make_config w = record {
  work_mode = synchronized_capture;
  reference_clock = clock_of (clamp 0 3 w.reference_clock);
  sample_rate_hz = w.sample_rate_hz;
  rx_lo_hz = w.rx_lo_hz;
  rx_gain_db = clamp 0 76 w.rx_gain_db;
}

-- `kRecordMasks[index]`.
abbrev pub record_mask_of : ℕ → ℕ
record_mask_of zero = 0x1
record_mask_of (suc zero) = 0x3
record_mask_of (suc (suc n)) = 0xF

unfoldable pub make_record_config : Snapshot → RecordConfig
make_record_config w = record {
  channel_mask = record_mask_of (clamp 0 2 w.record_channel_index);
  length_mb = at_least 4 w.record_length_mb;
  output_path = w.record_output_path;
}

-- What the interface changes while a job runs: it asks a job to stop, or leaves a setting for it.
pub data Touch : Type 0 where
  cancels_capture cancels_baseband : Touch
  wants_clock : ReferenceClock → Touch
  wants_sample_rate wants_rx_lo wants_rx_gain : ℕ → Touch

abbrev pub cancel_capture : App → App
cancel_capture a = record a { capture_cancel = true }

abbrev pub cancel_baseband : App → App
cancel_baseband a = record a { baseband_cancel = true }

-- A setting that is left for the job replaces one that still waits.
abbrev pub touch : Touch → App → App
touch cancels_capture a = cancel_capture a
touch cancels_baseband a = cancel_baseband a
touch (wants_clock v) a = record a { pending = record (a.pending) { reference_clock = some v } }
touch (wants_sample_rate v) a = record a {
  pending = record (a.pending) { sample_rate_hz = some v };
}
touch (wants_rx_lo v) a = record a { pending = record (a.pending) { rx_lo_hz = some v } }
touch (wants_rx_gain v) a = record a { pending = record (a.pending) { rx_gain_db = some v } }

unfoldable pub touch_all : List Touch → App → App
touch_all [] a = a
touch_all (t ∷ ts) a = touch_all ts (touch t a)
