-- ===== src/Session.antt =====
-- The public session: public/session.cpp and public/include/dfone/session.hpp. A `DfOneSession`
-- only forwards to its `Impl`, whose members are the fields here.
pub mod Methods
pub mod Calls
pub mod Answers
pub mod Steps
pub mod Invariant
pub mod Reach
pub mod Exchange
pub mod Stored
pub mod Empty
use antsdr_dfone.Prelude.{ℕ, ◌*◌, ◌/◌, [], Option, none, length, Bytes, codes}
use antsdr_dfone.Dial.{DeviceEndpoint, default_command_port, default_data_port}
use antsdr_dfone.Stream.{StreamClient, RecordRequest}
use antsdr_dfone.Control.{ControlClient}

abbrev pub channel_count : ℕ
channel_count = 8

abbrev pub bytes_per_frame : ℕ
bytes_per_frame = channel_count * 2 * 2

pub data WorkMode : Type 0 where
  synchronized_capture independent_ad9361 : WorkMode

pub data ReferenceClock : Type 0 where
  default_clock external source2 source3 : ReferenceClock

abbrev pub clock_code : ReferenceClock → ℕ
clock_code default_clock = 0
clock_code external = 1
clock_code source2 = 2
clock_code source3 = 3

pub data IqKind : Type 0 where
  calibrated uncorrected : IqKind

pub data IqSampleFormat : Type 0 where
  cs16_le_interleaved_channels : IqSampleFormat

pub record Endpoint : Type 0 where
  pub device_ip : Bytes
  pub command_port : ℕ
  pub data_port : ℕ

pub record CaptureConfig : Type 0 where
  pub work_mode : WorkMode
  pub reference_clock : ReferenceClock
  pub sample_rate_hz : ℕ
  pub rx_lo_hz : ℕ
  pub rx_gain_db : ℕ

-- `DfOneCaptureConfig{}`.
abbrev pub default_config : CaptureConfig
default_config = record {
  work_mode = synchronized_capture;
  reference_clock = default_clock;
  sample_rate_hz = 30_720_000;
  rx_lo_hz = 2_400_000_000;
  rx_gain_db = 30;
}

pub record IqCapture : Type 0 where
  pub kind : IqKind
  pub sample_format : IqSampleFormat
  pub sample_rate_hz : ℕ
  pub rx_lo_hz : ℕ
  pub frames : ℕ
  pub channels : ℕ
  pub frame_bytes : ℕ
  pub payload : Bytes

-- `DfOneIqCapture{}`.
abbrev pub default_capture : IqCapture
default_capture = record {
  kind = calibrated;
  sample_format = cs16_le_interleaved_channels;
  sample_rate_hz = 0;
  rx_lo_hz = 0;
  frames = 0;
  channels = channel_count;
  frame_bytes = bytes_per_frame;
  payload = [];
}

pub record RecordConfig : Type 0 where
  pub channel_mask : ℕ
  pub length_mb : ℕ
  pub output_path : Bytes

-- The texts that `last_error_` can hold; `no_error` is the empty one.
pub data LastError : Type 0 where
  no_error connect_failed connect_data_channel_failed not_connected : LastError
  mode_not_implemented set_reference_clock_failed set_sample_rate_failed : LastError
  set_rx_gain_failed set_rx_lo_failed get_ssd_failed capture_failed : LastError
  capture_uncorrected_failed record_failed : LastError

abbrev pub error_text : LastError → Bytes
error_text no_error = []
error_text connect_failed = codes "connect failed"
error_text connect_data_channel_failed = codes "connect data channel failed"
error_text not_connected = codes "not connected"
error_text mode_not_implemented = codes "independent AD9361 mode is not implemented"
error_text set_reference_clock_failed = codes "set reference clock failed"
error_text set_sample_rate_failed = codes "set sample rate failed"
error_text set_rx_gain_failed = codes "set RX gain failed"
error_text set_rx_lo_failed = codes "set RX LO failed"
error_text get_ssd_failed = codes "get record SSD status failed"
error_text capture_failed = codes "capture calibrated IQ failed"
error_text capture_uncorrected_failed = codes "capture uncorrected IQ failed"
error_text record_failed = codes "record IQ failed"

pub record Session : Type 0 where
  pub endpoint : Endpoint
  pub config : CaptureConfig
  pub control : Option ControlClient
  pub stream : Option StreamClient
  pub last_error : LastError

-- `Impl` as it is constructed.
abbrev pub new_session : Session
new_session = record {
  endpoint = record {
    device_ip = codes "192.168.7.2";
    command_port = default_command_port;
    data_port = default_data_port;
  };
  config = default_config;
  control = none;
  stream = none;
  last_error = no_error;
}

abbrev pub to_internal_endpoint : Endpoint → DeviceEndpoint
to_internal_endpoint e = record {
  device_ip = e.device_ip;
  command_port = e.command_port;
  data_port = e.data_port;
}

abbrev pub to_internal_record_request : RecordConfig → RecordRequest
to_internal_record_request r = record {
  channel_mask = r.channel_mask;
  length_mb = r.length_mb;
  output_path = r.output_path;
}

abbrev pub payload_frames : Bytes → ℕ
payload_frames payload = length payload / bytes_per_frame
