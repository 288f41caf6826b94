-- ===== src/Acquire.antt =====
-- The commands of transport/control_client.cpp that use both channels: captures and recordings.
pub mod Invariant
pub mod Checks
pub mod Capture
pub mod Recording
pub mod Whole
use antsdr_dfone.Prelude.{
  ℕ, ◌*◌, ◌%◌, Bool, false, not, ◌||◌, Option, some, none, ltb, ◌==◌, if◌then◌else◌,
}
use antsdr_dfone.Wire.{
  Packet, command_code, get_iq, get_uncorrected_iq, set_record_enable_chan, start_record_mb,
}
use antsdr_dfone.Stream.{
  StreamClient, RecordRequest, Disk, Recorded, refuse_record, empty_capture, read_capture_packet,
  read_record_packets,
}
use antsdr_dfone.Control.{
  ControlClient, send_command_frame, read_response, expect_zero, send_command, control_has_ssd,
  encode_capture_sample_count,
}

-- Both clients, as a capture or a recording uses them.
pub record Clients : Type 0 where
  pub control : ControlClient
  pub stream : StreamClient

-- What a capture gives: the answer, what `capture` then holds, the clients.
pub record Captured : Type 0 where
  pub done : Bool
  pub capture : Packet
  pub clients : Clients

unfoldable pub confirm_capture : Packet → StreamClient → Bool × ControlClient → Captured
confirm_capture p stream (zeroed, control) = record {
  done = zeroed;
  capture = p;
  clients = record { control = control; stream = stream };
}

-- `send_command_for_capture`, from the packet on the data channel on.
unfoldable pub capture_packet : ControlClient → Option Packet × StreamClient → Captured
unfolding confirm_capture read_response expect_zero
capture_packet c (none, stream) = record {
  done = false;
  capture = empty_capture;
  clients = record { control = c; stream = stream };
}
capture_packet c (some p, stream) = confirm_capture p stream (expect_zero (read_response c))

unfoldable pub send_command_for_capture : Clients → ℕ → ℕ → Captured
unfolding capture_packet send_command_frame read_capture_packet
send_command_for_capture k addr value =
    let (sent, c') = send_command_frame k.control addr value in
    if sent then capture_packet c' (read_capture_packet k.stream) else record {
      done = false;
      capture = empty_capture;
      clients = record { control = c'; stream = k.stream };
    }

unfoldable pub request_synchronized_iq : Clients → ℕ → Captured
unfolding send_command_for_capture encode_capture_sample_count
request_synchronized_iq k n =
    send_command_for_capture k (command_code get_iq) (encode_capture_sample_count n)

unfoldable pub request_uncorrected_iq : Clients → ℕ → Captured
unfolding send_command_for_capture encode_capture_sample_count
request_uncorrected_iq k n =
    send_command_for_capture k (command_code get_uncorrected_iq) (encode_capture_sample_count n)

unfoldable pub send_command_raw : ControlClient → ℕ → ℕ → Bool × ControlClient
unfolding send_command
send_command_raw c addr value = send_command c addr value

unfoldable pub request_iq_raw : Clients → ℕ → ℕ → Captured
unfolding send_command_for_capture encode_capture_sample_count
request_iq_raw k addr n = send_command_for_capture k addr (encode_capture_sample_count n)

-- `request.channel_mask & 0x0FU`, and the masks that are supported.
abbrev pub record_mask : RecordRequest → ℕ
record_mask q = q.channel_mask % 16

abbrev pub good_mask : ℕ → Bool
good_mask m = m == 0x1 || m == 0x3 || m == 0xf

abbrev pub good_length : ℕ → Bool
good_length mb = not (mb == 0 || not (mb % 4 == 0))

abbrev pub max_mb : Bool → ℕ
max_mb has_ssd = if has_ssd then 1024 * 1024 else 1024

-- What a recording gives: the outcome on the data channel, and the command channel.
pub record Started : Type 0 where
  pub outcome : Recorded
  pub control : ControlClient

abbrev pub not_started : ControlClient → StreamClient → Started
not_started c s = record { outcome = refuse_record s; control = c }

-- The two commands of a recording that has passed the checks.
unfoldable pub begin_record : Disk → ControlClient → StreamClient → RecordRequest → Bool → Started
unfolding send_command send_command_frame expect_zero read_response read_record_packets
begin_record disk c s q callback =
    let (enabled, c1) = send_command c (command_code set_record_enable_chan) (record_mask q) in
    if not enabled
    then not_started c1 s
    else let (sent, c2) = send_command_frame c1 (command_code start_record_mb) q.length_mb in
      if not sent
      then not_started c2 s
      else let (zeroed, c3) = expect_zero (read_response c2) in
        if not zeroed
        then not_started c3 s
        else record { outcome = read_record_packets disk s q callback; control = c3 }

unfoldable pub check_record :
    Disk → StreamClient → RecordRequest → Bool → Option Bool × ControlClient → Started
unfolding begin_record
check_record disk s q callback (none, c) = not_started c s
check_record disk s q callback (some has_ssd, c) =
    if not (good_mask (record_mask q))
    then not_started c s
    else if not (good_length q.length_mb)
    then not_started c s
    else if ltb (max_mb has_ssd) q.length_mb
    then not_started c s
    else begin_record disk c s q callback

unfoldable pub start_record : Disk → ControlClient → StreamClient → RecordRequest → Bool → Started
unfolding check_record control_has_ssd
start_record disk c s q callback = check_record disk s q callback (control_has_ssd c)
