-- ===== src/Control.antt =====
-- The command channel: transport/control_client.cpp. A handle is `none` when it is kInvalidSocket.
-- Log lines have no effect on what the client does, and are left out.
pub mod Response
pub mod Commands
pub mod Sent
pub mod Exhausted
use antsdr_dfone.Prelude.{
  ℕ, zero, suc, ◌+◌, ◌*◌, ◌%◌, ◌^◌, ◌-◌, Bool, true, false, not, ◌&&◌, ◌||◌, List, [], ◌∷◌, ◌++◌,
  Option, some, none, ltb, leb, ◌==◌, if◌then◌else◌, length, get_or, drop, min, Bytes,
}
use antsdr_dfone.Net.{Incoming, Socket, supply, write_all}
use antsdr_dfone.Wire.{
  PacketHeader, Packet, packet_type_code, response, receive_packet, command_frame, read_u32_le,
  command_code, set_rx_gain, set_sample_clock_rate, set_rx_lo_freq, set_ref_clock_source, get_iq,
  get_uncorrected_iq, set_record_enable_chan, get_record_storage_has_ssd, start_record_mb,
}
use antsdr_dfone.Dial.{DeviceEndpoint, Dial}
use antsdr_dfone.Stream.{
  StreamClient, RecordRequest, Disk, Recorded, refuse_record, empty_capture, read_capture_packet,
  read_record_packets, pending,
}

pub record ControlClient : Type 0 where
  pub endpoint : DeviceEndpoint
  pub socket_fd : Option Socket
  pub next_seq : ℕ
  pub connected : Bool

-- `ControlClient(endpoint)`.
unfoldable pub new_control : DeviceEndpoint → ControlClient
new_control e = record { endpoint = e; socket_fd = none; next_seq = 0; connected = false }

unfoldable pub disconnect : ControlClient → ControlClient
disconnect c = record c { socket_fd = none; connected = false }

-- `connect`, from the handle on.
unfoldable pub connect_socket : Dial → ControlClient → Option Socket → Bool × ControlClient
unfolding disconnect
connect_socket d c none = (false, record c { socket_fd = none })
connect_socket d c (some s) =
    if not (d.is_ipv4 c.endpoint.device_ip)
    then (false, disconnect (record c { socket_fd = some s }))
    else if not (d.reaches c.endpoint.device_ip c.endpoint.command_port)
    then (false, disconnect (record c { socket_fd = some s }))
    else (true, record c { socket_fd = some s; connected = true })

unfoldable pub connect : Dial → ControlClient → Bool × ControlClient
unfolding connect_socket
connect d c =
    if c.connected
    then (true, c)
    else if not d.runtime_ready
    then (false, c)
    else connect_socket d c d.socket

-- The `std::min` with the greatest uint32_t, and the narrowing.
unfoldable pub encode_capture_sample_count : ℕ → ℕ
encode_capture_sample_count n = if n == 0 then 0 else min n (2 ^ 32 - 1) % 2 ^ 32

-- `send_command_frame`, by `connected_` and the handle. The sequence number is taken before the
-- frame is written, and wraps.
unfoldable pub write_frame : ControlClient → Socket → Bytes → Bool × ControlClient
unfolding disconnect
write_frame c s frame =
    let (sent, s') = write_all s frame in
    let c' = record c { next_seq = (c.next_seq + 1) % 2 ^ 16 } in
    if sent then (true, record c' { socket_fd = some s' }) else (false, disconnect c')

unfoldable pub send_frame_on : ControlClient → ℕ → ℕ → Bool → Option Socket → Bool × ControlClient
unfolding write_frame
send_frame_on c addr value false fd = (false, c)
send_frame_on c addr value true none = (false, c)
send_frame_on c addr value true (some s) = write_frame c s (command_frame c.next_seq addr value)

unfoldable pub send_command_frame : ControlClient → ℕ → ℕ → Bool × ControlClient
unfolding send_frame_on
send_command_frame c addr value = send_frame_on c addr value c.connected c.socket_fd

unfoldable pub keep_or_disconnect :
    ControlClient → Socket → Option Packet × Incoming → Option Packet × ControlClient
unfolding disconnect
keep_or_disconnect c s (none, rest) = (none, disconnect c)
keep_or_disconnect c s (some p, rest) =
    (some p, record c { socket_fd = some (record s { incoming = rest }) })

-- recv on the invalid handle fails, and that is a read error.
unfoldable pub read_packet_on : ControlClient → Option Socket → Option Packet × ControlClient
unfolding keep_or_disconnect receive_packet
read_packet_on c none = (none, disconnect c)
read_packet_on c (some s) = keep_or_disconnect c s (receive_packet s.incoming)

unfoldable pub read_packet : ControlClient → Option Packet × ControlClient
unfolding read_packet_on
read_packet c = read_packet_on c c.socket_fd

-- The value that a response packet carries: in the payload if that has eight bytes, else in the
-- first two extension words.
unfoldable pub response_value : Packet → ℕ
response_value p =
    if leb 8 (length p.payload)
    then read_u32_le p.payload + read_u32_le (drop 4 p.payload) * 2 ^ 32
    else get_or p.header.extension_words 0 0 + get_or p.header.extension_words 1 0 * 2 ^ 32

abbrev pub is_response : Packet → Bool
is_response p = p.header.magic_type == packet_type_code response

-- One round of `while (true)` in `read_response`; a packet of another type is dropped, and the loop
-- goes on with `again`.
unfoldable pub response_round :
    (ControlClient → Option ℕ × ControlClient)
    → Option Packet × ControlClient
    → Option ℕ × ControlClient
unfolding response_value
response_round again (none, c) = (none, c)
response_round again (some p, c) = elim (is_response p) [
  | true ↦ (some (response_value p), c)
  | false ↦ again c
]

pub response_loop : ℕ → ControlClient → Option ℕ × ControlClient
response_loop zero c = (none, c)
response_loop (suc f) c = response_round (response_loop f) (read_packet c)

unfoldable pub read_response : ControlClient → Option ℕ × ControlClient
unfolding response_loop response_round read_packet pending
read_response c = response_loop (suc (pending c.socket_fd)) c

-- The test of a response that has to be zero.
unfoldable pub expect_zero : Option ℕ × ControlClient → Bool × ControlClient
expect_zero (none, c) = (false, c)
expect_zero (some v, c) = (v == 0, c)

unfoldable pub send_command : ControlClient → ℕ → ℕ → Bool × ControlClient
unfolding send_command_frame read_response expect_zero
send_command c addr value =
    let (sent, c') = send_command_frame c addr value in
    if sent then expect_zero (read_response c') else (false, c')

unfoldable pub control_set_rx_gain : ControlClient → ℕ → Bool × ControlClient
control_set_rx_gain c gain_db = send_command c (command_code set_rx_gain) gain_db

unfoldable pub control_set_ref_clock_source : ControlClient → ℕ → Bool × ControlClient
control_set_ref_clock_source c source =
    send_command c (command_code set_ref_clock_source) (source % 4)

unfoldable pub control_set_sample_rate : ControlClient → ℕ → Bool × ControlClient
control_set_sample_rate c rate = send_command c (command_code set_sample_clock_rate) rate

unfoldable pub control_set_rx_lo_frequency : ControlClient → ℕ → Bool × ControlClient
control_set_rx_lo_frequency c rx_lo_hz = send_command c (command_code set_rx_lo_freq) rx_lo_hz

-- Bit 0 of the response is the answer.
unfoldable pub ssd_answer : Option ℕ × ControlClient → Option Bool × ControlClient
ssd_answer (none, c) = (none, c)
ssd_answer (some v, c) = (some (not (v % 2 == 0)), c)

-- `get_record_storage_has_ssd`; at `none` it answers false and `has_ssd` is false.
unfoldable pub control_has_ssd : ControlClient → Option Bool × ControlClient
unfolding ssd_answer send_command_frame read_response
control_has_ssd c =
    let (sent, c') = send_command_frame c (command_code get_record_storage_has_ssd) 0 in
    if sent then ssd_answer (read_response c') else (none, c')
