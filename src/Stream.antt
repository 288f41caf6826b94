-- ===== src/Stream.antt =====
-- The data channel: transport/stream_client.cpp. A handle is `none` when it is kInvalidSocket.
-- Log lines and socket options have no effect on what the client does, and are left out.
pub mod Invariant
pub mod Loop
pub mod Validity
pub mod Outcome
pub mod Complete
pub mod Unchecked
use antsdr_dfone.Prelude.{
  ℕ, zero, suc, ◌+◌, ◌*◌, ◌%◌, ◌^◌, Bool, true, false, not, ◌&&◌, ◌||◌, List, [], ◌∷◌, ◌++◌, Option,
  some, none, ltb, ◌==◌, if◌then◌else◌, length, Bytes,
}
use antsdr_dfone.Net.{Incoming, Socket, supply}
use antsdr_dfone.Wire.{
  PacketHeader, empty_header, Packet, packet_type_code, rx_iq, calibration, record_iq,
  receive_packet,
}
use antsdr_dfone.Dial.{DeviceEndpoint, Dial}
use antsdr_dfone.OutputFile.{Closing, file_after}

pub record StreamClient : Type 0 where
  pub endpoint : DeviceEndpoint
  pub socket_fd : Option Socket
  pub opened : Bool

-- `StreamClient(endpoint)`.
unfoldable pub new_stream : DeviceEndpoint → StreamClient
new_stream e = record { endpoint = e; socket_fd = none; opened = false }

unfoldable pub close : StreamClient → StreamClient
close c = record c { socket_fd = none; opened = false }

-- `open`, from the handle on.
unfoldable pub open_socket : Dial → StreamClient → Option Socket → Bool × StreamClient
unfolding close
open_socket d c none = (false, record c { socket_fd = none })
open_socket d c (some s) =
    if not (d.is_ipv4 c.endpoint.device_ip)
    then (false, close (record c { socket_fd = some s }))
    else if not (d.reaches c.endpoint.device_ip c.endpoint.data_port)
    then (false, close (record c { socket_fd = some s }))
    else (true, record c { socket_fd = some s; opened = true })

unfoldable pub open_stream : Dial → StreamClient → Bool × StreamClient
unfolding open_socket
open_stream d c =
    if c.opened
    then (true, c)
    else if not d.runtime_ready
    then (false, c)
    else open_socket d c d.socket

-- What `read_packet` makes of the outcome on a valid socket: it closes the channel on a failure.
unfoldable pub keep_or_close :
    StreamClient → Socket → Option Packet × Incoming → Option Packet × StreamClient
unfolding close
keep_or_close c s (none, rest) = (none, close c)
keep_or_close c s (some p, rest) =
    (some p, record c { socket_fd = some (record s { incoming = rest }) })

unfoldable pub read_packet_on : StreamClient → Bool → Option Socket → Option Packet × StreamClient
unfolding keep_or_close receive_packet
read_packet_on c false fd = (none, c)
read_packet_on c true none = (none, c)
read_packet_on c true (some s) = keep_or_close c s (receive_packet s.incoming)

unfoldable pub read_packet : StreamClient → Option Packet × StreamClient
unfolding read_packet_on
read_packet c = read_packet_on c c.opened c.socket_fd

-- `IqCapture{}`.
abbrev pub empty_capture : Packet
empty_capture = record { header = empty_header; payload = [] }

-- A packet type that `read_capture_packet` lets through.
abbrev pub is_capture_type : ℕ → Bool
is_capture_type m = m == packet_type_code rx_iq || m == packet_type_code calibration

unfoldable pub accept_capture : Option Packet × StreamClient → Option Packet × StreamClient
accept_capture (none, c) = (none, c)
accept_capture (some p, c) = if is_capture_type p.header.magic_type then (some p, c) else (none, c)

-- `read_capture_packet`; at `none` it answers false and leaves `capture` empty.
unfoldable pub read_capture_packet : StreamClient → Option Packet × StreamClient
unfolding accept_capture read_packet
read_capture_packet c = accept_capture (read_packet c)

pub record RecordRequest : Type 0 where
  pub channel_mask : ℕ
  pub length_mb : ℕ
  pub output_path : Bytes

-- The output file: whether it can be opened for a path, whether the write that begins at an offset
-- leaves the stream good, and the unchecked end of the stream when the function returns.
pub record Disk : Type 0 where
  pub opens : Bytes → Bool
  pub stores : ℕ → Bool
  pub at_end : Closing

-- The locals of `read_record_packets`, with the bytes that the output stream has accepted and the
-- calls of the progress callback so far, the oldest first.
pub record Recording : Type 0 where
  pub client : StreamClient
  pub received_bytes : ℕ
  pub accepted : Bytes
  pub reports : List (ℕ × ℕ)

-- One round of the loop ends the recording with false, or goes on.
pub data Round : Type 0 where
  stop continue : Recording → Round

-- `if (progress_callback) progress_callback(received_bytes, expected_bytes);`
unfoldable pub report : Bool → ℕ → Recording → Recording
report callback expected r =
    if callback then record r { reports = r.reports ++ (r.received_bytes, expected) ∷ [] } else r

-- The round from the packet on.
unfoldable pub take_packet : Disk → Bool → ℕ → Recording → Packet → Round
unfolding report
take_packet disk callback expected r p =
    if not (p.header.magic_type == packet_type_code record_iq)
    then stop r
    else if length p.payload == 0
    then stop r
    else if ltb expected ((r.received_bytes + length p.payload) % 2 ^ 64)
    then stop r
    else if not (disk.stores r.received_bytes)
    then stop r
    else continue (
        report callback expected (record r {
          received_bytes = (r.received_bytes + length p.payload) % 2 ^ 64;
          accepted = r.accepted ++ p.payload;
        }))

unfoldable pub packet_or_stop : Disk → Bool → ℕ → Recording → Option Packet × StreamClient → Round
unfolding take_packet
packet_or_stop disk callback expected r (none, c) = stop (record r { client = c })
packet_or_stop disk callback expected r (some p, c) =
    take_packet disk callback expected (record r { client = c }) p

unfoldable pub record_round : Disk → Bool → ℕ → Recording → Round
unfolding packet_or_stop read_packet
record_round disk callback expected r =
    packet_or_stop disk callback expected r (read_packet r.client)

-- `while (received_bytes < expected_bytes)`, on fuel.
pub record_loop : ℕ → Disk → Bool → ℕ → Recording → Bool × Recording
record_loop zero disk callback expected r = (false, r)
record_loop (suc f) disk callback expected r = elim (ltb r.received_bytes expected) [
  | false ↦ (true, r)
  | true ↦ elim (record_round disk callback expected r) [
    | stop r' ↦ (false, r')
    | continue r' ↦ record_loop f disk callback expected r'
  ]
]

-- What a channel may still deliver, as a bound on its packets.
unfoldable pub pending : Option Socket → ℕ
unfolding supply
pending none = 0
pending (some s) = supply s.incoming

-- `accepted` is there if the file was opened: the bytes that its stream has taken, up to the last
-- good write. `file` is there if true is answered: what is left of them in the file behind the
-- return. A recording that fails may have failed in a write, behind which the file is not known.
pub record Recorded : Type 0 where
  pub done : Bool
  pub client : StreamClient
  pub accepted : Option Bytes
  pub file : Option Bytes
  pub reports : List (ℕ × ℕ)

abbrev pub refuse_record : StreamClient → Recorded
refuse_record c = record { done = false; client = c; accepted = none; file = none; reports = [] }

abbrev pub expected_bytes : RecordRequest → ℕ
expected_bytes q = q.length_mb * 1024 * 1024 % 2 ^ 64

abbrev pub recorded : Closing → Bool × Recording → Recorded
recorded e (b, r) = record {
  done = b;
  client = r.client;
  accepted = some r.accepted;
  file = if b then some (file_after e r.accepted) else none;
  reports = r.reports;
}

unfoldable pub read_record_packets : Disk → StreamClient → RecordRequest → Bool → Recorded
unfolding record_loop record_round pending report
read_record_packets disk c q callback =
    if not c.opened
    then refuse_record c
    else if length q.output_path == 0
    then refuse_record c
    else if not (disk.opens q.output_path)
    then refuse_record c
    else recorded disk.at_end (
        record_loop (suc (pending c.socket_fd)) disk callback (expected_bytes q) (
          report callback (expected_bytes q)
            (record { client = c; received_bytes = 0; accepted = []; reports = [] })))
