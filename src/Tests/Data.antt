-- ===== src/Tests/Data.antt =====
-- Packets, sockets and clients for the tests, as bytes on the wire.
use antsdr_dfone.Prelude.{
  ℕ, ◌+◌, ◌^◌, ◌<◌, refl, true, [], ◌∷◌, ◌++◌, some, arith, Bytes, replicate, length, codes,
}
use antsdr_dfone.Net.{
  Incoming, chunk, recv_interrupted, silent, Outgoing, accepts, send_interrupted, takes_all, Socket,
}
use antsdr_dfone.Net.Reading.{readable}
use antsdr_dfone.Wire.{
  Packet, packet_type_code, PacketType, control, response, rx_iq, tx_iq, tx_flow_control,
  calibration, record_iq, write_u32_le,
}
use antsdr_dfone.Wire.Packets.{IsHeader, Carries, last, more}
use antsdr_dfone.Dial.{DeviceEndpoint, Dial}
use antsdr_dfone.OutputFile.{Closing}
use antsdr_dfone.Stream.{StreamClient, Disk}
use antsdr_dfone.Control.{ControlClient}
use antsdr_dfone.Acquire.{Clients}
use antsdr_dfone.Session.{Session, new_session}

-- A packet of a type with this payload, every other field zero but the stream id.
abbrev pub packet : PacketType → Bytes → Packet
packet type bytes = record {
  header = record {
    magic_type = packet_type_code type;
    seq = 0;
    sid = 0x70;
    packet_len = 32 + length bytes;
    timestamp = 0;
    extension_words = 0 ∷ 0 ∷ 0 ∷ 0 ∷ [];
  };
  payload = bytes;
}

abbrev pub timeout : Bytes
timeout = codes "Resource temporarily unavailable"

-- Headers on the wire: their length, their type, and no more.
abbrev pub header_bytes : ℕ → ℕ → Bytes
header_bytes len type = len ∷ 0 ∷ 0 ∷ 0x70 ∷ 0 ∷ 0 ∷ type ∷ 0x55 ∷ replicate 24 0

abbrev pub zero_response : Packet
zero_response = packet response []

abbrev pub flow_packet : Packet
flow_packet = packet tx_flow_control (7 ∷ 9 ∷ [])

abbrev pub iq_packet : Packet
iq_packet = packet rx_iq (1 ∷ 2 ∷ 3 ∷ [])

pub packet_type_code-range : (type : PacketType) → packet_type_code type < 2 ^ 16
packet_type_code-range control = omega arith
packet_type_code-range response = omega arith
packet_type_code-range rx_iq = omega arith
packet_type_code-range tx_iq = omega arith
packet_type_code-range tx_flow_control = omega arith
packet_type_code-range calibration = omega arith
packet_type_code-range record_iq = omega arith

abbrev pub packet-IsHeader :
    (type : PacketType) (bytes : Bytes)
    → length bytes < 2 ^ 23
    → IsHeader (packet type bytes).header (length bytes)
packet-IsHeader type bytes h = record {
  ext0 = 0;
  ext1 = 0;
  ext2 = 0;
  ext3 = 0;
  extensions = refl;
  ext0_range = omega arith;
  ext1_range = omega arith;
  ext2_range = omega arith;
  ext3_range = omega arith;
  magic_range = packet_type_code-range type;
  seq_range = omega arith;
  sid_range = omega arith;
  timestamp_range = omega arith;
  counts = refl;
  length_range = omega arith;
}

abbrev pub zero_response-IsHeader : IsHeader zero_response.header 0
zero_response-IsHeader = packet-IsHeader response [] (omega arith)

abbrev pub flow_packet-IsHeader : IsHeader flow_packet.header 2
flow_packet-IsHeader = packet-IsHeader tx_flow_control (7 ∷ 9 ∷ []) (omega arith)

abbrev pub iq_packet-IsHeader : IsHeader iq_packet.header 3
iq_packet-IsHeader = packet-IsHeader rx_iq (1 ∷ 2 ∷ 3 ∷ []) (omega arith)

-- A response in two pieces, with an interruption between them.
abbrev pub responds : Incoming → Incoming
responds s =
    chunk 32 (0 ∷ 0 ∷ 0x70 ∷ []) (recv_interrupted (chunk 0 (0 ∷ 0x02 ∷ 0x55 ∷ replicate 24 0) s))

abbrev pub flows : Incoming → Incoming
flows s = chunk 34 (0 ∷ 0 ∷ 0x70 ∷ 0 ∷ 0 ∷ 0x05 ∷ 0x55 ∷ (replicate 24 0 ++ 7 ∷ 9 ∷ [])) s

abbrev pub brings_iq : Incoming → Incoming
brings_iq s = chunk 35 (0 ∷ 0 ∷ 0x70 ∷ 0 ∷ 0 ∷ 0x03 ∷ 0x55 ∷ (replicate 24 0 ++ 1 ∷ 2 ∷ 3 ∷ [])) s

-- The kernel takes a part of a frame first, and all of the rest later.
abbrev pub slow : Outgoing
slow = accepts 4 (send_interrupted takes_all)

abbrev pub socket : Incoming → Socket
socket s = record { incoming = s; outgoing = slow; wire = [] }

abbrev pub device : DeviceEndpoint
device = record { device_ip = codes "192.168.7.2"; command_port = 49208; data_port = 49209 }

abbrev pub command_client : Incoming → ControlClient
command_client s = record {
  endpoint = device;
  socket_fd = some (socket s);
  next_seq = 65534;
  connected = true;
}

abbrev pub data_client : Incoming → StreamClient
data_client s = record { endpoint = device; socket_fd = some (socket s); opened = true }

abbrev pub clients : Incoming → Incoming → Clients
clients s t = record { control = command_client s; stream = data_client t }

abbrev pub session : Incoming → Incoming → Session
session s t = record new_session {
  control = some (command_client s);
  stream = some (data_client t);
}

abbrev pub dial : Incoming → Dial
dial s = record {
  runtime_ready = true;
  socket = some (socket s);
  is_ipv4 = λ _. true;
  reaches = λ _ _. true;
}

abbrev pub good_closing : Closing
good_closing = record { flushes = true; keeps = λ _. 0 }

abbrev pub good_disk : Disk
good_disk = record { opens = λ _. true; stores = λ _. true; at_end = good_closing }

abbrev pub ended : Incoming
ended = silent timeout

-- A skipped packet and a response, and nothing behind them.
pub flow_then_response-Carries :
    Carries [] (readable (flows (responds ended))) (flow_packet ∷ zero_response ∷ [])
unfolding readable write_u32_le
flow_then_response-Carries =
    more {later = readable (responds ended)} flow_packet-IsHeader refl
      (more {later = []} zero_response-IsHeader refl (last refl))

pub response-Carries : Carries [] (readable (responds ended)) (zero_response ∷ [])
unfolding readable write_u32_le
response-Carries = more {later = []} zero_response-IsHeader refl (last refl)

pub iq-Carries : Carries [] (readable (brings_iq ended)) (iq_packet ∷ [])
unfolding readable write_u32_le
iq-Carries = more {later = []} iq_packet-IsHeader refl (last refl)

pub flow-Carries : Carries [] (readable (flows ended)) (flow_packet ∷ [])
unfolding readable write_u32_le
flow-Carries = more {later = []} flow_packet-IsHeader refl (last refl)
