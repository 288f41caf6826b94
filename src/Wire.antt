-- ===== src/Wire.antt =====
-- The framing of common/include/dfone/internal/protocol.hpp, and the code of
-- transport/control_client.cpp that writes a command frame and reads a packet; the data channel
-- (transport/stream_client.cpp) has its own copy of the reading code, word for word.
-- Words and bytes are numbers; `|` of disjoint bit fields is written as `+`.
pub mod Frame
pub mod Packets
use antsdr_dfone.Prelude.{
  ℕ, ◌+◌, ◌-◌, ◌*◌, ◌/◌, ◌%◌, ◌^◌, Bool, ◌||◌, List, [], ◌∷◌, ◌++◌, Option, some, none, ltb,
  if◌then◌else◌, get_or, drop, Bytes,
}
use antsdr_dfone.Net.{Incoming, ok, peer_gone, error, read_exact}

abbrev pub packet_header_bytes : ℕ
packet_header_bytes = 32

abbrev pub control_frame_bytes : ℕ
control_frame_bytes = 32

abbrev pub max_packet_bytes : ℕ
max_packet_bytes = 64 * 1024 * 1024

abbrev pub default_sid : ℕ
default_sid = 0x70

abbrev pub command_write_reg : ℕ
command_write_reg = 0x0002

abbrev pub command_flag_write : ℕ
command_flag_write = 0x02

pub data PacketType : Type 0 where
  control response rx_iq tx_iq tx_flow_control calibration record_iq : PacketType

-- The underlying value of the enumeration. A received type that has no name stays a number, and
-- equals none of these.
abbrev pub packet_type_code : PacketType → ℕ
packet_type_code control = 0x5501
packet_type_code response = 0x5502
packet_type_code rx_iq = 0x5503
packet_type_code tx_iq = 0x5504
packet_type_code tx_flow_control = 0x5505
packet_type_code calibration = 0x5506
packet_type_code record_iq = 0x5507

pub data CommandAddress : Type 0 where
  set_rx_gain set_sample_clock_rate set_rx_lo_freq_low set_rx_lo_freq_high : CommandAddress
  get_iq get_uncorrected_iq set_ref_clock_source set_record_enable_chan : CommandAddress
  get_record_storage_has_ssd start_record_mb set_rx_lo_freq : CommandAddress

abbrev pub command_code : CommandAddress → ℕ
command_code set_rx_gain = 0x0000
command_code set_sample_clock_rate = 0x0001
command_code set_rx_lo_freq_low = 0x0002
command_code set_rx_lo_freq_high = 0x0003
command_code get_iq = 0x0006
command_code get_uncorrected_iq = 0x001b
command_code set_ref_clock_source = 0x001e
command_code set_record_enable_chan = 0x0020
command_code get_record_storage_has_ssd = 0x0021
command_code start_record_mb = 0x0022
command_code set_rx_lo_freq = 0x0031

pub record PacketHeader : Type 0 where
  pub magic_type : ℕ
  pub seq : ℕ
  pub sid : ℕ
  pub packet_len : ℕ
  pub timestamp : ℕ
  pub extension_words : List ℕ

-- `PacketHeader header{}`.
abbrev pub empty_header : PacketHeader
empty_header = record {
  magic_type = 0;
  seq = 0;
  sid = 0;
  packet_len = 0;
  timestamp = 0;
  extension_words = 0 ∷ 0 ∷ 0 ∷ 0 ∷ [];
}

-- `read_u32_le(p)`; the callers' buffers hold the four bytes.
unfoldable pub read_u32_le : Bytes → ℕ
read_u32_le p = get_or p 0 0 + get_or p 1 0 * 2 ^ 8 + get_or p 2 0 * 2 ^ 16 + get_or p 3 0 * 2 ^ 24

-- The four bytes that `write_u32_le(p, v)` stores.
unfoldable pub write_u32_le : ℕ → Bytes
write_u32_le v = v % 2 ^ 8 ∷ v / 2 ^ 8 % 2 ^ 8 ∷ v / 2 ^ 16 % 2 ^ 8 ∷ v / 2 ^ 24 % 2 ^ 8 ∷ []

-- The frame that `send_command_frame` builds. The eight stores fill the buffer from 0 to 28.
unfoldable pub command_frame : ℕ → ℕ → ℕ → Bytes
unfolding write_u32_le
command_frame seq addr value =
    write_u32_le (default_sid * 2 ^ 24 + control_frame_bytes)
    ++ (write_u32_le (packet_type_code control * 2 ^ 16 + seq)
        ++ (write_u32_le 0
            ++ (write_u32_le 0
                ++ (write_u32_le (command_write_reg + command_flag_write * 2 ^ 16)
                    ++ (write_u32_le addr
                        ++ (write_u32_le (value % 2 ^ 32)
                            ++ write_u32_le (value / 2 ^ 32 % 2 ^ 32)))))))

-- The decoding half of `read_packet`.
unfoldable pub decode_header : Bytes → PacketHeader
decode_header raw =
    let word0 = read_u32_le (drop 0 raw) in
    let word1 = read_u32_le (drop 4 raw) in
    let word2 = read_u32_le (drop 8 raw) in
    let word3 = read_u32_le (drop 12 raw) in
    record {
      magic_type = word1 / 2 ^ 16 % 2 ^ 16;
      seq = word1 % 2 ^ 16;
      sid = word0 / 2 ^ 24 % 2 ^ 8;
      packet_len = word0 % 2 ^ 24;
      timestamp = word2 + word3 * 2 ^ 32;
      extension_words =
          read_u32_le (drop 16 raw)
          ∷ read_u32_le (drop 20 raw)
          ∷ read_u32_le (drop 24 raw)
          ∷ read_u32_le (drop 28 raw)
          ∷ [];
    }

pub record Packet : Type 0 where
  pub header : PacketHeader
  pub payload : Bytes

-- `packet_len` outside of what `read_packet` accepts.
abbrev pub bad_length : PacketHeader → Bool
bad_length h = ltb h.packet_len packet_header_bytes || ltb max_packet_bytes h.packet_len

-- The payload half of `read_packet`.
unfoldable pub receive_payload : PacketHeader → Incoming → Option Packet × Incoming
receive_payload h s =
    let r = read_exact s (h.packet_len - packet_header_bytes) in
    elim r.status [
      | ok ↦ (some (record { header = h; payload = r.filled }), r.rest)
      | peer_gone ↦ (none, r.rest)
      | error ↦ (none, r.rest)
    ]

-- What `read_packet` does to a valid socket; at `none` the caller closes it.
unfoldable pub receive_packet : Incoming → Option Packet × Incoming
unfolding receive_payload
receive_packet s =
    let r = read_exact s packet_header_bytes in
    elim r.status [
      | ok ↦
          let h = decode_header r.filled in
          if bad_length h then (none, r.rest) else receive_payload h r.rest
      | peer_gone ↦ (none, r.rest)
      | error ↦ (none, r.rest)
    ]
