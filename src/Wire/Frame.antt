-- ===== src/Wire/Frame.antt =====
-- What is read out of a header that was written word by word: the frames of the host, and the
-- headers of a device.
use antsdr_dfone.Prelude.{
  ℕ, ◌+◌, ◌*◌, ◌/◌, ◌%◌, ◌^◌, ◌<◌, ◌≡◌, refl, [], ◌∷◌, ◌++◌, arith, length, Bytes, ◌∙◌,
}
use antsdr_dfone.Wire.{
  packet_type_code, control, read_u32_le, write_u32_le, command_frame, decode_header, PacketHeader,
  default_sid, control_frame_bytes, command_write_reg, command_flag_write,
}

pub read_u32_le-write_u32_le :
    (v : ℕ) (rest : Bytes) → v < 2 ^ 32 → read_u32_le (write_u32_le v ++ rest) ≡ v
unfolding read_u32_le write_u32_le
read_u32_le-write_u32_le v rest h = omega arith

read_u32_le-last : (v : ℕ) → v < 2 ^ 32 → read_u32_le (write_u32_le v) ≡ v
unfolding read_u32_le write_u32_le
read_u32_le-last v h = omega arith

-- Eight words in a row.
abbrev pub words : (w0 w1 w2 w3 w4 w5 w6 w7 : ℕ) → Bytes
words w0 w1 w2 w3 w4 w5 w6 w7 =
    write_u32_le w0
    ++ (write_u32_le w1
        ++ (write_u32_le w2
            ++ (write_u32_le w3
                ++ (write_u32_le w4 ++ (write_u32_le w5 ++ (write_u32_le w6 ++ write_u32_le w7))))))

-- The header with these words.
abbrev pub header_of : (w0 w1 w2 w3 w4 w5 w6 w7 : ℕ) → PacketHeader
header_of w0 w1 w2 w3 w4 w5 w6 w7 = record {
  magic_type = w1 / 2 ^ 16 % 2 ^ 16;
  seq = w1 % 2 ^ 16;
  sid = w0 / 2 ^ 24 % 2 ^ 8;
  packet_len = w0 % 2 ^ 24;
  timestamp = w2 + w3 * 2 ^ 32;
  extension_words = w4 ∷ w5 ∷ w6 ∷ w7 ∷ [];
}

module _ (w0 w1 w2 w3 w4 w5 w6 w7 : ℕ) where
  pub length-words : length (words w0 w1 w2 w3 w4 w5 w6 w7) ≡ 32
  unfolding write_u32_le
  length-words = refl

  pub decode_header-words :
      w0 < 2 ^ 32
      → w1 < 2 ^ 32
      → w2 < 2 ^ 32
      → w3 < 2 ^ 32
      → w4 < 2 ^ 32
      → w5 < 2 ^ 32
      → w6 < 2 ^ 32
      → w7 < 2 ^ 32
      → decode_header (words w0 w1 w2 w3 w4 w5 w6 w7) ≡ header_of w0 w1 w2 w3 w4 w5 w6 w7
  unfolding decode_header write_u32_le
  decode_header-words h0 h1 h2 h3 h4 h5 h6 h7 = cc (
    read_u32_le-write_u32_le w0 _ h0,
    read_u32_le-write_u32_le w1 _ h1,
    read_u32_le-write_u32_le w2 _ h2,
    read_u32_le-write_u32_le w3 _ h3,
    read_u32_le-write_u32_le w4 _ h4,
    read_u32_le-write_u32_le w5 _ h5,
    read_u32_le-write_u32_le w6 _ h6,
    read_u32_le-last w7 h7,
  )

-- The header that a command frame is meant to carry.
abbrev pub command_header : ℕ → ℕ → ℕ → PacketHeader
command_header seq addr value = record {
  magic_type = packet_type_code control;
  seq = seq;
  sid = default_sid;
  packet_len = control_frame_bytes;
  timestamp = 0;
  extension_words =
      (command_write_reg + command_flag_write * 2 ^ 16)
      ∷ addr
      ∷ value % 2 ^ 32
      ∷ (value / 2 ^ 32)
      ∷ [];
}

pub length-command_frame :
    (seq addr value : ℕ) → length (command_frame seq addr value) ≡ control_frame_bytes
unfolding command_frame
length-command_frame seq addr value = refl

-- For a sequence number of 16 bits, an address of 32 and a value of 64, a device that reads the
-- frame by the protocol's rules finds the control type, the sequence number, the address, and the
-- two halves of the value.
pub decode_header-command_frame :
    (seq addr value : ℕ)
    → seq < 2 ^ 16
    → addr < 2 ^ 32
    → value < 2 ^ 64
    → decode_header (command_frame seq addr value) ≡ command_header seq addr value
unfolding command_frame
decode_header-command_frame seq addr value h k l =
    decode_header-words (default_sid * 2 ^ 24 + control_frame_bytes)
      (packet_type_code control * 2 ^ 16 + seq) 0 0
      (command_write_reg + command_flag_write * 2 ^ 16) addr (value % 2 ^ 32)
      (value / 2 ^ 32 % 2 ^ 32) (omega arith) (omega arith) (omega arith) (omega arith)
      (omega arith) k (omega arith) (omega arith)
    ∙ ground arith
