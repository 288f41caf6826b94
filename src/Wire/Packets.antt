-- ===== src/Wire/Packets.antt =====
-- `read_packet` against an encoder of packets, and what it accepts.
use antsdr_dfone.Prelude.{
  ℕ, List, ◌+◌, ◌-◌, ◌*◌, ◌/◌, ◌%◌, ◌^◌, ◌<◌, ◌≤◌, ◌≡◌, sym, [], ◌∷◌, ◌++◌, arith, length, drop,
  take, Bytes, ap, ◌∙◌, some, false, length-append, take-append-drop, length-take, take-append_self,
  drop-append_self,
}
use antsdr_dfone.Net.{Incoming, ok, read_exact, Read, supply}
use antsdr_dfone.Net.Reading.{readable, fate, read_exact-Delivers, read_exact-ok}
use antsdr_dfone.Wire.{
  decode_header, PacketHeader, Packet, bad_length, receive_payload, receive_packet,
  packet_header_bytes,
}
use antsdr_dfone.Wire.Frame.{words, decode_header-words, length-words}

-- A header that the eight words can carry, in front of `size` bytes of payload.
pub record IsHeader (h : PacketHeader) (size : ℕ) : Type 0 where
  pub ext0 : ℕ
  pub ext1 : ℕ
  pub ext2 : ℕ
  pub ext3 : ℕ
  pub extensions : h.extension_words ≡ ext0 ∷ ext1 ∷ ext2 ∷ ext3 ∷ []
  pub ext0_range : ext0 < 2 ^ 32
  pub ext1_range : ext1 < 2 ^ 32
  pub ext2_range : ext2 < 2 ^ 32
  pub ext3_range : ext3 < 2 ^ 32
  pub magic_range : h.magic_type < 2 ^ 16
  pub seq_range : h.seq < 2 ^ 16
  pub sid_range : h.sid < 2 ^ 8
  pub timestamp_range : h.timestamp < 2 ^ 64
  pub counts : h.packet_len ≡ packet_header_bytes + size
  pub length_range : h.packet_len < 2 ^ 24

-- The header as the peer writes it.
abbrev pub encode_header : (h : PacketHeader) {size : ℕ} → IsHeader h size → Bytes
encode_header h v =
    words (h.sid * 2 ^ 24 + h.packet_len) (h.magic_type * 2 ^ 16 + h.seq) (h.timestamp % 2 ^ 32)
      (h.timestamp / 2 ^ 32) v.ext0 v.ext1 v.ext2 v.ext3

decode_header-encode_header :
    (h : PacketHeader) {size : ℕ} (v : IsHeader h size) → decode_header (encode_header h v) ≡ h
decode_header-encode_header h v =
    decode_header-words (h.sid * 2 ^ 24 + h.packet_len) (h.magic_type * 2 ^ 16 + h.seq)
      (h.timestamp % 2 ^ 32) (h.timestamp / 2 ^ 32) v.ext0 v.ext1 v.ext2 v.ext3 (omega arith)
      (omega arith) (omega arith) (omega arith) v.ext0_range v.ext1_range v.ext2_range v.ext3_range
    ∙ ground arith

-- What it means that a packet was taken off the stream.
pub record Receives (s : Incoming) (p : Packet) (t : Incoming) : Type 0 where
  pub raw : Bytes
  pub raw_size : length raw ≡ packet_header_bytes
  pub decodes : decode_header raw ≡ p.header
  pub long_enough : packet_header_bytes ≤ p.header.packet_len
  pub fits : p.header.packet_len < 2 ^ 24
  pub whole_payload : packet_header_bytes + length p.payload ≡ p.header.packet_len
  pub on_stream : readable s ≡ raw ++ (p.payload ++ readable t)
  pub same_fate : fate t ≡ fate s
  pub progress : supply t + p.header.packet_len ≤ supply s

module _ (h : PacketHeader) (s : Incoming) where
  abbrev payload_read : Read
  payload_read = read_exact s (h.packet_len - packet_header_bytes)

  receive_payload-ok :
      payload_read.status ≡ ok
      → receive_payload h s
        ≡ (some (record { header = h; payload = payload_read.filled }), payload_read.rest)
  unfolding receive_payload
  receive_payload-ok e = rw (e, receive_payload)

  receive_payload-eq-some :
      (p : Packet) (t : Incoming)
      → receive_payload h s ≡ (some p, t)
      → (payload_read.status ≡ ok)
        × (p.header ≡ h)
        × (p.payload ≡ payload_read.filled)
        × (t ≡ payload_read.rest)
  unfolding receive_payload
  receive_payload-eq-some p t e = ground arith

module _ (s : Incoming) where
  abbrev header_read : Read
  header_read = read_exact s packet_header_bytes

  receive_packet-ok :
      header_read.status ≡ ok
      → bad_length (decode_header header_read.filled) ≡ false
      → receive_packet s ≡ receive_payload (decode_header header_read.filled) header_read.rest
  unfolding receive_packet
  receive_packet-ok e g = rw (e, receive_packet) (rw g)

  receive_packet-eq-some :
      (p : Packet) (t : Incoming)
      → receive_packet s ≡ (some p, t)
      → (header_read.status ≡ ok)
        × (bad_length (decode_header header_read.filled) ≡ false)
        × (receive_payload (decode_header header_read.filled) header_read.rest ≡ (some p, t))
  unfolding receive_packet
  receive_packet-eq-some p t e = ground arith

-- The length field has 24 bits.
pub packet_len-range : (raw : Bytes) → (decode_header raw).packet_len < 2 ^ 24
unfolding decode_header
packet_len-range raw = omega arith

cut_stream :
    (m n : ℕ) {all first later second last : Bytes}
    → first ≡ take m all
    → later ≡ drop m all
    → second ≡ take n later
    → last ≡ drop n later
    → all ≡ first ++ (second ++ last)
cut_stream m n {all} {later = later} a b c d = cc (take-append-drop m all, take-append-drop n later)

-- Whatever `read_packet` returns was on the stream: 32 bytes that decode to the header, then as
-- many bytes of payload as the header announces, with a length that it accepts. The stream goes
-- on right behind them.
pub receive_packet-Receives :
    (s : Incoming) {p : Packet} {t : Incoming} → receive_packet s ≡ (some p, t) → Receives s p t
receive_packet-Receives s {p} {t} e =
    let (a, g, b) = receive_packet-eq-some s p t e in
    let d = read_exact-Delivers s packet_header_bytes (read_exact-ok s packet_header_bytes a) in
    let h = decode_header (header_read s).filled in
    let (c, same, body, left) = receive_payload-eq-some h (header_read s).rest p t b in
    let n = h.packet_len - packet_header_bytes in
    let room : n ≤ length (readable (header_read s).rest) =
      read_exact-ok (header_read s).rest n c in
    let d' = read_exact-Delivers (header_read s).rest n room in
    let long : packet_header_bytes ≤ h.packet_len = ground arith in
    let whole : packet_header_bytes ≤ length (readable s) = read_exact-ok s packet_header_bytes a in
    record {
      raw = (header_read s).filled;
      raw_size = ap length d.in_order ∙ omega (arith, length-take packet_header_bytes (readable s));
      decodes = sym same;
      long_enough = omega (arith, ap (λ (x : PacketHeader). x.packet_len) same);
      fits = omega (
        arith,
        ap (λ (x : PacketHeader). x.packet_len) same,
        packet_len-range (header_read s).filled,
      );
      whole_payload = omega (
        arith,
        ap (λ (x : PacketHeader). x.packet_len) same,
        ap length body,
        ap length d'.in_order,
        length-take n (readable (header_read s).rest),
      );
      on_stream =
          cut_stream packet_header_bytes n d.in_order d.leaves (body ∙ d'.in_order)
            (ap readable left ∙ d'.leaves);
      same_fate = ap fate left ∙ d'.same_fate ∙ d.same_fate;
      progress = omega (
        arith,
        ap (λ (x : PacketHeader). x.packet_len) same,
        ap supply left,
        d.progress,
        d'.progress,
      );
    }

-- A packet whose header fits the eight words and counts its payload is received as the peer
-- encoded it, however the stream is cut, and what follows it is left.
pub receive_packet-encode :
    (s : Incoming) (h : PacketHeader) (payload rest : Bytes) (v : IsHeader h (length payload))
    → readable s ≡ encode_header h v ++ (payload ++ rest)
    → ((receive_packet s).0 ≡ some (record { header = h; payload = payload }))
      × (readable (receive_packet s).1 ≡ rest)
      × (fate (receive_packet s).1 ≡ fate s)
receive_packet-encode s h payload rest v e =
    let raw = encode_header h v in
    let size : length raw ≡ packet_header_bytes = length-words _ _ _ _ _ _ _ _ in
    let d =
      read_exact-Delivers s packet_header_bytes
        (omega (arith, ap length e, length-append raw (payload ++ rest))) in
    let first : (header_read s).filled ≡ raw =
      d.in_order
      ∙ ap (take packet_header_bytes) e
      ∙ take-append_self packet_header_bytes raw _ size in
    let behind : readable (header_read s).rest ≡ payload ++ rest =
      d.leaves
      ∙ ap (drop packet_header_bytes) e
      ∙ drop-append_self packet_header_bytes raw _ size in
    let read : decode_header (header_read s).filled ≡ h =
      ap decode_header first ∙ decode_header-encode_header h v in
    let good : bad_length (decode_header (header_read s).filled) ≡ false = rw read (ground arith) in
    let n = h.packet_len - packet_header_bytes in
    let n_size : length payload ≡ n = omega arith in
    let room : n ≤ length (readable (header_read s).rest) =
      omega (arith, ap length behind, length-append payload rest) in
    let d' = read_exact-Delivers (header_read s).rest n room in
    let outcome =
      receive_packet-ok s d.succeeds good
      ∙ ap (λ x. receive_payload x (header_read s).rest) read
      ∙ receive_payload-ok h (header_read s).rest d'.succeeds in
    rw outcome (
      ap (λ bytes. some (record { header = h; payload = bytes }))
          (d'.in_order ∙ ap (take n) behind ∙ take-append_self n payload rest n_size),
      d'.leaves ∙ ap (drop n) behind ∙ drop-append_self n payload rest n_size,
      d'.same_fate ∙ d.same_fate,
    )

-- The stream `all` begins with these packets, as the peer encodes them, and goes on with `rest`.
pub data Carries (rest : Bytes) : Bytes → List Packet → Type 0 where
  last : {all : Bytes} → all ≡ rest → Carries rest all []
  more :
      {all later : Bytes} {p : Packet} {ps : List Packet} (v : IsHeader p.header (length p.payload))
      → all ≡ encode_header p.header v ++ (p.payload ++ later)
      → Carries rest later ps
      → Carries rest all (p ∷ ps)

-- The next of them is received.
pub record Next (s : Incoming) (p : Packet) (later : Bytes) : Type 0 where
  pub behind : Incoming
  pub received : receive_packet s ≡ (some p, behind)
  pub continues : readable behind ≡ later

pub receive_packet-Next :
    (s : Incoming) (p : Packet) (later : Bytes) (v : IsHeader p.header (length p.payload))
    → readable s ≡ encode_header p.header v ++ (p.payload ++ later)
    → Next s p later
receive_packet-Next s p later v e =
    let r = receive_packet-encode s p.header p.payload later v e in
    record { behind = (receive_packet s).1; received = ground (arith, r.0); continues = r.1 }
