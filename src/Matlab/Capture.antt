-- ===== src/Matlab/Capture.antt =====
-- `make_capture_struct` of dfone_mex.cpp: a capture as a MATLAB matrix, one column per channel.
pub mod Samples
pub mod Holds
use antsdr_dfone.Prelude.{
  ℤ, pos, negsuc, ℕ, zero, suc, ◌+◌, ◌-◌, ◌*◌, ◌%◌, ◌^◌, ◌<◌, ◌≡◌, ◌||◌, Bool, true, false, List,
  [], ◌∷◌, ltb, if◌then◌else◌, length, get_or, replicate, drop, Bytes, codes,
}
use antsdr_dfone.Session.{IqKind, calibrated, uncorrected, IqCapture}
use antsdr_dfone.Matlab.Values.{Result, value, raises}

-- A 16-bit word as a two's complement number.
abbrev pub to_int16 : ℕ → ℤ
to_int16 raw = if ltb raw (2 ^ 15) then pos raw else negsuc (2 ^ 16 - 1 - raw)

-- `read_i16_le` at an offset; the first byte is the low one.
unfoldable pub read_i16_le : Bytes → ℕ → ℤ
read_i16_le bytes p = to_int16 (get_or bytes p 0 + get_or bytes (p + 1) 0 * 2 ^ 8)

-- A complex sample. Each part is an integer that a `double` holds exactly.
pub record Complex : Type 0 where
  pub real : ℤ
  pub imag : ℤ

abbrev pub zero_sample : Complex
zero_sample = record { real = pos 0; imag = pos 0 }

-- `dst[i] = v`.
unfoldable pub set_at : List Complex → ℕ → Complex → List Complex
set_at [] i v = []
set_at (x ∷ xs) zero v = v ∷ xs
set_at (x ∷ xs) (suc i) v = x ∷ set_at xs i v

abbrev pub sample_at : IqCapture → ℕ → ℕ → Complex
sample_at c frame ch = record {
  real = read_i16_le c.payload (frame * c.frame_bytes + ch * 4);
  imag = read_i16_le c.payload (frame * c.frame_bytes + ch * 4 + 2);
}

-- The inner loop, `ch` on with `n` rounds left.
unfoldable pub channel_loop : IqCapture → ℕ → ℕ → ℕ → List Complex → List Complex
unfolding set_at read_i16_le
channel_loop c frame ch zero dst = dst
channel_loop c frame ch (suc n) dst =
    channel_loop c frame (suc ch) n (set_at dst (frame + ch * c.frames) (sample_at c frame ch))

-- The outer loop.
unfoldable pub frame_loop : IqCapture → ℕ → ℕ → List Complex → List Complex
unfolding channel_loop
frame_loop c frame zero dst = dst
frame_loop c frame (suc n) dst = frame_loop c (suc frame) n (channel_loop c frame 0 c.channels dst)

-- The fields of the struct; `iq` is stored column by column.
pub record CaptureStruct : Type 0 where
  pub iq : List Complex
  pub frames : ℕ
  pub sample_rate_hz : ℕ
  pub rx_lo_hz : ℕ
  pub channels : ℕ
  pub frame_bytes : ℕ
  pub kind : Bytes
  pub sample_format : Bytes

abbrev pub kind_text : IqKind → Bytes
kind_text uncorrected = codes "uncorrected"
kind_text calibrated = codes "calibrated"

-- The struct behind the check.
unfoldable pub struct_of : IqCapture → CaptureStruct
unfolding frame_loop
struct_of c = record {
  iq = frame_loop c 0 c.frames (replicate (c.frames * c.channels) zero_sample);
  frames = c.frames;
  sample_rate_hz = c.sample_rate_hz;
  rx_lo_hz = c.rx_lo_hz;
  channels = c.channels;
  frame_bytes = c.frame_bytes;
  kind = kind_text c.kind;
  sample_format = codes "CS16_LE_INTERLEAVED_8CH";
}

-- `expected` is a product of 64 bits.
unfoldable pub make_capture_struct : IqCapture → Result CaptureStruct
unfolding struct_of
make_capture_struct c =
    if ltb (length c.payload) (c.frames * c.frame_bytes % 2 ^ 64)
      || ltb c.frame_bytes (c.channels * 4)
    then raises (codes "invalid IQ payload returned by DFONE session")
    else value (struct_of c)
