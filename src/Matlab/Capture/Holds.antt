-- ===== src/Matlab/Capture/Holds.antt =====
-- The struct that MATLAB gets of a capture.
use native.Mathlib.Nat.{mul-le-mul_right}
use antsdr_dfone.Prelude.{
  ℕ, suc, ◌+◌, ◌*◌, ◌%◌, ◌^◌, ◌<◌, ◌≤◌, ◌≡◌, refl, ap, inl, arith, le→ltb, length, get_or,
  replicate,
}
use antsdr_dfone.Session.{Session, IqKind, IqCapture}
use antsdr_dfone.Session.Stored.{Describes}
use antsdr_dfone.Matlab.Values.{value}
use antsdr_dfone.Matlab.Capture.{
  zero_sample, sample_at, CaptureStruct, struct_of, make_capture_struct, kind_text,
}
use antsdr_dfone.Matlab.Capture.Samples.{Filled, frame_loop-Filled, length-replicate}

-- The matrix has a row per frame and a column per channel, and each of its samples is the one that
-- stands for the frame and the channel in the payload, which is read within its bounds.
pub record Holds (c : IqCapture) (r : CaptureStruct) : Type 0 where
  pub has_size : length r.iq ≡ c.frames * c.channels
  pub has_sample :
      (frame ch : ℕ)
      → frame < c.frames
      → ch < c.channels
      → get_or r.iq (frame + ch * c.frames) zero_sample ≡ sample_at c frame ch
  pub within :
      (frame ch : ℕ)
      → frame < c.frames
      → ch < c.channels
      → frame * c.frame_bytes + ch * 4 + 3 < length c.payload
  pub tells_frames : r.frames ≡ c.frames
  pub tells_rate : r.sample_rate_hz ≡ c.sample_rate_hz
  pub tells_lo : r.rx_lo_hz ≡ c.rx_lo_hz
  pub tells_kind : r.kind ≡ kind_text c.kind

replicate-Filled : (c : IqCapture) → Filled c 0 0 (replicate (c.frames * c.channels) zero_sample)
replicate-Filled c = record {
  size = length-replicate (c.frames * c.channels) zero_sample;
  there = λ g k hg hk p. absurd (ground arith);
}

sample_within :
    (frames channels frame_bytes size frame ch : ℕ)
    → frames * frame_bytes ≤ size
    → channels * 4 ≤ frame_bytes
    → frame < frames
    → ch < channels
    → frame * frame_bytes + ch * 4 + 3 < size
sample_within frames channels frame_bytes size frame ch w f hf hc =
    omega (arith, mul-le-mul_right {m = suc frame} {n = frames} frame_bytes hf)

-- A payload that is large enough for its frames, and frames for their channels.
large_enough :
    (c : IqCapture)
    → c.frames * c.frame_bytes ≤ length c.payload
    → length c.payload < 2 ^ 64
    → c.channels * 4 ≤ c.frame_bytes
    → (r : CaptureStruct) × (make_capture_struct c ≡ value r) × Holds c r
unfolding make_capture_struct struct_of
large_enough c p w f =
    let expected : c.frames * c.frame_bytes % 2 ^ 64 ≡ c.frames * c.frame_bytes = omega arith in
    let d = frame_loop-Filled c 0 c.frames _ (omega arith) (replicate-Filled c) in
    (
      struct_of c,
      rw (expected, le→ltb (length c.payload) _ p, le→ltb c.frame_bytes _ f) refl,
      record {
        has_size = d.size;
        has_sample = λ frame ch hf hc. d.there frame ch hf hc (inl hf);
        within = λ frame ch hf hc.
            sample_within c.frames c.channels c.frame_bytes (length c.payload) frame ch p f hf hc;
        tells_frames = refl;
        tells_rate = refl;
        tells_lo = refl;
        tells_kind = refl;
      },
    )

-- A capture that a session has made is never refused, and its struct holds in row `frame` of column
-- `ch` the sample of that frame and channel, a little-endian 16-bit real and imaginary part, read
-- within the payload; it tells the capture's frames, sample rate, local oscillator and kind.
pub make_capture_struct-Holds :
    (s : Session) (kind : IqKind) (c : IqCapture)
    → Describes s kind c
    → length c.payload < 2 ^ 64
    → (r : CaptureStruct) × (make_capture_struct c ≡ value r) × Holds c r
make_capture_struct-Holds s kind c d w =
    large_enough c (omega (arith, d.counts, ap (λ k. c.frames * k) d.has_frame_bytes)) w
      (omega (arith, d.has_channels, d.has_frame_bytes))
