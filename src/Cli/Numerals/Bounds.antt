-- ===== src/Cli/Numerals/Bounds.antt =====
-- The ranges of the numbers that the tools accept.
use antsdr_dfone.Prelude.{ℕ, ◌^◌, ◌<◌, ◌≡◌, some, arith, Bytes, [], ◌∷◌}
use antsdr_dfone.Maintenance.Service.{skip_space}
use antsdr_dfone.Cli.Numerals.{
  Scanned, scan_signed, scan_unsigned, fit_plus, fit_minus, strtoul, parse_u32, parse_u64,
}

-- Whatever is accepted for a 32-bit option is a 32-bit number.
pub parse_u32_bound : (bits : ℕ) (text : Bytes) (v : ℕ) → parse_u32 bits text ≡ some v → v < 2 ^ 32
unfolding parse_u32
parse_u32_bound bits text v h = ground arith

fit_plus_bound : (r : Scanned) → (fit_plus 64 r).value < 2 ^ 64
fit_plus_bound r = ground arith

fit_minus_bound : (r : Scanned) → (fit_minus 64 r).value < 2 ^ 64
fit_minus_bound r = ground arith

scan_signed_bound : (text rest : Bytes) → (scan_signed 64 text rest).value < 2 ^ 64
scan_signed_bound text [] = ground arith
scan_signed_bound text (c ∷ cs) = ground (
  arith,
  fit_plus_bound (scan_unsigned text cs),
  fit_plus_bound (scan_unsigned text (c ∷ cs)),
  fit_minus_bound (scan_unsigned text cs),
)

-- Whatever is accepted for a 64-bit option is a 64-bit number.
pub parse_u64_bound : (text : Bytes) (v : ℕ) → parse_u64 text ≡ some v → v < 2 ^ 64
unfolding parse_u64 strtoul
parse_u64_bound text v h = ground (arith, scan_signed_bound text (skip_space text))
