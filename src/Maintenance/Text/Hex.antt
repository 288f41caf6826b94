-- ===== src/Maintenance/Text/Hex.antt =====
-- `normalize_hex_copy`.
use antsdr_dfone.Prelude.{ℕ, ◌≡◌, refl, true, [], ◌∷◌, inl, inr, Bool-cases, arith, Bytes}
use antsdr_dfone.Maintenance.Text.{is_xdigit, to_lower, all_xdigit, normalize_hex_copy}

to_lower-xdigit : (c : ℕ) → is_xdigit c ≡ true → is_xdigit (to_lower c) ≡ true
to_lower-xdigit c h = ground arith

to_lower-idempotent : (c : ℕ) → to_lower (to_lower c) ≡ to_lower c
to_lower-idempotent c = ground arith

-- What is left of a text are hexadecimal digits only, and normalizing that again changes nothing.
pub normalize_hex_copy_lem :
    (text : Bytes)
    → (all_xdigit (normalize_hex_copy text) ≡ true)
      × (normalize_hex_copy (normalize_hex_copy text) ≡ normalize_hex_copy text)
unfolding normalize_hex_copy
normalize_hex_copy_lem [] = (refl, refl)
normalize_hex_copy_lem (c ∷ cs) = elim (Bool-cases (is_xdigit c)) [
  | inl t ↦
      let (digits, same) = normalize_hex_copy_lem cs in
      rw (t, normalize_hex_copy)
        (rw (to_lower-xdigit c t, normalize_hex_copy) (digits, cc (same, to_lower-idempotent c)))
  | inr t ↦ rw (t, normalize_hex_copy) (normalize_hex_copy_lem cs)
]
