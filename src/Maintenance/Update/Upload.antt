-- ===== src/Maintenance/Update/Upload.antt =====
-- The file that `send_file_stream` sends.

use antsdr_dfone.Prelude.{
  ℕ, zero, suc, ◌-◌, ◌≤◌, ◌≡◌, refl, sym, ap, subst, ◌∙◌, Bool, true, false, not, [], ◌∷◌, ◌++◌,
  Option, some, none, arith, ◌==◌, if◌then◌else◌, length, length-take, length-drop, take, drop, min,
  Bytes, codes, append_assoc, append-nil,
}
use antsdr_dfone.Net.{Socket}
use antsdr_dfone.Maintenance.Service.{send_all}
use antsdr_dfone.Maintenance.Service.Payload.{send_all-none}
use antsdr_dfone.Maintenance.Update.{buffer_bytes, file_loop}

-- `size` bytes of `left` are on the wire.
pub record Uploads (s : Socket) (left : Bytes) (size : ℕ) (t : Socket) : Type 0 where
  pub enough : size ≤ length left
  pub on_wire : t.wire ≡ s.wire ++ take size left
  pub same_incoming : t.incoming ≡ s.incoming

take-nil : (n : ℕ) → take {A = ℕ} n [] ≡ []
take-nil zero = refl
take-nil (suc n) = refl

take-take-drop : (m n : ℕ) (xs : Bytes) → m ≤ n → take m xs ++ take (n - m) (drop m xs) ≡ take n xs
take-take-drop zero n xs h = ap (λ k. take k xs) (omega arith)
take-take-drop (suc m) zero xs h = absurd (omega arith)
take-take-drop (suc m) (suc n) [] h = take-nil (suc n - suc m)
take-take-drop (suc m) (suc n) (x ∷ xs) h =
    ap (λ k. x ∷ (take m xs ++ take k (drop m xs))) (omega arith)
    ∙ ap (◌∷◌ x) (take-take-drop m n xs (omega arith))

-- The two tests behind a piece of the file.
abbrev branch :
    Socket → Socket → Option Bytes × Socket → Bool → Option Bytes → Option Bytes × Socket
branch s s' rest whole failure =
    if not whole
    then (some (codes "read firmware package failed"), s)
    else elim failure [ none ↦ rest | some e ↦ (some e, s') ]

-- A piece, and then the rest of the file.
Uploads-piece :
    (s s' t : Socket) (left : Bytes) (size k : ℕ)
    → k ≤ size
    → length (take k left) ≡ k
    → s'.wire ≡ s.wire ++ take k left
    → s'.incoming ≡ s.incoming
    → Uploads s' (drop k left) (size - k) t
    → Uploads s left size t
Uploads-piece s s' t left size k h whole wire same u = record {
  enough = omega (arith, u.enough, length-drop k left, length-take k left);
  on_wire =
      u.on_wire
      ∙ ap (λ w. w ++ take (size - k) (drop k left)) wire
      ∙ append_assoc s.wire (take k left) (take (size - k) (drop k left))
      ∙ ap (◌++◌ s.wire) (take-take-drop k size left h);
  same_incoming = u.same_incoming ∙ same;
}

-- One round, with its tests decided.
module _ (f : ℕ) (s : Socket) (left : Bytes) (n : ℕ) where
  abbrev k : ℕ
  k = min (suc n) buffer_bytes

  abbrev piece : Bytes
  piece = take k left

  abbrev sent : Socket
  sent = (send_all s piece).1

  abbrev rest : Option Bytes × Socket
  rest = file_loop f sent (drop (length piece) left) (suc n - length piece)

  branch-Uploads :
      (whole : Bool) (failure : Option Bytes)
      → (length piece == k) ≡ whole
      → (send_all s piece).0 ≡ failure
      → (rest.0 ≡ none → Uploads sent (drop (length piece) left) (suc n - length piece) rest.1)
      → (branch s sent rest whole failure).0 ≡ none
      → Uploads s left (suc n) (branch s sent rest whole failure).1
  branch-Uploads false failure q r later d = absurd cc
  branch-Uploads true (some x) q r later d = absurd cc
  branch-Uploads true none q r later d =
      let size : length piece ≡ k = ground arith in
      let w = send_all-none s piece r in
      Uploads-piece s sent rest.1 left (suc n) k (omega arith) size w.0 w.1
        (subst (λ j. Uploads sent (drop j left) (suc n - j) rest.1) size (later d))

-- When the loop succeeds, the first `size` bytes of the file are on the wire, and there were as many.
pub file_loop-Uploads :
    (f : ℕ) (s : Socket) (left : Bytes) (size : ℕ)
    → (file_loop f s left size).0 ≡ none
    → Uploads s left size (file_loop f s left size).1
unfolding file_loop
file_loop-Uploads zero s left size e = absurd (ground arith)
file_loop-Uploads (suc f) s left zero e = record {
  enough = omega arith;
  on_wire = sym (append-nil s.wire);
  same_incoming = refl;
}
file_loop-Uploads (suc f) s left (suc n) e =
    branch-Uploads f s left n (length (piece f s left n) == k f s left n)
      (send_all s (piece f s left n)).0 refl refl
      (file_loop-Uploads f (sent f s left n) (drop (length (piece f s left n)) left)
        (suc n - length (piece f s left n)))
      e
