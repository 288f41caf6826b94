-- ===== src/Maintenance/Service/Progress.antt =====
-- How much of a script the receiving loops use up.
use antsdr_dfone.Prelude.{
  ℕ, zero, suc, ◌-◌, ◌<◌, ◌≤◌, ◌≡◌, sym, ap, ◌∙◌, [], ◌∷◌, arith, inl, inr, Bool-cases, length,
  take, drop, length-drop, ltb, ltb→lt, ◌==◌, Bytes,
}
use antsdr_dfone.Net.{
  Incoming, chunk, recv_interrupted, recv_failed, peer_closed, silent, push_back, recv_socket,
  supply,
}
use antsdr_dfone.Net.Reading.{supply-push_back}
use antsdr_dfone.Maintenance.Service.Receiving.{line_loop-byte, line_loop-again}
use antsdr_dfone.Maintenance.Service.{
  Answer, fails, gives, prepend_bytes, recv_loop, recv_all, push_byte, line_loop, recv_line,
}

line_loop-short :
    (f : ℕ) (s : Incoming) (line : Bytes) (max : ℕ) {x : Bytes} {t : Incoming}
    → line_loop (suc f) s line max ≡ (gives x, t)
    → length line < max
unfolding line_loop
line_loop-short f s line max e = elim (Bool-cases (ltb (length line) max)) [
  | inl q ↦ ltb→lt (length line) max q
  | inr q ↦ absurd (ground arith)
]

line_loop-uses :
    (f : ℕ) (s : Incoming) (line : Bytes) (max : ℕ) {x : Bytes} {t : Incoming}
    → line_loop f s line max ≡ (gives x, t)
    → supply t < supply s
unfolding line_loop recv_socket supply
line_loop-uses zero s line max e = absurd (ground arith)
line_loop-uses (suc f) (chunk b bs s) line max {x = x} {t = t} e =
    let at =
      sym (line_loop-byte max f b bs s line (line_loop-short f (chunk b bs s) line max e)) ∙ e in
    elim (Bool-cases (b == b'\n')) [
      | inl q ↦
          let here : push_back bs s ≡ t = ground arith in
          omega (arith, ap supply here, supply-push_back bs s)
      | inr q ↦ omega (
        arith,
        line_loop-uses f (push_back bs s) (push_byte line b) max {x = x} {t = t} (ground arith),
        supply-push_back bs s,
      )
    ]
line_loop-uses (suc f) (recv_interrupted s) line max {x = x} {t = t} e =
    let again =
      sym (line_loop-again max f s line (line_loop-short f (recv_interrupted s) line max e)) ∙ e in
    omega (arith, line_loop-uses f s line max again)
line_loop-uses (suc f) (recv_failed m s) line max e = absurd (ground arith)
line_loop-uses (suc f) peer_closed line max e = absurd (ground arith)
line_loop-uses (suc f) (silent m) line max e = absurd (ground arith)

-- A line takes at least its newline.
pub recv_line-uses :
    (s : Incoming) (max : ℕ) {x : Bytes} {t : Incoming}
    → recv_line s max ≡ (gives x, t)
    → supply t < supply s
unfolding recv_line
recv_line-uses s max e = line_loop-uses (suc (supply s)) s [] max e

prepend_bytes-gives :
    (bs : Bytes) (r : Answer Bytes × Incoming) {x : Bytes} {t : Incoming}
    → prepend_bytes bs r ≡ (gives x, t)
    → (y : Bytes) × (r ≡ (gives y, t))
prepend_bytes-gives bs (fails e, s) q = absurd (ground arith)
prepend_bytes-gives bs (gives y, s) q = (y, ground arith)

recv_loop-uses :
    (f : ℕ) (s : Incoming) (need : ℕ) {x : Bytes} {t : Incoming}
    → recv_loop f s need ≡ (gives x, t)
    → supply t ≤ supply s
unfolding recv_loop recv_socket supply
recv_loop-uses zero s need e = absurd (ground arith)
recv_loop-uses (suc f) s zero {t = t} e =
    let same : s ≡ t = ground arith in omega (arith, ap supply same)
recv_loop-uses (suc f) (chunk b bs s) (suc need) e =
    let later = push_back (drop need bs) s in
    let n = suc need - suc (length (take need bs)) in
    let (y, q) = prepend_bytes-gives (b ∷ take need bs) (recv_loop f later n) e in
    omega
      (arith, recv_loop-uses f later n q, supply-push_back (drop need bs) s, length-drop need bs)
recv_loop-uses (suc f) (recv_interrupted s) (suc need) e =
    omega (arith, recv_loop-uses f s (suc need) e)
recv_loop-uses (suc f) (recv_failed m s) (suc need) e = absurd (ground arith)
recv_loop-uses (suc f) peer_closed (suc need) e = absurd (ground arith)
recv_loop-uses (suc f) (silent m) (suc need) e = absurd (ground arith)

pub recv_all-uses :
    (s : Incoming) (size : ℕ) {x : Bytes} {t : Incoming}
    → recv_all s size ≡ (gives x, t)
    → supply t ≤ supply s
unfolding recv_all
recv_all-uses s size e = recv_loop-uses (suc (supply s)) s size e
