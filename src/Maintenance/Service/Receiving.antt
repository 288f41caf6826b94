-- ===== src/Maintenance/Service/Receiving.antt =====
-- `recv_line` and `recv_all` against the bytes that the service sends.

use antsdr_dfone.Prelude.{
  ℕ, zero, suc, ◌+◌, ◌-◌, ◌<◌, ◌≡◌, refl, sym, ap, ◌∙◌, true, false, [], ◌∷◌, ◌++◌, arith, inl, inr,
  Bool-cases, length, length-append, take, drop, take-append_self, drop-append_self, lt→ltb, ◌==◌,
  if◌then◌else◌, Bytes, append_assoc, append-nil,
}
use antsdr_dfone.Net.{
  Incoming, chunk, recv_interrupted, recv_failed, peer_closed, silent, push_back, recv_socket,
  supply, ok, read_loop, read_exact,
}
use antsdr_dfone.Net.Reading.{readable, readable-push_back, supply-push_back, read_exact-Delivers}
use antsdr_dfone.Maintenance.Text.Lines.{lacks}
use antsdr_dfone.Maintenance.Service.{
  Answer, gives, recv_loop, recv_all, push_byte, line_loop, recv_line,
}

-- The value that was read, and a stream that goes on with `rest`.
pub record Yields (x rest : Bytes) (o : Answer Bytes × Incoming) : Type 0 where
  pub behind : Incoming
  pub result : o ≡ (gives x, behind)
  pub continues : readable behind ≡ rest

push_byte-kept : (line : Bytes) (c : ℕ) → (c == b'\r') ≡ false → push_byte line c ≡ line ++ c ∷ []
push_byte-kept line c h = rw h refl

module _ (max : ℕ) where
  -- One byte of the line, or the newline.
  pub line_loop-byte :
      (f b : ℕ) (bs : Bytes) (s : Incoming) (line : Bytes)
      → length line < max
      → line_loop (suc f) (chunk b bs s) line max ≡ (
          if b == b'\n'
          then (gives line, push_back bs s)
          else line_loop f (push_back bs s) (push_byte line b) max)
  unfolding line_loop recv_socket
  line_loop-byte f b bs s line h = elim (Bool-cases (b == b'\n')) [
    | inl t ↦ rw (lt→ltb (length line) max h, t, line_loop) refl
    | inr t ↦ rw (lt→ltb (length line) max h, t, line_loop) refl
  ]

  pub line_loop-again :
      (f : ℕ) (s : Incoming) (line : Bytes)
      → length line < max
      → line_loop (suc f) (recv_interrupted s) line max ≡ line_loop f s line max
  unfolding line_loop recv_socket
  line_loop-again f s line h = rw (lt→ltb (length line) max h, line_loop) refl

  line_loop-Yields :
      (f : ℕ) (s : Incoming) (line text rest : Bytes)
      → supply s < f
      → readable s ≡ text ++ b'\n' ∷ rest
      → lacks b'\n' text ≡ true
      → lacks b'\r' text ≡ true
      → length line + length text < max
      → Yields (line ++ text) rest (line_loop f s line max)
  unfolding readable supply
  line_loop-Yields zero s line text rest h e n r m = absurd (omega arith)
  line_loop-Yields (suc f) (chunk b bs s) line [] rest h e n r m =
      let is_end : b ≡ b'\n' = ground arith in
      let is_rest : bs ++ readable s ≡ rest = ground arith in
      record {
        behind = push_back bs s;
        result =
            line_loop-byte f b bs s line (omega arith)
            ∙ rw is_end (ap (λ l. (gives l, push_back bs s)) (sym (append-nil line)));
        continues = readable-push_back bs s ∙ is_rest;
      }
  line_loop-Yields (suc f) (chunk b bs s) line (c ∷ cs) rest h e n r m =
      let same : b ≡ c = ground arith in
      let is_rest : bs ++ readable s ≡ cs ++ b'\n' ∷ rest = ground arith in
      let goes_on : (b == b'\n') ≡ false = rw same (ground arith) in
      let kept : push_byte line b ≡ line ++ c ∷ [] =
        ap (push_byte line) same ∙ push_byte-kept line c (ground arith) in
      let y =
        line_loop-Yields f (push_back bs s) (line ++ c ∷ []) cs rest
          (omega (arith, supply-push_back bs s)) (readable-push_back bs s ∙ is_rest) (ground arith)
          (ground arith) (omega (arith, length-append line (c ∷ []))) in
      record {
        behind = y.behind;
        result =
            line_loop-byte f b bs s line (omega arith)
            ∙ rw goes_on (ap (λ l. line_loop f (push_back bs s) l max) kept)
            ∙ y.result
            ∙ ap (λ l. (gives l, y.behind)) (append_assoc line (c ∷ []) cs);
        continues = y.continues;
      }
  line_loop-Yields (suc f) (recv_interrupted s) line text rest h e n r m =
      let y = line_loop-Yields f s line text rest (omega arith) e n r m in
      record {
        behind = y.behind;
        result = line_loop-again f s line (omega arith) ∙ y.result;
        continues = y.continues;
      }
  line_loop-Yields (suc f) (recv_failed x s) line [] rest h e n r m = absurd cc
  line_loop-Yields (suc f) (recv_failed x s) line (c ∷ cs) rest h e n r m = absurd cc
  line_loop-Yields (suc f) peer_closed line [] rest h e n r m = absurd cc
  line_loop-Yields (suc f) peer_closed line (c ∷ cs) rest h e n r m = absurd cc
  line_loop-Yields (suc f) (silent x) line [] rest h e n r m = absurd cc
  line_loop-Yields (suc f) (silent x) line (c ∷ cs) rest h e n r m = absurd cc

-- A line that the service sends, shorter than the limit and without carriage returns, is received
-- as it was sent, however the stream is cut, and what follows its newline is left.
pub recv_line-Yields :
    (max : ℕ) (s : Incoming) (text rest : Bytes)
    → readable s ≡ text ++ b'\n' ∷ rest
    → lacks b'\n' text ≡ true
    → lacks b'\r' text ≡ true
    → length text < max
    → Yields text rest (recv_line s max)
unfolding recv_line
recv_line-Yields max s text rest e n r m =
    line_loop-Yields max (suc (supply s)) s [] text rest (omega arith) e n r (omega arith)

-- `recv_all` does what `read_exact` does.
recv_loop-read_loop :
    (f : ℕ) (s : Incoming) (need : ℕ)
    → (read_loop f s need).status ≡ ok
    → recv_loop f s need ≡ (gives (read_loop f s need).filled, (read_loop f s need).rest)
unfolding recv_loop read_loop recv_socket
recv_loop-read_loop zero s need e = absurd (ground arith)
recv_loop-read_loop (suc f) s zero e = refl
recv_loop-read_loop (suc f) (chunk b bs s) (suc need) e =
    rw
      (
        recv_loop-read_loop f (push_back (drop need bs) s) (suc need - suc (length (take need bs)))
            e,
        recv_loop,
      )
      refl
recv_loop-read_loop (suc f) (recv_interrupted s) (suc need) e = recv_loop-read_loop f s (suc need) e
recv_loop-read_loop (suc f) (recv_failed m s) (suc need) e = absurd (ground arith)
recv_loop-read_loop (suc f) peer_closed (suc need) e = absurd (ground arith)
recv_loop-read_loop (suc f) (silent m) (suc need) e = absurd (ground arith)

-- As many bytes as are asked for, when they are sent.
pub recv_all-Yields :
    (s : Incoming) (bytes rest : Bytes)
    → readable s ≡ bytes ++ rest
    → Yields bytes rest (recv_all s (length bytes))
unfolding recv_all read_exact
recv_all-Yields s bytes rest e =
    let n = length bytes in
    let d = read_exact-Delivers s n (omega (arith, ap length e, length-append bytes rest)) in
    record {
      behind = (read_exact s n).rest;
      result =
          recv_loop-read_loop (suc (supply s)) s n d.succeeds
          ∙ ap (λ x. (gives x, (read_exact s n).rest))
              (d.in_order ∙ ap (take n) e ∙ take-append_self n bytes rest refl);
      continues = d.leaves ∙ ap (drop n) e ∙ drop-append_self n bytes rest refl;
    }
