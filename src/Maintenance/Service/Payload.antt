-- ===== src/Maintenance/Service/Payload.antt =====
-- `receive_sized_payload` and `send_all` against what the service sends and receives.
use antsdr_dfone.Prelude.{
  ℕ, zero, suc, ◌^◌, ◌<◌, ◌≤◌, ◌≡◌, refl, sym, ap, ◌∙◌, Bool, true, false, [], ◌∷◌, ◌++◌, Option,
  some, none, arith, le→ltb, length, Bytes, codes, append-nil, take, drop,
}
use antsdr_dfone.Net.{
  Incoming, Socket, Sent, took, send_again, refused, send_socket, send_steps, write_loop, write_all,
}
use antsdr_dfone.Net.Reading.{readable}
use antsdr_dfone.Net.Writing.{write_all-true}
use antsdr_dfone.Maintenance.Text.Lines.{lacks}
use antsdr_dfone.Maintenance.Service.{
  Answer, fails, send_loop, send_all, starts_with, is_digit, read_uint64, to_string, read_body,
  as_failure, bad_size, answer_line, answer_of, receive_sized_payload,
}
use antsdr_dfone.Maintenance.Service.Receiving.{Yields, recv_line-Yields, recv_all-Yields}
use antsdr_dfone.Maintenance.Service.Numbers.{
  all_digits, to_string-all_digits, length-to_string, read_uint64-to_string,
}

pub lacks-all_digits :
    (x : ℕ) (ds : Bytes) → is_digit x ≡ false → all_digits ds ≡ true → lacks x ds ≡ true
lacks-all_digits x [] h k = refl
lacks-all_digits x (c ∷ cs) h k = ground (arith, lacks-all_digits x cs)

-- A body of an announced size.
pub read_body-Yields :
    (max : ℕ) (bad : Bytes) (s : Incoming) (bytes rest : Bytes)
    → length bytes ≤ max
    → max < 2 ^ 64
    → readable s ≡ bytes ++ rest
    → Yields bytes rest (read_body max bad (read_uint64 (to_string (length bytes))) s)
read_body-Yields max bad s bytes rest h k e =
    let n = length bytes in
    let size : read_uint64 (to_string n) ≡ some n =
      ap read_uint64 (sym (append-nil (to_string n)))
      ∙ read_uint64-to_string n [] (omega arith) refl in
    rw size (rw (le→ltb max n h) (recv_all-Yields s bytes rest e))

module _ (max : ℕ) (context : Bytes) (s : Incoming) (bytes rest : Bytes) (h : length bytes ≤ max)
    (k : max < 2 ^ 64) where
  abbrev size_text : Bytes
  size_text = to_string (length bytes)

  ok_line :
      (t : Incoming)
      → answer_line max context (codes "OK " ++ size_text) t
        ≡ read_body max (bad_size context (codes " response size")) (read_uint64 size_text) t
  unfolding answer_line starts_with
  ok_line t = refl

  fail_line :
      (t : Incoming)
      → answer_line max context (codes "FAIL " ++ size_text) t
        ≡ as_failure
            (read_body max (bad_size context (codes " failure size")) (read_uint64 size_text) t)
  unfolding answer_line starts_with
  fail_line t = refl

  -- An answer OK with a decimal size, then a payload of that size within a limit of 64 bits, is
  -- received as it was sent, however the stream is cut, and what follows the payload is left.
  pub receive_sized_payload-Yields :
      readable s ≡ (codes "OK " ++ size_text) ++ b'\n' ∷ (bytes ++ rest)
      → Yields bytes rest (receive_sized_payload s max context)
  unfolding receive_sized_payload
  receive_sized_payload-Yields e =
      let digits = to_string-all_digits (length bytes) in
      let short = length-to_string (length bytes) (omega arith) in
      let l =
        recv_line-Yields 1024 s (codes "OK " ++ size_text) (bytes ++ rest) e
          (lacks-all_digits b'\n' size_text refl digits)
          (lacks-all_digits b'\r' size_text refl digits) (omega arith) in
      let y =
        read_body-Yields max (bad_size context (codes " response size")) l.behind bytes rest h k
          l.continues in
      record {
        behind = y.behind;
        result = ap (answer_of max context) l.result ∙ ok_line l.behind ∙ y.result;
        continues = y.continues;
      }

  -- An answer FAIL with a decimal size, then a text of that size within a limit of 64 bits, is a
  -- failure whose error is that text.
  pub receive_sized_payload-fails :
      readable s ≡ (codes "FAIL " ++ size_text) ++ b'\n' ∷ (bytes ++ rest)
      → (receive_sized_payload s max context).0 ≡ fails bytes
  unfolding receive_sized_payload
  receive_sized_payload-fails e =
      let digits = to_string-all_digits (length bytes) in
      let short = length-to_string (length bytes) (omega arith) in
      let l =
        recv_line-Yields 1024 s (codes "FAIL " ++ size_text) (bytes ++ rest) e
          (lacks-all_digits b'\n' size_text refl digits)
          (lacks-all_digits b'\r' size_text refl digits) (omega arith) in
      let y =
        read_body-Yields max (bad_size context (codes " failure size")) l.behind bytes rest h k
          l.continues in
      ap (λ (o : Answer Bytes × Incoming). (answer_of max context o).0) l.result
      ∙ ap (λ (o : Answer Bytes × Incoming). o.0) (fail_line l.behind)
      ∙ ap (λ (o : Answer Bytes × Incoming). (as_failure o).0) y.result

-- `send_all` does what `write_all` does.
abbrev Agrees : Option Bytes × Socket → Bool × Socket → Type 0
Agrees (none, s) w = w ≡ (true, s)
Agrees (some e, s) w = w ≡ (false, s)

-- One call of send, as each of the two loops goes on from it.
module _ (f : ℕ) (s : Socket) (b : ℕ) (bs : Bytes) where
  abbrev send_next : Sent → Option Bytes × Socket
  send_next x = elim x [
    | took zero o ↦ (some (codes "send failed: connection closed"), record s { outgoing = o })
    | took (suc n) o ↦
        send_loop f (record s { outgoing = o; wire = s.wire ++ take (suc n) (b ∷ bs) })
          (drop (suc n) (b ∷ bs))
    | send_again o ↦ send_loop f (record s { outgoing = o }) (b ∷ bs)
    | refused m o ↦ (some (codes "send failed: " ++ m), record s { outgoing = o })
  ]

  abbrev write_next : Sent → Bool × Socket
  write_next x = elim x [
    | took zero o ↦ (false, record s { outgoing = o })
    | took (suc n) o ↦
        write_loop f (record s { outgoing = o; wire = s.wire ++ take (suc n) (b ∷ bs) })
          (drop (suc n) (b ∷ bs))
    | send_again o ↦ write_loop f (record s { outgoing = o }) (b ∷ bs)
    | refused m o ↦ (false, record s { outgoing = o })
  ]

  next-Agrees :
      ((t : Socket) (bytes : Bytes) → Agrees (send_loop f t bytes) (write_loop f t bytes))
      → (x : Sent) → Agrees (send_next x) (write_next x)
  next-Agrees h (took zero o) = refl
  next-Agrees h (took (suc n) o) =
      h (record s { outgoing = o; wire = s.wire ++ take (suc n) (b ∷ bs) }) (drop (suc n) (b ∷ bs))
  next-Agrees h (send_again o) = h (record s { outgoing = o }) (b ∷ bs)
  next-Agrees h (refused m o) = refl

send_loop-Agrees :
    (f : ℕ) (s : Socket) (bytes : Bytes) → Agrees (send_loop f s bytes) (write_loop f s bytes)
unfolding send_loop write_loop
send_loop-Agrees zero s bytes = refl
send_loop-Agrees (suc f) s [] = refl
send_loop-Agrees (suc f) s (b ∷ bs) =
    next-Agrees f s b bs (send_loop-Agrees f) (send_socket s.outgoing (b ∷ bs))

-- A message that `send_all` reports as sent is on the wire whole, and nothing that is still to be
-- received is lost.
pub send_all-none :
    (s : Socket) (bytes : Bytes)
    → (send_all s bytes).0 ≡ none
    → ((send_all s bytes).1.wire ≡ s.wire ++ bytes) × ((send_all s bytes).1.incoming ≡ s.incoming)
unfolding send_all write_all
send_all-none s bytes e =
    go (send_loop (suc (suc (send_steps s.outgoing))) s bytes) e
      (send_loop-Agrees (suc (suc (send_steps s.outgoing))) s bytes)
  where
    go :
        (x : Option Bytes × Socket)
        → x.0 ≡ none
        → Agrees x (write_all s bytes)
        → (x.1.wire ≡ s.wire ++ bytes) × (x.1.incoming ≡ s.incoming)
    go (some m, t) q a = absurd cc
    go (none, t) q a =
        let w = write_all-true s bytes (ap (λ (y : Bool × Socket). y.0) a) in
        (
          sym (ap (λ (y : Bool × Socket). y.1.wire) a) ∙ w.0,
          sym (ap (λ (y : Bool × Socket). y.1.incoming) a) ∙ w.1,
        )
