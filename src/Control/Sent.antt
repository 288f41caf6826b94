-- ===== src/Control/Sent.antt =====
-- What a command that succeeded has done, whatever the peer sent.
use antsdr_dfone.Prelude.{
  ℕ, zero, suc, ◌+◌, ◌%◌, ◌^◌, ◌≡◌, refl, ap, subst, ◌∙◌, Bool, true, false, Option, some, none,
  inl, inr, arith, Bool-cases, ◌++◌, Bytes,
}
use antsdr_dfone.Net.{Incoming, Socket, write_all}
use antsdr_dfone.Net.Writing.{write_all-true}
use antsdr_dfone.Wire.{Packet, command_frame, receive_packet}
use antsdr_dfone.Stream.{pending}
use antsdr_dfone.Control.{
  ControlClient, write_frame, send_frame_on, send_command_frame, keep_or_disconnect, read_packet_on,
  read_packet, is_response, response_round, response_loop, read_response, expect_zero, send_command,
}

-- The bytes that went out on a handle.
abbrev pub wire_of : Option Socket → Option Bytes
wire_of none = none
wire_of (some s) = some s.wire

-- The channel sends what it sent and has the same sequence number.
pub record SameSent (c c' : ControlClient) : Type 0 where
  pub same_wire : wire_of c'.socket_fd ≡ wire_of c.socket_fd
  pub same_seq : c'.next_seq ≡ c.next_seq
  pub same_connected : c'.connected ≡ c.connected

SameSent-trans : {a b c : ControlClient} → SameSent a b → SameSent b c → SameSent a c
SameSent-trans p q = record {
  same_wire = q.same_wire ∙ p.same_wire;
  same_seq = q.same_seq ∙ p.same_seq;
  same_connected = q.same_connected ∙ p.same_connected;
}

keep_or_disconnect-SameSent :
    (c : ControlClient) (s : Socket) (r : Option Packet × Incoming) {p : Packet}
    {c' : ControlClient}
    → c.socket_fd ≡ some s
    → keep_or_disconnect c s r ≡ (some p, c')
    → SameSent c c'
unfolding keep_or_disconnect
keep_or_disconnect-SameSent c s (none, t) e q = absurd (ground arith)
keep_or_disconnect-SameSent c s (some p', t) e q = ground arith

read_packet_on-SameSent :
    (c : ControlClient) (fd : Option Socket) {p : Packet} {c' : ControlClient}
    → c.socket_fd ≡ fd
    → read_packet_on c fd ≡ (some p, c')
    → SameSent c c'
unfolding read_packet_on
read_packet_on-SameSent c none e q = absurd (ground arith)
read_packet_on-SameSent c (some s) e q =
    keep_or_disconnect-SameSent c s (receive_packet s.incoming) e q

response_round-SameSent :
    (again : ControlClient → Option ℕ × ControlClient) (c : ControlClient)
    (r : Option Packet × ControlClient) {v : ℕ} {c' : ControlClient}
    → ((d : ControlClient) → again d ≡ (some v, c') → SameSent d c')
    → ((p : Packet) (d : ControlClient) → r ≡ (some p, d) → SameSent c d)
    → response_round again r ≡ (some v, c')
    → SameSent c c'
unfolding response_round
response_round-SameSent again c (none, d) h k q = absurd (ground arith)
response_round-SameSent again c (some p, d) {v} {c'} h k q = elim (Bool-cases (is_response p)) [
  | inl b ↦ let same : d ≡ c' = ground arith in subst (λ x. SameSent c x) same (k p d refl)
  | inr b ↦ SameSent-trans (k p d refl) (h d (ground arith))
]

response_loop-SameSent :
    (f : ℕ) (c : ControlClient) {v : ℕ} {c' : ControlClient}
    → response_loop f c ≡ (some v, c')
    → SameSent c c'
unfolding response_loop read_packet
response_loop-SameSent zero c q = absurd (ground arith)
response_loop-SameSent (suc f) c q =
    response_round-SameSent (response_loop f) c (read_packet c)
      (λ d e. response_loop-SameSent f d e) (λ p d e. read_packet_on-SameSent c c.socket_fd refl e)
      q

read_response-SameSent :
    (c : ControlClient) {v : ℕ} {c' : ControlClient}
    → read_response c ≡ (some v, c')
    → SameSent c c'
unfolding read_response
read_response-SameSent c q = response_loop-SameSent (suc (pending c.socket_fd)) c q

-- The channel has sent one frame more, under the next sequence number.
pub record HasSent (c : ControlClient) (addr value : ℕ) (c' : ControlClient) : Type 0 where
  pub before : Bytes
  pub had : wire_of c.socket_fd ≡ some before
  pub has : wire_of c'.socket_fd ≡ some (before ++ command_frame c.next_seq addr value)
  pub seq_after : c'.next_seq ≡ (c.next_seq + 1) % 2 ^ 16
  pub was_connected : c.connected ≡ true
  pub still_connected : c'.connected ≡ true

write_frame-HasSent :
    (c : ControlClient) (s : Socket) (addr value : ℕ) {c' : ControlClient}
    → c.connected ≡ true
    → c.socket_fd ≡ some s
    → write_frame c s (command_frame c.next_seq addr value) ≡ (true, c')
    → HasSent c addr value c'
unfolding write_frame
write_frame-HasSent c s addr value {c'} o e q =
    elim (Bool-cases (write_all s (command_frame c.next_seq addr value)).0) [
      | inl b ↦
          let w = write_all-true s (command_frame c.next_seq addr value) b in
          record {
            before = s.wire;
            had = ap wire_of e;
            has = ground (arith, w.0);
            seq_after = ground arith;
            was_connected = o;
            still_connected = ground arith;
          }
      | inr b ↦ absurd (ground arith)
    ]

send_frame_on-HasSent :
    (c : ControlClient) (addr value : ℕ) (b : Bool) (fd : Option Socket) {c' : ControlClient}
    → c.connected ≡ b
    → c.socket_fd ≡ fd
    → send_frame_on c addr value b fd ≡ (true, c')
    → HasSent c addr value c'
unfolding send_frame_on
send_frame_on-HasSent c addr value false fd o e q = absurd (ground arith)
send_frame_on-HasSent c addr value true none o e q = absurd (ground arith)
send_frame_on-HasSent c addr value true (some s) o e q = write_frame-HasSent c s addr value o e q

pub send_command_frame-HasSent :
    (c : ControlClient) (addr value : ℕ) {c' : ControlClient}
    → send_command_frame c addr value ≡ (true, c')
    → HasSent c addr value c'
unfolding send_command_frame
send_command_frame-HasSent c addr value q =
    send_frame_on-HasSent c addr value c.connected c.socket_fd refl refl q

HasSent-then :
    {c d c' : ControlClient} {addr value : ℕ}
    → HasSent c addr value d
    → SameSent d c'
    → HasSent c addr value c'
HasSent-then h k = record {
  before = h.before;
  had = h.had;
  has = k.same_wire ∙ h.has;
  seq_after = k.same_seq ∙ h.seq_after;
  was_connected = h.was_connected;
  still_connected = k.same_connected ∙ h.still_connected;
}

expect_zero-true :
    (r : Option ℕ × ControlClient) {c' : ControlClient}
    → expect_zero r ≡ (true, c')
    → r ≡ (some 0, c')
unfolding expect_zero
expect_zero-true (none, c) q = absurd (ground arith)
expect_zero-true (some v, c) q = ground arith

-- When a command answers true, its frame is on the wire, whole and under the next sequence number,
-- behind all that was sent before; the channel was and is connected, and the first response that
-- was read is zero.
pub send_command-HasSent :
    (c : ControlClient) (addr value : ℕ) {c' : ControlClient}
    → send_command c addr value ≡ (true, c')
    → HasSent c addr value c' × (read_response (send_command_frame c addr value).1 ≡ (some 0, c'))
unfolding send_command
send_command-HasSent c addr value {c'} q = elim (Bool-cases (send_command_frame c addr value).0) [
  | inl b ↦
      let answer =
        expect_zero-true (read_response (send_command_frame c addr value).1) {c' = c'}
          (ground arith) in
      (
        HasSent-then
            (send_command_frame-HasSent c addr value {c' = (send_command_frame c addr value).1}
              (ground arith))
            (read_response-SameSent _ answer),
        answer,
      )
  | inr b ↦ absurd (ground arith)
]
