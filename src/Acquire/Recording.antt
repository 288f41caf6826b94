-- ===== src/Acquire/Recording.antt =====
-- The commands of a recording, each with its answer.
use antsdr_dfone.Prelude.{
  ℕ, ◌+◌, ◌%◌, ◌^◌, ◌≡◌, refl, sym, ap, subst, ◌∙◌, Bool, true, not, List, [], ◌∷◌, ◌++◌, Option,
  some, ◌==◌, if◌then◌else◌, Bytes,
}
use antsdr_dfone.Net.{Socket, takes_all}
use antsdr_dfone.Net.Writing.{write_all-takes_all}
use antsdr_dfone.Net.Reading.{readable}
use antsdr_dfone.Wire.{Packet, command_frame}
use antsdr_dfone.Wire.Packets.{Carries}
use antsdr_dfone.Stream.{StreamClient, RecordRequest, Disk, read_record_packets}
use antsdr_dfone.Control.{
  ControlClient, send_command_frame, read_response, expect_zero, send_command, is_response,
  response_value, ssd_answer, control_has_ssd,
}
use antsdr_dfone.Control.Response.{AllSkipped, read_response-Carries}
use antsdr_dfone.Control.Commands.{send_command_frame-Sends}
use antsdr_dfone.Acquire.{record_mask, begin_record, not_started, Started}

-- A connected command channel whose peer takes every frame.
pub record Ready (c : ControlClient) (s : Socket) : Type 0 where
  pub is_connected : c.connected ≡ true
  pub handle : c.socket_fd ≡ some s
  pub takes : s.outgoing ≡ takes_all

-- The stream `all` brings the response `p`, behind packets that are not responses, and goes on with `rest`.
pub record Answers (rest all : Bytes) (p : Packet) : Type 0 where
  pub skipped : List Packet
  pub packets : Carries rest all (skipped ++ p ∷ [])
  pub skips : AllSkipped skipped
  pub is_answer : is_response p ≡ true

-- The client behind one command and its response.
pub record Behind (c : ControlClient) (s : Socket) (addr value : ℕ) (p : Packet) (rest : Bytes)
    : Type 0 where
  pub sent : ControlClient
  pub after : ControlClient
  pub socket : Socket
  pub sends : send_command_frame c addr value ≡ (true, sent)
  pub answers : read_response sent ≡ (some (response_value p), after)
  pub ready : Ready after socket
  pub at_rest : readable socket.incoming ≡ rest
  pub on_wire : socket.wire ≡ s.wire ++ command_frame c.next_seq addr value
  pub seq_after : after.next_seq ≡ (c.next_seq + 1) % 2 ^ 16

pub answered :
    (c : ControlClient) (s : Socket) (addr value : ℕ) (p : Packet) (rest : Bytes)
    → Ready c s
    → Answers rest (readable s.incoming) p
    → Behind c s addr value p rest
answered c s addr value p rest k a =
    let w = write_all-takes_all s (command_frame c.next_seq addr value) k.takes in
    let (c1, s1, sent, went) =
      send_command_frame-Sends c s addr value
        (record { is_connected = k.is_connected; handle = k.handle; takes = w.0 }) in
    let (c2, answer, at) =
      read_response-Carries c1 s1 a.skipped p rest went.handle
        (subst (λ i. Carries rest (readable i) (a.skipped ++ p ∷ [])) (sym went.same_incoming)
          a.packets)
        a.skips a.is_answer in
    record {
      sent = c1;
      after = c2;
      socket = record s1 { incoming = at.behind };
      sends = sent;
      answers = answer;
      ready = record {
        is_connected = at.same_connected ∙ went.same_connected ∙ k.is_connected;
        handle = at.handle;
        takes = ap (λ (x : Socket). x.outgoing) went.socket_is ∙ w.1;
      };
      at_rest = at.at_bytes;
      on_wire = went.on_wire;
      seq_after = at.same_seq ∙ went.next;
    }

-- What the device answers about the storage.
abbrev pub says_ssd : Packet → Bool
says_ssd p = not (response_value p % 2 == 0)

pub control_has_ssd-answered :
    (c : ControlClient) {c1 c2 : ControlClient} {v : ℕ}
    → send_command_frame c 0x21 0 ≡ (true, c1)
    → read_response c1 ≡ (some v, c2)
    → control_has_ssd c ≡ (some (not (v % 2 == 0)), c2)
unfolding control_has_ssd ssd_answer
control_has_ssd-answered c e f = rw e (rw (f, ssd_answer))

pub send_command-answered :
    (c : ControlClient) (addr value : ℕ) {c1 c2 : ControlClient} {v : ℕ}
    → send_command_frame c addr value ≡ (true, c1)
    → read_response c1 ≡ (some v, c2)
    → v ≡ 0
    → send_command c addr value ≡ (true, c2)
unfolding send_command expect_zero
send_command-answered c addr value e f z = rw e (rw (f, expect_zero) (rw z refl))

-- The three tests of `begin_record`, from the last on.
module _ (disk : Disk) (t : StreamClient) (q : RecordRequest) (b : Bool) where
  abbrev if_zeroed : Bool × ControlClient → Started
  if_zeroed r =
      if not r.0
      then not_started r.1 t
      else record { outcome = read_record_packets disk t q b; control = r.1 }

  abbrev if_sent : Bool × ControlClient → Started
  if_sent r = if not r.0 then not_started r.1 t else if_zeroed (expect_zero (read_response r.1))

  abbrev if_enabled : Bool × ControlClient → Started
  if_enabled r =
      if not r.0 then not_started r.1 t else if_sent (send_command_frame r.1 0x22 q.length_mb)

  begin_record-steps :
      (c : ControlClient)
      → begin_record disk c t q b ≡ if_enabled (send_command c 0x20 (record_mask q))
  unfolding begin_record
  begin_record-steps c = refl

  expect_zero-answered :
      (r : Option ℕ × ControlClient) {c : ControlClient} {v : ℕ}
      → r ≡ (some v, c)
      → v ≡ 0
      → expect_zero r ≡ (true, c)
  unfolding expect_zero
  expect_zero-answered r e z = rw e (rw z refl)

  pub begin_record-answered :
      (c : ControlClient) {c1 c2 c3 : ControlClient} {v : ℕ}
      → send_command c 0x20 (record_mask q) ≡ (true, c1)
      → send_command_frame c1 0x22 q.length_mb ≡ (true, c2)
      → read_response c2 ≡ (some v, c3)
      → v ≡ 0
      → begin_record disk c t q b
        ≡ record { outcome = read_record_packets disk t q b; control = c3 }
  begin_record-answered c {c2 = c2} e f g z =
      begin_record-steps c
      ∙ ap if_enabled e
      ∙ ap if_sent f
      ∙ ap if_zeroed (expect_zero-answered (read_response c2) g z)
