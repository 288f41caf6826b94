-- ===== src/Control/Commands.antt =====
-- What a command does to the channel: the invariant of the client, and a whole exchange.
use antsdr_dfone.Prelude.{
  ℕ, zero, suc, ◌+◌, ◌%◌, ◌^◌, ◌<◌, ◌≡◌, refl, sym, ap, subst, ◌∙◌, Bool, true, false, List, [],
  ◌∷◌, ◌++◌, Option, some, none, arith, ◌==◌, Bytes,
}
use antsdr_dfone.Net.{Incoming, Socket, write_all}
use antsdr_dfone.Net.Reading.{readable}
use antsdr_dfone.Net.Writing.{write_all-true}
use antsdr_dfone.Wire.{Packet, command_frame}
use antsdr_dfone.Wire.Packets.{Carries}
use antsdr_dfone.Dial.{DeviceEndpoint, Dial}
use antsdr_dfone.Stream.{pending}
use antsdr_dfone.Control.{
  ControlClient, new_control, disconnect, connect_socket, connect, write_frame, send_frame_on,
  send_command_frame, keep_or_disconnect, read_packet_on, read_packet, is_response, response_value,
  response_round, response_loop, read_response, expect_zero, send_command, ssd_answer,
  control_has_ssd,
}
use antsdr_dfone.Control.Response.{AllSkipped, read_response-Carries}

abbrev pub has_handle {ℓ} : {A : Type ℓ} → Option A → Bool
has_handle none = false
has_handle (some a) = true

-- The client is connected exactly while it holds a handle, and its sequence number fits its field.
pub record IsValid (c : ControlClient) : Type 0 where
  pub handle_held : has_handle c.socket_fd ≡ c.connected
  pub seq_range : c.next_seq < 2 ^ 16

pub new_control-IsValid : (e : DeviceEndpoint) → IsValid (new_control e)
unfolding new_control
new_control-IsValid e = record { handle_held = refl; seq_range = omega arith }

pub disconnect-IsValid : (c : ControlClient) → c.next_seq < 2 ^ 16 → IsValid (disconnect c)
unfolding disconnect
disconnect-IsValid c h = record { handle_held = refl; seq_range = h }

connect_socket-IsValid :
    (d : Dial) (c : ControlClient) (s : Option Socket)
    → c.connected ≡ false
    → IsValid c
    → IsValid (connect_socket d c s).1
unfolding connect_socket
connect_socket-IsValid d c none e v = ground arith
connect_socket-IsValid d c (some s) e v = ground arith

pub connect-IsValid : (d : Dial) (c : ControlClient) → IsValid c → IsValid (connect d c).1
unfolding connect
connect-IsValid d c v = ground (arith, connect_socket-IsValid d c d.socket)

send_frame_on-IsValid :
    (c : ControlClient) (addr value : ℕ) (b : Bool) (fd : Option Socket)
    → c.connected ≡ b
    → IsValid c
    → IsValid (send_frame_on c addr value b fd).1
unfolding send_frame_on
send_frame_on-IsValid c addr value false fd e v = v
send_frame_on-IsValid c addr value true none e v = v
send_frame_on-IsValid c addr value true (some s) e v = ground arith

pub send_command_frame-IsValid :
    (c : ControlClient) (addr value : ℕ) → IsValid c → IsValid (send_command_frame c addr value).1
unfolding send_command_frame
send_command_frame-IsValid c addr value v =
    send_frame_on-IsValid c addr value c.connected c.socket_fd refl v

keep_or_disconnect-IsValid :
    (c : ControlClient) (s : Socket) (r : Option Packet × Incoming)
    → c.connected ≡ true
    → IsValid c
    → IsValid (keep_or_disconnect c s r).1
unfolding keep_or_disconnect
keep_or_disconnect-IsValid c s (none, t) e v = disconnect-IsValid c v.seq_range
keep_or_disconnect-IsValid c s (some p, t) e v = ground arith

read_packet_on-IsValid :
    (c : ControlClient) (fd : Option Socket)
    → c.socket_fd ≡ fd
    → IsValid c
    → IsValid (read_packet_on c fd).1
unfolding read_packet_on
read_packet_on-IsValid c none e v = disconnect-IsValid c v.seq_range
read_packet_on-IsValid c (some s) e v =
    keep_or_disconnect-IsValid c s _ (sym v.handle_held ∙ ap has_handle e) v

read_packet-IsValid : (c : ControlClient) → IsValid c → IsValid (read_packet c).1
unfolding read_packet
read_packet-IsValid c v = read_packet_on-IsValid c c.socket_fd refl v

response_round-IsValid :
    (again : ControlClient → Option ℕ × ControlClient) (r : Option Packet × ControlClient)
    → ((c : ControlClient) → IsValid c → IsValid (again c).1)
    → IsValid r.1
    → IsValid (response_round again r).1
unfolding response_round
response_round-IsValid again (none, c) h v = v
response_round-IsValid again (some p, c) h v = ground (arith, h c v)

response_loop-IsValid : (f : ℕ) (c : ControlClient) → IsValid c → IsValid (response_loop f c).1
unfolding response_loop
response_loop-IsValid zero c v = v
response_loop-IsValid (suc f) c v =
    response_round-IsValid (response_loop f) (read_packet c) (response_loop-IsValid f)
      (read_packet-IsValid c v)

pub read_response-IsValid : (c : ControlClient) → IsValid c → IsValid (read_response c).1
unfolding read_response
read_response-IsValid c v = response_loop-IsValid (suc (pending c.socket_fd)) c v

pub expect_zero-IsValid : (r : Option ℕ × ControlClient) → IsValid r.1 → IsValid (expect_zero r).1
unfolding expect_zero
expect_zero-IsValid (none, c) v = v
expect_zero-IsValid (some x, c) v = v

-- A client that has a handle exactly while it is connected, with a sequence number of 16 bits, is
-- still so after any command, whatever the peer and the system do.
pub send_command-IsValid :
    (c : ControlClient) (addr value : ℕ) → IsValid c → IsValid (send_command c addr value).1
unfolding send_command
send_command-IsValid c addr value v = ground (
  arith,
  send_command_frame-IsValid c addr value v,
  expect_zero-IsValid (read_response (send_command_frame c addr value).1)
      (read_response-IsValid _ (send_command_frame-IsValid c addr value v)),
)

ssd_answer-IsValid : (r : Option ℕ × ControlClient) → IsValid r.1 → IsValid (ssd_answer r).1
unfolding ssd_answer
ssd_answer-IsValid (none, c) v = v
ssd_answer-IsValid (some x, c) v = v

pub control_has_ssd-IsValid : (c : ControlClient) → IsValid c → IsValid (control_has_ssd c).1
unfolding control_has_ssd
control_has_ssd-IsValid c v = ground (
  arith,
  send_command_frame-IsValid c 0x21 0 v,
  ssd_answer-IsValid (read_response (send_command_frame c 0x21 0).1)
      (read_response-IsValid _ (send_command_frame-IsValid c 0x21 0 v)),
)

-- A channel on which a command can go out whole: connected, with a socket that takes the frame.
pub record CanSend (c : ControlClient) (s : Socket) (frame : Bytes) : Type 0 where
  pub is_connected : c.connected ≡ true
  pub handle : c.socket_fd ≡ some s
  pub takes : (write_all s frame).0 ≡ true

-- The channel after a command went out.
pub record Sends (c : ControlClient) (s : Socket) (frame : Bytes) (c' : ControlClient) (s' : Socket)
    : Type 0 where
  pub handle : c'.socket_fd ≡ some s'
  pub socket_is : s' ≡ (write_all s frame).1
  pub on_wire : s'.wire ≡ s.wire ++ frame
  pub same_incoming : s'.incoming ≡ s.incoming
  pub same_connected : c'.connected ≡ c.connected
  pub next : c'.next_seq ≡ (c.next_seq + 1) % 2 ^ 16

send_frame_on-eq :
    (c : ControlClient) (addr value : ℕ) (b : Bool) (fd : Option Socket) (s : Socket)
    → b ≡ true
    → fd ≡ some s
    → send_frame_on c addr value b fd ≡ write_frame c s (command_frame c.next_seq addr value)
unfolding send_frame_on
send_frame_on-eq c addr value b fd s e f = rw (e, f)

pub send_command_frame-Sends :
    (c : ControlClient) (s : Socket) (addr value : ℕ)
    → CanSend c s (command_frame c.next_seq addr value)
    → (c' : ControlClient) × (s' : Socket) × (send_command_frame c addr value ≡ (true, c'))
      × Sends c s (command_frame c.next_seq addr value) c' s'
unfolding send_command_frame write_frame
send_command_frame-Sends c s addr value k =
    let frame = command_frame c.next_seq addr value in
    let s' = (write_all s frame).1 in
    let w = write_all-true s frame k.takes in
    (
      record c { next_seq = (c.next_seq + 1) % 2 ^ 16; socket_fd = some s' },
      s',
      send_frame_on-eq c addr value c.connected c.socket_fd s k.is_connected k.handle
          ∙ rw (k.takes, write_frame),
      record {
        handle = refl;
        socket_is = refl;
        on_wire = w.0;
        same_incoming = w.1;
        same_connected = refl;
        next = refl;
      },
    )

-- On a connected channel that takes the frame whole and whose stream brings packets that are not
-- responses, then a response: the frame goes out behind what was sent before, the other packets
-- are dropped, the command answers true exactly when the response is zero, and the channel stays
-- connected, right behind the response.
pub send_command-exchange :
    (c : ControlClient) (s : Socket) (addr value : ℕ) (skipped : List Packet) (p : Packet)
    (rest : Bytes)
    → CanSend c s (command_frame c.next_seq addr value)
    → Carries rest (readable s.incoming) (skipped ++ p ∷ [])
    → AllSkipped skipped
    → is_response p ≡ true
    → (c' : ControlClient) × (t : Socket) × (send_command c addr value
        ≡ (response_value p == 0, c'))
      × (c'.socket_fd ≡ some t)
      × (t.wire ≡ s.wire ++ command_frame c.next_seq addr value)
      × (readable t.incoming ≡ rest)
      × (c'.connected ≡ true)
unfolding send_command expect_zero
send_command-exchange c s addr value skipped p rest k packets a r =
    let (c1, s1, sent, w) = send_command_frame-Sends c s addr value k in
    let (c2, answer, at) =
      read_response-Carries c1 s1 skipped p rest w.handle
        (subst (λ i. Carries rest (readable i) (skipped ++ p ∷ [])) (sym w.same_incoming) packets) a
        r in
    (
      c2,
      record s1 { incoming = at.behind },
      rw sent (rw (answer, expect_zero)),
      at.handle,
      w.on_wire,
      at.at_bytes,
      at.same_connected ∙ w.same_connected ∙ k.is_connected,
    )
