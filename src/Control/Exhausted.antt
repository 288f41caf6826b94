-- ===== src/Control/Exhausted.antt =====
-- `read_response` on a stream that ends before a response comes.
use antsdr_dfone.Prelude.{
  ℕ, ◌+◌, ◌%◌, ◌^◌, ◌<◌, ◌≡◌, ◌≢◌, refl, sym, subst, ◌∙◌, false, List, [], ◌∷◌, Option, some, none,
  arith, length, Bytes,
}
use antsdr_dfone.Net.{Incoming, Socket, ReadExactResult, ok, peer_gone, error, read_exact}
use antsdr_dfone.Net.Reading.{readable, read_exact-FallsShort, fate-ne-ok}
use antsdr_dfone.Wire.{Packet, command_frame, packet_header_bytes, receive_packet}
use antsdr_dfone.Wire.Packets.{Carries, last, more, receive_packet-Next}
use antsdr_dfone.Control.{
  ControlClient, disconnect, keep_or_disconnect, read_packet_on, read_packet, response_round,
  read_response, expect_zero, send_command,
}
use antsdr_dfone.Control.Commands.{CanSend, send_command_frame-Sends}
use antsdr_dfone.Control.Response.{AllSkipped, read_response-unroll, read_packet-Next}

-- Without the bytes of a header there is no packet.
receive_packet-none :
    (s : Incoming) → length (readable s) < packet_header_bytes → (receive_packet s).0 ≡ none
unfolding receive_packet
receive_packet-none s h = go (read_exact s packet_header_bytes).status refl
  where
    failed : (read_exact s packet_header_bytes).status ≢ ok
    failed e = fate-ne-ok s (sym (read_exact-FallsShort s packet_header_bytes h).fails ∙ e)

    go :
        (x : ReadExactResult)
        → (read_exact s packet_header_bytes).status ≡ x
        → (receive_packet s).0 ≡ none
    go ok e = absurd (failed e)
    go peer_gone e = rw (e, receive_packet) refl
    go error e = rw (e, receive_packet) refl

keep_or_disconnect-none :
    (c : ControlClient) (s : Socket) (r : Option Packet × Incoming)
    → r.0 ≡ none
    → keep_or_disconnect c s r ≡ (none, disconnect c)
unfolding keep_or_disconnect
keep_or_disconnect-none c s (none, t) e = refl
keep_or_disconnect-none c s (some p, t) e = absurd (ground arith)

read_packet-none :
    (c : ControlClient) (s : Socket)
    → c.socket_fd ≡ some s
    → length (readable s.incoming) < packet_header_bytes
    → read_packet c ≡ (none, disconnect c)
unfolding read_packet read_packet_on
read_packet-none c s e h =
    rw (e, read_packet_on)
      (keep_or_disconnect-none c s (receive_packet s.incoming) (receive_packet-none s.incoming h))

-- The client has given the channel up, with its sequence number kept.
pub record GivesUp (c c' : ControlClient) : Type 0 where
  pub no_handle : c'.socket_fd ≡ none
  pub not_connected : c'.connected ≡ false
  pub same_seq : c'.next_seq ≡ c.next_seq

read_response-GivesUp :
    (c : ControlClient) (s : Socket) (ps : List Packet) (rest : Bytes)
    → c.socket_fd ≡ some s
    → Carries rest (readable s.incoming) ps
    → AllSkipped ps
    → length rest < packet_header_bytes
    → (c' : ControlClient) × (read_response c ≡ (none, c')) × GivesUp c c'
unfolding response_round disconnect
read_response-GivesUp c s [] rest e (last z) a h =
    let read = read_packet-none c s e (subst (λ b. length b < packet_header_bytes) (sym z) h) in
    (
      disconnect c,
      read_response-unroll c ∙ rw read refl,
      record { no_handle = refl; not_connected = refl; same_seq = refl },
    )
read_response-GivesUp c s (p ∷ ps) rest e (more v q later) a h =
    let n = receive_packet-Next s.incoming p _ v q in
    let read = read_packet-Next c s p e n.received in
    let c1 : ControlClient = record c { socket_fd = some (record s { incoming = n.behind }) } in
    let (c', answer, g) =
      read_response-GivesUp c1 (record s { incoming = n.behind }) ps rest refl
        (subst (λ b. Carries rest b ps) (sym n.continues) later) a.1 h in
    (
      c',
      read_response-unroll c ∙ rw read (rw (a.0, response_round) answer),
      record { no_handle = g.no_handle; not_connected = g.not_connected; same_seq = g.same_seq },
    )

-- On a connected channel that takes the frame whole and whose stream brings packets that are not
-- responses and then ends without another header: the command drops the packets, answers false, and
-- leaves the client disconnected, with the next sequence number.
pub send_command-GivesUp :
    (c : ControlClient) (s : Socket) (addr value : ℕ) (ps : List Packet) (rest : Bytes)
    → CanSend c s (command_frame c.next_seq addr value)
    → Carries rest (readable s.incoming) ps
    → AllSkipped ps
    → length rest < packet_header_bytes
    → (c' : ControlClient) × (send_command c addr value ≡ (false, c'))
      × (c'.socket_fd ≡ none)
      × (c'.connected ≡ false)
      × (c'.next_seq ≡ (c.next_seq + 1) % 2 ^ 16)
unfolding send_command expect_zero
send_command-GivesUp c s addr value ps rest k packets a h =
    let (c1, s1, sent, w) = send_command_frame-Sends c s addr value k in
    let (c2, answer, g) =
      read_response-GivesUp c1 s1 ps rest w.handle
        (subst (λ i. Carries rest (readable i) ps) (sym w.same_incoming) packets) a h in
    (c2, rw sent (rw (answer, expect_zero) refl), g.no_handle, g.not_connected, g.same_seq ∙ w.next)
