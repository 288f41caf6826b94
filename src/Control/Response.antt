-- ===== src/Control/Response.antt =====
-- The loop of `read_response`, and what it finds on a stream of packets.
use antsdr_dfone.Prelude.{
  ℕ, zero, suc, ◌<◌, ◌≡◌, refl, sym, subst, ◌∙◌, true, false, List, [], ◌∷◌, ◌++◌, Option, some,
  none, inl, inr, arith, Bool-cases, Bytes,
}
use antsdr_dfone.Net.{Incoming, Socket, supply}
use antsdr_dfone.Net.Reading.{readable}
use antsdr_dfone.Wire.{Packet, receive_packet}
use antsdr_dfone.Wire.Packets.{receive_packet-Receives, Carries, last, more, receive_packet-Next}
use antsdr_dfone.Stream.{pending}
use antsdr_dfone.Control.{
  ControlClient, keep_or_disconnect, read_packet_on, read_packet, is_response, response_value,
  response_round, response_loop, read_response,
}

-- A round that gets a packet uses up some of the stream.
read_packet_on-pending :
    (c : ControlClient) (fd : Option Socket) {p : Packet} {c' : ControlClient}
    → read_packet_on c fd ≡ (some p, c')
    → pending c'.socket_fd < pending fd
unfolding read_packet_on pending
read_packet_on-pending c none e = absurd (ground arith)
read_packet_on-pending c (some s) {p} {c'} e = go (receive_packet s.incoming) refl e
  where
    go :
        (r : Option Packet × Incoming)
        → receive_packet s.incoming ≡ r
        → keep_or_disconnect c s r ≡ (some p, c')
        → pending c'.socket_fd < supply s.incoming
    go (none, t) q e = absurd (ground arith)
    go (some p', t) q e =
        let d = receive_packet-Receives s.incoming q in
        let fd : c'.socket_fd ≡ some (record s { incoming = t }) = ground arith in
        rw fd (omega (arith, d.progress, d.long_enough))

read_packet-pending :
    (c : ControlClient) {p : Packet} {c' : ControlClient}
    → read_packet c ≡ (some p, c')
    → pending c'.socket_fd < pending c.socket_fd
unfolding read_packet
read_packet-pending c e = read_packet_on-pending c c.socket_fd e

-- Two ways to go on that agree on what is left of the stream make one round the same.
round-cong :
    (c : ControlClient) (g h : ControlClient → Option ℕ × ControlClient)
    → ((c' : ControlClient) → pending c'.socket_fd < pending c.socket_fd → g c' ≡ h c')
    → response_round g (read_packet c) ≡ response_round h (read_packet c)
unfolding response_round
round-cong c g h agree = go (read_packet c) refl
  where
    go :
        (r : Option Packet × ControlClient)
        → read_packet c ≡ r
        → response_round g r ≡ response_round h r
    go (none, c') e = refl
    go (some p, c') e = elim (Bool-cases (is_response p)) [
      | inl t ↦ rw (t, response_round)
      | inr t ↦ rw (t, response_round) (agree c' (read_packet-pending c e))
    ]

response_loop-fuel :
    (f g : ℕ) (c : ControlClient)
    → pending c.socket_fd < f
    → pending c.socket_fd < g
    → response_loop f c ≡ response_loop g c
unfolding response_loop
response_loop-fuel zero g c h k = absurd (omega arith)
response_loop-fuel (suc f) zero c h k = absurd (omega arith)
response_loop-fuel (suc f) (suc g) c h k =
    round-cong c (response_loop f) (response_loop g)
      (λ c' less. response_loop-fuel f g c' (omega arith) (omega arith))

-- On its fuel `read_response` is the `while (true)` of the source: it answers at the first
-- response packet, fails when no packet can be read, and at any other packet starts again on what
-- is left.
pub read_response-unroll :
    (c : ControlClient) → read_response c ≡ response_round read_response (read_packet c)
unfolding read_response response_loop
read_response-unroll c =
    round-cong c (response_loop (pending c.socket_fd)) read_response (λ c' less.
      response_loop-fuel (pending c.socket_fd) (suc (pending c'.socket_fd)) c' less (omega arith))

-- None of the packets is a response.
abbrev pub AllSkipped : List Packet → Type 0
AllSkipped [] = Unit {0}
AllSkipped (p ∷ ps) = (is_response p ≡ false) × AllSkipped ps

-- A channel whose stream is at `bytes`, otherwise as `c`.
pub record ContinuesAt (c c' : ControlClient) (s : Socket) (bytes : Bytes) : Type 0 where
  pub behind : Incoming
  pub handle : c'.socket_fd ≡ some (record s { incoming = behind })
  pub at_bytes : readable behind ≡ bytes
  pub same_connected : c'.connected ≡ c.connected
  pub same_seq : c'.next_seq ≡ c.next_seq

pub read_packet-Next :
    (c : ControlClient) (s : Socket) (p : Packet) {t : Incoming}
    → c.socket_fd ≡ some s
    → receive_packet s.incoming ≡ (some p, t)
    → read_packet c ≡ (some p, record c { socket_fd = some (record s { incoming = t }) })
unfolding read_packet read_packet_on keep_or_disconnect
read_packet-Next c s p e r = rw (e, read_packet_on) (rw (r, keep_or_disconnect))

-- On a stream that brings packets that are not responses, then a response, `read_response` drops
-- the former and returns the value of the latter; the channel is left right behind it, otherwise
-- unchanged.
pub read_response-Carries :
    (c : ControlClient) (s : Socket) (skipped : List Packet) (p : Packet) (rest : Bytes)
    → c.socket_fd ≡ some s
    → Carries rest (readable s.incoming) (skipped ++ p ∷ [])
    → AllSkipped skipped
    → is_response p ≡ true
    → (c' : ControlClient) × (read_response c ≡ (some (response_value p), c'))
      × ContinuesAt c c' s rest
unfolding response_round
read_response-Carries c s [] p rest e (more v q (last z)) a r =
    let n = receive_packet-Next s.incoming p _ v q in
    let read = read_packet-Next c s p e n.received in
    (
      record c { socket_fd = some (record s { incoming = n.behind }) },
      read_response-unroll c ∙ rw read (rw (r, response_round)),
      record {
        behind = n.behind;
        handle = refl;
        at_bytes = n.continues ∙ z;
        same_connected = refl;
        same_seq = refl;
      },
    )
read_response-Carries c s (k ∷ skipped) p rest e (more v q later) a r =
    let n = receive_packet-Next s.incoming k _ v q in
    let read = read_packet-Next c s k e n.received in
    let c1 : ControlClient = record c { socket_fd = some (record s { incoming = n.behind }) } in
    let s1 : Socket = record s { incoming = n.behind } in
    let (c', answer, at) =
      read_response-Carries c1 s1 skipped p rest refl
        (subst (λ b. Carries rest b (skipped ++ p ∷ [])) (sym n.continues) later) a.1 r in
    (
      c',
      read_response-unroll c ∙ rw read (rw (a.0, response_round) answer),
      record {
        behind = at.behind;
        handle = at.handle;
        at_bytes = at.at_bytes;
        same_connected = at.same_connected;
        same_seq = at.same_seq;
      },
    )
