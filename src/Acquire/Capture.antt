-- ===== src/Acquire/Capture.antt =====
-- A capture as an exchange over both channels, and what a capture that fails on the data channel
-- leaves on the command channel.
use mathlib.Core.Option.{some-injective}
use antsdr_dfone.Prelude.{
  ℕ, ◌-◌, ◌^◌, ◌≡◌, refl, sym, ap, subst, ◌∙◌, Bool, true, false, List, [], ◌∷◌, ◌++◌, some, none,
  arith, ◌==◌, min, Bytes, if◌then◌else◌,
}
use antsdr_dfone.Net.{Socket}
use antsdr_dfone.Net.Reading.{readable}
use antsdr_dfone.Wire.{Packet, command_frame}
use antsdr_dfone.Wire.Packets.{Carries, last, more, receive_packet-Next}
use antsdr_dfone.Stream.{
  StreamClient, read_packet, accept_capture, read_capture_packet, is_capture_type, empty_capture,
}
use antsdr_dfone.Stream.Invariant.{read_packet-Next}
use antsdr_dfone.Control.{
  ControlClient, expect_zero, send_command, is_response, response_value,
  encode_capture_sample_count,
}
use antsdr_dfone.Control.Response.{AllSkipped, read_response-Carries}
use antsdr_dfone.Control.Commands.{CanSend, send_command_frame-Sends, send_command-exchange}
use antsdr_dfone.Acquire.{
  Clients, Captured, confirm_capture, capture_packet, send_command_for_capture,
}

-- The next packet on an open data channel, and the channel behind it.
pub record Arrives (c : StreamClient) (p : Packet) (rest : Bytes) : Type 0 where
  pub handle : Socket
  pub is_open : c.opened ≡ true
  pub holds : c.socket_fd ≡ some handle
  pub next : Carries rest (readable handle.incoming) (p ∷ [])

-- The data channel after that packet.
pub record LeftAt (c : StreamClient) (rest : Bytes) : Type 0 where
  pub handle : Socket
  pub still_open : c.opened ≡ true
  pub holds : c.socket_fd ≡ some handle
  pub at_rest : readable handle.incoming ≡ rest

read_packet-Arrives :
    (c : StreamClient) (p : Packet) (rest : Bytes)
    → Arrives c p rest
    → (c' : StreamClient) × (read_packet c ≡ (some p, c')) × LeftAt c' rest
read_packet-Arrives c p rest a = go a.next
  where
    go :
        Carries rest (readable a.handle.incoming) (p ∷ [])
        → (c' : StreamClient) × (read_packet c ≡ (some p, c')) × LeftAt c' rest
    go (more v q (last z)) =
        let n = receive_packet-Next a.handle.incoming p _ v q in
        (
          record c { socket_fd = some (record (a.handle) { incoming = n.behind }) },
          read_packet-Next c a.handle p a.is_open a.holds n.received,
          record {
            handle = record (a.handle) { incoming = n.behind };
            still_open = a.is_open;
            holds = refl;
            at_rest = n.continues ∙ z;
          },
        )

read_capture_packet-Arrives :
    (c : StreamClient) (p : Packet) (rest : Bytes) (b : Bool)
    → Arrives c p rest
    → is_capture_type p.header.magic_type ≡ b
    → (c' : StreamClient) × (read_capture_packet c ≡ (if b then some p else none, c'))
      × LeftAt c' rest
unfolding read_capture_packet accept_capture
read_capture_packet-Arrives c p rest true a t =
    let (c', e, l) = read_packet-Arrives c p rest a in (c', rw e (rw (t, accept_capture)), l)
read_capture_packet-Arrives c p rest false a t =
    let (c', e, l) = read_packet-Arrives c p rest a in (c', rw e (rw (t, accept_capture)), l)

module _ (k : Clients) (s : Socket) (addr value : ℕ) (p : Packet) (data_rest : Bytes)
    (sends : CanSend k.control s (command_frame k.control.next_seq addr value))
    (arrives : Arrives k.stream p data_rest) where
  -- When the command frame can be sent whole, the next packet on the open data channel is of a
  -- capture type, and the command channel brings a response behind packets that are none: the
  -- capture succeeds exactly when the response is zero, `capture` is the data packet either way,
  -- and both channels are left right behind what was read.
  pub capture-exchange :
      (skipped : List Packet) (r : Packet) (rest : Bytes)
      → is_capture_type p.header.magic_type ≡ true
      → Carries rest (readable s.incoming) (skipped ++ r ∷ [])
      → AllSkipped skipped
      → is_response r ≡ true
      → (let o = send_command_for_capture k addr value in
          (o.done ≡ (response_value r == 0))
          × (o.capture ≡ p)
          × LeftAt o.clients.stream data_rest
          × ((t : Socket) × (o.clients.control.socket_fd ≡ some t) × (readable t.incoming ≡ rest)))
  unfolding send_command_for_capture capture_packet confirm_capture expect_zero
  capture-exchange skipped r rest fit packets a z =
      let (c1, s1, sent, w) = send_command_frame-Sends k.control s addr value sends in
      let (d, got, left) = read_capture_packet-Arrives k.stream p data_rest true arrives fit in
      let (c2, answer, at) =
        read_response-Carries c1 s1 skipped r rest w.handle
          (subst (λ i. Carries rest (readable i) (skipped ++ r ∷ [])) (sym w.same_incoming) packets)
          a z in
      rw sent (
        rw (got, capture_packet)
          (rw (answer, expect_zero, confirm_capture)
            (refl, refl, left, (record s1 { incoming = at.behind }, at.handle, at.at_bytes))))

  -- When the command frame is sent whole but the data packet is not of a capture type, the capture
  -- fails without reading the response to its own command. The next command that can be sent whole
  -- then takes that response for its own: its answer is decided by the response to the capture,
  -- whatever the device answers to the command itself.
  pub capture_leaves_response :
      (r : Packet) (rest : Bytes) (addr' value' : ℕ) (t : Socket)
      → is_capture_type p.header.magic_type ≡ false
      → Carries rest (readable s.incoming) (r ∷ [])
      → is_response r ≡ true
      → (let o = send_command_for_capture k addr value in
          CanSend o.clients.control t (command_frame o.clients.control.next_seq addr' value'))
      → (let o = send_command_for_capture k addr value in
          (o.done ≡ false)
          × ((send_command o.clients.control addr' value').0 ≡ (response_value r == 0)))
  unfolding send_command_for_capture capture_packet
  capture_leaves_response r rest addr' value' t unfit packets z again =
      let (c1, s1, sent, w) = send_command_frame-Sends k.control s addr value sends in
      let (d, got, left) = read_capture_packet-Arrives k.stream p data_rest false arrives unfit in
      let same : send_command_for_capture k addr value ≡ record {
        done = false;
        capture = empty_capture;
        clients = record { control = c1; stream = d };
      } =
        rw sent (rw (got, capture_packet)) in
      let next : CanSend c1 t (command_frame c1.next_seq addr' value') =
        subst
          (λ (o : Captured).
            CanSend o.clients.control t (command_frame o.clients.control.next_seq addr' value'))
          same again in
      let t_is : t ≡ s1 = some-injective t s1 (sym next.handle ∙ w.handle) in
      let exchange =
        send_command-exchange c1 t addr' value' [] r rest next
          (subst (λ i. Carries rest (readable i) (r ∷ []))
            (sym (ap (λ (y : Socket). y.incoming) t_is ∙ w.same_incoming)) packets)
          tt z in
      rw same (refl, ap (λ (y : Bool × ControlClient). y.0) exchange.2)

-- The count that goes into a capture command is the request, or the greatest value of its 32-bit
-- field when the request is greater.
pub encode_capture_sample_count_lem : (n : ℕ) → encode_capture_sample_count n ≡ min n (2 ^ 32 - 1)
unfolding encode_capture_sample_count
encode_capture_sample_count_lem n = ground arith
