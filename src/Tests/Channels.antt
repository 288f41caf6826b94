-- ===== src/Tests/Channels.antt =====
-- The sockets, the framing and the two channels at concrete inputs.
use antsdr_dfone.Prelude.{◌≡◌, refl, true, false, [], ◌∷◌, some, none, arith, ◌+◌, ◌%◌, ◌^◌}
use antsdr_dfone.Net.{chunk, recv_interrupted, peer_closed, read_exact, write_all, Socket}
use antsdr_dfone.Net.Reading.{
  readable, fate, Delivers, FallsShort, read_exact-Delivers, read_exact-FallsShort,
}
use antsdr_dfone.Net.Writing.{Writes, write_all-Writes}
use antsdr_dfone.Wire.{command_frame, decode_header, receive_packet, write_u32_le, read_u32_le}
use antsdr_dfone.Wire.Packets.{
  Carries, more, last, Receives, receive_packet-Receives, receive_packet-encode,
}
use antsdr_dfone.Control.{
  ControlClient, send_command, send_command_frame, read_response, response_value,
}
use antsdr_dfone.Control.Exhausted.{send_command-GivesUp}
use antsdr_dfone.Control.Commands.{CanSend, send_command-exchange}
use antsdr_dfone.Control.Sent.{HasSent, send_command-HasSent}
use antsdr_dfone.Tests.Data.{
  zero_response, flow_packet, flow_packet-IsHeader, iq_packet, iq_packet-IsHeader, responds, flows,
  brings_iq, socket, command_client, ended, flow_then_response-Carries,
}

read_exact-Delivers_example :
    Delivers 3
      (chunk 1 (2 ∷ []) (recv_interrupted (chunk 3 (4 ∷ []) ended)))
      (read_exact (chunk 1 (2 ∷ []) (recv_interrupted (chunk 3 (4 ∷ []) ended))) 3)
unfolding readable
read_exact-Delivers_example =
    read_exact-Delivers (chunk 1 (2 ∷ []) (recv_interrupted (chunk 3 (4 ∷ []) ended))) 3
      (omega arith)

read_exact-FallsShort_example :
    FallsShort (chunk 1 (2 ∷ []) peer_closed) (read_exact (chunk 1 (2 ∷ []) peer_closed) 3)
unfolding readable
read_exact-FallsShort_example = read_exact-FallsShort (chunk 1 (2 ∷ []) peer_closed) 3 (omega arith)

write_all-Writes_example :
    Writes
      (socket ended)
      (1 ∷ 2 ∷ 3 ∷ 4 ∷ 5 ∷ 6 ∷ [])
      (write_all (socket ended) (1 ∷ 2 ∷ 3 ∷ 4 ∷ 5 ∷ 6 ∷ [])).0
      (write_all (socket ended) (1 ∷ 2 ∷ 3 ∷ 4 ∷ 5 ∷ 6 ∷ [])).1
write_all-Writes_example = write_all-Writes (socket ended) (1 ∷ 2 ∷ 3 ∷ 4 ∷ 5 ∷ 6 ∷ [])

receive_packet-Receives_example : Receives (brings_iq ended) iq_packet ended
unfolding receive_packet read_exact decode_header read_u32_le
receive_packet-Receives_example =
    receive_packet-Receives (brings_iq ended) {p = iq_packet} {t = ended} refl

receive_packet-encode_example :
    ((receive_packet (brings_iq ended)).0 ≡ some iq_packet)
    × (readable (receive_packet (brings_iq ended)).1 ≡ [])
    × (fate (receive_packet (brings_iq ended)).1 ≡ fate (brings_iq ended))
unfolding readable write_u32_le
receive_packet-encode_example =
    receive_packet-encode (brings_iq ended) iq_packet.header (1 ∷ 2 ∷ 3 ∷ []) [] iq_packet-IsHeader
      refl

command_client-CanSend :
    CanSend
      (command_client (flows (responds ended)))
      (socket (flows (responds ended)))
      (command_frame 65534 0x00 30)
unfolding write_all command_frame
command_client-CanSend = record { is_connected = refl; handle = refl; takes = refl }

send_command-exchange_example :
    (c' : ControlClient) × (t : Socket) × (send_command
        (command_client (flows (responds ended)))
        0x00
        30
      ≡ (true, c'))
    × (c'.socket_fd ≡ some t)
    × (t.wire ≡ command_frame 65534 0x00 30)
    × (readable t.incoming ≡ [])
    × (c'.connected ≡ true)
unfolding response_value
send_command-exchange_example =
    send_command-exchange (command_client (flows (responds ended)))
      (socket (flows (responds ended))) 0x00 30 (flow_packet ∷ []) zero_response []
      command_client-CanSend flow_then_response-Carries (refl, tt) refl

send_command-HasSent_example :
    HasSent
      (command_client (flows (responds ended)))
      0x00
      30
      (send_command (command_client (flows (responds ended))) 0x00 30).1
    × (read_response (send_command_frame (command_client (flows (responds ended))) 0x00 30).1
        ≡ (some 0, (send_command (command_client (flows (responds ended))) 0x00 30).1))
unfolding send_command write_all command_frame read_exact decode_header read_u32_le
send_command-HasSent_example =
    send_command-HasSent (command_client (flows (responds ended))) 0x00 30
      {c' = (send_command (command_client (flows (responds ended))) 0x00 30).1} refl

-- A packet that is no response, and nothing behind it.
lonely-CanSend :
    CanSend (command_client (flows ended)) (socket (flows ended)) (command_frame 65534 0x00 30)
unfolding write_all command_frame
lonely-CanSend = record { is_connected = refl; handle = refl; takes = refl }

lonely-Carries : Carries [] (readable (flows ended)) (flow_packet ∷ [])
unfolding readable write_u32_le
lonely-Carries = more {later = []} flow_packet-IsHeader refl (last refl)

send_command-GivesUp_example :
    (c' : ControlClient) × (send_command (command_client (flows ended)) 0x00 30 ≡ (false, c'))
    × (c'.socket_fd ≡ none)
    × (c'.connected ≡ false)
    × (c'.next_seq ≡ (65534 + 1) % 2 ^ 16)
send_command-GivesUp_example =
    send_command-GivesUp (command_client (flows ended)) (socket (flows ended)) 0x00 30
      (flow_packet ∷ []) [] lonely-CanSend lonely-Carries (refl, tt) (omega arith)
