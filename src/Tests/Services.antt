-- ===== src/Tests/Services.antt =====
-- The update service at concrete inputs.
use antsdr_dfone.Prelude.{
  ◌≡◌, refl, ◌∙◌, true, [], ◌∷◌, ◌++◌, arith, length, Bytes, codes, append-nil,
}
use antsdr_dfone.Net.{Incoming, Socket, push_back, recv_interrupted, chunk, takes_all}
use antsdr_dfone.Net.Reading.{readable, readable-push_back}
use antsdr_dfone.Maintenance.Network.{
  NetworkConfig, dhcp, default_network, serialize_network_config,
}
use antsdr_dfone.Maintenance.Service.{fails, gives, to_string, receive_sized_payload, send_all}
use antsdr_dfone.Maintenance.Service.Receiving.{Yields}
use antsdr_dfone.Maintenance.Service.Payload.{receive_sized_payload-Yields}
use antsdr_dfone.Maintenance.Service.Requests.{
  Maintenance, Resolver, reached, unreachable, no_handle, connect_service, get_board_id,
  set_network_config, get_network_config,
}
use antsdr_dfone.Maintenance.Service.Replies.{IsBoardId, get_board_id-IsBoardId}
use antsdr_dfone.Maintenance.Service.Network.{
  HasSentMessages, network_messages, set_network_config-HasSentMessages, get_network_config-reads,
}
use antsdr_dfone.Tests.Data.{socket, ended}

-- The status text, in an answer that is cut behind its first byte.
abbrev status : Bytes
status = codes "idle\n"

abbrev status_stream : Incoming
status_stream = chunk b'O' [] (recv_interrupted (chunk b'K' (codes " 5\r\nidle\n") ended))

abbrev plain_stream : Incoming
plain_stream = chunk b'O' [] (recv_interrupted (chunk b'K' (codes " 5\nidle\n!") ended))

abbrev failing_stream : Incoming
failing_stream = chunk b'F' (codes "AIL 4\nbusy") ended

-- A carriage return in front of the newline makes no difference either.
crlf_status :
    (receive_sized_payload status_stream 131072 (codes "firmware status")).0 ≡ gives status
unfolding receive_sized_payload
crlf_status = refl

receive_sized_payload-Yields_example :
    Yields status (codes "!") (receive_sized_payload plain_stream 131072 (codes "firmware status"))
unfolding readable to_string
receive_sized_payload-Yields_example =
    receive_sized_payload-Yields 131072 (codes "firmware status") plain_stream status (codes "!")
      (omega arith) (omega arith) refl

failing_answer :
    (receive_sized_payload failing_stream 131072 (codes "firmware status")).0 ≡ fails (codes "busy")
unfolding receive_sized_payload
failing_answer = refl

abbrev service : Incoming → Resolver
service s = record {
  runtime_ready = true;
  resolves = λ _ _. gives (
      no_handle
      ∷ unreachable (socket ended)
      ∷ reached (record (socket s) { outgoing = takes_all })
      ∷ []);
  socket_error = [];
}

abbrev maintenance : Maintenance
maintenance = record {
  endpoint = record { device_ip = codes "192.168.7.2"; firmware_update_port = 49312 };
  last_error = [];
}

abbrev board_text : Bytes
board_text = codes "OK 67\nformat=dfone-board-id-v1\nboard_id=00112233445566778899AABBCCDDEEFF\n"

get_board_id-IsBoardId_example :
    IsBoardId (get_board_id (service (push_back board_text ended)) maintenance [])
unfolding get_board_id
get_board_id-IsBoardId_example =
    get_board_id-IsBoardId (service (push_back board_text ended)) maintenance [] refl

abbrev config : NetworkConfig
config = record default_network { mode = dhcp; mac = codes "00:0a:35:00:01:22" }

set_network_config-HasSentMessages_example :
    HasSentMessages
      (record (socket (push_back (codes "OK 0\n") ended)) { outgoing = takes_all })
      (network_messages (serialize_network_config config))
      (set_network_config (service (push_back (codes "OK 0\n") ended)) maintenance config [])
unfolding connect_service set_network_config
set_network_config-HasSentMessages_example =
    set_network_config-HasSentMessages (service (push_back (codes "OK 0\n") ended)) maintenance
      config [] (record (socket (push_back (codes "OK 0\n") ended)) { outgoing = takes_all }) refl
      refl

abbrev network_answer : Bytes
network_answer =
    (codes "OK " ++ to_string (length (serialize_network_config config)))
    ++ b'\n' ∷ (serialize_network_config config ++ [])

abbrev network_socket : Socket
network_socket = record (socket (push_back network_answer ended)) { outgoing = takes_all }

get_network_config-reads_example :
    (let o =
        get_network_config
          (service (push_back network_answer ended))
          maintenance
          default_network
          [] in
      (o.done ≡ true)
      × (o.out ≡ (config, serialize_network_config config))
      × (o.object.last_error ≡ []))
unfolding connect_service send_all serialize_network_config readable
get_network_config-reads_example =
    get_network_config-reads (service (push_back network_answer ended)) maintenance default_network
      [] network_socket config [] refl refl
      (record { one_line = refl; no_comment = refl; left_clean = refl; right_clean = refl }) tt
      (omega arith) (readable-push_back network_answer ended ∙ append-nil network_answer)
