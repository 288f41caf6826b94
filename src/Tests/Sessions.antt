-- ===== src/Tests/Sessions.antt =====
-- Captures and the session at concrete inputs.
use antsdr_dfone.Prelude.{◌≡◌, refl, true, false, List, [], ◌∷◌, some}
use antsdr_dfone.Net.{Socket, takes_all, read_exact, write_all}
use antsdr_dfone.Net.Reading.{readable}
use antsdr_dfone.Wire.{command_frame, decode_header, read_u32_le}
use antsdr_dfone.Control.{
  control_set_ref_clock_source, control_set_sample_rate, control_set_rx_gain,
  control_set_rx_lo_frequency, send_command, response_value,
}
use antsdr_dfone.Control.Commands.{CanSend}
use antsdr_dfone.Acquire.{Clients, send_command_for_capture}
use antsdr_dfone.Acquire.Capture.{Arrives, LeftAt, capture-exchange, capture_leaves_response}
use antsdr_dfone.Session.{Session, new_session, default_config, CaptureConfig, external}
use antsdr_dfone.Session.Methods.{configure, set_rx_gain}
use antsdr_dfone.Session.Exchange.{Configures, configure-Configures}
use antsdr_dfone.Session.Steps.{step-IsHonest}
use antsdr_dfone.Session.Answers.{IsHonest}
use antsdr_dfone.Session.Calls.{
  Call, connects, sets_rx_gain, captures, records, disconnects, step, run,
}
use antsdr_dfone.Session.Reach.{run-new-IsSound}
use antsdr_dfone.Session.Invariant.{IsSound}
use antsdr_dfone.Tests.Data.{
  zero_response, flow_packet, iq_packet, responds, flows, brings_iq, socket, clients, session, dial,
  good_disk, ended, flow_then_response-Carries, response-Carries, iq-Carries, flow-Carries,
}

abbrev user_config : CaptureConfig
user_config = record default_config {
  reference_clock = external;
  rx_gain_db = 55;
  rx_lo_hz = 5_800_000_000;
}

abbrev ready : Session
ready = session (responds (flows (responds (responds (responds ended))))) ended

configure-Configures_example : Configures ready user_config (configure ready user_config).1
unfolding configure write_all command_frame read_exact decode_header read_u32_le
    control_set_ref_clock_source send_command control_set_sample_rate control_set_rx_gain
    control_set_rx_lo_frequency
configure-Configures_example =
    configure-Configures user_config ready {s' = (configure ready user_config).1} refl

abbrev refused : Session
refused = session ended ended

step-IsHonest_example : IsHonest refused false (step refused (sets_rx_gain 55)).1
unfolding step write_all command_frame read_exact decode_header read_u32_le set_rx_gain
    control_set_rx_gain send_command
step-IsHonest_example = step-IsHonest refused (sets_rx_gain 55) false refl

abbrev calls : List Call
calls =
    connects (dial (responds (responds ended))) (dial (flows ended))
      (record { device_ip = 49 ∷ []; command_port = 49208; data_port = 49209 })
    ∷ sets_rx_gain 55
    ∷ captures 4096
    ∷ records good_disk (record { channel_mask = 3; length_mb = 8; output_path = 120 ∷ [] }) true
    ∷ disconnects
    ∷ []

run-new-IsSound_example : IsSound (run new_session calls)
run-new-IsSound_example = run-new-IsSound calls

-- A capture whose data packet is an IQ packet.
abbrev good_clients : Clients
good_clients = clients (flows (responds ended)) (brings_iq ended)

good-CanSend :
    CanSend good_clients.control (socket (flows (responds ended))) (command_frame 65534 0x06 4096)
unfolding write_all command_frame
good-CanSend = record { is_connected = refl; handle = refl; takes = refl }

good-Arrives : Arrives good_clients.stream iq_packet []
good-Arrives = record {
  handle = socket (brings_iq ended);
  is_open = refl;
  holds = refl;
  next = iq-Carries;
}

capture-exchange_example :
    (let o = send_command_for_capture good_clients 0x06 4096 in
      (o.done ≡ true)
      × (o.capture ≡ iq_packet)
      × LeftAt o.clients.stream []
      × ((t : Socket) × (o.clients.control.socket_fd ≡ some t) × (readable t.incoming ≡ [])))
unfolding response_value
capture-exchange_example =
    capture-exchange good_clients (socket (flows (responds ended))) 0x06 4096 iq_packet []
      good-CanSend good-Arrives (flow_packet ∷ []) zero_response [] refl flow_then_response-Carries
      (refl, tt) refl

-- One whose data packet is of another type.
abbrev bad_clients : Clients
bad_clients = clients (responds ended) (flows ended)

bad-CanSend : CanSend bad_clients.control (socket (responds ended)) (command_frame 65534 0x06 4096)
unfolding write_all command_frame
bad-CanSend = record { is_connected = refl; handle = refl; takes = refl }

bad-Arrives : Arrives bad_clients.stream flow_packet []
bad-Arrives = record {
  handle = socket (flows ended);
  is_open = refl;
  holds = refl;
  next = flow-Carries;
}

abbrev sent_socket : Socket
sent_socket = record (socket (responds ended)) {
  outgoing = takes_all;
  wire = command_frame 65534 0x06 4096;
}

again-CanSend :
    (let o = send_command_for_capture bad_clients 0x06 4096 in
      CanSend o.clients.control sent_socket (command_frame o.clients.control.next_seq 0x00 55))
unfolding send_command_for_capture write_all command_frame read_exact decode_header read_u32_le
again-CanSend = record { is_connected = refl; handle = refl; takes = refl }

capture_leaves_response_example :
    (let o = send_command_for_capture bad_clients 0x06 4096 in
      (o.done ≡ false) × ((send_command o.clients.control 0x00 55).0 ≡ true))
unfolding response_value
capture_leaves_response_example =
    capture_leaves_response bad_clients (socket (responds ended)) 0x06 4096 flow_packet []
      bad-CanSend bad-Arrives zero_response [] 0x00 55 sent_socket refl response-Carries refl
      again-CanSend
