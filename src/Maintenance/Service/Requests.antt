-- ===== src/Maintenance/Service/Requests.antt =====
-- The requests of `DfOneMaintenance` in public/maintenance.cpp. The socket of a request is closed
-- when the method returns; it is given back as it is then, for what went out on it.
use antsdr_dfone.Prelude.{
  ℕ, ◌*◌, Bool, true, false, not, ◌||◌, List, [], ◌∷◌, ◌++◌, Option, some, none, ltb, ◌==◌,
  if◌then◌else◌, length, Bytes, codes,
}
use antsdr_dfone.Net.{Incoming, Socket}
use antsdr_dfone.Maintenance.Text.{
  Values, find, bytes_eq, parse_key_value_text, normalize_hex_copy, is_fixed_hex,
}
use antsdr_dfone.Maintenance.Network.{
  NetworkConfig, default_network, serialize_network_config, ParsedNetwork, parsed, rejected,
  parse_network_config,
}
use antsdr_dfone.Maintenance.Service.{
  Answer, fails, gives, send_all, receive_sized_payload, to_string,
}

abbrev pub max_firmware_response_bytes : ℕ
max_firmware_response_bytes = 128 * 1024

abbrev pub max_network_config_bytes : ℕ
max_network_config_bytes = 8 * 1024

abbrev pub board_id_hex_length : ℕ
board_id_hex_length = 32

pub record MaintenanceEndpoint : Type 0 where
  pub device_ip : Bytes
  pub firmware_update_port : ℕ

-- `DfOneMaintenance`.
pub record Maintenance : Type 0 where
  pub endpoint : MaintenanceEndpoint
  pub last_error : Bytes

-- An address that getaddrinfo gives: the handle of socket() and whether connect() succeeds on it.
pub data Candidate : Type 0 where
  no_handle : Candidate
  unreachable reached : Socket → Candidate

-- What the system answers to `connect_service`: whether the socket runtime starts, the addresses or
-- the text of an error, and the text of the last socket error.
pub record Resolver : Type 0 where
  pub runtime_ready : Bool
  pub resolves : Bytes → ℕ → Answer (List Candidate)
  pub socket_error : Bytes

-- The loop over the addresses: the first that can be connected.
unfoldable pub first_reached : List Candidate → Option Socket
first_reached [] = none
first_reached (no_handle ∷ cs) = first_reached cs
first_reached (unreachable s ∷ cs) = first_reached cs
first_reached (reached s ∷ cs) = some s

abbrev pub connected_or : Bytes → Option Socket → Answer Socket
connected_or text none = fails (codes "connect firmware service failed: " ++ text)
connected_or text (some s) = gives s

abbrev pub connect_resolved : Resolver → Answer (List Candidate) → Answer Socket
connect_resolved r (fails e) = fails (codes "resolve firmware service failed: " ++ e)
connect_resolved r (gives cs) = connected_or r.socket_error (first_reached cs)

unfoldable pub connect_service : Resolver → MaintenanceEndpoint → Answer Socket
unfolding first_reached
connect_service r e =
    if not r.runtime_ready
    then fails (codes "initialize socket runtime failed")
    else connect_resolved r (r.resolves e.device_ip e.firmware_update_port)

-- An answer with the socket on which it came, if one was connected.
abbrev pub Exchange : Type 0
Exchange = Answer Bytes × Option Socket

abbrev pub received : Socket → Answer Bytes × Incoming → Exchange
received s (a, rest) = (a, some (record s { incoming = rest }))

-- One message after the other with `send_all`, then the sized payload.
unfoldable pub exchange : Socket → List Bytes → ℕ → Bytes → Exchange
unfolding send_all receive_sized_payload
exchange s [] max context = received s (receive_sized_payload s.incoming max context)
exchange s (m ∷ ms) max context =
    let (failure, s') = send_all s m in
    let rest = exchange s' ms max context in
    elim failure [ none ↦ rest | some e ↦ (fails e, some s') ]

abbrev pub exchange_on : Answer Socket → List Bytes → ℕ → Bytes → Exchange
exchange_on (fails e) ms max context = (fails e, none)
exchange_on (gives s) ms max context = exchange s ms max context

-- What the methods have in common.
unfoldable pub request : Resolver → Maintenance → List Bytes → ℕ → Bytes → Exchange
unfolding connect_service exchange
request r m ms max context = exchange_on (connect_service r m.endpoint) ms max context

abbrev pub with_error : Maintenance → Bytes → Maintenance
with_error m e = record m { last_error = e }

-- The answer, the out-parameter, the object, the socket.
pub record Reply {ℓ} (A : Type ℓ) : Type ℓ where
  pub done : Bool
  pub out : A
  pub object : Maintenance
  pub socket : Option Socket

abbrev pub refuse {ℓ} : {A : Type ℓ} → A → Maintenance → Bytes → Option Socket → Reply A
refuse out m e s = record { done = false; out = out; object = with_error m e; socket = s }

abbrev pub accept {ℓ} : {A : Type ℓ} → A → Maintenance → Option Socket → Reply A
accept out m s = record { done = true; out = out; object = with_error m []; socket = s }

-- `values[key]`.
abbrev pub value_or_empty : Option Bytes → Bytes
value_or_empty none = []
value_or_empty (some v) = v

-- `board_id` is assigned before its format is checked.
unfoldable pub check_board_id : Maintenance → Bytes → Option Socket → Reply Bytes
unfolding is_fixed_hex
check_board_id m id s =
    if not (is_fixed_hex id board_id_hex_length)
    then refuse id m (codes "board ID has invalid format") s
    else accept id m s

abbrev pub board_id_values : Maintenance → Bytes → Option Socket → Option Values → Reply Bytes
board_id_values m board_id s none =
    refuse board_id m (codes "board ID response has invalid key=value format") s
board_id_values m board_id s (some values) =
    if not (bytes_eq (value_or_empty (find (codes "format") values)) (codes "dfone-board-id-v1"))
    then refuse board_id m (codes "board ID response has invalid format") s
    else check_board_id m (normalize_hex_copy (value_or_empty (find (codes "board_id") values))) s

unfoldable pub end_board_id : Maintenance → Bytes → Exchange → Reply Bytes
unfolding check_board_id parse_key_value_text normalize_hex_copy find bytes_eq
end_board_id m board_id (fails e, s) = refuse board_id m e s
end_board_id m board_id (gives output, s) =
    board_id_values m board_id s (parse_key_value_text output)

unfoldable pub get_board_id : Resolver → Maintenance → Bytes → Reply Bytes
unfolding request end_board_id
get_board_id r m board_id =
    end_board_id m board_id
      (request r m (codes "GET_BOARD_ID\n" ∷ []) max_firmware_response_bytes (codes "board ID"))

abbrev pub end_payload : Maintenance → Bytes → Exchange → Reply Bytes
end_payload m output (fails e, s) = refuse output m e s
end_payload m output (gives text, s) = accept text m s

unfoldable pub read_firmware_status : Resolver → Maintenance → Bytes → Reply Bytes
unfolding request
read_firmware_status r m output =
    end_payload m output
      (request r m (codes "STATUS\n" ∷ []) max_firmware_response_bytes (codes "firmware status"))

-- `config` and `raw_config`.
abbrev pub end_parsed :
    Maintenance
    → NetworkConfig
    → Bytes
    → Option Socket
    → ParsedNetwork
    → Reply (NetworkConfig × Bytes)
end_parsed m config raw s (parsed c) = accept (c, raw) m s
end_parsed m config raw s (rejected e) = refuse (config, raw) m e s

abbrev pub end_raw :
    Maintenance → NetworkConfig → Option Socket → Bytes → Reply (NetworkConfig × Bytes)
end_raw m config s [] = accept (default_network, []) m s
end_raw m config s (c ∷ cs) = end_parsed m config (c ∷ cs) s (parse_network_config (c ∷ cs))

abbrev pub end_network :
    Maintenance → NetworkConfig → Bytes → Exchange → Reply (NetworkConfig × Bytes)
end_network m config raw (fails e, s) = refuse (config, raw) m e s
end_network m config raw (gives text, s) = end_raw m config s text

unfoldable pub get_network_config :
    Resolver → Maintenance → NetworkConfig → Bytes → Reply (NetworkConfig × Bytes)
unfolding request parse_network_config
get_network_config r m config raw =
    end_network m config raw
      (request r m (codes "GET_NETWORK\n" ∷ []) max_network_config_bytes (codes "network config"))

unfoldable pub set_network_config : Resolver → Maintenance → NetworkConfig → Bytes → Reply Bytes
unfolding request serialize_network_config to_string
set_network_config r m config output =
    let text = serialize_network_config config in
    if length text == 0 || ltb max_network_config_bytes (length text)
    then refuse output m (codes "network config size is invalid") none
    else end_payload m output (
        request r m ((codes "SET_NETWORK " ++ (to_string (length text) ++ b'\n' ∷ [])) ∷ text ∷ [])
          max_firmware_response_bytes (codes "network config"))
