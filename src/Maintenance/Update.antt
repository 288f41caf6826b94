-- ===== src/Maintenance/Update.antt =====
-- The firmware update of public/maintenance.cpp: `send_file_stream` and `update_firmware`. The
-- progress callback, whose fraction is a floating-point number, is left out; it has no effect on
-- the rest.
pub mod Events
pub mod Script
pub mod Upload
pub mod Outcome
use antsdr_dfone.Prelude.{
  ℕ, zero, suc, ◌+◌, ◌-◌, ◌*◌, Bool, true, false, not, ◌||◌, List, [], ◌∷◌, ◌++◌, Option, some,
  none, ltb, ◌==◌, if◌then◌else◌, length, take, drop, min, Bytes, codes,
}
use antsdr_dfone.Net.{Incoming, Socket, supply}
use antsdr_dfone.Maintenance.Service.{
  Answer, fails, gives, send_all, recv_line, starts_with, read_uint64, read_body, to_string,
}
use antsdr_dfone.Maintenance.Service.Requests.{
  max_firmware_response_bytes, Resolver, MaintenanceEndpoint, Maintenance, connect_service,
  with_error,
}

pub data FirmwareTarget : Type 0 where
  emmc qspi : FirmwareTarget

pub record UpdateConfig : Type 0 where
  pub target : FirmwareTarget
  pub package_path : Bytes
  pub reboot_after : Bool

abbrev pub firmware_target_token : FirmwareTarget → Bytes
firmware_target_token qspi = codes "qspi"
firmware_target_token emmc = codes "emmc"

-- What the file system answers about a package: the path that `resolve_existing_file` finds, the
-- size of the file, and its content if it can be opened.
pub record Files : Type 0 where
  pub resolve : Bytes → Answer Bytes
  pub file_size : Bytes → Answer ℕ
  pub content : Bytes → Option Bytes

abbrev pub buffer_bytes : ℕ
buffer_bytes = 64 * 1024

-- The loop of `send_file_stream`, on fuel; `left` is what the file still has.
pub file_loop : ℕ → Socket → Bytes → ℕ → Option Bytes × Socket
file_loop zero s left remaining = (some [], s)
file_loop (suc f) s left zero = (none, s)
file_loop (suc f) s left (suc n) =
    let piece = take (min (suc n) buffer_bytes) left in
    let (failure, s') = send_all s piece in
    let rest = file_loop f s' (drop (length piece) left) (suc n - length piece) in
    if not (length piece == min (suc n) buffer_bytes)
    then (some (codes "read firmware package failed"), s)
    else elim failure [ none ↦ rest | some e ↦ (some e, s') ]

unfoldable pub send_file_stream : Socket → Bytes → Option Bytes → ℕ → Option Bytes × Socket
unfolding file_loop
send_file_stream s path none size = (some (codes "open firmware package failed: " ++ path), s)
send_file_stream s path (some left) size = file_loop (suc size) s left size

-- `text.find(part) != std::string::npos`.
unfoldable pub contains : Bytes → Bytes → Bool
unfolding starts_with
contains part [] = starts_with part []
contains part (c ∷ cs) = starts_with part (c ∷ cs) || contains part cs

abbrev pub reports_complete : Bytes → Bool
reports_complete text =
    contains (codes "DFONE firmware update complete.") text
    || contains (codes "DFONE firmware update complete") text

-- What the loop over the events keeps.
pub record Update : Type 0 where
  pub stream : Incoming
  pub output : Bytes
  pub complete : Bool

-- A round returns true, returns false with an error, or goes on.
pub data EventRound : Type 0 where
  finished : Update → EventRound
  broken : Bytes → Update → EventRound
  goes_on : Update → EventRound

-- `output += text`, and whether the script has said that it is complete.
abbrev pub add_text : Update → Bytes → Incoming → Update
add_text u text s = record {
  stream = s;
  output = u.output ++ text;
  complete = u.complete || reports_complete text;
}

abbrev pub or_failed : Bytes → Bytes
or_failed [] = codes "firmware update failed"
or_failed (c ∷ cs) = c ∷ cs

pub data EventKind : Type 0 where
  logs completes breaks : EventKind

-- The end of an event that has a text.
abbrev pub end_event : EventKind → Update → EventRound
end_event logs u = goes_on u
end_event completes u = finished u
end_event breaks u = broken (or_failed u.output) u

abbrev pub with_text : EventKind → Update → Answer Bytes × Incoming → EventRound
with_text kind u (fails e, s) = broken e (record u { stream = s })
with_text kind u (gives text, s) = end_event kind (add_text u text s)

abbrev pub sized_event : EventKind → Update → Bytes → Incoming → EventRound
sized_event kind u size_text s = with_text kind u (
    read_body max_firmware_response_bytes (codes "invalid firmware update event size")
      (read_uint64 size_text) s)

abbrev pub or_empty_response : Bytes → Bytes
or_empty_response [] = codes "empty firmware update response"
or_empty_response (c ∷ cs) = c ∷ cs

-- A PROGRESS line only calls the callback.
unfoldable pub event : Update → Bytes → Incoming → EventRound
unfolding starts_with read_uint64
event u r s =
    if starts_with (codes "PROGRESS ") r
    then goes_on (record u { stream = s })
    else if starts_with (codes "LOG ") r
    then sized_event logs u (drop 4 r) s
    else if starts_with (codes "DONE ") r
    then sized_event completes u (drop 5 r) s
    else if starts_with (codes "FAIL ") r
    then sized_event breaks u (drop 5 r) s
    else if starts_with (codes "ERR ") r
    then broken (drop 4 r) (record u { stream = s })
    else broken (or_empty_response r) (record u { stream = s })

-- A connection that breaks behind the script's last word is a success: the board reboots.
abbrev pub lost : Update → Bytes → EventRound
lost u e = if u.complete then finished u else broken e u

unfoldable pub event_round : Update → Answer Bytes × Incoming → EventRound
unfolding event
event_round u (fails e, s) = lost (record u { stream = s }) e
event_round u (gives r, s) = event u r s

-- The result of the loop: the error, or none for true.
pub event_loop : ℕ → Update → Option Bytes × Update
event_loop zero u = (some [], u)
event_loop (suc f) u = elim (event_round u (recv_line u.stream 1024)) [
  | finished u' ↦ (none, u')
  | broken e u' ↦ (some e, u')
  | goes_on u' ↦ event_loop f u'
]

unfoldable pub run_events : Update → Option Bytes × Update
unfolding event_loop event_round recv_line supply
run_events u = event_loop (suc (supply u.stream)) u

-- The answer, `output`, the object; the socket as it is when it is closed, if one was connected.
pub record Updated : Type 0 where
  pub done : Bool
  pub output : Bytes
  pub object : Maintenance
  pub socket : Option Socket

abbrev pub not_updated : Maintenance → Bytes → Bytes → Option Socket → Updated
not_updated m output e s = record {
  done = false;
  output = output;
  object = with_error m e;
  socket = s;
}

abbrev pub end_update : Maintenance → Socket → Option Bytes × Update → Updated
end_update m s (none, u) = record {
  done = true;
  output = u.output;
  object = with_error m [];
  socket = some (record s { incoming = u.stream });
}
end_update m s (some e, u) = not_updated m u.output e (some (record s { incoming = u.stream }))

abbrev pub update_header : UpdateConfig → ℕ → Bytes
update_header c size =
    codes "UPDATE "
    ++ (firmware_target_token c.target
        ++ (codes " "
            ++ ((if c.reboot_after then codes "1" else codes "0")
                ++ (codes " " ++ (to_string size ++ b'\n' ∷ [])))))

-- From the connection on; `output` has been cleared.
unfoldable pub update_on : Files → Maintenance → UpdateConfig → Bytes → ℕ → Socket → Updated
unfolding send_all send_file_stream run_events to_string
update_on files m c path size s =
    let (failure, s1) = send_all s (update_header c size) in
    let (failure', s2) = send_file_stream s1 path (files.content path) size in
    elim failure [
      | some e ↦ not_updated m [] e (some s1)
      | none ↦ elim failure' [
        | some e ↦ not_updated m [] e (some s2)
        | none ↦
            end_update m s2
              (run_events (record { stream = s2.incoming; output = []; complete = false }))
      ]
    ]

abbrev pub update_connected :
    Files → Maintenance → UpdateConfig → Bytes → Bytes → ℕ → Answer Socket → Updated
update_connected files m c output path size (fails e) = not_updated m output e none
update_connected files m c output path size (gives s) = update_on files m c path size s

abbrev pub size_error : Bytes → Bytes
size_error text = codes "read firmware package size failed: " ++ text

abbrev pub update_sized :
    Resolver → Files → Maintenance → UpdateConfig → Bytes → Bytes → Answer ℕ → Updated
update_sized r files m c output path (fails e) = not_updated m output (size_error e) none
update_sized r files m c output path (gives size) =
    if size == 0
    then not_updated m output (size_error (codes "empty file")) none
    else update_connected files m c output path size (connect_service r m.endpoint)

abbrev pub update_resolved :
    Resolver → Files → Maintenance → UpdateConfig → Bytes → Answer Bytes → Updated
update_resolved r files m c output (fails e) = not_updated m output e none
update_resolved r files m c output (gives path) =
    update_sized r files m c output path (files.file_size path)

unfoldable pub update_firmware : Resolver → Files → Maintenance → UpdateConfig → Bytes → Updated
unfolding update_on connect_service
update_firmware r files m c output =
    update_resolved r files m c output (files.resolve c.package_path)
