-- ===== src/Tests/Updates.antt =====
-- The firmware update at concrete inputs.
use antsdr_dfone.Prelude.{refl, true, false, [], ◌∷◌, ◌++◌, some, arith, codes}
use antsdr_dfone.Net.{Incoming, Socket, chunk, recv_interrupted, takes_all}
use antsdr_dfone.Net.Reading.{readable}
use antsdr_dfone.Maintenance.Service.{recv_all, gives, to_string}
use antsdr_dfone.Maintenance.Service.Requests.{Maintenance, Resolver, reached}
use antsdr_dfone.Maintenance.Update.{Update, UpdateConfig, emmc, Files, update_firmware}
use antsdr_dfone.Maintenance.Update.Script.{Ends, run_events-Ends}
use antsdr_dfone.Maintenance.Update.Outcome.{IsUpdated, update_firmware-IsUpdated}
use antsdr_dfone.Tests.Data.{socket, ended}

-- Two texts of a script, cut in the middle of the first.
abbrev script_stream : Incoming
script_stream =
    chunk b'L' (codes "OG 7\nera")
      (recv_interrupted (chunk b's' (codes "ed\nDONE 5\ngood\n.") ended))

abbrev started : Update
started = record { stream = script_stream; output = []; complete = false }

run_events-Ends_example : Ends started (codes "erased\n" ++ codes "good\n") (codes ".")
unfolding readable to_string
run_events-Ends_example =
    run_events-Ends (codes "erased\n" ∷ []) (record started { stream = script_stream })
      (codes "good\n") (codes ".") (omega arith, tt) (omega arith) refl

-- A package of three bytes, in a file that has one more.
abbrev files : Files
files = record {
  resolve = λ path. gives path;
  file_size = λ _. gives 3;
  content = λ _. some (7 ∷ 8 ∷ 9 ∷ 10 ∷ []);
}

abbrev update_config : UpdateConfig
update_config = record { target = emmc; package_path = codes "pack.bin"; reboot_after = true }

abbrev device_socket : Socket
device_socket = record (socket script_stream) { outgoing = takes_all }

abbrev resolver : Resolver
resolver = record {
  runtime_ready = true;
  resolves = λ _ _. gives (reached device_socket ∷ []);
  socket_error = [];
}

abbrev object : Maintenance
object = record {
  endpoint = record { device_ip = codes "192.168.7.2"; firmware_update_port = 49312 };
  last_error = [];
}

update_firmware-IsUpdated_example :
    IsUpdated files update_config device_socket
      (update_firmware resolver files object update_config [])
unfolding update_firmware recv_all
update_firmware-IsUpdated_example =
    update_firmware-IsUpdated resolver files object update_config [] device_socket refl refl
