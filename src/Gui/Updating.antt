-- ===== src/Gui/Updating.antt =====
-- The firmware update of the graphical program. Its stage and its fraction come from the progress
-- callback and are left out.
use antsdr_dfone.Prelude.{true, false, [], ◌∷◌, Bytes, if◌then◌else◌, clamp}
use antsdr_dfone.Maintenance.Service.Requests.{Resolver, MaintenanceEndpoint}
use antsdr_dfone.Maintenance.Update.{
  FirmwareTarget, emmc, qspi, UpdateConfig, Files, Updated, update_firmware,
}
use antsdr_dfone.Gui.App.{App, Snapshot}
use antsdr_dfone.Gui.Connection.{Ending, fails_with, succeeds}

unfoldable pub make_maintenance_endpoint : Snapshot → MaintenanceEndpoint
make_maintenance_endpoint w = record {
  device_ip = w.device_ip;
  firmware_update_port = clamp 1 65535 w.firmware_update_port;
}

abbrev pub package_of : FirmwareTarget → Snapshot → Bytes
package_of qspi w = w.qspi_firmware_path
package_of emmc w = w.emmc_firmware_path

abbrev pub firmware_config : FirmwareTarget → Snapshot → UpdateConfig
firmware_config target w = record {
  target = target;
  package_path = package_of target w;
  reboot_after = w.firmware_update_reboot_after;
}

-- `output.empty() ? error : output`.
abbrev pub or_error : Bytes → Bytes → Bytes
or_error error [] = error
or_error error (c ∷ cs) = c ∷ cs

abbrev pub show_output : App → Bytes → App
show_output a output = record a { firmware_running = false; maintenance_output = output }

abbrev pub end_updating : App → Updated → Ending
end_updating a r =
    if r.done
    then succeeds (show_output a r.output)
    else fails_with r.object.last_error (show_output a (or_error r.object.last_error r.output))

abbrev pub begin_updating : App → App
begin_updating a = record a { firmware_running = true; maintenance_output = [] }

unfoldable pub update_firmware_job : Resolver → Files → FirmwareTarget → Snapshot → App → Ending
unfolding update_firmware make_maintenance_endpoint
update_firmware_job r files target w a = end_updating (begin_updating a) (
    update_firmware r files (record { endpoint = make_maintenance_endpoint w; last_error = [] })
      (firmware_config target w) [])
