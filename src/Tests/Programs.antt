-- ===== src/Tests/Programs.antt =====
-- The graphical program at concrete inputs.
use antsdr_dfone.Prelude.{◌≡◌, refl, true, false, [], ◌∷◌, some, List, codes, pos}
use antsdr_dfone.Gui.App.{App, Snapshot, wants_rx_gain, cancels_capture, touch, cancels_baseband}
use antsdr_dfone.Gui.Connection.{Line, stops, tries}
use antsdr_dfone.Gui.Baseband.{Output, save_baseband_iq, baseband_total}
use antsdr_dfone.Gui.Baseband.Whole.{IsTold, save_baseband_iq-IsTold}
use antsdr_dfone.Gui.Continuous.{Beat}
use antsdr_dfone.Gui.Jobs.{connecting, streaming, saving}
use antsdr_dfone.Gui.Worker.{
  Desk, new_desk, new_app, start_worker, finish_worker, work, shutdown_app, starts, works,
  shuts_down, Reaches, here, next,
}
use antsdr_dfone.Gui.Worker.Reach.{IsTidy, Reaches-new-IsTidy}
use antsdr_dfone.Gui.Worker.Stops.{work-touch}
use antsdr_dfone.Tests.Data.{good_closing, responds, brings_iq, ended, dial, session}

abbrev snapshot : Snapshot
snapshot = record {
  device_ip = codes "192.168.7.2";
  command_port = pos 70000;
  data_port = pos 49209;
  reference_clock = pos 0;
  rx_gain_db = pos 30;
  sample_rate_hz = 15360000;
  rx_lo_hz = 2400000000;
  frames = pos 65536;
  save_to_file = false;
  output_path = [];
  record_channel_index = pos 0;
  record_length_mb = pos 4;
  record_output_path = [];
  baseband_length_mb = pos 1;
  baseband_output_path = codes "b.cs16";
  firmware_update_port = pos 49312;
  emmc_firmware_path = codes "e.frm";
  qspi_firmware_path = codes "q.frm";
  firmware_update_reboot_after = true;
}

abbrev line : Line
line = record {
  dial_control = dial (responds (responds (responds (responds (responds ended)))));
  dial_stream = dial (brings_iq ended);
}

abbrev output : Output
output = record {
  opens_output = λ _. true;
  takes_output = λ _. true;
  at_end = good_closing;
  meanwhile = λ _. wants_rx_gain 40 ∷ [];
}

abbrev connected_app : App
connected_app = record new_app {
  session = session (responds (responds (responds (responds (responds ended))))) (brings_iq ended);
  is_connected = true;
}

save_baseband_iq-IsTold_example :
    IsTold output (baseband_total snapshot) (save_baseband_iq output snapshot connected_app)
save_baseband_iq-IsTold_example = save_baseband_iq-IsTold output snapshot connected_app refl

abbrev beats : List Beat
beats =
    record { touches = wants_rx_gain 40 ∷ []; retries = tries line stops; stops_asleep = false }
    ∷ []

work-touch_example :
    (work (some (streaming beats snapshot)) (touch cancels_capture connected_app)
      ≡ work (some (streaming beats snapshot)) connected_app)
    × (work (some (saving output snapshot)) (touch cancels_baseband connected_app)
        ≡ work (some (saving output snapshot)) connected_app)
work-touch_example = work-touch beats output snapshot connected_app refl

abbrev with_job : Desk
with_job = start_worker new_desk (codes "Connecting") (connecting line snapshot)

abbrev with_session : Desk
with_session = finish_worker with_job

abbrev closing : Desk
closing =
    shutdown_app
      (start_worker with_session (codes "Continuous IQ Capture") (streaming beats snapshot))

abbrev to_closing : Reaches new_desk closing
to_closing =
    next
      (next
        (next (next here (starts new_desk (codes "Connecting") (connecting line snapshot)))
          (works with_job))
        (starts with_session (codes "Continuous IQ Capture") (streaming beats snapshot)))
      (shuts_down
        (start_worker with_session (codes "Continuous IQ Capture") (streaming beats snapshot)))

Reaches-new-IsTidy_example : IsTidy closing
Reaches-new-IsTidy_example = Reaches-new-IsTidy closing to_closing
