-- ===== src/Gui/Baseband.antt =====
-- `save_baseband_iq`: a recording of all channels that the program makes of single captures.
pub mod Rounds
pub mod Whole
use antsdr_dfone.Prelude.{
  ℕ, zero, suc, ◌+◌, ◌-◌, ◌*◌, ◌/◌, min, Bool, true, false, not, List, [], ◌∷◌, ◌++◌, Option, some,
  none, ltb, if◌then◌else◌, length, take, Bytes, codes, at_least,
}
use antsdr_dfone.OutputFile.{Closing, file_after}
use antsdr_dfone.Session.{IqCapture, default_capture, Session, error_text, bytes_per_frame}
use antsdr_dfone.Session.Methods.{configure}
use antsdr_dfone.Session.Calls.{CaptureCall, capture_iq}
use antsdr_dfone.Gui.App.{App, Progress, Snapshot, Touch, touch_all, make_config}
use antsdr_dfone.Gui.Connection.{
  Ending, fails_with, succeeds, mark_disconnected_if_session_closed, apply_waiting,
}

-- What the system does with the output file: whether it opens, whether it takes bytes, what `close`
-- or the end of the stream does. `meanwhile` is what the interface does before each round.
pub record Output : Type 0 where
  pub opens_output : Bytes → Bool
  pub takes_output : Bytes → Bool
  pub at_end : Closing
  pub meanwhile : ℕ → List Touch

abbrev pub max_chunk_frames : ℕ
max_chunk_frames = 262144

-- The frames to ask for.
abbrev pub chunk_frames : ℕ → ℕ
chunk_frames remaining =
    let frames = min ((remaining + bytes_per_frame - 1) / bytes_per_frame) max_chunk_frames in
    if ltb frames 1 then 1 else frames

-- How the loop over the captures ends, with the bytes that the stream of the file has accepted.
pub data Saving : Type 0 where
  saved cancelled : Bytes → App → Saving
  broken : Bytes → Bytes → App → Saving

-- An error behind which the job ends, with the session marked as lost if it is.
abbrev pub breaks_lost : Bytes → Bytes → App → Saving
breaks_lost file message a = broken file message (mark_disconnected_if_session_closed a)

abbrev pub write_progress : App → ℕ → Bytes → App
write_progress a written stage = record a {
  baseband = record (a.baseband) { written_bytes = written; stage = stage };
}

-- A round behind its capture: the next round, or the error that ends the loop.
pub data Round : Type 0 where
  goes_on : Bytes → App → Round
  ends : Saving → Round

abbrev pub write_capture : Output → ℕ → Bytes → App → IqCapture → Bytes → Round
write_capture d total file a capture [] =
    ends (broken file (codes "baseband capture returned no data") a)
write_capture d total file a capture (b ∷ bs) =
    let bytes = take (total - length file) (b ∷ bs) in
    if d.takes_output (file ++ bytes)
    then goes_on (file ++ bytes)
        (record (write_progress a (length (file ++ bytes)) (codes "Writing 8CH baseband IQ")) {
          last_capture = capture;
        })
    else ends (broken file (codes "write baseband output failed") a)

abbrev pub after_chunk : Output → ℕ → Bytes → App → CaptureCall → Round
after_chunk d total file a r =
    let a' : App = record a { session = r.session } in
    if r.done
    then write_capture d total file a' r.out r.out.payload
    else ends (breaks_lost file (error_text r.session.last_error) a')

abbrev pub capture_chunk : Output → ℕ → Bytes → Bool × App → Round
capture_chunk d total file (true, a) =
    after_chunk d total file a
      (capture_iq a.session (chunk_frames (total - length file)) default_capture)
capture_chunk d total file (false, a) = ends (breaks_lost file (error_text a.session.last_error) a)

-- The body of the loop, behind the test that bytes are missing.
unfoldable pub save_round : Output → ℕ → ℕ → Bytes → App → Round
unfolding touch_all capture_iq apply_waiting mark_disconnected_if_session_closed
save_round d total i file a0 =
    let a = touch_all (d.meanwhile i) a0 in
    if a.baseband_cancel
    then ends (cancelled file a)
    else capture_chunk d total file (
        apply_waiting
          (write_progress a a.baseband.written_bytes (codes "Capturing 8CH baseband IQ")))

-- On fuel; `i` counts the rounds.
unfoldable pub save_loop : ℕ → Output → ℕ → ℕ → Bytes → App → Saving
unfolding save_round
save_loop zero d total i file a = broken file [] a
save_loop (suc f) d total i file a = elim (ltb (length file) total) [
  | false ↦ saved file a
  | true ↦ elim (save_round d total i file a) [
    | ends r ↦ r
    | goes_on file' a' ↦ save_loop f d total (suc i) file' a'
  ]
]

-- What the job leaves: its end for the worker and, if the file was opened, the bytes that its stream
-- has accepted, and what is left of them in the file when the stream has been closed or destroyed.
-- Behind an error in the loop, which may be a failed write, the file is not known.
pub record Saved : Type 0 where
  pub ending : Ending
  pub accepted : Option Bytes
  pub file : Option Bytes

abbrev pub stop_baseband : App → Bytes → App
stop_baseband a stage = record a {
  baseband = record (a.baseband) { running = false; stage = stage };
}

abbrev pub end_baseband : App → ℕ → Bytes → App
end_baseband a written stage = record a {
  baseband = record (a.baseband) { running = false; written_bytes = written; stage = stage };
  baseband_cancel = false;
}

unfoldable pub end_saving : Output → ℕ → Saving → Saved
end_saving d total (broken file message a) = record {
  ending = fails_with message (stop_baseband a message);
  accepted = some file;
  file = none;
}
end_saving d total (cancelled file a) = record {
  ending = succeeds (end_baseband a (length file) (codes "8CH baseband save stopped"));
  accepted = some file;
  file = some (file_after d.at_end file);
}
end_saving d total (saved file a) = record {
  ending =
      if d.at_end.flushes
      then succeeds (end_baseband a total (codes "8CH baseband save complete"))
      else fails_with (codes "close baseband output failed")
          (end_baseband a (length file) (codes "close baseband output failed"));
  accepted = some file;
  file = some (file_after d.at_end file);
}

abbrev pub baseband_total : Snapshot → ℕ
baseband_total w = at_least 1 w.baseband_length_mb * 1024 * 1024

abbrev pub begin_baseband : App → ℕ → App
begin_baseband a total = record a {
  baseband = record {
    running = true;
    written_bytes = 0;
    total_bytes = total;
    stage = codes "Opening baseband output";
  };
  baseband_cancel = false;
}

unfoldable pub save_configured : Output → ℕ → App → Saved
unfolding save_loop end_saving
save_configured d total a = end_saving d total (save_loop (suc total) d total 0 [] a)

-- Behind `configure`.
abbrev pub save_or_stop : Output → ℕ → App → Bool × Session → Saved
save_or_stop d total a (true, s) = save_configured d total (record a { session = s })
save_or_stop d total a (false, s) =
    let message = error_text s.last_error in
    record {
      ending =
          fails_with message (
            stop_baseband (mark_disconnected_if_session_closed (record a { session = s })) message);
      accepted = some [];
      file = some (file_after d.at_end []);
    }

unfoldable pub save_opened : Output → Snapshot → ℕ → App → Saved
unfolding save_configured configure make_config mark_disconnected_if_session_closed
save_opened d w total a = save_or_stop d total a (configure a.session (make_config w))

unfoldable pub save_baseband_iq : Output → Snapshot → App → Saved
unfolding save_opened
save_baseband_iq d w a =
    let total = baseband_total w in
    if not a.is_connected
    then record { ending = fails_with (codes "connect first") a; accepted = none; file = none }
    else if not (d.opens_output w.baseband_output_path)
    then record {
      ending =
          fails_with (codes "open baseband output failed")
            (stop_baseband (begin_baseband a total) (codes "open baseband output failed"));
      accepted = none;
      file = none;
    }
    else save_opened d w total (begin_baseband a total)
