-- ===== src/Gui/Held/Saving.antt =====
-- The session through `save_baseband_iq`.
use antsdr_dfone.Prelude.{
  ℕ, zero, suc, ◌-◌, refl, Bool, true, false, not, [], ◌∷◌, ◌++◌, inl, inr, Bool-cases, if-elim,
  ltb, length, take, Bytes, codes,
}
use antsdr_dfone.Session.{Session, IqCapture, default_capture}
use antsdr_dfone.Session.Methods.{configure}
use antsdr_dfone.Session.Calls.{CaptureCall, capture_iq, captures, configures, step}
use antsdr_dfone.Gui.App.{App, Snapshot, touch_all, make_config}
use antsdr_dfone.Gui.Connection.{Ending, apply_waiting}
use antsdr_dfone.Gui.Baseband.{
  Output, chunk_frames, Saving, saved, cancelled, broken, Round, goes_on, ends, write_capture,
  after_chunk, capture_chunk, save_round, save_loop, write_progress, Saved, end_saving,
  save_configured, save_or_stop, save_opened, save_baseband_iq, baseband_total, begin_baseband,
}
use antsdr_dfone.Gui.Held.{
  IsHeld, Holds, call-IsHeld, touch_all-Holds, mark_disconnected-Holds, apply_waiting-Holds,
}

abbrev SavingHolds : Saving → Type 0
SavingHolds (saved file a) = Holds a
SavingHolds (cancelled file a) = Holds a
SavingHolds (broken file message a) = Holds a

abbrev RoundHolds : Round → Type 0
RoundHolds (goes_on file a) = Holds a
RoundHolds (ends s) = SavingHolds s

-- A session behind a capture.
pub capture-IsHeld :
    (s : Session) (shown : Bool) (n : ℕ)
    → IsHeld s shown
    → IsHeld (capture_iq s n default_capture).session shown
unfolding step
capture-IsHeld s shown n h = call-IsHeld s shown (captures n) _ tt refl h

write_capture-Holds :
    (d : Output) (total : ℕ) (file : Bytes) (a : App) (c : IqCapture) (payload : Bytes)
    → Holds a
    → RoundHolds (write_capture d total file a c payload)
write_capture-Holds d total file a c [] h = h
write_capture-Holds d total file a c (b ∷ bs) h =
    if-elim RoundHolds (d.takes_output (file ++ take (total - length file) (b ∷ bs))) h h

after_chunk-Holds :
    (d : Output) (total : ℕ) (file : Bytes) (a : App) (r : CaptureCall)
    → IsHeld r.session a.is_connected
    → RoundHolds (after_chunk d total file a r)
after_chunk-Holds d total file a r h =
    let b : App = record a { session = r.session } in
    if-elim RoundHolds r.done (write_capture-Holds d total file b r.out r.out.payload h)
      (mark_disconnected-Holds b h)

capture_chunk-Holds :
    (d : Output) (total : ℕ) (file : Bytes) (r : Bool × App)
    → Holds r.1
    → RoundHolds (capture_chunk d total file r)
capture_chunk-Holds d total file (true, a) h =
    after_chunk-Holds d total file a
      (capture_iq a.session (chunk_frames (total - length file)) default_capture)
      (capture-IsHeld a.session a.is_connected (chunk_frames (total - length file)) h)
capture_chunk-Holds d total file (false, a) h = mark_disconnected-Holds a h

save_round-Holds :
    (d : Output) (total i : ℕ) (file : Bytes) (a : App)
    → Holds a
    → RoundHolds (save_round d total i file a)
unfolding save_round
save_round-Holds d total i file a0 h =
    let a = touch_all (d.meanwhile i) a0 in
    let k = touch_all-Holds (d.meanwhile i) a0 h in
    let b = write_progress a a.baseband.written_bytes (codes "Capturing 8CH baseband IQ") in
    if-elim RoundHolds a.baseband_cancel k
      (capture_chunk-Holds d total file (apply_waiting b) (apply_waiting-Holds b k))

save_loop-Holds :
    (f : ℕ) (d : Output) (total i : ℕ) (file : Bytes) (a : App)
    → Holds a
    → SavingHolds (save_loop f d total i file a)
unfolding save_loop
save_loop-Holds zero d total i file a h = h
save_loop-Holds (suc f) d total i file a h = elim (Bool-cases (ltb (length file) total)) [
  | inr t ↦ rw (t, save_loop) h
  | inl t ↦
      rw (t, save_loop)
        (go (save_round d total i file a) (save_round-Holds d total i file a h)
          (λ file' a' p. save_loop-Holds f d total (suc i) file' a' p))
]
  where
    go :
        (r : Round)
        → RoundHolds r
        → ((file' : Bytes) (a' : App)
            → Holds a'
            → SavingHolds (save_loop f d total (suc i) file' a'))
        → SavingHolds
            (elim r [ ends s ↦ s | goes_on file' a' ↦ save_loop f d total (suc i) file' a' ])
    go (ends s) p rest = p
    go (goes_on file' a') p rest = rest file' a' p

end_saving-Holds :
    (d : Output) (total : ℕ) (s : Saving) → SavingHolds s → Holds (end_saving d total s).ending.app
unfolding end_saving
end_saving-Holds d total (saved file a) h =
    if-elim (λ (e : Ending). Holds e.app) d.at_end.flushes h h
end_saving-Holds d total (cancelled file a) h = h
end_saving-Holds d total (broken file message a) h = h

save_or_stop-Holds :
    (d : Output) (total : ℕ) (a : App) (r : Bool × Session)
    → IsHeld r.1 a.is_connected
    → Holds (save_or_stop d total a r).ending.app
unfolding save_configured
save_or_stop-Holds d total a (true, s) h =
    let b : App = record a { session = s } in
    end_saving-Holds d total (save_loop (suc total) d total 0 [] b)
      (save_loop-Holds (suc total) d total 0 [] b h)
save_or_stop-Holds d total a (false, s) h = mark_disconnected-Holds (record a { session = s }) h

pub save_baseband_iq-Holds :
    (d : Output) (w : Snapshot) (a : App) → Holds a → Holds (save_baseband_iq d w a).ending.app
unfolding save_baseband_iq save_opened step
save_baseband_iq-Holds d w a h =
    let total = baseband_total w in
    let b = begin_baseband a total in
    let c = make_config w in
    if-elim (λ (r : Saved). Holds r.ending.app) (not a.is_connected) h
      (if-elim (λ (r : Saved). Holds r.ending.app) (not (d.opens_output w.baseband_output_path)) h
        (save_or_stop-Holds d total b (configure b.session c) (
          call-IsHeld b.session b.is_connected (configures c) (configure b.session c).1 tt refl h)))
