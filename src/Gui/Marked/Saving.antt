-- ===== src/Gui/Marked/Saving.antt =====
-- What the program shows as running, through `save_baseband_iq`.
use antsdr_dfone.Prelude.{
  ℕ, zero, suc, ◌-◌, refl, Bool, true, false, not, [], ◌∷◌, ◌++◌, inl, inr, Bool-cases, if-elim,
  ltb, length, take, Bytes, codes,
}
use antsdr_dfone.Session.{Session, IqCapture, default_capture}
use antsdr_dfone.Session.Methods.{configure}
use antsdr_dfone.Session.Calls.{CaptureCall, capture_iq}
use antsdr_dfone.Gui.App.{App, Snapshot, touch_all, make_config}
use antsdr_dfone.Gui.Connection.{Ending, apply_waiting}
use antsdr_dfone.Gui.Baseband.{
  Output, chunk_frames, Saving, saved, cancelled, broken, Round, goes_on, ends, write_capture,
  after_chunk, capture_chunk, save_round, save_loop, write_progress, Saved, end_saving,
  save_configured, save_or_stop, save_opened, save_baseband_iq, baseband_total, begin_baseband,
}
use antsdr_dfone.Gui.Marked.{
  Marks, IsMarked, no_marks, touch_all-IsMarked, mark_disconnected-IsMarked, apply_waiting-IsMarked,
}

-- While the job runs.
abbrev marks : Marks
marks = record no_marks { baseband = true }

abbrev SavingMarked : Saving → Type 0
SavingMarked (saved file a) = IsMarked marks a
SavingMarked (cancelled file a) = IsMarked marks a
SavingMarked (broken file message a) = IsMarked marks a

abbrev RoundMarked : Round → Type 0
RoundMarked (goes_on file a) = IsMarked marks a
RoundMarked (ends s) = SavingMarked s

write_capture-Marked :
    (d : Output) (total : ℕ) (file : Bytes) (a : App) (c : IqCapture) (payload : Bytes)
    → IsMarked marks a
    → RoundMarked (write_capture d total file a c payload)
write_capture-Marked d total file a c [] h = h
write_capture-Marked d total file a c (b ∷ bs) h =
    if-elim RoundMarked (d.takes_output (file ++ take (total - length file) (b ∷ bs))) h h

after_chunk-Marked :
    (d : Output) (total : ℕ) (file : Bytes) (a : App) (r : CaptureCall)
    → IsMarked marks a
    → RoundMarked (after_chunk d total file a r)
after_chunk-Marked d total file a r h =
    let b : App = record a { session = r.session } in
    if-elim RoundMarked r.done (write_capture-Marked d total file b r.out r.out.payload h)
      (mark_disconnected-IsMarked marks b h)

capture_chunk-Marked :
    (d : Output) (total : ℕ) (file : Bytes) (r : Bool × App)
    → IsMarked marks r.1
    → RoundMarked (capture_chunk d total file r)
capture_chunk-Marked d total file (true, a) h =
    after_chunk-Marked d total file a
      (capture_iq a.session (chunk_frames (total - length file)) default_capture) h
capture_chunk-Marked d total file (false, a) h = mark_disconnected-IsMarked marks a h

save_round-Marked :
    (d : Output) (total i : ℕ) (file : Bytes) (a : App)
    → IsMarked marks a
    → RoundMarked (save_round d total i file a)
unfolding save_round
save_round-Marked d total i file a0 h =
    let a = touch_all (d.meanwhile i) a0 in
    let k = touch_all-IsMarked marks (d.meanwhile i) a0 h in
    let b = write_progress a a.baseband.written_bytes (codes "Capturing 8CH baseband IQ") in
    if-elim RoundMarked a.baseband_cancel k
      (capture_chunk-Marked d total file (apply_waiting b) (apply_waiting-IsMarked marks b k))

save_loop-Marked :
    (f : ℕ) (d : Output) (total i : ℕ) (file : Bytes) (a : App)
    → IsMarked marks a
    → SavingMarked (save_loop f d total i file a)
unfolding save_loop
save_loop-Marked zero d total i file a h = h
save_loop-Marked (suc f) d total i file a h = elim (Bool-cases (ltb (length file) total)) [
  | inr t ↦ rw (t, save_loop) h
  | inl t ↦
      rw (t, save_loop)
        (go (save_round d total i file a) (save_round-Marked d total i file a h)
          (λ file' a' p. save_loop-Marked f d total (suc i) file' a' p))
]
  where
    go :
        (r : Round)
        → RoundMarked r
        → ((file' : Bytes) (a' : App)
            → IsMarked marks a'
            → SavingMarked (save_loop f d total (suc i) file' a'))
        → SavingMarked
            (elim r [ ends s ↦ s | goes_on file' a' ↦ save_loop f d total (suc i) file' a' ])
    go (ends s) p rest = p
    go (goes_on file' a') p rest = rest file' a' p

end_saving-Marked :
    (d : Output) (total : ℕ) (s : Saving)
    → SavingMarked s
    → IsMarked no_marks (end_saving d total s).ending.app
unfolding end_saving
end_saving-Marked d total (saved file a) h =
    if-elim (λ (e : Ending). IsMarked no_marks e.app) d.at_end.flushes (h.0, (refl, h.1.1))
      (h.0, (refl, h.1.1))
end_saving-Marked d total (cancelled file a) h = (h.0, (refl, h.1.1))
end_saving-Marked d total (broken file message a) h = (h.0, (refl, h.1.1))

save_or_stop-Marked :
    (d : Output) (total : ℕ) (a : App) (r : Bool × Session)
    → IsMarked marks a
    → IsMarked no_marks (save_or_stop d total a r).ending.app
unfolding save_configured
save_or_stop-Marked d total a (true, s) h =
    let b : App = record a { session = s } in
    end_saving-Marked d total (save_loop (suc total) d total 0 [] b)
      (save_loop-Marked (suc total) d total 0 [] b h)
save_or_stop-Marked d total a (false, s) h =
    let k = mark_disconnected-IsMarked marks (record a { session = s }) h in (k.0, (refl, k.1.1))

pub save_baseband_iq-Marked :
    (d : Output) (w : Snapshot) (a : App)
    → IsMarked no_marks a
    → IsMarked no_marks (save_baseband_iq d w a).ending.app
unfolding save_baseband_iq save_opened
save_baseband_iq-Marked d w a h =
    let total = baseband_total w in
    let b = begin_baseband a total in
    if-elim (λ (r : Saved). IsMarked no_marks r.ending.app) (not a.is_connected) h
      (if-elim (λ (r : Saved). IsMarked no_marks r.ending.app)
        (not (d.opens_output w.baseband_output_path)) (h.0, (refl, h.1.1))
        (save_or_stop-Marked d total b (configure b.session (make_config w)) (h.0, (refl, h.1.1))))
