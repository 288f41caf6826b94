-- ===== src/Gui/Baseband/Whole.antt =====
-- What `save_baseband_iq` has done when it ends.
use antsdr_dfone.Prelude.{
  ℕ, suc, ◌<◌, ◌≡◌, ◌≢◌, ◌⊎◌, refl, ap, Bool, true, false, not, [], some, inl, inr, arith,
  Bool-cases, if-elim, length, Bytes, codes,
}
use antsdr_dfone.OutputFile.{file_after, file_after-whole}
use antsdr_dfone.Session.{Session}
use antsdr_dfone.Session.Methods.{configure}
use antsdr_dfone.Session.Answers.{configure-IsHonest}
use antsdr_dfone.Gui.App.{App, Snapshot, make_config}
use antsdr_dfone.Gui.Baseband.{
  Output, Saving, saved, cancelled, broken, Saved, save_loop, end_saving, save_configured,
  save_or_stop, save_opened, save_baseband_iq, baseband_total, begin_baseband,
}
use antsdr_dfone.Gui.Baseband.Rounds.{
  IsSaved, save_loop-IsSaved, Explains, IsHonest-Explains, error_text-nonempty,
}

-- The accepted bytes are as many as the interface shows: all, with the whole file closed well, or fewer,
-- with a file that nothing has checked.
pub record Shows (d : Output) (total : ℕ) (r : Saved) (accepted : Bytes) : Type 0 where
  pub has_accepted : r.accepted ≡ some accepted
  pub shows_bytes : r.ending.app.baseband.written_bytes ≡ length accepted
  pub whole_or_stopped :
      ((length accepted ≡ total)
        × (r.file ≡ some accepted)
        × (r.ending.app.baseband.stage ≡ codes "8CH baseband save complete"))
      ⊎ ((length accepted < total)
          × (r.file ≡ some (file_after d.at_end accepted))
          × (r.ending.app.baseband.stage ≡ codes "8CH baseband save stopped"))

-- Success with such a file, or a failure with a text.
abbrev pub EndsWell : Output → ℕ → Saved → Bool → Type 0
EndsWell d total r true = (accepted : Bytes) × Shows d total r accepted
EndsWell d total r false = r.ending.message ≢ []

abbrev pub IsTold : Output → ℕ → Saved → Type 0
IsTold d total r = (r.ending.app.baseband.running ≡ false) × EndsWell d total r r.ending.ok

end_saving-IsTold :
    (d : Output) (total : ℕ) (s : Saving) → IsSaved total s → IsTold d total (end_saving d total s)
unfolding end_saving
end_saving-IsTold d total (broken file message a) h = (refl, h.1)
end_saving-IsTold d total (cancelled file a) h = (
  refl,
  (
    file,
    record { has_accepted = refl; shows_bytes = refl; whole_or_stopped = inr (h, refl, refl) },
  ),
)
end_saving-IsTold d total (saved file a) h = elim (Bool-cases d.at_end.flushes) [
  | inl t ↦
      let whole : some (file_after d.at_end file) ≡ some file =
        ap some (file_after-whole d.at_end file t) in
      rw (t, end_saving)
        (
          refl,
          (
            file,
            record {
              has_accepted = refl;
              shows_bytes = omega (arith, h);
              whole_or_stopped = inl (h, refl, refl);
            },
          ),
        )
  | inr t ↦ rw (t, end_saving) (refl, λ e. absurd (ground arith))
]

save_configured-IsTold :
    (d : Output) (total : ℕ) (a : App) → IsTold d total (save_configured d total a)
unfolding save_configured
save_configured-IsTold d total a =
    end_saving-IsTold d total (save_loop (suc total) d total 0 [] a)
      (save_loop-IsSaved (suc total) d total 0 [] a (omega arith) (omega arith))

save_opened-IsTold :
    (d : Output) (w : Snapshot) (total : ℕ) (a : App) → IsTold d total (save_opened d w total a)
unfolding save_opened
save_opened-IsTold d w total a = go (configure a.session (make_config w)) (
    IsHonest-Explains a.session (configure a.session (make_config w))
      (configure-IsHonest a.session (make_config w)))
  where
    go : (r : Bool × Session) → Explains r → IsTold d total (save_or_stop d total a r)
    go (true, s) e = save_configured-IsTold d total (record a { session = s })
    go (false, s) e = (refl, error_text-nonempty s.last_error (e refl))

-- When a baseband recording ends it is no longer shown as running. If it answers true, the file was
-- opened and its stream has accepted as many bytes as are shown: the requested ones when the recording
-- is shown as complete, and then the file holds them all, or fewer when it is shown as stopped, and
-- then the file is what an unchecked close leaves of them. If it answers false there is an error text.
-- Condition: no baseband recording was shown as running before.
pub save_baseband_iq-IsTold :
    (d : Output) (w : Snapshot) (a : App)
    → a.baseband.running ≡ false
    → IsTold d (baseband_total w) (save_baseband_iq d w a)
unfolding save_baseband_iq
save_baseband_iq-IsTold d w a h =
    if-elim (IsTold d (baseband_total w)) (not a.is_connected) (h, λ e. absurd (ground arith))
      (if-elim (IsTold d (baseband_total w)) (not (d.opens_output w.baseband_output_path))
        (refl, λ e. absurd (ground arith))
        (save_opened-IsTold d w (baseband_total w) (begin_baseband a (baseband_total w))))
