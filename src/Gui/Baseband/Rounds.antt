-- ===== src/Gui/Baseband/Rounds.antt =====
-- The loop of `save_baseband_iq`: the bytes in the file, and that it ends.
use antsdr_dfone.Prelude.{
  ℕ, zero, suc, ◌-◌, ◌<◌, ◌≤◌, ◌≡◌, ◌≢◌, refl, ap, Bool, true, false, [], ◌∷◌, ◌++◌, Option, some,
  none, inl, inr, arith, Bool-cases, if-elim, ltb, ltb→lt, if◌then◌else◌, length, take,
  length-append, length-take, Bytes, codes,
}
use antsdr_dfone.Session.{
  LastError, no_error, connect_failed, connect_data_channel_failed, not_connected,
  mode_not_implemented, set_reference_clock_failed, set_sample_rate_failed, set_rx_gain_failed,
  set_rx_lo_failed, get_ssd_failed, capture_failed, capture_uncorrected_failed, record_failed,
  error_text, IqCapture, default_capture, Session,
}
use antsdr_dfone.Session.Methods.{set_reference_clock, set_sample_rate, set_rx_lo, set_rx_gain}
use antsdr_dfone.Session.Calls.{CaptureCall, capture_iq, captures, step}
use antsdr_dfone.Session.Answers.{
  IsHonest, set_reference_clock-IsHonest, set_rx_lo-IsHonest, set_rx_gain-IsHonest,
  set_sample_rate-IsHonest,
}
use antsdr_dfone.Session.Steps.{step-IsHonest}
use antsdr_dfone.Gui.App.{App, Pending, touch_all}
use antsdr_dfone.Gui.Connection.{
  apply_one, apply_pending_control_update, apply_taken, take_pending_control_update, apply_waiting,
}
use antsdr_dfone.Gui.Baseband.{
  Output, chunk_frames, Saving, saved, cancelled, broken, Round, goes_on, ends, write_capture,
  after_chunk, capture_chunk, save_round, save_loop, write_progress,
}

-- An error that is set has a text.
pub error_text-nonempty : (e : LastError) → e ≢ no_error → error_text e ≢ []
error_text-nonempty no_error h p = absurd (h refl)
error_text-nonempty connect_failed h p = absurd (ground arith)
error_text-nonempty connect_data_channel_failed h p = absurd (ground arith)
error_text-nonempty not_connected h p = absurd (ground arith)
error_text-nonempty mode_not_implemented h p = absurd (ground arith)
error_text-nonempty set_reference_clock_failed h p = absurd (ground arith)
error_text-nonempty set_sample_rate_failed h p = absurd (ground arith)
error_text-nonempty set_rx_gain_failed h p = absurd (ground arith)
error_text-nonempty set_rx_lo_failed h p = absurd (ground arith)
error_text-nonempty get_ssd_failed h p = absurd (ground arith)
error_text-nonempty capture_failed h p = absurd (ground arith)
error_text-nonempty capture_uncorrected_failed h p = absurd (ground arith)
error_text-nonempty record_failed h p = absurd (ground arith)

-- Whether a session that has answered false has an error to show.
abbrev pub Explains : Bool × Session → Type 0
Explains r = r.0 ≡ false → r.1.last_error ≢ no_error

pub IsHonest-Explains : (s : Session) (r : Bool × Session) → IsHonest s r.0 r.1 → Explains r
IsHonest-Explains s (true, s') h e = absurd (ground arith)
IsHonest-Explains s (false, s') h e = h.0

apply_one-Explains :
    {A : Type 0} (o : Option A) (op : Session → A → Bool × Session) (s : Session)
    (rest : Session → Bool × Session)
    → ((s : Session) (v : A) → IsHonest s (op s v).0 (op s v).1)
    → ((s : Session) → Explains (rest s))
    → Explains (apply_one o op s rest)
apply_one-Explains none op s rest h k = k s
apply_one-Explains (some v) op s rest h k = go (op s v) (IsHonest-Explains s (op s v) (h s v))
  where
    go : (r : Bool × Session) → Explains r → Explains (if r.0 then rest r.1 else (false, r.1))
    go (true, s') e = k s'
    go (false, s') e = e

apply_pending-Explains : (s : Session) (p : Pending) → Explains (apply_pending_control_update s p)
unfolding apply_pending_control_update
apply_pending-Explains s0 p =
    apply_one-Explains p.reference_clock set_reference_clock s0 _ set_reference_clock-IsHonest λ s1.
      apply_one-Explains p.sample_rate_hz set_sample_rate s1 _ set_sample_rate-IsHonest λ s2.
        apply_one-Explains p.rx_lo_hz set_rx_lo s2 _ set_rx_lo-IsHonest λ s3.
          apply_one-Explains p.rx_gain_db set_rx_gain s3 _ set_rx_gain-IsHonest
            λ s4 e. absurd (ground arith)

apply_waiting-Explains :
    (a : App) → (apply_waiting a).0 ≡ false → (apply_waiting a).1.session.last_error ≢ no_error
unfolding apply_waiting
apply_waiting-Explains a = go (take_pending_control_update a)
  where
    go :
        (r : Option Pending × App)
        → (apply_taken r).0 ≡ false
        → (apply_taken r).1.session.last_error ≢ no_error
    go (none, b) e = absurd (ground arith)
    go (some p, b) e = apply_pending-Explains b.session p e

capture_iq-Explains :
    (s : Session) (n : ℕ)
    → (capture_iq s n default_capture).done ≡ false
    → (capture_iq s n default_capture).session.last_error ≢ no_error
unfolding step
capture_iq-Explains s n e = (step-IsHonest s (captures n) false (ap some e)).0

-- What the end of the loop says: the whole recording, or a part of it and, on an error, its text.
abbrev pub IsSaved : ℕ → Saving → Type 0
IsSaved total (saved file a) = length file ≡ total
IsSaved total (cancelled file a) = length file < total
IsSaved total (broken file message a) = (length file < total) × (message ≢ [])

-- A round that goes on has written at least one byte, and no byte too many.
abbrev pub Advances : ℕ → Bytes → Round → Type 0
Advances total file (goes_on file' a) = (length file < length file') × (length file' ≤ total)
Advances total file (ends (saved file' a)) = ⊥
Advances total file (ends (cancelled file' a)) = length file' < total
Advances total file (ends (broken file' message a)) = (length file' < total) × (message ≢ [])

module _ (d : Output) (total : ℕ) (file : Bytes) (h : length file < total) where
  write_capture-Advances :
      (a : App) (c : IqCapture) (payload : Bytes)
      → Advances total file (write_capture d total file a c payload)
  write_capture-Advances a c [] = (h, λ e. absurd (ground arith))
  write_capture-Advances a c (b ∷ bs) =
      let grown = length-append file (take (total - length file) (b ∷ bs)) in
      let cut = length-take (total - length file) (b ∷ bs) in
      if-elim (Advances total file) (d.takes_output (file ++ take (total - length file) (b ∷ bs)))
        (omega (arith, grown, cut), omega (arith, grown, cut)) (h, λ e. absurd (ground arith))

  after_chunk-Advances :
      (a : App) (r : CaptureCall)
      → (r.done ≡ false → r.session.last_error ≢ no_error)
      → Advances total file (after_chunk d total file a r)
  after_chunk-Advances a r e = elim (Bool-cases r.done) [
    | inl t ↦ rw t (write_capture-Advances (record a { session = r.session }) r.out r.out.payload)
    | inr t ↦ rw t (h, error_text-nonempty r.session.last_error (e t))
  ]

  capture_chunk-Advances :
      (r : Bool × App)
      → (r.0 ≡ false → r.1.session.last_error ≢ no_error)
      → Advances total file (capture_chunk d total file r)
  capture_chunk-Advances (true, a) e =
      after_chunk-Advances a
        (capture_iq a.session (chunk_frames (total - length file)) default_capture)
        (capture_iq-Explains a.session (chunk_frames (total - length file)))
  capture_chunk-Advances (false, a) e = (h, error_text-nonempty a.session.last_error (e refl))

  pub save_round-Advances : (i : ℕ) (a : App) → Advances total file (save_round d total i file a)
  unfolding save_round
  save_round-Advances i a0 =
      let a = touch_all (d.meanwhile i) a0 in
      let b = write_progress a a.baseband.written_bytes (codes "Capturing 8CH baseband IQ") in
      if-elim (Advances total file) a.baseband_cancel h
        (capture_chunk-Advances (apply_waiting b) (apply_waiting-Explains b))

-- With fuel for each missing byte the loop ends by itself.
pub save_loop-IsSaved :
    (f : ℕ) (d : Output) (total i : ℕ) (file : Bytes) (a : App)
    → total - length file < f
    → length file ≤ total
    → IsSaved total (save_loop f d total i file a)
unfolding save_loop
save_loop-IsSaved zero d total i file a h k = absurd (omega arith)
save_loop-IsSaved (suc f) d total i file a h k = elim (Bool-cases (ltb (length file) total)) [
  | inr t ↦ rw (t, save_loop) (ground arith)
  | inl t ↦
      rw (t, save_loop)
        (go (save_round d total i file a) (save_round-Advances d total file (ltb→lt _ _ t) i a)
          (λ file' a' p q.
            save_loop-IsSaved f d total (suc i) file' a' (omega arith) (omega arith)))
]
  where
    go :
        (r : Round)
        → Advances total file r
        → ((file' : Bytes) (a' : App)
            → length file < length file'
            → length file' ≤ total
            → IsSaved total (save_loop f d total (suc i) file' a'))
        → IsSaved total
            (elim r [ ends s ↦ s | goes_on file' a' ↦ save_loop f d total (suc i) file' a' ])
    go (ends (saved file' a')) p rest = absurd p
    go (ends (cancelled file' a')) p rest = p
    go (ends (broken file' m a')) p rest = p
    go (goes_on file' a') p rest = rest file' a' p.0 p.1
