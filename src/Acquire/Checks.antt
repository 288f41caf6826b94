-- ===== src/Acquire/Checks.antt =====
-- The checks of `start_record`, and what its answers mean.
use mathlib.Core.Bool.{false≢true}
use antsdr_dfone.Prelude.{
  ◌*◌, ◌%◌, ◌^◌, ◌≤◌, ◌<◌, ◌≡◌, ◌⊎◌, inl, inr, refl, sym, ◌∙◌, ap, Option-cases, Bool, true, false,
  Option, some, none, arith, length, Bytes, ltb, not, ◌&&◌, ◌↔◌,
}
use antsdr_dfone.OutputFile.{Closing, file_after}
use antsdr_dfone.Stream.{StreamClient, RecordRequest, Disk, Recorded, read_record_packets}
use antsdr_dfone.Stream.Outcome.{read_record_packets-HoldsFile, read_record_packets-accepted}
use antsdr_dfone.Control.{ControlClient, control_has_ssd}
use antsdr_dfone.Acquire.{
  record_mask, good_mask, good_length, max_mb, Started, not_started, begin_record, check_record,
  start_record,
}

-- The requests that may be recorded: one, two or four channels from the first on, and a positive
-- multiple of 4 MB up to the limit of the storage.
pub record IsAllowed (has_ssd : Bool) (q : RecordRequest) : Type 0 where
  pub channels :
      (q.channel_mask % 16 ≡ 1) ⊎ ((q.channel_mask % 16 ≡ 3) ⊎ (q.channel_mask % 16 ≡ 15))
  pub positive : 0 < q.length_mb
  pub multiple : q.length_mb % 4 ≡ 0
  pub limited : q.length_mb ≤ max_mb has_ssd

-- The checks of `start_record` together.
abbrev pub checks : Bool → RecordRequest → Bool
checks has_ssd q =
    good_mask (record_mask q) && good_length q.length_mb && not (ltb (max_mb has_ssd) q.length_mb)

pub checks_iff : (h : Bool) (q : RecordRequest) → (checks h q ≡ true) ↔ IsAllowed h q
checks_iff h q = (
  λ e. record {
    channels = ground arith;
    positive = ground arith;
    multiple = ground arith;
    limited = ground arith;
  },
  λ a. ground (arith, a.channels, a.positive, a.multiple, a.limited),
)

pub check_record-checks :
    (disk : Disk) (s : StreamClient) (q : RecordRequest) (b : Bool) (h : Bool) (c : ControlClient)
    → ((checks h q ≡ true) × (check_record disk s q b (some h, c) ≡ begin_record disk c s q b))
      ⊎ ((checks h q ≡ false) × (check_record disk s q b (some h, c) ≡ not_started c s))
unfolding check_record
check_record-checks disk s q b h c = ground arith

-- When the question for the storage is answered and the request is not allowed on that storage,
-- `start_record` answers false right behind the question: no recording command is sent, no file is
-- opened, and the data channel is untouched.
pub start_record_refused :
    (disk : Disk) (c : ControlClient) (s : StreamClient) (q : RecordRequest) (b h : Bool)
    (c' : ControlClient)
    → control_has_ssd c ≡ (some h, c')
    → ¬ IsAllowed h q
    → start_record disk c s q b ≡ not_started c' s
unfolding start_record
start_record_refused disk c s q b h c' e refused = elim (check_record-checks disk s q b h c') [
  | inl (good, _) ↦ absurd (refused ((checks_iff h q).0 good))
  | inr (_, stops) ↦ rw e stops
]

begin_record-done :
    (disk : Disk) (c : ControlClient) (s : StreamClient) (q : RecordRequest) (b : Bool)
    → (begin_record disk c s q b).outcome.done ≡ true
    → (begin_record disk c s q b).outcome ≡ read_record_packets disk s q b
unfolding begin_record
begin_record-done disk c s q b e = ground arith

-- What a recording that answers true has done.
pub record IsRecorded (e : Closing) (c : ControlClient) (q : RecordRequest) (o : Started)
    : Type 0 where
  pub has_ssd : Bool
  pub asked : (control_has_ssd c).0 ≡ some has_ssd
  pub allowed : IsAllowed has_ssd q
  pub accepted : Bytes
  pub taken : o.outcome.accepted ≡ some accepted
  pub size : length accepted ≡ q.length_mb * 1024 * 1024
  pub left : o.outcome.file ≡ some (file_after e accepted)

check_record-done :
    (disk : Disk) (s : StreamClient) (q : RecordRequest) (b h : Bool) (c : ControlClient)
    → (check_record disk s q b (some h, c)).outcome.done ≡ true
    → IsAllowed h q
      × ((check_record disk s q b (some h, c)).outcome ≡ read_record_packets disk s q b)
check_record-done disk s q b h c d = elim (check_record-checks disk s q b h c) [
  | inl (good, same) ↦ (
    (checks_iff h q).0 good,
    rw same (begin_record-done disk c s q b (ap (λ (o : Started). o.outcome.done) (sym same) ∙ d)),
  )
  | inr (_, stops) ↦ absurd (false≢true (ap (λ (o : Started). o.outcome.done) (sym stops) ∙ d))
]

recorded_bytes :
    (disk : Disk) (s : StreamClient) (q : RecordRequest) (b : Bool)
    → (read_record_packets disk s q b).done ≡ true
    → (accepted : Bytes) × ((read_record_packets disk s q b).accepted ≡ some accepted)
recorded_bytes disk s q b d = elim (Option-cases (read_record_packets disk s q b).accepted) [
  | inl e ↦ absurd (read_record_packets-accepted disk s q b d e)
  | inr (accepted, e) ↦ (accepted, e)
]

check_record-unasked :
    (disk : Disk) (s : StreamClient) (q : RecordRequest) (b : Bool) (c : ControlClient)
    → (check_record disk s q b (none, c)).outcome.done ≡ false
unfolding check_record
check_record-unasked disk s q b c = refl

-- When `start_record` answers true, the device has answered the question for the storage, the
-- request is allowed on it (one, two or four channels from the first on, a positive multiple of 4
-- MB up to the limit), and the stream of the file has accepted exactly the requested size, of which
-- the file holds what the unchecked end of the stream leaves.
pub start_record-IsRecorded :
    (disk : Disk) (c : ControlClient) (s : StreamClient) (q : RecordRequest) (b : Bool)
    → q.length_mb < 2 ^ 32
    → (start_record disk c s q b).outcome.done ≡ true
    → IsRecorded disk.at_end c q (start_record disk c s q b)
unfolding start_record
start_record-IsRecorded disk c s q b small d = go (control_has_ssd c) refl d
  where
    go :
        (r : Option Bool × ControlClient)
        → control_has_ssd c ≡ r
        → (check_record disk s q b r).outcome.done ≡ true
        → IsRecorded disk.at_end c q (check_record disk s q b r)
    go (none, c') e x = absurd (false≢true (sym (check_record-unasked disk s q b c') ∙ x))
    go (some h, c') e x =
        let (allowed, same) = check_record-done disk s q b h c' x in
        let (accepted, held) =
          recorded_bytes disk s q b (ap (λ (o : Recorded). o.done) (sym same) ∙ x) in
        record {
          has_ssd = h;
          asked = ap (λ (r : Option Bool × ControlClient). r.0) e;
          allowed = allowed;
          accepted = accepted;
          taken = ap (λ (o : Recorded). o.accepted) same ∙ held;
          left =
              ap (λ (o : Recorded). o.file) same
              ∙ (read_record_packets-HoldsFile disk s q b accepted small held).left
                  (ap (λ (o : Recorded). o.done) (sym same) ∙ x);
          size =
              (read_record_packets-HoldsFile disk s q b accepted small held).full
                (ap (λ (o : Recorded). o.done) (sym same) ∙ x);
        }
