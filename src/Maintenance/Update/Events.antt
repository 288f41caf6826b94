-- ===== src/Maintenance/Update/Events.antt =====
-- The loop over the events of an update: round by round, and on the events that the service sends.

use antsdr_dfone.Prelude.{
  ℕ, zero, suc, ◌<◌, ◌≤◌, ◌≡◌, refl, Option, some, none, arith, inl, inr, Bool-cases, ltb, if-elim,
  drop, Bytes, codes,
}
use antsdr_dfone.Net.{Incoming, supply}
use antsdr_dfone.Maintenance.Service.{
  Answer, fails, gives, recv_line, starts_with, read_uint64, read_body,
}
use antsdr_dfone.Maintenance.Service.Progress.{recv_line-uses, recv_all-uses}
use antsdr_dfone.Maintenance.Service.Requests.{max_firmware_response_bytes}
use antsdr_dfone.Maintenance.Update.{
  Update, EventRound, finished, broken, goes_on, EventKind, logs, completes, breaks, with_text,
  sized_event, event, lost, event_round, event_loop, run_events,
}

read_body-uses :
    (max : ℕ) (bad : Bytes) (o : Option ℕ) (s : Incoming) {x : Bytes} {t : Incoming}
    → read_body max bad o s ≡ (gives x, t)
    → supply t ≤ supply s
read_body-uses max bad none s e = absurd (ground arith)
read_body-uses max bad (some n) s {x} {t} e = elim (Bool-cases (ltb max n)) [
  | inl q ↦ absurd (ground arith)
  | inr q ↦ recv_all-uses s n {x = x} {t = t} (ground arith)
]

-- A round that goes on leaves a stream within `s`.
abbrev Within : Incoming → EventRound → Type 0
Within s (finished u) = Unit {0}
Within s (broken e u) = Unit {0}
Within s (goes_on u) = supply u.stream ≤ supply s

with_text-Within :
    (kind : EventKind) (u : Update) (s : Incoming) (r : Answer Bytes × Incoming)
    → ((x : Bytes) (t : Incoming) → r ≡ (gives x, t) → supply t ≤ supply s)
    → Within s (with_text kind u r)
with_text-Within kind u s (fails e, t) h = tt
with_text-Within logs u s (gives x, t) h = h x t refl
with_text-Within completes u s (gives x, t) h = tt
with_text-Within breaks u s (gives x, t) h = tt

sized_event-Within :
    (kind : EventKind) (u : Update) (size : Bytes) (s : Incoming)
    → Within s (sized_event kind u size s)
sized_event-Within kind u size s =
    let bad = codes "invalid firmware update event size" in
    with_text-Within kind u s (read_body max_firmware_response_bytes bad (read_uint64 size) s)
      (λ x t e. read_body-uses max_firmware_response_bytes bad (read_uint64 size) s e)

event-Within : (u : Update) (r : Bytes) (s : Incoming) → Within s (event u r s)
unfolding event
event-Within u r s = if-elim (Within s) (starts_with (codes "PROGRESS ") r) (omega arith) (
    if-elim (Within s) (starts_with (codes "LOG ") r) (sized_event-Within logs u (drop 4 r) s) (
      if-elim (Within s) (starts_with (codes "DONE ") r)
        (sized_event-Within completes u (drop 5 r) s)
        (if-elim (Within s) (starts_with (codes "FAIL ") r)
          (sized_event-Within breaks u (drop 5 r) s)
          (if-elim (Within s) (starts_with (codes "ERR ") r) tt tt))))

-- A round that goes on uses up some of the stream.
abbrev Uses : Incoming → EventRound → Type 0
Uses s (finished u) = Unit {0}
Uses s (broken e u) = Unit {0}
Uses s (goes_on u) = supply u.stream < supply s

Uses-Within : (s t : Incoming) (o : EventRound) → supply t < supply s → Within t o → Uses s o
Uses-Within s t (finished u) h w = tt
Uses-Within s t (broken e u) h w = tt
Uses-Within s t (goes_on u) h w = omega arith

lost-Uses : (s : Incoming) (u : Update) (e : Bytes) → Uses s (lost u e)
lost-Uses s u e = if-elim (Uses s) u.complete tt tt

event_round-Uses : (u : Update) → Uses u.stream (event_round u (recv_line u.stream 1024))
unfolding event_round
event_round-Uses u = go (recv_line u.stream 1024) refl
  where
    go :
        (r : Answer Bytes × Incoming)
        → recv_line u.stream 1024 ≡ r
        → Uses u.stream (event_round u r)
    go (fails e, s) q = lost-Uses u.stream (record u { stream = s }) e
    go (gives r, s) q =
        Uses-Within u.stream s (event u r s) (recv_line-uses u.stream 1024 q) (event-Within u r s)

-- What the loop does with the outcome of a round.
abbrev pub next_event : (Update → Option Bytes × Update) → EventRound → Option Bytes × Update
next_event again (finished u) = (none, u)
next_event again (broken e u) = (some e, u)
next_event again (goes_on u) = again u

next_event-cong :
    (g h : Update → Option Bytes × Update) (s : Incoming) (o : EventRound)
    → Uses s o
    → ((u : Update) → supply u.stream < supply s → g u ≡ h u)
    → next_event g o ≡ next_event h o
next_event-cong g h s (finished u) w agree = refl
next_event-cong g h s (broken e u) w agree = refl
next_event-cong g h s (goes_on u) w agree = agree u w

event_loop-fuel :
    (f g : ℕ) (u : Update)
    → supply u.stream < f
    → supply u.stream < g
    → event_loop f u ≡ event_loop g u
unfolding event_loop
event_loop-fuel zero g u h k = absurd (omega arith)
event_loop-fuel (suc f) zero u h k = absurd (omega arith)
event_loop-fuel (suc f) (suc g) u h k =
    next_event-cong (event_loop f) (event_loop g) u.stream (event_round u (recv_line u.stream 1024))
      (event_round-Uses u) (λ u' less. event_loop-fuel f g u' (omega arith) (omega arith))

-- On its fuel the loop over the events is the `while (true)` of `update_firmware`: a round ends it
-- with true or with an error, or it starts again on what is left of the stream.
pub run_events-unroll :
    (u : Update) → run_events u ≡ next_event run_events (event_round u (recv_line u.stream 1024))
unfolding run_events event_loop
run_events-unroll u =
    next_event-cong (event_loop (supply u.stream)) run_events u.stream
      (event_round u (recv_line u.stream 1024)) (event_round-Uses u)
      (λ u' less. event_loop-fuel (supply u.stream) (suc (supply u'.stream)) u' less (omega arith))
