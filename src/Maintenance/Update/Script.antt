-- ===== src/Maintenance/Update/Script.antt =====
-- An update whose script runs to its end, and what the answer true of an update means.
use antsdr_dfone.Prelude.{
  ℕ, ◌≤◌, ◌≡◌, refl, ap, ◌∙◌, true, List, [], ◌∷◌, ◌++◌, none, arith, length, length-append, Bytes,
  codes, append_assoc,
}
use antsdr_dfone.Net.{Incoming}
use antsdr_dfone.Net.Reading.{readable}
use antsdr_dfone.Maintenance.Text.Lines.{lacks}
use antsdr_dfone.Maintenance.Service.{gives, recv_line, starts_with, to_string}
use antsdr_dfone.Maintenance.Service.Numbers.{to_string-all_digits, length-to_string}
use antsdr_dfone.Maintenance.Service.Receiving.{recv_line-Yields}
use antsdr_dfone.Maintenance.Service.Payload.{lacks-all_digits, read_body-Yields}
use antsdr_dfone.Maintenance.Service.Requests.{max_firmware_response_bytes}
use antsdr_dfone.Maintenance.Update.{
  Update, finished, goes_on, add_text, EventKind, logs, completes, end_event, with_text,
  sized_event, event, event_round, run_events,
}
use antsdr_dfone.Maintenance.Update.Events.{next_event, run_events-unroll}

-- An event on the wire: its name, the size of its text in decimal, the text.
abbrev pub event_bytes : Bytes → Bytes → Bytes → Bytes
event_bytes name text rest = (name ++ to_string (length text)) ++ b'\n' ∷ (text ++ rest)

-- The texts of a script as LOG events, the last one as DONE.
abbrev pub script : List Bytes → Bytes → Bytes → Bytes
script [] text rest = event_bytes (codes "DONE ") text rest
script (t ∷ ts) text rest = event_bytes (codes "LOG ") t (script ts text rest)

abbrev pub AllFit : List Bytes → Type 0
AllFit [] = Unit {0}
AllFit (t ∷ ts) = (length t ≤ max_firmware_response_bytes) × AllFit ts

abbrev pub texts : List Bytes → Bytes → Bytes
texts [] text = text
texts (t ∷ ts) text = t ++ texts ts text

-- A name that fits in front of a size.
abbrev IsName : Bytes → Type 0
IsName name = (lacks b'\n' name ≡ true) × (lacks b'\r' name ≡ true) × (length name ≤ 5)

lacks-append : (x : ℕ) (u v : Bytes) → lacks x u ≡ true → lacks x v ≡ true → lacks x (u ++ v) ≡ true
lacks-append x [] v h k = k
lacks-append x (c ∷ cs) v h k = ground (arith, lacks-append x cs v)

-- One event is received as it was sent.
record Receives (kind : EventKind) (u : Update) (name text rest : Bytes) : Type 0 where
  line_behind : Incoming
  line : recv_line u.stream 1024 ≡ (gives (name ++ to_string (length text)), line_behind)
  behind : Incoming
  ends :
      sized_event kind u (to_string (length text)) line_behind
      ≡ end_event kind (add_text u text behind)
  continues : readable behind ≡ rest

event-Receives :
    (kind : EventKind) (u : Update) (name text rest : Bytes)
    → IsName name
    → length text ≤ max_firmware_response_bytes
    → readable u.stream ≡ event_bytes name text rest
    → Receives kind u name text rest
event-Receives kind u name text rest g h e =
    let n = length text in
    let digits = to_string-all_digits n in
    let l =
      recv_line-Yields 1024 u.stream (name ++ to_string n) (text ++ rest) e
        (lacks-append b'\n' name (to_string n) g.0
          (lacks-all_digits b'\n' (to_string n) refl digits))
        (lacks-append b'\r' name (to_string n) g.1
          (lacks-all_digits b'\r' (to_string n) refl digits))
        (omega (arith, g.2, length-append name (to_string n), length-to_string n (omega arith))) in
    let y =
      read_body-Yields max_firmware_response_bytes (codes "invalid firmware update event size")
        l.behind text rest h (omega arith) l.continues in
    record {
      line_behind = l.behind;
      line = l.result;
      behind = y.behind;
      ends = ap (with_text kind u) y.result;
      continues = y.continues;
    }

log_event :
    (u : Update) (size : Bytes) (s : Incoming)
    → event u (codes "LOG " ++ size) s ≡ sized_event logs u size s
unfolding event starts_with
log_event u size s = refl

done_event :
    (u : Update) (size : Bytes) (s : Incoming)
    → event u (codes "DONE " ++ size) s ≡ sized_event completes u size s
unfolding event starts_with
done_event u size s = refl

-- The round of a LOG and of a DONE.
module _ (u : Update) (text rest : Bytes) (h : length text ≤ max_firmware_response_bytes) where
  log_round :
      readable u.stream ≡ event_bytes (codes "LOG ") text rest
      → (s : Incoming) × (event_round u (recv_line u.stream 1024) ≡ goes_on (add_text u text s))
        × (readable s ≡ rest)
  unfolding event_round
  log_round e =
      let r = event-Receives logs u (codes "LOG ") text rest (refl, refl, omega arith) h e in
      (
        r.behind,
        ap (event_round u) r.line ∙ log_event u (to_string (length text)) r.line_behind ∙ r.ends,
        r.continues,
      )

  done_round :
      readable u.stream ≡ event_bytes (codes "DONE ") text rest
      → (s : Incoming) × (event_round u (recv_line u.stream 1024) ≡ finished (add_text u text s))
        × (readable s ≡ rest)
  unfolding event_round
  done_round e =
      let r = event-Receives completes u (codes "DONE ") text rest (refl, refl, omega arith) h e in
      (
        r.behind,
        ap (event_round u) r.line ∙ done_event u (to_string (length text)) r.line_behind ∙ r.ends,
        r.continues,
      )

-- The end of a run that answered true.
pub record Ends (u : Update) (output rest : Bytes) : Type 0 where
  pub left : Update
  pub result : run_events u ≡ (none, left)
  pub output_is : left.output ≡ u.output ++ output
  pub at_rest : readable left.stream ≡ rest

-- When the service sends the texts of its script as LOG events and the last one as DONE, none longer
-- than 128 KB, however the stream is cut, the loop answers true, `output` has gained the texts in
-- order, and what follows them is left.
pub run_events-Ends :
    (ts : List Bytes) (u : Update) (text rest : Bytes)
    → AllFit ts
    → length text ≤ max_firmware_response_bytes
    → readable u.stream ≡ script ts text rest
    → Ends u (texts ts text) rest
run_events-Ends [] u text rest a h e =
    let (s, round, at) = done_round u text rest h e in
    record {
      left = add_text u text s;
      result = run_events-unroll u ∙ ap (next_event run_events) round;
      output_is = refl;
      at_rest = at;
    }
run_events-Ends (t ∷ ts) u text rest a h e =
    let (s, round, at) = log_round u t (script ts text rest) a.0 e in
    let y = run_events-Ends ts (add_text u t s) text rest a.1 h at in
    record {
      left = y.left;
      result = run_events-unroll u ∙ ap (next_event run_events) round ∙ y.result;
      output_is = y.output_is ∙ append_assoc u.output t (texts ts text);
      at_rest = y.at_rest;
    }
