-- ===== src/Acquire/Invariant.antt =====
-- The invariants of both clients through captures and recordings.
use antsdr_dfone.Prelude.{ℕ, Bool, Option, some, none, inl, inr, arith, Bool-cases}
use antsdr_dfone.Wire.{Packet}
use antsdr_dfone.Stream.{StreamClient, RecordRequest, Disk, read_capture_packet}
use antsdr_dfone.Stream.Invariant
use antsdr_dfone.Stream.Invariant.{read_capture_packet-IsValid}
use antsdr_dfone.Stream.Validity.{read_record_packets-IsValid}
use antsdr_dfone.Control.{
  ControlClient, send_command_frame, read_response, send_command, control_has_ssd,
}
use antsdr_dfone.Control.Commands
use antsdr_dfone.Control.Commands.{
  send_command_frame-IsValid, read_response-IsValid, expect_zero-IsValid, send_command-IsValid,
  control_has_ssd-IsValid,
}
use antsdr_dfone.Acquire.{
  Clients, confirm_capture, capture_packet, send_command_for_capture, Started, begin_record,
  check_record, start_record, record_mask,
}

-- Both clients are in order.
pub record IsValid (c : ControlClient) (t : StreamClient) : Type 0 where
  pub control_valid : Commands.IsValid c
  pub stream_valid : Invariant.IsValid t

capture_packet-IsValid :
    (c : ControlClient) (r : Option Packet × StreamClient)
    → Commands.IsValid c
    → Invariant.IsValid r.1
    → (let k = (capture_packet c r).clients in IsValid k.control k.stream)
unfolding capture_packet confirm_capture
capture_packet-IsValid c (none, t) v w = record { control_valid = v; stream_valid = w }
capture_packet-IsValid c (some p, t) v w = record {
  control_valid = expect_zero-IsValid (read_response c) (read_response-IsValid c v);
  stream_valid = w;
}

pub send_command_for_capture-IsValid :
    (k : Clients) (addr value : ℕ)
    → IsValid k.control k.stream
    → (let k' = (send_command_for_capture k addr value).clients in IsValid k'.control k'.stream)
unfolding send_command_for_capture
send_command_for_capture-IsValid k addr value v =
    let sent = send_command_frame-IsValid k.control addr value v.control_valid in
    elim (Bool-cases (send_command_frame k.control addr value).0) [
      | inl t ↦
          rw (t, send_command_for_capture)
            (capture_packet-IsValid _ (read_capture_packet k.stream) sent
              (read_capture_packet-IsValid k.stream v.stream_valid))
      | inr t ↦
          rw (t, send_command_for_capture)
            (record { control_valid = sent; stream_valid = v.stream_valid })
    ]

abbrev pub StartedIsValid : Started → Type 0
StartedIsValid o = IsValid o.control o.outcome.client

begin_record-IsValid :
    (disk : Disk) (c : ControlClient) (t : StreamClient) (q : RecordRequest) (b : Bool)
    → IsValid c t
    → StartedIsValid (begin_record disk c t q b)
unfolding begin_record
begin_record-IsValid disk c t q b v =
    let c1 = send_command c 0x20 (record_mask q) in
    let v1 = send_command-IsValid c 0x20 (record_mask q) v.control_valid in
    let c2 = send_command_frame c1.1 0x22 q.length_mb in
    let v2 = send_command_frame-IsValid c1.1 0x22 q.length_mb v1 in
    let v3 = expect_zero-IsValid (read_response c2.1) (read_response-IsValid c2.1 v2) in
    ground
      (arith, v.stream_valid, v1, v2, v3, read_record_packets-IsValid disk t q b v.stream_valid)

check_record-IsValid :
    (disk : Disk) (t : StreamClient) (q : RecordRequest) (b : Bool)
    (r : Option Bool × ControlClient)
    → IsValid r.1 t
    → StartedIsValid (check_record disk t q b r)
unfolding check_record
check_record-IsValid disk t q b (none, c) v = v
check_record-IsValid disk t q b (some h, c) v = ground (arith, begin_record-IsValid disk c t q b v)

pub start_record-IsValid :
    (disk : Disk) (c : ControlClient) (t : StreamClient) (q : RecordRequest) (b : Bool)
    → IsValid c t
    → StartedIsValid (start_record disk c t q b)
unfolding start_record
start_record-IsValid disk c t q b v = check_record-IsValid disk t q b (control_has_ssd c) (record {
  control_valid = control_has_ssd-IsValid c v.control_valid;
  stream_valid = v.stream_valid;
})
