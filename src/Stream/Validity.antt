-- ===== src/Stream/Validity.antt =====
-- A recording keeps the invariant of the data channel.
use antsdr_dfone.Prelude.{
  ℕ, zero, suc, ◌≡◌, Bool, Option, some, none, [], inl, inr, arith, ltb, Bool-cases,
}
use antsdr_dfone.Wire.{Packet}
use antsdr_dfone.Stream.{
  StreamClient, read_packet, RecordRequest, Disk, Recording, Round, stop, continue, record_round,
  packet_or_stop, record_loop, read_record_packets, report, pending, expected_bytes,
}
use antsdr_dfone.Stream.Loop.{After, After-mono, take_packet-client, next_round, report-client}
use antsdr_dfone.Stream.Invariant.{IsValid, read_packet-IsValid}

packet_or_stop-IsValid :
    (disk : Disk) (b : Bool) (expected : ℕ) (r : Recording) (o : Option Packet × StreamClient)
    → IsValid o.1
    → After (λ r'. IsValid r'.client) (packet_or_stop disk b expected r o)
unfolding packet_or_stop
packet_or_stop-IsValid disk b expected r (none, c) v = v
packet_or_stop-IsValid disk b expected r (some p, c) v =
    After-mono (λ r'. r'.client ≡ c) (λ r'. IsValid r'.client) _ (λ r' same. rw same v)
      (take_packet-client disk b expected (record r { client = c }) p)

next_round-IsValid :
    (again : Recording → Bool × Recording) (o : Round)
    → After (λ r'. IsValid r'.client) o
    → ((r : Recording) → IsValid r.client → IsValid (again r).1.client)
    → IsValid (next_round again o).1.client
next_round-IsValid again (stop r) v h = v
next_round-IsValid again (continue r) v h = h r v

record_loop-IsValid :
    (f : ℕ) (disk : Disk) (b : Bool) (expected : ℕ) (r : Recording)
    → IsValid r.client
    → IsValid (record_loop f disk b expected r).1.client
unfolding record_loop record_round
record_loop-IsValid zero disk b expected r v = v
record_loop-IsValid (suc f) disk b expected r v =
    elim (Bool-cases (ltb r.received_bytes expected)) [
      | inl t ↦
          rw (t, record_loop)
            (next_round-IsValid (record_loop f disk b expected) (record_round disk b expected r)
              (packet_or_stop-IsValid disk b expected r (read_packet r.client)
                (read_packet-IsValid r.client v))
              (λ r' v'. record_loop-IsValid f disk b expected r' v'))
      | inr t ↦ rw (t, record_loop) v
    ]

pub read_record_packets-IsValid :
    (disk : Disk) (c : StreamClient) (q : RecordRequest) (b : Bool)
    → IsValid c
    → IsValid (read_record_packets disk c q b).client
unfolding read_record_packets
read_record_packets-IsValid disk c q b v =
    let start : Recording = record {
      client = c;
      received_bytes = 0;
      accepted = [];
      reports = [];
    } in
    ground (
      arith,
      record_loop-IsValid (suc (pending c.socket_fd)) disk b (expected_bytes q)
          (report b (expected_bytes q) start) (rw (report-client b (expected_bytes q) start) v),
    )
