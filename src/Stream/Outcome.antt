-- ===== src/Stream/Outcome.antt =====
-- What is left of a recording when `read_record_packets` returns, on every path.
use antsdr_dfone.Prelude.{
  ℕ, zero, suc, ◌+◌, ◌*◌, ◌%◌, ◌^◌, ◌≤◌, ◌<◌, ◌≡◌, ◌≢◌, refl, Bool, true, false, [], ◌++◌, Option,
  some, none, inl, inr, arith, length, length-append, Bytes, ltb, Bool-cases, ap, ◌∙◌,
}
use antsdr_dfone.OutputFile.{Closing, file_after, file_after-whole, length-file_after}
use antsdr_dfone.Wire.{Packet}
use antsdr_dfone.Stream.Invariant.{read_packet-Taken}
use antsdr_dfone.Stream.{
  StreamClient, read_packet, pending, RecordRequest, Disk, Recording, Round, stop, continue, report,
  take_packet, packet_or_stop, record_round, record_loop, Recorded, expected_bytes,
  read_record_packets,
}
use antsdr_dfone.Stream.Loop.{After, next_round}

-- The counter is the number of accepted bytes, which are within the request.
pub record IsWithin (expected : ℕ) (r : Recording) : Type 0 where
  pub counted : length r.accepted ≡ r.received_bytes
  pub within : r.received_bytes ≤ expected

report-IsWithin :
    (b : Bool) (expected : ℕ) (r : Recording)
    → IsWithin expected r
    → IsWithin expected (report b expected r)
unfolding report
report-IsWithin false expected r v = v
report-IsWithin true expected r v = record { counted = v.counted; within = v.within }

take_packet-IsWithin :
    (disk : Disk) (b : Bool) (expected : ℕ) (r : Recording) (p : Packet)
    → expected < 2 ^ 53
    → length p.payload < 2 ^ 24
    → IsWithin expected r
    → After (IsWithin expected) (take_packet disk b expected r p)
unfolding take_packet
take_packet-IsWithin disk b expected r p h k v = ground (
  arith,
  length-append r.accepted p.payload,
  report-IsWithin b expected (record r {
    received_bytes = (r.received_bytes + length p.payload) % 2 ^ 64;
    accepted = r.accepted ++ p.payload;
  }),
)

packet_or_stop-IsWithin :
    (disk : Disk) (b : Bool) (expected : ℕ) (r : Recording) (o : Option Packet × StreamClient)
    → expected < 2 ^ 53
    → ((p : Packet) → o.0 ≡ some p → length p.payload < 2 ^ 24)
    → IsWithin expected r
    → After (IsWithin expected) (packet_or_stop disk b expected r o)
unfolding packet_or_stop
packet_or_stop-IsWithin disk b expected r (none, c) h k v = record {
  counted = v.counted;
  within = v.within;
}
packet_or_stop-IsWithin disk b expected r (some p, c) h k v =
    take_packet-IsWithin disk b expected (record r { client = c }) p h (k p refl)
      (record { counted = v.counted; within = v.within })

record_round-IsWithin :
    (disk : Disk) (b : Bool) (expected : ℕ) (r : Recording)
    → expected < 2 ^ 53
    → IsWithin expected r
    → After (IsWithin expected) (record_round disk b expected r)
unfolding record_round
record_round-IsWithin disk b expected r h v =
    packet_or_stop-IsWithin disk b expected r (read_packet r.client) h
      (λ p e.
        (read_packet-Taken r.client {p = p} {c' = (read_packet r.client).1} (ground arith)).bounded)
      v

-- What the end of the loop says of the file.
record Ends (expected : ℕ) (o : Bool × Recording) : Type 0 where
  file_within : IsWithin expected o.1
  complete : o.0 ≡ true → expected ≤ o.1.received_bytes

next_round-Ends :
    (expected : ℕ) (again : Recording → Bool × Recording) (o : Round)
    → After (IsWithin expected) o
    → ((r : Recording) → IsWithin expected r → Ends expected (again r))
    → Ends expected (next_round again o)
next_round-Ends expected again (stop r) v h = record {
  file_within = v;
  complete = λ e. absurd (ground arith);
}
next_round-Ends expected again (continue r) v h = h r v

record_loop-Ends :
    (f : ℕ) (disk : Disk) (b : Bool) (expected : ℕ) (r : Recording)
    → expected < 2 ^ 53
    → IsWithin expected r
    → Ends expected (record_loop f disk b expected r)
unfolding record_loop
record_loop-Ends zero disk b expected r h v = record {
  file_within = v;
  complete = λ e. absurd (ground arith);
}
record_loop-Ends (suc f) disk b expected r h v = elim (Bool-cases (ltb r.received_bytes expected)) [
  | inl t ↦
      rw (t, record_loop)
        (next_round-Ends expected (record_loop f disk b expected) (record_round disk b expected r)
          (record_round-IsWithin disk b expected r h v)
          (λ r' v'. record_loop-Ends f disk b expected r' h v'))
  | inr t ↦ rw (t, record_loop) (record { file_within = v; complete = λ _. ground arith })
]

-- What the stream of an opened file has accepted, and what is left of it behind the answer true.
pub record HoldsFile (e : Closing) (q : RecordRequest) (o : Recorded) (accepted : Bytes)
    : Type 0 where
  pub not_longer : length accepted ≤ q.length_mb * 1024 * 1024
  pub full : o.done ≡ true → length accepted ≡ q.length_mb * 1024 * 1024
  pub left : o.done ≡ true → o.file ≡ some (file_after e accepted)
  pub left_not_longer : length (file_after e accepted) ≤ q.length_mb * 1024 * 1024
  pub left_full :
      e.flushes ≡ true → o.done ≡ true → length (file_after e accepted) ≡ q.length_mb * 1024 * 1024

-- Whatever the device and the network do and whichever writes fail: if the file of a recording is
-- opened, its stream accepts at most the requested bytes, and exactly as many when true is answered.
-- Behind the answer true the file is what the unchecked end of the stream leaves of them: never longer
-- than requested, and of the requested size if that end has flushed all of them.
pub read_record_packets-HoldsFile :
    (disk : Disk) (c : StreamClient) (q : RecordRequest) (b : Bool) (accepted : Bytes)
    → q.length_mb < 2 ^ 32
    → (read_record_packets disk c q b).accepted ≡ some accepted
    → HoldsFile disk.at_end q (read_record_packets disk c q b) accepted
unfolding read_record_packets
read_record_packets-HoldsFile disk c q b accepted h e =
    let start : Recording =
      report b (expected_bytes q)
        (record { client = c; received_bytes = 0; accepted = []; reports = [] }) in
    let size : expected_bytes q ≡ q.length_mb * 1024 * 1024 = omega arith in
    let d =
      record_loop-Ends (suc (pending c.socket_fd)) disk b (expected_bytes q) start (omega arith) (
        report-IsWithin b (expected_bytes q)
          (record { client = c; received_bytes = 0; accepted = []; reports = [] })
          (record { counted = refl; within = omega arith })) in
    let shorter = length-file_after disk.at_end accepted in
    let bound : length accepted ≤ q.length_mb * 1024 * 1024 =
      ground (arith, d.file_within.counted, d.file_within.within) in
    let all : (read_record_packets disk c q b).done ≡ true
        → length accepted ≡ q.length_mb * 1024 * 1024 =
      ground (arith, d.file_within.counted, d.file_within.within, d.complete) in
    record {
      not_longer = bound;
      full = all;
      left = λ done. ground arith;
      left_not_longer = omega (arith, bound, shorter);
      left_full =
          λ flushed done. ap length (file_after-whole disk.at_end accepted flushed) ∙ all done;
    }

-- True is never answered without a stream.
pub read_record_packets-accepted :
    (disk : Disk) (c : StreamClient) (q : RecordRequest) (b : Bool)
    → (read_record_packets disk c q b).done ≡ true
    → (read_record_packets disk c q b).accepted ≢ none
unfolding read_record_packets
read_record_packets-accepted disk c q b e = ground arith
