-- ===== src/Stream/Complete.antt =====
-- Recordings from a stream that carries what was asked for.
use antsdr_dfone.Prelude.{
  ℕ, suc, ◌+◌, ◌*◌, ◌%◌, ◌^◌, ◌≤◌, ◌<◌, ◌≡◌, ◌≢◌, refl, sym, ap, subst, ◌∙◌, Bool, true, false, not,
  List, [], ◌∷◌, ◌++◌, some, arith, length, length-append, Bytes, ltb, ◌==◌, lt→ltb, le→ltb,
  if◌then◌else◌, append-nil, append_assoc,
}
use antsdr_dfone.OutputFile.{Closing, file_after, file_after-whole}
use antsdr_dfone.Net.{Incoming, Socket}
use antsdr_dfone.Net.Reading.{readable}
use antsdr_dfone.Wire.{Packet, receive_packet, packet_type_code, record_iq}
use antsdr_dfone.Wire.Packets.{Carries, last, more, receive_packet-Next}
use antsdr_dfone.Stream.Invariant.{read_packet-Next}
use antsdr_dfone.Stream.{
  StreamClient, pending, RecordRequest, Disk, Recording, continue, report, take_packet,
  packet_or_stop, record_round, record_loop, Recorded, refuse_record, recorded, expected_bytes,
  read_record_packets,
}
use antsdr_dfone.Stream.Loop.{run_loop, run_loop-unroll}

-- Record packets, none of them empty.
abbrev pub AllRecord : List Packet → Type 0
AllRecord [] = Unit {0}
AllRecord (p ∷ ps) =
    (p.header.magic_type ≡ packet_type_code record_iq) × (p.payload ≢ []) × AllRecord ps

abbrev pub payloads : List Packet → Bytes
payloads [] = []
payloads (p ∷ ps) = p.payload ++ payloads ps

-- The calls of the progress callback behind `received` bytes.
abbrev pub reports_after : Bool → ℕ → ℕ → List Packet → List (ℕ × ℕ)
reports_after b expected received [] = []
reports_after b expected received (p ∷ ps) =
    (if b then (received + length p.payload, expected) ∷ [] else [])
    ++ reports_after b expected (received + length p.payload) ps

nonempty : (xs : Bytes) → xs ≢ [] → (length xs == 0) ≡ false
nonempty [] h = absurd (h refl)
nonempty (x ∷ xs) h = ground arith

length_pos : (xs : Bytes) → xs ≢ [] → 0 < length xs
length_pos [] h = absurd (h refl)
length_pos (x ∷ xs) h = omega arith

report-eq :
    (b : Bool) (expected : ℕ) (r : Recording)
    → report b expected r
      ≡ record r { reports = r.reports ++ (if b then (r.received_bytes, expected) ∷ [] else []) }
unfolding report
report-eq false expected r = ap (λ l. record r { reports = l }) (sym (append-nil r.reports))
report-eq true expected r = refl

-- The recording after one more packet has been stored.
abbrev stored : Bool → ℕ → Recording → StreamClient → Bytes → Recording
stored b expected r c payload = record {
  client = c;
  received_bytes = r.received_bytes + length payload;
  accepted = r.accepted ++ payload;
  reports = r.reports ++ (if b then (r.received_bytes + length payload, expected) ∷ [] else []);
}

take_packet-stored :
    (disk : Disk) (b : Bool) (expected : ℕ) (r : Recording) (p : Packet)
    → p.header.magic_type ≡ packet_type_code record_iq
    → p.payload ≢ []
    → r.received_bytes + length p.payload ≤ expected
    → expected < 2 ^ 64
    → disk.stores r.received_bytes ≡ true
    → take_packet disk b expected r p ≡ continue (stored b expected r r.client p.payload)
unfolding take_packet
take_packet-stored disk b expected r p m ne fits h w =
    let wrap : (r.received_bytes + length p.payload) % 2 ^ 64
        ≡ r.received_bytes + length p.payload =
      omega arith in
    rw
      (
        m,
        nonempty p.payload ne,
        wrap,
        le→ltb expected (r.received_bytes + length p.payload) fits,
        w,
      )
      (ap continue (
        report-eq b expected (record r {
          received_bytes = r.received_bytes + length p.payload;
          accepted = r.accepted ++ p.payload;
        })))

-- One round on a stream whose next packet is such a packet.
record_round-stored :
    (disk : Disk) (b : Bool) (expected : ℕ) (r : Recording) (s : Socket) (p : Packet) {t : Incoming}
    → r.client.opened ≡ true
    → r.client.socket_fd ≡ some s
    → receive_packet s.incoming ≡ (some p, t)
    → p.header.magic_type ≡ packet_type_code record_iq
    → p.payload ≢ []
    → r.received_bytes + length p.payload ≤ expected
    → expected < 2 ^ 64
    → disk.stores r.received_bytes ≡ true
    → record_round disk b expected r
      ≡ continue (
          stored b expected r
            (record (r.client) { socket_fd = some (record s { incoming = t }) })
            p.payload)
unfolding record_round packet_or_stop
record_round-stored disk b expected r s p {t} o e n m ne fits h w =
    rw (read_packet-Next r.client s p o e n, packet_or_stop)
      (take_packet-stored disk b expected
        (record r { client = record (r.client) { socket_fd = some (record s { incoming = t }) } }) p
        m ne fits h w)

-- A finished recording: all of the packets are in the file and reported, and the stream is at `rest`.
record Finishes (b : Bool) (expected : ℕ) (r : Recording) (s : Socket) (ps : List Packet)
    (rest : Bytes) (o : Bool × Recording) : Type 0 where
  answers : o.0 ≡ true
  accepted_is : o.1.accepted ≡ r.accepted ++ payloads ps
  reports_are : o.1.reports ≡ r.reports ++ reports_after b expected r.received_bytes ps
  behind : Incoming
  handle : o.1.client.socket_fd ≡ some (record s { incoming = behind })
  at_rest : readable behind ≡ rest

module _ (disk : Disk) (b : Bool) (expected : ℕ) (small : expected < 2 ^ 64)
    (good : (n : ℕ) → disk.stores n ≡ true) where
  run_loop-Finishes :
      (ps : List Packet) (r : Recording) (s : Socket) (rest : Bytes)
      → r.client.opened ≡ true
      → r.client.socket_fd ≡ some s
      → Carries rest (readable s.incoming) ps
      → AllRecord ps
      → r.received_bytes + length (payloads ps) ≡ expected
      → Finishes b expected r s ps rest (run_loop disk b expected r)
  run_loop-Finishes [] r s rest o e (last z) a total =
      let full : ltb r.received_bytes expected ≡ false =
        le→ltb r.received_bytes expected (omega arith) in
      rw (run_loop-unroll disk b expected r) (
        rw full (record {
          answers = refl;
          accepted_is = sym (append-nil r.accepted);
          reports_are = sym (append-nil r.reports);
          behind = s.incoming;
          handle = e;
          at_rest = z;
        }))
  run_loop-Finishes (p ∷ ps) r s rest o e (more v q later) a total =
      let n = receive_packet-Next s.incoming p _ v q in
      let size = length-append p.payload (payloads ps) in
      let before : ltb r.received_bytes expected ≡ true =
        lt→ltb r.received_bytes expected (omega (arith, size, length_pos p.payload a.1)) in
      let c1 : StreamClient = record (r.client) {
        socket_fd = some (record s { incoming = n.behind });
      } in
      let r1 : Recording = stored b expected r c1 p.payload in
      let step =
        record_round-stored disk b expected r s p o e n.received a.0 a.1 (omega (arith, size)) small
          (good r.received_bytes) in
      let d =
        run_loop-Finishes ps r1 (record s { incoming = n.behind }) rest o refl
          (subst (λ l. Carries rest l ps) (sym n.continues) later) a.2 (omega (arith, size)) in
      rw (run_loop-unroll disk b expected r) (
        rw before (
          rw step (record {
            answers = d.answers;
            accepted_is = d.accepted_is ∙ append_assoc r.accepted p.payload (payloads ps);
            reports_are = d.reports_are ∙ append_assoc r.reports _ _;
            behind = d.behind;
            handle = d.handle;
            at_rest = d.at_rest;
          })))

three_guards {ℓ} :
    {A : Type ℓ} (x y z : Bool) (u v : A)
    → x ≡ true
    → y ≡ false
    → z ≡ true
    → (if not x then u else if y then u else if not z then u else v) ≡ v
three_guards x y z u v a b c = rw (a, b, c)

-- What a complete recording gives.
pub record IsComplete (e : Closing) (b : Bool) (q : RecordRequest) (ps : List Packet) (rest : Bytes)
    (o : Recorded) : Type 0 where
  pub answers : o.done ≡ true
  pub accepted_is : o.accepted ≡ some (payloads ps)
  pub file_left : o.file ≡ some (file_after e (payloads ps))
  pub file_is : e.flushes ≡ true → o.file ≡ some (payloads ps)
  pub reports_are :
      o.reports
      ≡ (if b then (0, expected_bytes q) ∷ [] else []) ++ reports_after b (expected_bytes q) 0 ps
  pub left : Socket
  pub handle : o.client.socket_fd ≡ some left
  pub at_rest : readable left.incoming ≡ rest

recorded-file :
    (e : Closing) (x : Bool × Recording)
    → x.0 ≡ true
    → (recorded e x).file ≡ some (file_after e x.1.accepted)
recorded-file e (b, r) h = ground arith

-- When the channel is open, the file can be written, and the stream carries non-empty record
-- packets of the requested total, the recording succeeds: the stream of the file has accepted their
-- payloads in order, and the file is these when the end of the stream flushes them all;
-- the callback has seen every running total, and the stream is left right behind them.
pub read_record_packets-IsComplete :
    (disk : Disk) (c : StreamClient) (q : RecordRequest) (b : Bool) (s : Socket) (ps : List Packet)
    (rest : Bytes)
    → c.opened ≡ true
    → c.socket_fd ≡ some s
    → q.output_path ≢ []
    → disk.opens q.output_path ≡ true
    → ((n : ℕ) → disk.stores n ≡ true)
    → q.length_mb < 2 ^ 32
    → Carries rest (readable s.incoming) ps
    → AllRecord ps
    → length (payloads ps) ≡ q.length_mb * 1024 * 1024
    → IsComplete disk.at_end b q ps rest (read_record_packets disk c q b)
unfolding read_record_packets
read_record_packets-IsComplete disk c q b s ps rest o e path opens good small packets a total =
    let start : Recording = record {
      client = c;
      received_bytes = 0;
      accepted = [];
      reports = if b then (0, expected_bytes q) ∷ [] else [];
    } in
    let d =
      run_loop-Finishes disk b (expected_bytes q) (omega arith) good ps start s rest o e packets a
        (omega arith) in
    let begun : report b (expected_bytes q)
          (record { client = c; received_bytes = 0; accepted = []; reports = [] })
        ≡ start =
      report-eq b (expected_bytes q)
        (record { client = c; received_bytes = 0; accepted = []; reports = [] }) in
    let outcome : Recorded = recorded disk.at_end (run_loop disk b (expected_bytes q) start) in
    let same : read_record_packets disk c q b ≡ outcome =
      three_guards c.opened (length q.output_path == 0) (disk.opens q.output_path) (refuse_record c)
        _ o (nonempty q.output_path path) opens
      ∙ ap
          (λ r.
            recorded disk.at_end
              (record_loop (suc (pending c.socket_fd)) disk b (expected_bytes q) r))
          begun in
    let left = recorded-file disk.at_end (run_loop disk b (expected_bytes q) start) d.answers in
    rw same (record {
      answers = d.answers;
      accepted_is = ap some d.accepted_is;
      file_left = left ∙ ap (λ x. some (file_after disk.at_end x)) d.accepted_is;
      file_is = λ f.
          left
          ∙ ap (λ x. some (file_after disk.at_end x)) d.accepted_is
          ∙ ap some (file_after-whole disk.at_end (payloads ps) f);
      reports_are = d.reports_are;
      left = record s { incoming = d.behind };
      handle = d.handle;
      at_rest = d.at_rest;
    })
