-- ===== src/Acquire/Whole.antt =====
-- A recording from the question for the storage to the last byte of the file, over both channels.
use antsdr_dfone.Prelude.{
  ℕ, ◌+◌, ◌*◌, ◌%◌, ◌^◌, ◌<◌, ◌≡◌, ◌≢◌, sym, ap, subst, ◌∙◌, Bool, true, List, [], ◌++◌, some, inl,
  inr, length, Bytes, append_assoc,
}
use mathlib.Core.Bool.{false≢true}
use antsdr_dfone.OutputFile.{Closing}
use antsdr_dfone.Net.{Socket}
use antsdr_dfone.Net.Reading.{readable}
use antsdr_dfone.Wire.{Packet, command_frame}
use antsdr_dfone.Wire.Packets.{Carries}
use antsdr_dfone.Stream.{StreamClient, RecordRequest, Disk}
use antsdr_dfone.Stream.Complete.{AllRecord, payloads, IsComplete, read_record_packets-IsComplete}
use antsdr_dfone.Control.{ControlClient, response_value}
use antsdr_dfone.Acquire.{record_mask, begin_record, check_record, start_record, Started}
use antsdr_dfone.Acquire.Checks.{IsAllowed, checks_iff, check_record-checks}
use antsdr_dfone.Acquire.Recording.{
  Ready, Answers, answered, says_ssd, control_has_ssd-answered, send_command-answered,
  begin_record-answered,
}

abbrev next : ℕ → ℕ
next seq = (seq + 1) % 2 ^ 16

-- The three frames of a recording, in order, from a sequence number on.
abbrev pub record_frames : ℕ → RecordRequest → Bytes
record_frames seq q =
    command_frame seq 0x21 0
    ++ (command_frame (next seq) 0x20 (record_mask q)
        ++ command_frame (next (next seq)) 0x22 q.length_mb)

frames_on_wire :
    {w0 w1 w2 : Bytes} {n1 n2 : ℕ} (seq x y : ℕ) (w : Bytes)
    → w0 ≡ w ++ command_frame seq 0x21 0
    → w1 ≡ w0 ++ command_frame n1 0x20 x
    → w2 ≡ w1 ++ command_frame n2 0x22 y
    → n1 ≡ next seq
    → n2 ≡ next n1
    → w2
      ≡ w
        ++ (command_frame seq 0x21 0
            ++ (command_frame (next seq) 0x20 x ++ command_frame (next (next seq)) 0x22 y))
frames_on_wire seq x y w a b c p q = cc (
  append_assoc w (command_frame seq 0x21 0)
      (command_frame (next seq) 0x20 x ++ command_frame (next (next seq)) 0x22 y),
  append_assoc (w ++ command_frame seq 0x21 0) (command_frame (next seq) 0x20 x)
      (command_frame (next (next seq)) 0x22 y),
)

-- What a recording that nothing disturbs gives: a complete recording, and a command channel that has
-- sent the three frames and stands behind the three responses.
pub record Records (e : Closing) (c : ControlClient) (s : Socket) (q : RecordRequest) (b : Bool)
    (ps : List Packet) (rest data_rest : Bytes) (o : Started) : Type 0 where
  pub file_complete : IsComplete e b q ps data_rest o.outcome
  pub left : Socket
  pub left_ready : Ready o.control left
  pub at_rest : readable left.incoming ≡ rest
  pub on_wire : left.wire ≡ s.wire ++ record_frames c.next_seq q

-- When the command channel is connected to a peer that takes every frame and brings an answer
-- about the storage and two zero responses, the request is allowed on that storage, and the open
-- data channel carries non-empty record packets of the requested total to a disk that takes them,
-- `start_record` answers true: the device has been sent exactly the question, the channel mask and
-- the length, in this order under consecutive sequence numbers, the stream of the file has accepted
-- the payloads in order, and the file is these when the end of the stream flushes them all, and both
-- channels are left behind what was read.
pub start_record-Records :
    (disk : Disk) (c : ControlClient) (s : Socket) (t : StreamClient) (u : Socket)
    (q : RecordRequest) (b : Bool) (p0 p1 p2 : Packet) (ps : List Packet)
    (rest0 rest1 rest data_rest : Bytes)
    → Ready c s
    → Answers rest0 (readable s.incoming) p0
    → Answers rest1 rest0 p1
    → Answers rest rest1 p2
    → response_value p1 ≡ 0
    → response_value p2 ≡ 0
    → IsAllowed (says_ssd p0) q
    → t.opened ≡ true
    → t.socket_fd ≡ some u
    → q.output_path ≢ []
    → disk.opens q.output_path ≡ true
    → ((n : ℕ) → disk.stores n ≡ true)
    → q.length_mb < 2 ^ 32
    → Carries data_rest (readable u.incoming) ps
    → AllRecord ps
    → length (payloads ps) ≡ q.length_mb * 1024 * 1024
    → Records disk.at_end c s q b ps rest data_rest (start_record disk c t q b)
unfolding start_record
start_record-Records disk c s t u q b p0 p1 p2 ps rest0 rest1 rest data_rest k a0 a1 a2 z1 z2
      allowed opened holds path opens stores small carries all total =
    let d0 = answered c s 0x21 0 p0 rest0 k a0 in
    let d1 =
      answered d0.after d0.socket 0x20 (record_mask q) p1 rest1 d0.ready
        (subst (λ x. Answers rest1 x p1) (sym d0.at_rest) a1) in
    let d2 =
      answered d1.after d1.socket 0x22 q.length_mb p2 rest d1.ready
        (subst (λ x. Answers rest x p2) (sym d1.at_rest) a2) in
    let asked : start_record disk c t q b ≡ check_record disk t q b (some (says_ssd p0), d0.after) =
      ap (check_record disk t q b) (control_has_ssd-answered c d0.sends d0.answers) in
    let passes : check_record disk t q b (some (says_ssd p0), d0.after)
        ≡ begin_record disk d0.after t q b =
      elim (check_record-checks disk t q b (says_ssd p0) d0.after) [
        | inl (_, same) ↦ same
        | inr (fails, _) ↦ absurd (false≢true (sym fails ∙ (checks_iff (says_ssd p0) q).1 allowed))
      ] in
    let begun =
      begin_record-answered disk t q b d0.after
        (send_command-answered d0.after 0x20 (record_mask q) d1.sends d1.answers z1) d2.sends
        d2.answers z2 in
    rw (asked ∙ passes ∙ begun) (record {
      file_complete =
          read_record_packets-IsComplete disk t q b u ps data_rest opened holds path opens stores
            small carries all total;
      left = d2.socket;
      left_ready = d2.ready;
      at_rest = d2.at_rest;
      on_wire =
          frames_on_wire c.next_seq (record_mask q) q.length_mb s.wire d0.on_wire d1.on_wire
            d2.on_wire d0.seq_after d1.seq_after;
    })
