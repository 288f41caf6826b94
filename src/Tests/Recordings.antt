-- ===== src/Tests/Recordings.antt =====
-- Recordings at concrete inputs.
use antsdr_dfone.Prelude.{
  ℕ, zero, suc, ◌*◌, ◌≡◌, ◌≢◌, refl, ap, ◌∙◌, true, false, [], ◌∷◌, ◌++◌, some, inl, inr, arith,
  Bytes, replicate, length, append-nil,
}
use antsdr_dfone.Net.{Socket, Incoming, push_back, read_exact, takes_all}
use antsdr_dfone.Net.Reading.{readable, readable-push_back}
use antsdr_dfone.Wire.{Packet, record_iq, write_u32_le}
use antsdr_dfone.Wire.Packets.{Carries, last, more, encode_header}
use antsdr_dfone.Stream.{RecordRequest, read_record_packets}
use antsdr_dfone.Stream.Complete.{payloads, IsComplete, read_record_packets-IsComplete}
use antsdr_dfone.OutputFile.{Closing}
use antsdr_dfone.Stream.Outcome.{HoldsFile, read_record_packets-HoldsFile}
use antsdr_dfone.Control.{ControlClient, response_value}
use antsdr_dfone.Acquire.{start_record}
use antsdr_dfone.Acquire.Checks.{IsAllowed, IsRecorded, start_record-IsRecorded}
use antsdr_dfone.Acquire.Recording.{Ready, Answers, says_ssd}
use antsdr_dfone.Acquire.Whole.{Records, start_record-Records}
use antsdr_dfone.Tests.Data.{
  packet, packet-IsHeader, zero_response, zero_response-IsHeader, responds, socket, command_client,
  data_client, good_disk, ended,
}

length-replicate : (n : ℕ) → length {A = ℕ} (replicate n 0) ≡ n
length-replicate zero = omega arith
length-replicate (suc n) = omega (arith, length-replicate n)

-- The samples of a recording of 4 MB, in one packet; they are never evaluated.
unfoldable samples : Bytes
samples = replicate (4 * 1024 * 1024) 0

length-samples : length samples ≡ 4 * 1024 * 1024
unfolding samples
length-samples = length-replicate (4 * 1024 * 1024)

samples-nonempty : samples ≢ []
samples-nonempty e = absurd (omega (arith, length-samples, ap length e))

abbrev record_packet : Packet
record_packet = packet record_iq samples

-- The data channel brings that packet, and nothing more.
abbrev record_bytes : Bytes
record_bytes =
    encode_header record_packet.header
      (packet-IsHeader record_iq samples (omega (arith, length-samples)))
    ++ (samples ++ [])

abbrev record_stream : Incoming
record_stream = push_back record_bytes ended

record_stream-Carries : Carries [] (readable record_stream) (record_packet ∷ [])
unfolding readable
record_stream-Carries =
    more {later = []} (packet-IsHeader record_iq samples (omega (arith, length-samples)))
      (readable-push_back record_bytes ended ∙ append-nil record_bytes) (last refl)

abbrev request : RecordRequest
request = record { channel_mask = 3; length_mb = 4; output_path = 120 ∷ [] }

samples-total : length (payloads (record_packet ∷ [])) ≡ 4 * 1024 * 1024
samples-total = ap length (append-nil samples) ∙ length-samples

request-IsAllowed : IsAllowed false request
request-IsAllowed = record {
  channels = inr (inl (omega arith));
  positive = omega arith;
  multiple = omega arith;
  limited = omega arith;
}

read_record_packets-IsComplete_example :
    IsComplete good_disk.at_end true request
      (record_packet ∷ [])
      []
      (read_record_packets good_disk (data_client record_stream) request true)
read_record_packets-IsComplete_example =
    read_record_packets-IsComplete good_disk (data_client record_stream) request true
      (socket record_stream) (record_packet ∷ []) [] refl refl (λ e. cc) refl (λ n. refl)
      (omega arith) record_stream-Carries (refl, samples-nonempty, tt) samples-total

-- A command channel whose peer takes every frame and answers zero three times.
abbrev answering : Socket
answering = record (socket (responds (responds (responds ended)))) { outgoing = takes_all }

abbrev answering_client : ControlClient
answering_client = record (command_client ended) { socket_fd = some answering }

answering-Ready : Ready answering_client answering
answering-Ready = record { is_connected = refl; handle = refl; takes = refl }

first-Answers :
    Answers (readable (responds (responds ended))) (readable answering.incoming) zero_response
unfolding readable write_u32_le
first-Answers = record {
  skipped = [];
  packets =
      more {later = readable (responds (responds ended))} zero_response-IsHeader refl (last refl);
  skips = tt;
  is_answer = refl;
}

second-Answers :
    Answers (readable (responds ended)) (readable (responds (responds ended))) zero_response
unfolding readable write_u32_le
second-Answers = record {
  skipped = [];
  packets = more {later = readable (responds ended)} zero_response-IsHeader refl (last refl);
  skips = tt;
  is_answer = refl;
}

third-Answers : Answers [] (readable (responds ended)) zero_response
unfolding readable write_u32_le
third-Answers = record {
  skipped = [];
  packets = more {later = []} zero_response-IsHeader refl (last refl);
  skips = tt;
  is_answer = refl;
}

zero_response-value : response_value zero_response ≡ 0
unfolding response_value
zero_response-value = refl

zero_response-IsAllowed : IsAllowed (says_ssd zero_response) request
unfolding response_value
zero_response-IsAllowed = request-IsAllowed

start_record-Records_example :
    Records good_disk.at_end answering_client answering request true
      (record_packet ∷ [])
      []
      []
      (start_record good_disk answering_client (data_client record_stream) request true)
start_record-Records_example =
    start_record-Records good_disk answering_client answering (data_client record_stream)
      (socket record_stream) request true zero_response zero_response zero_response
      (record_packet ∷ []) (readable (responds (responds ended))) (readable (responds ended)) [] []
      answering-Ready first-Answers second-Answers third-Answers zero_response-value
      zero_response-value zero_response-IsAllowed refl refl (λ e. cc) refl (λ n. refl) (omega arith)
      record_stream-Carries (refl, samples-nonempty, tt) samples-total

-- The same run again, for what its answer means.
recorded-done :
    (start_record good_disk answering_client (data_client record_stream) request true).outcome.done
    ≡ true
recorded-done =
    (start_record-Records good_disk answering_client answering (data_client record_stream)
      (socket record_stream) request true zero_response zero_response zero_response
      (record_packet ∷ []) (readable (responds (responds ended))) (readable (responds ended)) [] []
      answering-Ready first-Answers second-Answers third-Answers zero_response-value
      zero_response-value zero_response-IsAllowed refl refl (λ e. cc) refl (λ n. refl) (omega arith)
      record_stream-Carries (refl, samples-nonempty, tt) samples-total).file_complete.answers

start_record-IsRecorded_example :
    IsRecorded good_disk.at_end answering_client request
      (start_record good_disk answering_client (data_client record_stream) request true)
start_record-IsRecorded_example =
    start_record-IsRecorded good_disk answering_client (data_client record_stream) request true
      (omega arith) recorded-done

-- Two channels that are not neighbours.
abbrev bad_request : RecordRequest
bad_request = record { channel_mask = 5; length_mb = 4; output_path = 120 ∷ [] }

bad_request-refused : ¬ IsAllowed false bad_request
bad_request-refused a = ground (arith, a.channels)

-- A stream that ends before the first packet leaves an empty file, and no more than that.
read_record_packets-HoldsFile_example :
    HoldsFile good_disk.at_end request
      (read_record_packets good_disk (data_client ended) request false)
      []
unfolding read_record_packets read_exact
read_record_packets-HoldsFile_example =
    read_record_packets-HoldsFile good_disk (data_client ended) request false [] (omega arith) refl

-- A disk that loses all but two bytes at the end.
abbrev losing : Closing
losing = record { flushes = false; keeps = λ _. 2 }
