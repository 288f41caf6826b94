-- ===== src/Stream/Unchecked.antt =====
-- The end of the output stream of a recording, which `read_record_packets` does not check.
use antsdr_dfone.Prelude.{◌≡◌}
use antsdr_dfone.OutputFile.{Closing}
use antsdr_dfone.Stream.{Disk, Recorded}

-- The same disk with another end.
abbrev pub ending_in : Closing → Disk → Disk
ending_in e disk = record disk { at_end = e }

-- The same recording, but for the file.
abbrev pub IsSameRecord : Recorded → Recorded → Type 0
IsSameRecord x y =
    (x.done ≡ y.done) × (x.client ≡ y.client) × (x.accepted ≡ y.accepted) × (x.reports ≡ y.reports)
