-- ===== src/OutputFile.antt =====
-- What is left of an output file when its std::ofstream is closed or destroyed. Bytes that the
-- stream has accepted may still stand in its buffer then.
use antsdr_dfone.Prelude.{
  ℕ, ◌≤◌, ◌≡◌, Bool, true, if◌then◌else◌, arith, length, take, length-take, Bytes,
}

-- Whether the flush and the close succeed, and how many of the accepted bytes are in the file if
-- they do not.
pub record Closing : Type 0 where
  pub flushes : Bool
  pub keeps : Bytes → ℕ

abbrev pub file_after : Closing → Bytes → Bytes
file_after c accepted = if c.flushes then accepted else take (c.keeps accepted) accepted

pub file_after-whole :
    (c : Closing) (accepted : Bytes) → c.flushes ≡ true → file_after c accepted ≡ accepted
file_after-whole c accepted h = ground arith

pub length-file_after :
    (c : Closing) (accepted : Bytes) → length (file_after c accepted) ≤ length accepted
length-file_after c accepted = ground (arith, length-take (c.keeps accepted) accepted)
