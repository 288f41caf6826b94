-- ===== src/Maintenance/Service.antt =====
-- The update service's protocol in public/maintenance.cpp: `send_all`, `recv_all`, `recv_line`,
-- `receive_sized_payload`. An error text that the source puts into `error` is carried by `fails`.
pub mod Requests
pub mod Receiving
pub mod Progress
pub mod Numbers
pub mod Payload
pub mod Replies
pub mod Network
use antsdr_dfone.Prelude.{
  ℕ, zero, suc, ◌+◌, ◌-◌, ◌*◌, ◌/◌, ◌%◌, ◌^◌, Bool, true, false, not, ◌&&◌, ◌||◌, List, [], ◌∷◌,
  ◌++◌, Option, some, none, ltb, leb, ◌==◌, if◌then◌else◌, length, take, drop, Bytes, codes,
}
use antsdr_dfone.Net.{
  Incoming, Socket, recv_socket, got, interrupted, failed, closed, send_socket, took, send_again,
  refused, supply, send_steps,
}

pub data Answer {ℓ} (A : Type ℓ) : Type ℓ where
  fails : Bytes → Answer A
  gives : A → Answer A

-- `send_all`; `none` is true. `bytes` is what is not sent yet.
pub send_loop : ℕ → Socket → Bytes → Option Bytes × Socket
send_loop zero s bytes = (some [], s)
send_loop (suc f) s [] = (none, s)
send_loop (suc f) s (b ∷ bs) = elim (send_socket s.outgoing (b ∷ bs)) [
  | took zero o ↦ (some (codes "send failed: connection closed"), record s { outgoing = o })
  | took (suc n) o ↦
      send_loop f (record s { outgoing = o; wire = s.wire ++ take (suc n) (b ∷ bs) })
        (drop (suc n) (b ∷ bs))
  | send_again o ↦ send_loop f (record s { outgoing = o }) (b ∷ bs)
  | refused m o ↦ (some (codes "send failed: " ++ m), record s { outgoing = o })
]

unfoldable pub send_all : Socket → Bytes → Option Bytes × Socket
unfolding send_loop send_socket send_steps
send_all s bytes = send_loop (suc (suc (send_steps s.outgoing))) s bytes

abbrev pub prepend_bytes : Bytes → Answer Bytes × Incoming → Answer Bytes × Incoming
prepend_bytes bs (fails e, s) = (fails e, s)
prepend_bytes bs (gives x, s) = (gives (bs ++ x), s)

-- `recv_all`; `need` is `size - received`.
pub recv_loop : ℕ → Incoming → ℕ → Answer Bytes × Incoming
recv_loop zero s need = (fails [], s)
recv_loop (suc f) s zero = (gives [], s)
recv_loop (suc f) s (suc need) = elim (recv_socket s (suc need)) [
  | got bs s' ↦ prepend_bytes bs (recv_loop f s' (suc need - length bs))
  | interrupted s' ↦ recv_loop f s' (suc need)
  | failed m s' ↦ (fails (codes "receive failed: " ++ m), s')
  | closed s' ↦ (fails (codes "receive failed: connection closed"), s')
]

unfoldable pub recv_all : Incoming → ℕ → Answer Bytes × Incoming
unfolding recv_loop recv_socket supply
recv_all s size = recv_loop (suc (supply s)) s size

-- The line behind one more byte.
abbrev pub push_byte : Bytes → ℕ → Bytes
push_byte line c = if c == b'\r' then line else line ++ c ∷ []

-- `recv_line`, byte by byte; `line` is what has been kept so far.
pub line_loop : ℕ → Incoming → Bytes → ℕ → Answer Bytes × Incoming
line_loop zero s line max = (fails [], s)
line_loop (suc f) s line max = elim (ltb (length line) max) [
  | false ↦ (fails (codes "response line is too long"), s)
  | true ↦ elim (recv_socket s 1) [
    | got [] s' ↦ (fails (codes "receive failed: connection closed"), s')
    | got (c ∷ _) s' ↦ elim (c == b'\n') [
      | true ↦ (gives line, s')
      | false ↦ line_loop f s' (push_byte line c) max
    ]
    | interrupted s' ↦ line_loop f s' line max
    | failed m s' ↦ (fails (codes "receive failed: " ++ m), s')
    | closed s' ↦ (fails (codes "receive failed: connection closed"), s')
  ]
]

unfoldable pub recv_line : Incoming → ℕ → Answer Bytes × Incoming
unfolding line_loop recv_socket supply
recv_line s max = line_loop (suc (supply s)) s [] max

-- `text.rfind(prefix, 0) == 0`.
unfoldable pub starts_with : Bytes → Bytes → Bool
starts_with [] text = true
starts_with (c ∷ cs) [] = false
starts_with (c ∷ cs) (d ∷ ds) = c == d && starts_with cs ds

abbrev pub is_digit : ℕ → Bool
is_digit c = leb b'0' c && leb c b'9'

-- The digits from the front on, behind a value so far.
unfoldable pub digits_value : ℕ → Bytes → ℕ
digits_value acc [] = acc
digits_value acc (c ∷ cs) = if is_digit c then digits_value (acc * 10 + (c - b'0')) cs else acc

abbrev pub in_range : ℕ → Option ℕ
in_range n = if ltb n (2 ^ 64) then some n else none

unfoldable pub read_digits : Bytes → Option ℕ
unfolding digits_value
read_digits [] = none
read_digits (c ∷ cs) = if is_digit c then in_range (digits_value 0 (c ∷ cs)) else none

-- White space of `std::isspace`.
abbrev pub skips : ℕ → Bool
skips c = c == b' ' || (leb 9 c && leb c 13)

unfoldable pub skip_space : Bytes → Bytes
skip_space [] = []
skip_space (c ∷ cs) = if skips c then skip_space cs else c ∷ cs

abbrev pub negated : Option ℕ → Option ℕ
negated none = none
negated (some n) = some ((2 ^ 64 - n) % 2 ^ 64)

abbrev pub read_signed : Bytes → Option ℕ
read_signed [] = none
read_signed (c ∷ cs) =
    if c == b'-'
    then negated (read_digits cs)
    else if c == b'+'
    then read_digits cs
    else read_digits (c ∷ cs)

-- `iss >> size64` of the standard library, in the C locale: white space, a sign, decimal digits; a
-- minus sign negates modulo 2^64, and a number that does not fit fails.
unfoldable pub read_uint64 : Bytes → Option ℕ
unfolding skip_space read_digits
read_uint64 text = read_signed (skip_space text)

-- `std::to_string`, on fuel; a number has fewer digits than it counts, but one.
unfoldable pub digits_loop : ℕ → ℕ → Bytes
digits_loop zero n = []
digits_loop (suc f) n = elim (ltb n 10) [
  | true ↦ (b'0' + n) ∷ []
  | false ↦ digits_loop f (n / 10) ++ (b'0' + n % 10) ∷ []
]

unfoldable pub to_string : ℕ → Bytes
unfolding digits_loop
to_string n = digits_loop (suc n) n

-- The size in `text`, then that many bytes; `bad` is the error when the size is none or too great.
abbrev pub read_body : ℕ → Bytes → Option ℕ → Incoming → Answer Bytes × Incoming
read_body max bad none s = (fails bad, s)
read_body max bad (some n) s = if ltb max n then (fails bad, s) else recv_all s n

-- `error.assign(...)`: the text of a FAIL answer is the error.
abbrev pub as_failure : Answer Bytes × Incoming → Answer Bytes × Incoming
as_failure (fails e, s) = (fails e, s)
as_failure (gives text, s) = (fails text, s)

abbrev pub bad_size : Bytes → Bytes → Bytes
bad_size context what = codes "invalid " ++ context ++ what

unfoldable pub answer_line : ℕ → Bytes → Bytes → Incoming → Answer Bytes × Incoming
unfolding starts_with read_uint64 recv_all
answer_line max context r s =
    if starts_with (codes "FAIL ") r
    then as_failure
        (read_body max (bad_size context (codes " failure size")) (read_uint64 (drop 5 r)) s)
    else if not (starts_with (codes "OK ") r)
    then (fails (if starts_with (codes "ERR ") r then drop 4 r else r), s)
    else read_body max (bad_size context (codes " response size")) (read_uint64 (drop 3 r)) s

abbrev pub answer_of : ℕ → Bytes → Answer Bytes × Incoming → Answer Bytes × Incoming
answer_of max context (fails e, s) = (fails e, s)
answer_of max context (gives r, s) = answer_line max context r s

unfoldable pub receive_sized_payload : Incoming → ℕ → Bytes → Answer Bytes × Incoming
unfolding recv_line answer_line
receive_sized_payload s max context = answer_of max context (recv_line s 1024)
