-- ===== src/Stream/Invariant.antt =====
-- The invariant of the data channel, and how a packet is taken off it.
use antsdr_dfone.Prelude.{
  ◌^◌, ◌<◌, ◌≡◌, refl, sym, ◌∙◌, Bool, true, false, Option, some, none, arith, length,
}
use antsdr_dfone.Net.{Incoming, Socket, supply}
use antsdr_dfone.Wire.{Packet, receive_packet}
use antsdr_dfone.Wire.Packets.{receive_packet-Receives}
use antsdr_dfone.Dial.{DeviceEndpoint, Dial}
use antsdr_dfone.Stream.{
  StreamClient, new_stream, close, open_socket, open_stream, keep_or_close, read_packet_on,
  read_packet, accept_capture, read_capture_packet, pending,
}

abbrev has_handle {ℓ} : {A : Type ℓ} → Option A → Bool
has_handle none = false
has_handle (some a) = true

-- The channel is open exactly while it holds a handle.
abbrev pub IsValid : StreamClient → Type 0
IsValid c = has_handle c.socket_fd ≡ c.opened

pub new_stream-IsValid : (e : DeviceEndpoint) → IsValid (new_stream e)
unfolding new_stream
new_stream-IsValid e = refl

pub close-IsValid : (c : StreamClient) → IsValid (close c)
unfolding close
close-IsValid c = refl

open_socket-IsValid :
    (d : Dial) (c : StreamClient) (s : Option Socket)
    → c.opened ≡ false
    → IsValid (open_socket d c s).1
unfolding open_socket
open_socket-IsValid d c none e = sym e
open_socket-IsValid d c (some s) e = ground arith

pub open_stream-IsValid : (d : Dial) (c : StreamClient) → IsValid c → IsValid (open_stream d c).1
unfolding open_stream
open_stream-IsValid d c v = ground (arith, open_socket-IsValid d c d.socket)

keep_or_close-IsValid :
    (c : StreamClient) (s : Socket) (r : Option Packet × Incoming)
    → c.opened ≡ true
    → IsValid (keep_or_close c s r).1
unfolding keep_or_close
keep_or_close-IsValid c s (none, t) e = close-IsValid c
keep_or_close-IsValid c s (some p, t) e = sym e

read_packet_on-IsValid :
    (c : StreamClient) (b : Bool) (fd : Option Socket)
    → c.opened ≡ b
    → IsValid c
    → IsValid (read_packet_on c b fd).1
unfolding read_packet_on
read_packet_on-IsValid c false fd e v = v
read_packet_on-IsValid c true none e v = v
read_packet_on-IsValid c true (some s) e v = keep_or_close-IsValid c s (receive_packet s.incoming) e

pub read_packet-IsValid : (c : StreamClient) → IsValid c → IsValid (read_packet c).1
unfolding read_packet
read_packet-IsValid c v = read_packet_on-IsValid c c.opened c.socket_fd refl v

accept_capture-IsValid :
    (r : Option Packet × StreamClient) → IsValid r.1 → IsValid (accept_capture r).1
unfolding accept_capture
accept_capture-IsValid (none, c) v = v
accept_capture-IsValid (some p, c) v = ground arith

pub read_capture_packet-IsValid : (c : StreamClient) → IsValid c → IsValid (read_capture_packet c).1
unfolding read_capture_packet
read_capture_packet-IsValid c v = accept_capture-IsValid (read_packet c) (read_packet-IsValid c v)

-- What is known of a packet that came off the channel.
pub record Taken (c : StreamClient) (p : Packet) (c' : StreamClient) : Type 0 where
  pub progress : pending c'.socket_fd < pending c.socket_fd
  pub bounded : length p.payload < 2 ^ 24
  pub still_opened : c'.opened ≡ c.opened

keep_or_close-Taken :
    (c : StreamClient) (s : Socket) (r : Option Packet × Incoming) {p : Packet} {c' : StreamClient}
    → receive_packet s.incoming ≡ r
    → keep_or_close c s r ≡ (some p, c')
    → (pending c'.socket_fd < supply s.incoming)
      × (length p.payload < 2 ^ 24)
      × (c'.opened ≡ c.opened)
unfolding keep_or_close pending
keep_or_close-Taken c s (none, t) q e = absurd (ground arith)
keep_or_close-Taken c s (some p', t) {p} {c'} q e =
    let d = receive_packet-Receives s.incoming q in
    let fd : c'.socket_fd ≡ some (record s { incoming = t }) = ground arith in
    let same : p' ≡ p = ground arith in
    (
      rw fd (omega (arith, d.progress, d.long_enough)),
      rw (← same) (omega (arith, d.fits, d.whole_payload)),
      ground arith,
    )

read_packet_on-Taken :
    (c : StreamClient) (b : Bool) (fd : Option Socket) {p : Packet} {c' : StreamClient}
    → read_packet_on c b fd ≡ (some p, c')
    → (pending c'.socket_fd < pending fd) × (length p.payload < 2 ^ 24) × (c'.opened ≡ c.opened)
unfolding read_packet_on pending
read_packet_on-Taken c false fd e = absurd (ground arith)
read_packet_on-Taken c true none e = absurd (ground arith)
read_packet_on-Taken c true (some s) e = keep_or_close-Taken c s (receive_packet s.incoming) refl e

pub read_packet-Taken :
    (c : StreamClient) {p : Packet} {c' : StreamClient}
    → read_packet c ≡ (some p, c')
    → Taken c p c'
unfolding read_packet
read_packet-Taken c e =
    let t = read_packet_on-Taken c c.opened c.socket_fd e in
    record { progress = t.0; bounded = t.1; still_opened = t.2 }

read_packet_on-eq :
    (c : StreamClient) (b : Bool) (fd : Option Socket) (s : Socket)
    → b ≡ true
    → fd ≡ some s
    → read_packet_on c b fd ≡ keep_or_close c s (receive_packet s.incoming)
unfolding read_packet_on
read_packet_on-eq c b fd s e f = rw (e, f)

-- A packet that stands next on an open channel is read, and the handle stays.
pub read_packet-Next :
    (c : StreamClient) (s : Socket) (p : Packet) {t : Incoming}
    → c.opened ≡ true
    → c.socket_fd ≡ some s
    → receive_packet s.incoming ≡ (some p, t)
    → read_packet c ≡ (some p, record c { socket_fd = some (record s { incoming = t }) })
unfolding read_packet keep_or_close
read_packet-Next c s p o e r =
    read_packet_on-eq c c.opened c.socket_fd s o e ∙ rw (r, keep_or_close)
