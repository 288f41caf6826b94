-- ===== src/Net.antt =====
-- The socket calls of common/include/dfone/internal/socket_compat.hpp and the loops of
-- transport/control_client.cpp that move a fixed number of bytes through them.
-- What the operating system does on a socket is a script: one constructor for each thing that
-- a call of recv or send can meet, in the order in which the calls meet them.
pub mod Reading
pub mod Writing
use antsdr_dfone.Prelude.{
  ℕ, zero, suc, ◌+◌, ◌-◌, Bool, true, false, [], ◌∷◌, ◌++◌, length, take, drop, min, Bytes,
}

-- The receiving side. `chunk b bs` is a run of bytes that is ready, never an empty one. A script
-- ends with the peer's orderly close, or with silence: then each call runs into the receive
-- timeout that is set on every socket, and fails with this message.
pub data Incoming : Type 0 where
  chunk : ℕ → Bytes → Incoming → Incoming
  recv_interrupted : Incoming → Incoming
  recv_failed : Bytes → Incoming → Incoming
  peer_closed : Incoming
  silent : Bytes → Incoming

-- The sending side. `accepts n` takes up to n + 1 bytes of one call; a script ends with a peer
-- that takes everything, or with a send timeout.
pub data Outgoing : Type 0 where
  accepts : ℕ → Outgoing → Outgoing
  send_interrupted : Outgoing → Outgoing
  send_failed : Bytes → Outgoing → Outgoing
  send_nothing : Outgoing → Outgoing
  takes_all : Outgoing
  blocked : Bytes → Outgoing

-- A valid handle: its two scripts, and the bytes that the kernel has taken for the peer so far.
pub record Socket : Type 0 where
  pub incoming : Incoming
  pub outgoing : Outgoing
  pub wire : Bytes

-- The value of recv: n > 0 with the bytes, n < 0 with EINTR, n < 0 with another error, n = 0.
pub data Received : Type 0 where
  got : Bytes → Incoming → Received
  interrupted : Incoming → Received
  failed : Bytes → Incoming → Received
  closed : Incoming → Received

-- What a call left of a chunk stays in front.
pub push_back : Bytes → Incoming → Incoming
push_back [] s = s
push_back (b ∷ bs) s = chunk b bs s

unfoldable pub recv_socket : Incoming → ℕ → Received
unfolding push_back
recv_socket (chunk b bs s) size = got (take size (b ∷ bs)) (push_back (drop size (b ∷ bs)) s)
recv_socket (recv_interrupted s) size = interrupted s
recv_socket (recv_failed m s) size = failed m s
recv_socket peer_closed size = closed peer_closed
recv_socket (silent m) size = failed m (silent m)

-- The value of send: the number of bytes taken, EINTR, another error.
pub data Sent : Type 0 where
  took : ℕ → Outgoing → Sent
  send_again : Outgoing → Sent
  refused : Bytes → Outgoing → Sent

unfoldable pub send_socket : Outgoing → Bytes → Sent
send_socket (accepts n o) bytes = took (min (suc n) (length bytes)) o
send_socket (send_interrupted o) bytes = send_again o
send_socket (send_failed m o) bytes = refused m o
send_socket (send_nothing o) bytes = took 0 o
send_socket takes_all bytes = took (length bytes) takes_all
send_socket (blocked m) bytes = refused m (blocked m)

-- An upper bound on the calls of recv, each for at least one byte, before the script's last state.
unfoldable pub supply : Incoming → ℕ
supply (chunk b bs s) = suc (length bs) + supply s
supply (recv_interrupted s) = suc (supply s)
supply (recv_failed m s) = suc (supply s)
supply peer_closed = 0
supply (silent m) = 0

unfoldable pub send_steps : Outgoing → ℕ
send_steps (accepts n o) = suc (send_steps o)
send_steps (send_interrupted o) = suc (send_steps o)
send_steps (send_failed m o) = suc (send_steps o)
send_steps (send_nothing o) = suc (send_steps o)
send_steps takes_all = 0
send_steps (blocked m) = 0

pub data ReadExactResult : Type 0 where
  ok peer_gone error : ReadExactResult

-- The outcome of `read_exact`: its status, the part of the buffer that it filled, the socket.
pub record Read : Type 0 where
  pub status : ReadExactResult
  pub filled : Bytes
  pub rest : Incoming

abbrev pub prepend : Bytes → Read → Read
prepend bs r = record r { filled = bs ++ r.filled }

-- `read_exact`; `need` is `len - got`, so the loop goes on exactly while it is a successor.
unfoldable pub read_loop : ℕ → Incoming → ℕ → Read
read_loop zero s need = record { status = error; filled = []; rest = s }
read_loop (suc f) s zero = record { status = ok; filled = []; rest = s }
read_loop (suc f) s (suc need) = elim (recv_socket s (suc need)) [
  | got bs s' ↦ prepend bs (read_loop f s' (suc need - length bs))
  | interrupted s' ↦ read_loop f s' (suc need)
  | failed m s' ↦ record { status = error; filled = []; rest = s' }
  | closed s' ↦ record { status = peer_gone; filled = []; rest = s' }
]

unfoldable pub read_exact : Incoming → ℕ → Read
unfolding read_loop recv_socket supply
read_exact s len = read_loop (suc (supply s)) s len

-- `write_all`; `bytes` is what is not sent yet, `data + sent` up to `len`.
unfoldable pub write_loop : ℕ → Socket → Bytes → Bool × Socket
write_loop zero s bytes = (false, s)
write_loop (suc f) s [] = (true, s)
write_loop (suc f) s (b ∷ bs) = elim (send_socket s.outgoing (b ∷ bs)) [
  | took zero o ↦ (false, record s { outgoing = o })
  | took (suc n) o ↦
      write_loop f (record s { outgoing = o; wire = s.wire ++ take (suc n) (b ∷ bs) })
        (drop (suc n) (b ∷ bs))
  | send_again o ↦ write_loop f (record s { outgoing = o }) (b ∷ bs)
  | refused m o ↦ (false, record s { outgoing = o })
]

unfoldable pub write_all : Socket → Bytes → Bool × Socket
unfolding write_loop send_socket send_steps
write_all s bytes = write_loop (suc (suc (send_steps s.outgoing))) s bytes
