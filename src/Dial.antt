-- ===== src/Dial.antt =====
-- How a TCP connection comes about: the endpoint of common/include/dfone/internal/protocol.hpp and
-- the system calls of `ControlClient::connect` and `StreamClient::open`.
use antsdr_dfone.Prelude.{ℕ, Bool, Option, Bytes}
use antsdr_dfone.Net.{Socket}

pub record DeviceEndpoint : Type 0 where
  pub device_ip : Bytes
  pub command_port : ℕ
  pub data_port : ℕ

abbrev pub default_command_port : ℕ
default_command_port = 49208

abbrev pub default_data_port : ℕ
default_data_port = 49209

-- What the system answers to the calls that open a connection: whether the socket runtime starts,
-- the handle that socket() gives (`none` is the invalid one), whether inet_pton takes a text for
-- an IPv4 address, and whether connect() reaches an address and a port.
pub record Dial : Type 0 where
  pub runtime_ready : Bool
  pub socket : Option Socket
  pub is_ipv4 : Bytes → Bool
  pub reaches : Bytes → ℕ → Bool
