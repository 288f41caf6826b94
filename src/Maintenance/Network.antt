-- ===== src/Maintenance/Network.antt =====
-- The network configuration as text: `serialize_network_config` and `parse_network_config`.
pub mod RoundTrip
pub mod Accepted
use antsdr_dfone.Prelude.{
  ℕ, Bool, true, false, ◌||◌, List, [], ◌∷◌, ◌++◌, Option, some, none, ◌==◌, if◌then◌else◌, length,
  Bytes, codes,
}
use antsdr_dfone.Maintenance.Text.{Values, find, bytes_eq, parse_key_value_text}

pub data NetworkMode : Type 0 where
  static dhcp disabled : NetworkMode

pub record NetworkConfig : Type 0 where
  pub mode : NetworkMode
  pub mac : Bytes
  pub address : Bytes
  pub netmask : Bytes
  pub gateway : Bytes
  pub dns : Bytes

-- `DfOneNetworkConfig{}`.
abbrev pub default_network : NetworkConfig
default_network = record {
  mode = static;
  mac = [];
  address = codes "192.168.1.10";
  netmask = codes "255.255.255.0";
  gateway = [];
  dns = [];
}

-- `key=value` and a newline.
abbrev pub setting_line : Bytes → Bytes → Bytes → Bytes
setting_line key value rest = key ++ (b'=' ∷ (value ++ (b'\n' ∷ rest)))

-- The same, if the value is not empty.
abbrev pub optional_line : Bytes → Bytes → Bytes → Bytes
optional_line key [] rest = rest
optional_line key (c ∷ cs) rest = setting_line key (c ∷ cs) rest

abbrev pub mode_text : NetworkMode → Bytes
mode_text static = codes "static"
mode_text disabled = codes "none"
mode_text dhcp = codes "dhcp"

abbrev pub address_lines : NetworkMode → NetworkConfig → Bytes
address_lines static c = setting_line (codes "address") c.address (
    setting_line (codes "netmask") c.netmask
      (optional_line (codes "gateway") c.gateway (optional_line (codes "dns") c.dns [])))
address_lines dhcp c = []
address_lines disabled c = []

abbrev pub comment_lines : Bytes
comment_lines =
    codes
      "# DFONE persistent eth0 network configuration\n# Generated by DFONE public maintenance API.\n"

unfoldable pub serialize_network_config : NetworkConfig → Bytes
serialize_network_config c =
    comment_lines
    ++ setting_line (codes "mode") (mode_text c.mode)
        (optional_line (codes "mac") c.mac (address_lines c.mode c))

-- The configuration, or the text of the error.
pub data ParsedNetwork : Type 0 where
  parsed : NetworkConfig → ParsedNetwork
  rejected : Bytes → ParsedNetwork

abbrev pub or_default : Option Bytes → Bytes → Bytes
or_default none d = d
or_default (some v) d = v

abbrev pub mode_of : Bytes → Option NetworkMode
mode_of text =
    if bytes_eq text (codes "static")
    then some static
    else if bytes_eq text (codes "dhcp")
    then some dhcp
    else if bytes_eq text (codes "none")
        || bytes_eq text (codes "manual")
        || bytes_eq text (codes "disabled")
    then some disabled
    else none

-- The members of `parsed`, in the order of the calls of `copy_if_present`: "ip" overrides "address".
abbrev pub copy_values : NetworkMode → Values → NetworkConfig
copy_values mode m = record {
  mode = mode;
  mac = or_default (find (codes "mac") m) default_network.mac;
  address =
      or_default (find (codes "ip") m)
        (or_default (find (codes "address") m) default_network.address);
  netmask = or_default (find (codes "netmask") m) default_network.netmask;
  gateway = or_default (find (codes "gateway") m) default_network.gateway;
  dns = or_default (find (codes "dns") m) default_network.dns;
}

abbrev pub accept_static : NetworkMode → NetworkConfig → ParsedNetwork
accept_static static c =
    if length c.address == 0 || length c.netmask == 0
    then rejected (codes "static network config requires address and netmask")
    else parsed c
accept_static dhcp c = parsed c
accept_static disabled c = parsed c

abbrev pub with_mode : Bytes → Option NetworkMode → Values → ParsedNetwork
with_mode text none m = rejected (codes "network config has invalid mode: " ++ text)
with_mode text (some mode) m = accept_static mode (copy_values mode m)

abbrev pub with_values : Option Values → ParsedNetwork
with_values none = rejected (codes "network config has invalid key=value format")
with_values (some m) =
    let text = or_default (find (codes "mode") m) (codes "static") in
    with_mode text (mode_of text) m

unfoldable pub parse_network_config : Bytes → ParsedNetwork
unfolding parse_key_value_text find bytes_eq
parse_network_config text = with_values (parse_key_value_text text)
