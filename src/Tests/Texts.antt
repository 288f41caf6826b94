-- ===== src/Tests/Texts.antt =====
-- The maintenance texts at concrete inputs.
use antsdr_dfone.Prelude.{◌≡◌, ◌≢◌, refl, [], Bytes, codes}
use antsdr_dfone.Maintenance.Text.Lines.{IsClean}
use antsdr_dfone.Maintenance.Network.{
  NetworkConfig, default_network, parsed, serialize_network_config, parse_network_config,
}
use antsdr_dfone.Maintenance.Network.Accepted.{parse_network_config-static}
use antsdr_dfone.Maintenance.Network.RoundTrip.{
  IsAddressed, parse_network_config-serialize_network_config,
}

abbrev config : NetworkConfig
config = record default_network { mac = codes "00:0a:35:00:01:22"; gateway = codes "192.168.1.1" }

mac-IsClean : IsClean config.mac
mac-IsClean = record { one_line = refl; no_comment = refl; left_clean = refl; right_clean = refl }

config-IsAddressed : IsAddressed config
config-IsAddressed = record {
  address_clean = record {
    one_line = refl;
    no_comment = refl;
    left_clean = refl;
    right_clean = refl;
  };
  netmask_clean = record {
    one_line = refl;
    no_comment = refl;
    left_clean = refl;
    right_clean = refl;
  };
  gateway_clean = record {
    one_line = refl;
    no_comment = refl;
    left_clean = refl;
    right_clean = refl;
  };
  dns_clean = record { one_line = refl; no_comment = refl; left_clean = refl; right_clean = refl };
  address_given = λ e. cc;
  netmask_given = λ e. cc;
}

parse_network_config-serialize_network_config_example :
    parse_network_config (serialize_network_config config) ≡ parsed config
parse_network_config-serialize_network_config_example =
    parse_network_config-serialize_network_config config mac-IsClean config-IsAddressed

-- "ip" is another name of the address, and lines may end in CR LF.
abbrev other_text : Bytes
other_text = codes "mode = static # wired\r\n\r\n ip=10.0.0.2\r\nnetmask=255.0.0.0\r\ngateway=\r\n"

abbrev other : NetworkConfig
other = record default_network { address = codes "10.0.0.2"; netmask = codes "255.0.0.0" }

parse_network_config-static_example : (other.address ≢ []) × (other.netmask ≢ [])
unfolding parse_network_config
parse_network_config-static_example = parse_network_config-static other_text other refl refl
