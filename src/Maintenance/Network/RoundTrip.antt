-- ===== src/Maintenance/Network/RoundTrip.antt =====
-- `parse_network_config` on what `serialize_network_config` writes.
use antsdr_dfone.Prelude.{
  ℕ, ◌≡◌, ◌≢◌, refl, ap, ◌∙◌, Bool, true, ◌&&◌, [], ◌∷◌, ◌++◌, some, arith, Bytes, codes,
}
use antsdr_dfone.Maintenance.Text.{
  Values, find, store, bytes_eq, lines, parse_line, parse_lines, parse_key_value_text,
}
use antsdr_dfone.Maintenance.Text.Lines.{
  lacks, starts_clean, ends_clean, IsClean, IsKey, parse_line-entry, lines-line, parse_lines-entry,
  parse_lines-blank, lacks-line,
}
use antsdr_dfone.Maintenance.Network.{
  NetworkMode, static, dhcp, disabled, NetworkConfig, default_network, setting_line, optional_line,
  mode_text, address_lines, comment_lines, serialize_network_config, parsed, with_values,
  accept_static, parse_network_config,
}

-- One line of a setting is one value.
parse_lines-setting_line :
    (k v rest : Bytes) (m : Values)
    → IsKey k
    → IsClean v
    → parse_lines (lines (setting_line k v rest)) m ≡ parse_lines (lines rest) (store k v m)
parse_lines-setting_line k v rest m a b =
    ap (λ ls. parse_lines ls m)
      (ap lines (regroup k v rest) ∙ lines-line (k ++ b'=' ∷ v) rest (lacks-line k v a b))
    ∙ parse_lines-entry (k ++ b'=' ∷ v) (lines rest) m (parse_line-entry k v a b)
  where
    regroup : (u w r : Bytes) → u ++ (b'=' ∷ (w ++ (b'\n' ∷ r))) ≡ (u ++ b'=' ∷ w) ++ b'\n' ∷ r
    regroup [] w r = refl
    regroup (c ∷ u) w r = ap (◌∷◌ c) (regroup u w r)

-- The values behind a setting that is written only if it is not empty.
abbrev store_given : Bytes → Bytes → Values → Values
store_given k [] m = m
store_given k (c ∷ cs) m = store k (c ∷ cs) m

parse_lines-optional_line :
    (k v rest : Bytes) (m : Values)
    → IsKey k
    → IsClean v
    → parse_lines (lines (optional_line k v rest)) m ≡ parse_lines (lines rest) (store_given k v m)
parse_lines-optional_line k [] rest m a b = refl
parse_lines-optional_line k (c ∷ cs) rest m a b = parse_lines-setting_line k (c ∷ cs) rest m a b

abbrev all_clean : Bytes → Bool
all_clean v = lacks b'\n' v && lacks b'#' v && starts_clean v && ends_clean v

IsClean-all_clean : (v : Bytes) → all_clean v ≡ true → IsClean v
IsClean-all_clean v h = record {
  one_line = ground arith;
  no_comment = ground arith;
  left_clean = ground arith;
  right_clean = ground arith;
}

IsKey-all_clean :
    (c : ℕ) (cs : Bytes) → (all_clean (c ∷ cs) && lacks b'=' (c ∷ cs)) ≡ true → IsKey (c ∷ cs)
IsKey-all_clean c cs h = record {
  is_clean = IsClean-all_clean (c ∷ cs) (ground arith);
  no_equals = ground arith;
  not_empty = λ e. cc;
}

mode-IsKey : IsKey (codes "mode")
mode-IsKey = IsKey-all_clean b'm' (codes "ode") refl

mac-IsKey : IsKey (codes "mac")
mac-IsKey = IsKey-all_clean b'm' (codes "ac") refl

address-IsKey : IsKey (codes "address")
address-IsKey = IsKey-all_clean b'a' (codes "ddress") refl

netmask-IsKey : IsKey (codes "netmask")
netmask-IsKey = IsKey-all_clean b'n' (codes "etmask") refl

gateway-IsKey : IsKey (codes "gateway")
gateway-IsKey = IsKey-all_clean b'g' (codes "ateway") refl

dns-IsKey : IsKey (codes "dns")
dns-IsKey = IsKey-all_clean b'd' (codes "ns") refl

mode_text-IsClean : (mode : NetworkMode) → IsClean (mode_text mode)
mode_text-IsClean static = IsClean-all_clean (codes "static") refl
mode_text-IsClean dhcp = IsClean-all_clean (codes "dhcp") refl
mode_text-IsClean disabled = IsClean-all_clean (codes "none") refl

-- The addresses of a static configuration.
pub record IsAddressed (c : NetworkConfig) : Type 0 where
  pub address_clean : IsClean c.address
  pub netmask_clean : IsClean c.netmask
  pub gateway_clean : IsClean c.gateway
  pub dns_clean : IsClean c.dns
  pub address_given : c.address ≢ []
  pub netmask_given : c.netmask ≢ []

abbrev pub NeedsAddresses : NetworkMode → NetworkConfig → Type 0
NeedsAddresses static c = IsAddressed c
NeedsAddresses dhcp c = Unit {0}
NeedsAddresses disabled c = Unit {0}

-- What is read back: all of a static configuration; of the others, the mode and the MAC address.
abbrev pub kept : NetworkMode → NetworkConfig → NetworkConfig
kept static c = c
kept dhcp c = record default_network { mode = dhcp; mac = c.mac }
kept disabled c = record default_network { mode = disabled; mac = c.mac }

-- The values of a written configuration.
abbrev address_values : NetworkMode → NetworkConfig → Values → Values
address_values static c m = store_given (codes "dns") c.dns (
    store_given (codes "gateway") c.gateway
      (store (codes "netmask") c.netmask (store (codes "address") c.address m)))
address_values dhcp c m = m
address_values disabled c m = m

abbrev values_of : NetworkConfig → Values
values_of c =
    address_values c.mode c
      (store_given (codes "mac") c.mac (store (codes "mode") (mode_text c.mode) []))

parse_lines-address_lines :
    (mode : NetworkMode) (c : NetworkConfig) (m : Values)
    → NeedsAddresses mode c
    → parse_lines (lines (address_lines mode c)) m ≡ some (address_values mode c m)
unfolding lines parse_lines
parse_lines-address_lines static c m a =
    parse_lines-setting_line (codes "address") c.address _ m address-IsKey a.address_clean
    ∙ parse_lines-setting_line (codes "netmask") c.netmask _ _ netmask-IsKey a.netmask_clean
    ∙ parse_lines-optional_line (codes "gateway") c.gateway _ _ gateway-IsKey a.gateway_clean
    ∙ parse_lines-optional_line (codes "dns") c.dns [] _ dns-IsKey a.dns_clean
parse_lines-address_lines dhcp c m a = refl
parse_lines-address_lines disabled c m a = refl

parse_lines-comment_lines :
    (rest : Bytes) (m : Values)
    → parse_lines (lines (comment_lines ++ rest)) m ≡ parse_lines (lines rest) m
unfolding parse_line
parse_lines-comment_lines rest m =
    ap (λ ls. parse_lines ls m)
      (lines-line (codes "# DFONE persistent eth0 network configuration") _ refl)
    ∙ parse_lines-blank (codes "# DFONE persistent eth0 network configuration") _ m refl
    ∙ ap (λ ls. parse_lines ls m)
        (lines-line (codes "# Generated by DFONE public maintenance API.") rest refl)
    ∙ parse_lines-blank (codes "# Generated by DFONE public maintenance API.") (lines rest) m refl

parse_key_value_text-serialize :
    (c : NetworkConfig)
    → IsClean c.mac
    → NeedsAddresses c.mode c
    → parse_key_value_text (serialize_network_config c) ≡ some (values_of c)
unfolding parse_key_value_text serialize_network_config
parse_key_value_text-serialize c a n =
    let addresses = address_lines c.mode c in
    let mac_line = optional_line (codes "mac") c.mac addresses in
    let mode_value = store (codes "mode") (mode_text c.mode) [] in
    parse_lines-comment_lines (setting_line (codes "mode") (mode_text c.mode) mac_line) []
    ∙ parse_lines-setting_line (codes "mode") (mode_text c.mode) mac_line [] mode-IsKey
        (mode_text-IsClean c.mode)
    ∙ parse_lines-optional_line (codes "mac") c.mac addresses mode_value mac-IsKey a
    ∙ parse_lines-address_lines c.mode c _ n

abbrev network : NetworkMode → Bytes → Bytes → Bytes → Bytes → Bytes → NetworkConfig
network mode mac address netmask gateway dns = record {
  mode = mode;
  mac = mac;
  address = address;
  netmask = netmask;
  gateway = gateway;
  dns = dns;
}

accept_static-network :
    (mac : Bytes) (a : ℕ) (more : Bytes) (n : ℕ) (ns gateway dns : Bytes)
    → (let c = network static mac (a ∷ more) (n ∷ ns) gateway dns in
        accept_static static c ≡ parsed c)
accept_static-network mac a more n ns gateway dns = ground arith

static_read_back :
    (mac : Bytes) (a : ℕ) (more : Bytes) (n : ℕ) (ns gateway dns : Bytes)
    → (let c = network static mac (a ∷ more) (n ∷ ns) gateway dns in
        with_values (some (values_of c)) ≡ parsed c)
unfolding store find bytes_eq
static_read_back [] a more n ns [] [] = accept_static-network [] a more n ns [] []
static_read_back [] a more n ns [] (d ∷ ds) = accept_static-network [] a more n ns [] (d ∷ ds)
static_read_back [] a more n ns (g ∷ gs) [] = accept_static-network [] a more n ns (g ∷ gs) []
static_read_back [] a more n ns (g ∷ gs) (d ∷ ds) =
    accept_static-network [] a more n ns (g ∷ gs) (d ∷ ds)
static_read_back (m ∷ ms) a more n ns [] [] = accept_static-network (m ∷ ms) a more n ns [] []
static_read_back (m ∷ ms) a more n ns [] (d ∷ ds) =
    accept_static-network (m ∷ ms) a more n ns [] (d ∷ ds)
static_read_back (m ∷ ms) a more n ns (g ∷ gs) [] =
    accept_static-network (m ∷ ms) a more n ns (g ∷ gs) []
static_read_back (m ∷ ms) a more n ns (g ∷ gs) (d ∷ ds) =
    accept_static-network (m ∷ ms) a more n ns (g ∷ gs) (d ∷ ds)

read_back :
    (mode : NetworkMode) (mac address netmask gateway dns : Bytes)
    → (let c = network mode mac address netmask gateway dns in
        NeedsAddresses mode c → with_values (some (values_of c)) ≡ parsed (kept mode c))
unfolding store find bytes_eq
read_back static mac [] netmask gateway dns h = absurd (h.address_given refl)
read_back static mac (a ∷ more) [] gateway dns h = absurd (h.netmask_given refl)
read_back static mac (a ∷ more) (n ∷ ns) gateway dns h =
    static_read_back mac a more n ns gateway dns
read_back dhcp [] address netmask gateway dns h = refl
read_back dhcp (m ∷ ms) address netmask gateway dns h = refl
read_back disabled [] address netmask gateway dns h = refl
read_back disabled (m ∷ ms) address netmask gateway dns h = refl

-- A configuration that is written and read again is the same, when its values are single lines
-- without comment signs or white space around them and a static one has an address and a netmask;
-- of a configuration that is not static, the mode and the MAC address are kept, and the addresses
-- are the defaults again.
pub parse_network_config-serialize_network_config :
    (c : NetworkConfig)
    → IsClean c.mac
    → NeedsAddresses c.mode c
    → parse_network_config (serialize_network_config c) ≡ parsed (kept c.mode c)
unfolding parse_network_config
parse_network_config-serialize_network_config c a n =
    ap with_values (parse_key_value_text-serialize c a n)
    ∙ read_back c.mode c.mac c.address c.netmask c.gateway c.dns n
