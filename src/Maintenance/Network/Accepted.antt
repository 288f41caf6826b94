-- ===== src/Maintenance/Network/Accepted.antt =====
-- What `parse_network_config` accepts.
use antsdr_dfone.Prelude.{◌≡◌, ◌≢◌, refl, [], Option, some, none, arith, Bytes, codes}
use antsdr_dfone.Maintenance.Text.{Values, find, parse_key_value_text}
use antsdr_dfone.Maintenance.Network.{
  NetworkMode, static, dhcp, disabled, NetworkConfig, parsed, with_values, or_default, mode_of,
  copy_values, with_mode, accept_static, parse_network_config,
}

accept_static-parsed :
    (mode : NetworkMode) (d c : NetworkConfig)
    → d.mode ≡ mode
    → accept_static mode d ≡ parsed c
    → c.mode ≡ static
    → (c.address ≢ []) × (c.netmask ≢ [])
accept_static-parsed static d c q e s = (λ x. ground arith, λ x. ground arith)
accept_static-parsed dhcp d c q e s = absurd (ground arith)
accept_static-parsed disabled d c q e s = absurd (ground arith)

with_mode-parsed :
    (text : Bytes) (o : Option NetworkMode) (m : Values) (c : NetworkConfig)
    → with_mode text o m ≡ parsed c
    → c.mode ≡ static
    → (c.address ≢ []) × (c.netmask ≢ [])
with_mode-parsed text none m c e s = absurd (ground arith)
with_mode-parsed text (some mode) m c e s =
    accept_static-parsed mode (copy_values mode m) c refl e s

-- Whatever text is read, a static configuration that is accepted has an address and a netmask.
pub parse_network_config-static :
    (text : Bytes) (c : NetworkConfig)
    → parse_network_config text ≡ parsed c
    → c.mode ≡ static
    → (c.address ≢ []) × (c.netmask ≢ [])
unfolding parse_network_config
parse_network_config-static text c e s = go (parse_key_value_text text) e
  where
    go : (o : Option Values) → with_values o ≡ parsed c → (c.address ≢ []) × (c.netmask ≢ [])
    go none q = absurd (ground arith)
    go (some m) q =
        let text' = or_default (find (codes "mode") m) (codes "static") in
        with_mode-parsed text' (mode_of text') m c q s
