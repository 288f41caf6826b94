-- ===== src/Maintenance/Service/Network.antt =====
-- The requests for the network configuration: what they send, and what they read.
use mathlib.Core.Bool.{false≢true}
use antsdr_dfone.Prelude.{
  ℕ, ◌^◌, ◌<◌, ◌≤◌, ◌≡◌, refl, sym, ap, ◌∙◌, Bool, true, false, ◌||◌, List, [], ◌∷◌, ◌++◌, Option,
  some, none, arith, inl, inr, Bool-cases, Option-cases, ltb, ◌==◌, length, Bytes, codes,
  append-nil, append_assoc,
}
use antsdr_dfone.Net.{Socket}
use antsdr_dfone.Net.Reading.{readable}
use antsdr_dfone.Maintenance.Text.Lines.{IsClean}
use antsdr_dfone.Maintenance.Network.{NetworkConfig, serialize_network_config, parse_network_config}
use antsdr_dfone.Maintenance.Network.RoundTrip.{
  NeedsAddresses, kept, parse_network_config-serialize_network_config,
}
use antsdr_dfone.Maintenance.Service.{fails, gives, send_all, receive_sized_payload, to_string}
use antsdr_dfone.Maintenance.Service.Payload.{send_all-none, receive_sized_payload-Yields}
use antsdr_dfone.Maintenance.Service.Requests.{
  max_firmware_response_bytes, max_network_config_bytes, Maintenance, Resolver, connect_service,
  Exchange, exchange, exchange_on, request, Reply, end_payload, end_parsed, end_raw,
  get_network_config, set_network_config,
}

-- The messages one after the other.
abbrev pub joined : List Bytes → Bytes
joined [] = []
joined (m ∷ ms) = m ++ joined ms

exchange-wire :
    (ms : List Bytes) (s t : Socket) (max : ℕ) (context out : Bytes)
    → exchange s ms max context ≡ (gives out, some t)
    → t.wire ≡ s.wire ++ joined ms
unfolding exchange
exchange-wire [] s t max context out e = ground (arith, append-nil s.wire)
exchange-wire (m ∷ ms) s t max context out e = elim (Option-cases (send_all s m).0) [
  | inl q ↦
      let w = send_all-none s m q in
      exchange-wire ms (send_all s m).1 t max context out (ground arith)
      ∙ ap (λ x. x ++ joined ms) w.0
      ∙ append_assoc s.wire m (joined ms)
  | inr (x, q) ↦ absurd (ground arith)
]

exchange-socket :
    (ms : List Bytes) (s : Socket) (max : ℕ) (context out : Bytes) (o : Option Socket)
    → exchange s ms max context ≡ (gives out, o)
    → (t : Socket) × (o ≡ some t)
unfolding exchange
exchange-socket [] s max context out o e =
    (record s { incoming = (receive_sized_payload s.incoming max context).1 }, ground arith)
exchange-socket (m ∷ ms) s max context out o e = elim (Option-cases (send_all s m).0) [
  | inl q ↦ exchange-socket ms (send_all s m).1 max context out o (ground arith)
  | inr (x, q) ↦ absurd (ground arith)
]

-- The two messages of `set_network_config`.
abbrev pub network_messages : Bytes → List Bytes
network_messages text =
    (codes "SET_NETWORK " ++ (to_string (length text) ++ b'\n' ∷ [])) ∷ text ∷ []

-- What has gone out on the socket of a reply.
pub record HasSentMessages (s : Socket) (ms : List Bytes) (r : Reply Bytes) : Type 0 where
  pub left : Socket
  pub on_socket : r.socket ≡ some left
  pub on_wire : left.wire ≡ s.wire ++ joined ms
  pub no_failure : r.object.last_error ≡ []

end_payload-HasSentMessages :
    (m : Maintenance) (output : Bytes) (s : Socket) (ms : List Bytes) (max : ℕ) (context : Bytes)
    (e : Exchange)
    → exchange s ms max context ≡ e
    → (end_payload m output e).done ≡ true
    → HasSentMessages s ms (end_payload m output e)
end_payload-HasSentMessages m output s ms max context (fails x, o) q d = absurd (false≢true d)
end_payload-HasSentMessages m output s ms max context (gives out, o) q d =
    let (t, is) = exchange-socket ms s max context out o q in
    record {
      left = t;
      on_socket = is;
      on_wire =
          exchange-wire ms s t max context out (q ∙ ap (λ (x : Option Socket). (gives out, x)) is);
      no_failure = refl;
    }

request-exchange :
    (r : Resolver) (m : Maintenance) (s : Socket) (ms : List Bytes) (max : ℕ) (context : Bytes)
    → connect_service r m.endpoint ≡ gives s
    → request r m ms max context ≡ exchange s ms max context
unfolding request
request-exchange r m s ms max context e = ap (λ x. exchange_on x ms max context) e

module _ (r : Resolver) (m : Maintenance) (c : NetworkConfig) (output : Bytes) where
  abbrev bad_text : Bool
  bad_text =
      length (serialize_network_config c) == 0
      || ltb max_network_config_bytes (length (serialize_network_config c))

  set_network_config-bad : bad_text ≡ true → (set_network_config r m c output).done ≡ false
  unfolding set_network_config
  set_network_config-bad t = rw t refl

  set_network_config-good :
      bad_text ≡ false
      → set_network_config r m c output
        ≡ end_payload m output (
            request r m
              (network_messages (serialize_network_config c))
              max_firmware_response_bytes
              (codes "network config"))
  unfolding set_network_config
  set_network_config-good t = rw t refl

  -- When `set_network_config` answers true on the socket that was connected, the size of the written
  -- configuration and then its text have gone out whole, and nothing else; and `last_error` is empty.
  pub set_network_config-HasSentMessages :
      (s : Socket)
      → connect_service r m.endpoint ≡ gives s
      → (set_network_config r m c output).done ≡ true
      → HasSentMessages s
          (network_messages (serialize_network_config c))
          (set_network_config r m c output)
  set_network_config-HasSentMessages s e d = elim (Bool-cases bad_text) [
    | inl t ↦ absurd (false≢true (sym (set_network_config-bad t) ∙ d))
    | inr t ↦
        let ms = network_messages (serialize_network_config c) in
        let same =
          set_network_config-good t
          ∙ ap (end_payload m output)
              (request-exchange r m s ms max_firmware_response_bytes (codes "network config") e) in
        rw same (
          end_payload-HasSentMessages m output s ms max_firmware_response_bytes
            (codes "network config")
            (exchange s ms max_firmware_response_bytes (codes "network config")) refl
            (ap (λ (x : Reply Bytes). x.done) (sym same) ∙ d))
  ]

exchange-Yields :
    (s : Socket) (message : Bytes) (max : ℕ) (context bytes rest : Bytes)
    → (send_all s message).0 ≡ none
    → length bytes ≤ max
    → max < 2 ^ 64
    → readable s.incoming ≡ (codes "OK " ++ to_string (length bytes)) ++ b'\n' ∷ (bytes ++ rest)
    → (t : Socket) × (exchange s (message ∷ []) max context ≡ (gives bytes, some t))
unfolding exchange
exchange-Yields s message max context bytes rest q h k e =
    let s' = (send_all s message).1 in
    let w = send_all-none s message q in
    let y =
      receive_sized_payload-Yields max context s'.incoming bytes rest h k (ap readable w.1 ∙ e) in
    (record s' { incoming = y.behind }, rw (q, exchange) (rw y.result refl))

end_raw-serialized :
    (m : Maintenance) (old : NetworkConfig) (s : Option Socket) (c : NetworkConfig)
    → end_raw m old s (serialize_network_config c)
      ≡ end_parsed m old
          (serialize_network_config c)
          s
          (parse_network_config (serialize_network_config c))
unfolding serialize_network_config
end_raw-serialized m old s c = refl

-- When the service is connected and takes the request, and it answers OK with a configuration as
-- `serialize_network_config` writes it (clean values, an address and a netmask if it is static, at
-- most 8 KB), `get_network_config` answers true with what is kept of that configuration and with
-- its text, and an empty `last_error`.
pub get_network_config-reads :
    (r : Resolver) (m : Maintenance) (old : NetworkConfig) (raw : Bytes) (s : Socket)
    (c : NetworkConfig) (rest : Bytes)
    → connect_service r m.endpoint ≡ gives s
    → (send_all s (codes "GET_NETWORK\n")).0 ≡ none
    → IsClean c.mac
    → NeedsAddresses c.mode c
    → length (serialize_network_config c) ≤ max_network_config_bytes
    → readable s.incoming
      ≡ (codes "OK " ++ to_string (length (serialize_network_config c)))
        ++ b'\n' ∷ (serialize_network_config c ++ rest)
    → (let o = get_network_config r m old raw in
        (o.done ≡ true)
        × (o.out ≡ (kept c.mode c, serialize_network_config c))
        × (o.object.last_error ≡ []))
unfolding get_network_config
get_network_config-reads r m old raw s c rest e q clean needs h on_stream =
    let text = serialize_network_config c in
    let (t, gave) =
      exchange-Yields s (codes "GET_NETWORK\n") max_network_config_bytes (codes "network config")
        text rest q h (omega arith) on_stream in
    let same =
      request-exchange r m s (codes "GET_NETWORK\n" ∷ []) max_network_config_bytes
        (codes "network config") e
      ∙ gave in
    let read =
      end_raw-serialized m old (some t) c
      ∙ ap (end_parsed m old text (some t))
          (parse_network_config-serialize_network_config c clean needs) in
    rw same (rw read (refl, refl, refl))
