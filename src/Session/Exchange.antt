-- ===== src/Session/Exchange.antt =====
-- What `configure` sends.
use antsdr_dfone.Prelude.{
  ℕ, ◌+◌, ◌%◌, ◌^◌, ◌≡◌, refl, sym, ap, subst, ◌∙◌, Bool, true, ◌++◌, Option, some, none, inl, inr,
  arith, Bool-cases, Bytes, append_assoc,
}
use mathlib.Core.Option.{some-injective}
use antsdr_dfone.Wire.{command_frame}
use antsdr_dfone.Control.{
  ControlClient, send_command, control_set_rx_gain, control_set_ref_clock_source,
  control_set_sample_rate, control_set_rx_lo_frequency,
}
use antsdr_dfone.Control.Sent.{wire_of, HasSent, send_command-HasSent}
use antsdr_dfone.Session.{
  clock_code, CaptureConfig, LastError, set_reference_clock_failed, set_sample_rate_failed,
  set_rx_gain_failed, set_rx_lo_failed, WorkMode, synchronized_capture, independent_ad9361, Session,
  no_error,
}
use antsdr_dfone.Session.Methods.{
  connected, setting, configure_lo, configure_gain, configure_rate, configure_all, configure,
  clock_setting, store_config,
}

-- The session has a control client, the command went through, and the rest answered true.
record Passes (s : Session) (op : ControlClient → Bool × ControlClient)
    (rest : Session → Bool × Session) (s' : Session) : Type 0 where
  client : ControlClient
  has_client : s.control ≡ some client
  passed : (op client).0 ≡ true
  continued : rest (record s { control = some (op client).1 }) ≡ (true, s')

setting-Passes :
    (s : Session) (op : ControlClient → Bool × ControlClient) (e : LastError)
    (rest : Session → Bool × Session) {s' : Session}
    → setting s op e rest ≡ (true, s')
    → Passes s op rest s'
unfolding setting
setting-Passes s op e rest {s'} q = go s.control refl
  where
    go : (o : Option ControlClient) → s.control ≡ o → Passes s op rest s'
    go none p = absurd (ground arith)
    go (some c) p = elim (Bool-cases (op c).0) [
      | inl b ↦ record { client = c; has_client = p; passed = b; continued = ground arith }
      | inr b ↦ absurd (ground arith)
    ]

abbrev next : ℕ → ℕ
next seq = (seq + 1) % 2 ^ 16

-- The frames of a configuration, in order, from a sequence number on.
abbrev pub configuration_frames : ℕ → CaptureConfig → Bytes
configuration_frames seq c =
    command_frame seq 0x1e (clock_code c.reference_clock % 4 % 4)
    ++ (command_frame (next seq) 0x01 c.sample_rate_hz
        ++ (command_frame (next (next seq)) 0x00 c.rx_gain_db
            ++ command_frame (next (next (next seq))) 0x31 c.rx_lo_hz))

-- The command channel of `s'` has sent the frames of `c` behind all that `s` had sent, and `s'`
-- reports `c`.
pub record Configures (s : Session) (c : CaptureConfig) (s' : Session) : Type 0 where
  pub client : ControlClient
  pub client' : ControlClient
  pub had_client : s.control ≡ some client
  pub has_client : s'.control ≡ some client'
  pub before : Bytes
  pub had : wire_of client.socket_fd ≡ some before
  pub has : wire_of client'.socket_fd ≡ some (before ++ configuration_frames client.next_seq c)
  pub seq_after : client'.next_seq ≡ next (next (next (next client.next_seq)))
  pub reports : s'.config ≡ c
  pub no_failure : s'.last_error ≡ no_error
  pub same_stream : s'.stream ≡ s.stream

-- One command of a configuration.
step_sent :
    (op : ControlClient → Bool × ControlClient) (addr value : ℕ) (c : ControlClient)
    → ((d : ControlClient) → op d ≡ send_command d addr value)
    → (op c).0 ≡ true
    → HasSent c addr value (op c).1
step_sent op addr value c same b =
    (send_command-HasSent c addr value {c' = (op c).1} (sym (same c) ∙ (ground arith))).0

append_sent :
    (x y : ControlClient) (addr value : ℕ) {b : Bytes} {seq : ℕ}
    → x.next_seq ≡ seq
    → wire_of x.socket_fd ≡ some b
    → HasSent x addr value y
    → (wire_of y.socket_fd ≡ some (b ++ command_frame seq addr value)) × (y.next_seq ≡ next seq)
append_sent x y addr value {b} {seq} q e h = (
  subst (λ t. wire_of y.socket_fd ≡ some (t ++ command_frame seq addr value))
      (some-injective _ _ (sym h.had ∙ e))
      (subst (λ n. wire_of y.socket_fd ≡ some (h.before ++ command_frame n addr value)) q h.has),
  h.seq_after ∙ ap next q,
)

regroup : (a b c d e : Bytes) → (((a ++ b) ++ c) ++ d) ++ e ≡ a ++ (b ++ (c ++ (d ++ e)))
regroup a b c d e = simp append_assoc

module _ (c : CaptureConfig) where
  abbrev set_clock : ControlClient → Bool × ControlClient
  set_clock = clock_setting c.reference_clock

  abbrev set_rate : ControlClient → Bool × ControlClient
  set_rate k = control_set_sample_rate k c.sample_rate_hz

  abbrev set_gain : ControlClient → Bool × ControlClient
  set_gain k = control_set_rx_gain k c.rx_gain_db

  abbrev set_lo : ControlClient → Bool × ControlClient
  set_lo k = control_set_rx_lo_frequency k c.rx_lo_hz

  clock_sent :
      (k : ControlClient)
      → (set_clock k).0 ≡ true
      → HasSent k 0x1e (clock_code c.reference_clock % 4 % 4) (set_clock k).1
  unfolding control_set_ref_clock_source
  clock_sent k b = step_sent set_clock 0x1e (clock_code c.reference_clock % 4 % 4) k (λ d. refl) b

  rate_sent :
      (k : ControlClient) → (set_rate k).0 ≡ true → HasSent k 0x01 c.sample_rate_hz (set_rate k).1
  unfolding control_set_sample_rate
  rate_sent k b = step_sent set_rate 0x01 c.sample_rate_hz k (λ d. refl) b

  gain_sent :
      (k : ControlClient) → (set_gain k).0 ≡ true → HasSent k 0x00 c.rx_gain_db (set_gain k).1
  unfolding control_set_rx_gain
  gain_sent k b = step_sent set_gain 0x00 c.rx_gain_db k (λ d. refl) b

  lo_sent : (k : ControlClient) → (set_lo k).0 ≡ true → HasSent k 0x31 c.rx_lo_hz (set_lo k).1
  unfolding control_set_rx_lo_frequency
  lo_sent k b = step_sent set_lo 0x31 c.rx_lo_hz k (λ d. refl) b

  configure_all-Configures :
      (s : Session) {s' : Session} → configure_all c s ≡ (true, s') → Configures s c s'
  unfolding configure_all configure_rate configure_gain configure_lo
  configure_all-Configures s {s'} q =
      let p0 = setting-Passes s set_clock set_reference_clock_failed (configure_rate c) q in
      let k0 = p0.client in
      let k1 = (set_clock k0).1 in
      let s1 : Session = record s { control = some k1 } in
      let p1 = setting-Passes s1 set_rate set_sample_rate_failed (configure_gain c) p0.continued in
      let e1 = some-injective k1 p1.client p1.has_client in
      let k2 = (set_rate k1).1 in
      let s2 : Session = record s { control = some k2 } in
      let p2 = setting-Passes s2 set_gain set_rx_gain_failed (configure_lo c) (
        subst (λ k. configure_gain c (record s { control = some (set_rate k).1 }) ≡ (true, s'))
          (sym e1) p1.continued) in
      let e2 = some-injective k2 p2.client p2.has_client in
      let k3 = (set_gain k2).1 in
      let s3 : Session = record s { control = some k3 } in
      let p3 = setting-Passes s3 set_lo set_rx_lo_failed (store_config c) (
        subst (λ k. configure_lo c (record s { control = some (set_gain k).1 }) ≡ (true, s'))
          (sym e2) p2.continued) in
      let e3 = some-injective k3 p3.client p3.has_client in
      let h0 = clock_sent k0 p0.passed in
      let h1 = rate_sent k1 (subst (λ k. (set_rate k).0 ≡ true) (sym e1) p1.passed) in
      let h2 = gain_sent k2 (subst (λ k. (set_gain k).0 ≡ true) (sym e2) p2.passed) in
      let h3 = lo_sent k3 (subst (λ k. (set_lo k).0 ≡ true) (sym e3) p3.passed) in
      let w0 = append_sent k0 k1 _ _ refl h0.had h0 in
      let w1 = append_sent k1 k2 _ _ w0.1 w0.0 h1 in
      let w2 = append_sent k2 k3 _ _ w1.1 w1.0 h2 in
      let w3 = append_sent k3 (set_lo k3).1 _ _ w2.1 w2.0 h3 in
      let end : store_config c (record s { control = some (set_lo k3).1 }) ≡ (true, s') =
        subst (λ k. store_config c (record s { control = some (set_lo k).1 }) ≡ (true, s')) (sym e3)
          p3.continued in
      record {
        client = k0;
        client' = (set_lo k3).1;
        had_client = p0.has_client;
        has_client = sym (ap (λ (r : Bool × Session). r.1.control) end);
        before = h0.before;
        had = h0.had;
        has = w3.0 ∙ ap some (regroup h0.before _ _ _ _);
        seq_after = w3.1;
        reports = sym (ap (λ (r : Bool × Session). r.1.config) end);
        no_failure = sym (ap (λ (r : Bool × Session). r.1.last_error) end);
        same_stream = sym (ap (λ (r : Bool × Session). r.1.stream) end);
      }

  -- When `configure` answers true, the device has been sent the four commands of the
  -- configuration, in the order clock, rate, gain, local oscillator, each in a frame of its own
  -- under consecutive sequence numbers, and nothing else, whichever configuration the session had
  -- before, the same one included; and the session reports that configuration, with an empty
  -- `last_error`.
  pub configure-Configures :
      (s : Session) {s' : Session} → configure s c ≡ (true, s') → Configures s c s'
  unfolding configure
  configure-Configures s {s'} q = elim (Bool-cases (connected s)) [
    | inl b ↦ accepted c.work_mode refl
    | inr b ↦ absurd (ground arith)
  ]
    where
      accepted : (m : WorkMode) → c.work_mode ≡ m → Configures s c s'
      accepted synchronized_capture e = configure_all-Configures s (ground arith)
      accepted independent_ad9361 e = absurd (ground arith)
