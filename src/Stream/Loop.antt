-- ===== src/Stream/Loop.antt =====
-- The loop of `read_record_packets`, round by round.
use antsdr_dfone.Prelude.{
  ℕ, zero, suc, ◌+◌, ◌%◌, ◌^◌, ◌<◌, ◌≡◌, refl, Bool, true, false, ◌++◌, Option, some, none, inl,
  inr, arith, length, ltb, Bool-cases, if◌then◌else◌,
}
use antsdr_dfone.Wire.{Packet}
use antsdr_dfone.Stream.Invariant.{read_packet-Taken}
use antsdr_dfone.Stream.{
  StreamClient, read_packet, pending, Disk, Recording, Round, stop, continue, report, take_packet,
  packet_or_stop, record_round, record_loop,
}

-- What holds of the recording at the end of a round, in both cases.
abbrev pub After {ℓ} : (Recording → Type ℓ) → Round → Type ℓ
After P (stop r) = P r
After P (continue r) = P r

pub report-client :
    (b : Bool) (expected : ℕ) (r : Recording) → (report b expected r).client ≡ r.client
unfolding report
report-client false expected r = refl
report-client true expected r = refl

pub After-mono {ℓ κ} :
    (P : Recording → Type ℓ) (Q : Recording → Type κ) (o : Round)
    → ((r : Recording) → P r → Q r)
    → After P o
    → After Q o
After-mono P Q (stop r) f h = f r h
After-mono P Q (continue r) f h = f r h

-- A round that goes on has used up some of the stream.
pub take_packet-client :
    (disk : Disk) (b : Bool) (expected : ℕ) (r : Recording) (p : Packet)
    → After (λ r'. r'.client ≡ r.client) (take_packet disk b expected r p)
unfolding take_packet
take_packet-client disk b expected r p = ground (
  arith,
  report-client b expected (record r {
    received_bytes = (r.received_bytes + length p.payload) % 2 ^ 64;
    accepted = r.accepted ++ p.payload;
  }),
)

-- As `After`, of the rounds that go on.
abbrev Onward {ℓ} : (Recording → Type ℓ) → Round → Type ℓ
Onward P (stop r) = Unit
Onward P (continue r) = P r

Onward-of_After :
    (P Q : Recording → Type 0) (o : Round) → ((r : Recording) → P r → Q r) → After P o → Onward Q o
Onward-of_After P Q (stop r) f h = tt
Onward-of_After P Q (continue r) f h = f r h

packet_or_stop-progress :
    (disk : Disk) (b : Bool) (expected : ℕ) (r : Recording) (o : Option Packet × StreamClient)
    → read_packet r.client ≡ o
    → Onward
        (λ r'. pending r'.client.socket_fd < pending r.client.socket_fd)
        (packet_or_stop disk b expected r o)
unfolding packet_or_stop
packet_or_stop-progress disk b expected r (none, c) e = tt
packet_or_stop-progress disk b expected r (some p, c) e =
    Onward-of_After (λ r'. r'.client ≡ c) _ _
      (λ r' same. rw same (read_packet-Taken r.client e).progress)
      (take_packet-client disk b expected (record r { client = c }) p)

record_round-progress :
    (disk : Disk) (b : Bool) (expected : ℕ) (r : Recording)
    → Onward
        (λ r'. pending r'.client.socket_fd < pending r.client.socket_fd)
        (record_round disk b expected r)
unfolding record_round
record_round-progress disk b expected r =
    packet_or_stop-progress disk b expected r (read_packet r.client) refl

-- What the loop does with the outcome of a round.
abbrev pub next_round : (Recording → Bool × Recording) → Round → Bool × Recording
next_round again (stop r) = (false, r)
next_round again (continue r) = again r

next_round-cong :
    (g h : Recording → Bool × Recording) (P : Recording → Type 0) (o : Round)
    → Onward P o
    → ((r : Recording) → P r → g r ≡ h r)
    → next_round g o ≡ next_round h o
next_round-cong g h P (stop r) k e = refl
next_round-cong g h P (continue r) k e = e r k

module _ (disk : Disk) (b : Bool) (expected : ℕ) where
  record_loop-fuel :
      (f g : ℕ) (r : Recording)
      → pending r.client.socket_fd < f
      → pending r.client.socket_fd < g
      → record_loop f disk b expected r ≡ record_loop g disk b expected r
  unfolding record_loop
  record_loop-fuel zero g r h k = absurd (omega arith)
  record_loop-fuel (suc f) zero r h k = absurd (omega arith)
  record_loop-fuel (suc f) (suc g) r h k = elim (Bool-cases (ltb r.received_bytes expected)) [
    | inl t ↦
        rw (t, record_loop)
          (next_round-cong (record_loop f disk b expected) (record_loop g disk b expected) _ _
            (record_round-progress disk b expected r)
            (λ r' less. record_loop-fuel f g r' (omega arith) (omega arith)))
    | inr t ↦ rw (t, record_loop)
  ]

  -- The loop at the fuel that `read_record_packets` gives it.
  abbrev pub run_loop : Recording → Bool × Recording
  run_loop r = record_loop (suc (pending r.client.socket_fd)) disk b expected r

  -- On its fuel the recording loop is the `while` loop of the source: it answers true once enough
  -- has come, and otherwise makes a round, after which it answers false or starts again.
  pub run_loop-unroll :
      (r : Recording)
      → run_loop r ≡ (
          if ltb r.received_bytes expected
          then next_round run_loop (record_round disk b expected r)
          else (true, r))
  unfolding record_loop
  run_loop-unroll r = elim (Bool-cases (ltb r.received_bytes expected)) [
    | inl t ↦
        rw (t, record_loop)
          (next_round-cong (record_loop (pending r.client.socket_fd) disk b expected) run_loop _ _
            (record_round-progress disk b expected r)
            (λ r' less.
              record_loop-fuel (pending r.client.socket_fd) (suc (pending r'.client.socket_fd)) r'
                less (omega arith)))
    | inr t ↦ rw (t, record_loop)
  ]
