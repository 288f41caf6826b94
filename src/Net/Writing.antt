-- ===== src/Net/Writing.antt =====
-- `write_all` against the bytes that the kernel takes.
use antsdr_dfone.Prelude.{
  ℕ, zero, suc, ◌<◌, ◌≡◌, refl, ap, ◌∙◌, sym, subst, Bool, true, false, [], ◌∷◌, ◌++◌, arith,
  length, take, drop, min, Bytes, append_assoc, append-nil, take-append-drop, drop-of_length_le,
}
use antsdr_dfone.Net.{
  Incoming, Socket, Outgoing, accepts, send_interrupted, send_failed, send_nothing, takes_all,
  blocked, send_socket, send_steps, write_loop, write_all,
}

-- All of `bytes` went out, or a proper prefix and then a failure; the receiving side is untouched.
pub record Writes (s : Socket) (bytes : Bytes) (done : Bool) (t : Socket) : Type 0 where
  pub sent : Bytes
  pub unsent : Bytes
  pub splits : bytes ≡ sent ++ unsent
  pub on_wire : t.wire ≡ s.wire ++ sent
  pub same_incoming : t.incoming ≡ s.incoming
  pub complete : done ≡ true → unsent ≡ []
  pub incomplete : done ≡ false → unsent ≡ [] → ⊥

Writes-none :
    (s : Socket) (b : ℕ) (bs : Bytes) (o : Outgoing)
    → Writes s (b ∷ bs) false (record s { outgoing = o })
Writes-none s b bs o = record {
  sent = [];
  unsent = b ∷ bs;
  splits = refl;
  on_wire = sym (append-nil s.wire);
  same_incoming = refl;
  complete = λ e. cc;
  incomplete = λ _ e. cc;
}

Writes-after :
    (s t : Socket) (o : Outgoing) (now later : Bytes) (done : Bool)
    → Writes (record s { outgoing = o; wire = s.wire ++ now }) later done t
    → Writes s (now ++ later) done t
Writes-after s t o now later done w = record {
  sent = now ++ w.sent;
  unsent = w.unsent;
  splits = ap (◌++◌ now) w.splits ∙ sym (append_assoc now w.sent w.unsent);
  on_wire = w.on_wire ∙ append_assoc s.wire now w.sent;
  same_incoming = w.same_incoming;
  complete = w.complete;
  incomplete = w.incomplete;
}

Writes-again :
    (s t : Socket) (o : Outgoing) (bytes : Bytes) (done : Bool)
    → Writes (record s { outgoing = o }) bytes done t
    → Writes s bytes done t
Writes-again s t o bytes done w = record {
  sent = w.sent;
  unsent = w.unsent;
  splits = w.splits;
  on_wire = w.on_wire;
  same_incoming = w.same_incoming;
  complete = w.complete;
  incomplete = w.incomplete;
}

Writes-all : (s : Socket) → Writes s [] true s
Writes-all s = record {
  sent = [];
  unsent = [];
  splits = refl;
  on_wire = sym (append-nil s.wire);
  same_incoming = refl;
  complete = λ _. refl;
  incomplete = λ e _. cc;
}

abbrev socket : Incoming → Outgoing → Bytes → Socket
socket i o w = record { incoming = i; outgoing = o; wire = w }

-- After a call of send that took `suc n` bytes.
Writes-took :
    (n b : ℕ) (bs : Bytes) (s t : Socket) (o : Outgoing) (done : Bool)
    → Writes (record s { outgoing = o; wire = s.wire ++ b ∷ take n bs }) (drop n bs) done t
    → Writes s (b ∷ bs) done t
Writes-took n b bs s t o done w =
    subst (λ l. Writes s l done t) (ap (◌∷◌ b) (take-append-drop n bs))
      (Writes-after s t o (b ∷ take n bs) (drop n bs) done w)

-- The socket that the loop leaves, and its answer.
abbrev LoopWrites : ℕ → Socket → Bytes → Type 0
LoopWrites f s bytes = Writes s bytes (write_loop f s bytes).0 (write_loop f s bytes).1

write_loop-Writes :
    (o : Outgoing) (f : ℕ) (i : Incoming) (w bytes : Bytes)
    → suc (send_steps o) < f
    → LoopWrites f (socket i o w) bytes
unfolding write_loop send_socket send_steps
write_loop-Writes o zero i w bytes h = absurd (omega arith)
write_loop-Writes o (suc f) i w [] h = Writes-all (socket i o w)
write_loop-Writes (accepts n o) (suc f) i w (b ∷ bs) h =
    let k = min n (length bs) in
    let taken : min (suc n) (suc (length bs)) ≡ suc k = omega arith in
    rw (taken, write_loop)
      (Writes-took k b bs (socket i (accepts n o) w) _ o _
        (write_loop-Writes o f i (w ++ b ∷ take k bs) (drop k bs) (omega arith)))
write_loop-Writes (send_interrupted o) (suc f) i w (b ∷ bs) h =
    Writes-again (socket i (send_interrupted o) w) _ o (b ∷ bs) _
      (write_loop-Writes o f i w (b ∷ bs) (omega arith))
write_loop-Writes (send_failed m o) (suc f) i w (b ∷ bs) h =
    Writes-none (socket i (send_failed m o) w) b bs o
write_loop-Writes (send_nothing o) (suc f) i w (b ∷ bs) h =
    Writes-none (socket i (send_nothing o) w) b bs o
write_loop-Writes takes_all (suc (suc f)) i w (b ∷ bs) h =
    let rest : LoopWrites (suc f) (socket i takes_all (w ++ b ∷ take (length bs) bs))
        (drop (length bs) bs) =
      rw (drop-of_length_le (length bs) bs (omega arith)) (Writes-all _) in
    Writes-took (length bs) b bs (socket i takes_all w) _ takes_all _ rest
write_loop-Writes takes_all (suc zero) i w (b ∷ bs) h = absurd (omega arith)
write_loop-Writes (blocked m) (suc f) i w (b ∷ bs) h =
    Writes-none (socket i (blocked m) w) b bs (blocked m)

-- Whatever the kernel does, `write_all` ends with all of the bytes on the wire in order and `true`,
-- or with a proper prefix of them and `false`; nothing that is still to be received is lost.
pub write_all-Writes :
    (s : Socket) (bytes : Bytes) → Writes s bytes (write_all s bytes).0 (write_all s bytes).1
unfolding write_all
write_all-Writes s bytes =
    write_loop-Writes s.outgoing (suc (suc (send_steps s.outgoing))) s.incoming s.wire bytes
      (omega arith)

pub write_all-true :
    (s : Socket) (bytes : Bytes)
    → (write_all s bytes).0 ≡ true
    → ((write_all s bytes).1.wire ≡ s.wire ++ bytes) × ((write_all s bytes).1.incoming ≡ s.incoming)
write_all-true s bytes e =
    let w = write_all-Writes s bytes in
    let whole : w.sent ≡ bytes =
      sym (append-nil w.sent) ∙ ap (◌++◌ w.sent) (sym (w.complete e)) ∙ sym w.splits in
    (w.on_wire ∙ ap (◌++◌ s.wire) whole, w.same_incoming)

write_loop-takes_all :
    (f : ℕ) (s : Socket) (bytes : Bytes)
    → s.outgoing ≡ takes_all
    → ((write_loop (suc (suc f)) s bytes).0 ≡ true)
      × ((write_loop (suc (suc f)) s bytes).1.outgoing ≡ takes_all)
unfolding write_loop send_socket
write_loop-takes_all f s [] e = (refl, e)
write_loop-takes_all f s (b ∷ bs) e =
    rw (e, write_loop)
      (rw (drop-of_length_le (length bs) bs (omega arith), write_loop) (refl, refl))

-- A peer that takes everything takes all of it, and stays so.
pub write_all-takes_all :
    (s : Socket) (bytes : Bytes)
    → s.outgoing ≡ takes_all
    → ((write_all s bytes).0 ≡ true) × ((write_all s bytes).1.outgoing ≡ takes_all)
unfolding write_all
write_all-takes_all s bytes e = write_loop-takes_all (send_steps s.outgoing) s bytes e
