-- ===== src/Net/Reading.antt =====
-- `read_exact` against the stream of bytes that the peer sends.
use antsdr_dfone.Prelude.{
  ℕ, zero, suc, ◌+◌, ◌-◌, ◌≤◌, ◌<◌, ◌≡◌, ◌≢◌, refl, ap, ◌∙◌, sym, [], ◌∷◌, ◌++◌, arith, dec_le,
  length, length-append, length-take, take, drop, length-drop, take-append_left, drop-append_left,
  take-append_right, drop-append_right, take-of_length_le, drop-of_length_le, Bytes, append-nil,
}
use antsdr_dfone.Net.{
  Incoming, chunk, recv_interrupted, recv_failed, peer_closed, silent, push_back, recv_socket,
  supply, ReadExactResult, ok, peer_gone, error, Read, read_loop, read_exact,
}

-- The bytes that arrive before the first thing that ends a read.
unfoldable pub readable : Incoming → Bytes
readable (chunk b bs s) = b ∷ (bs ++ readable s)
readable (recv_interrupted s) = readable s
readable (recv_failed m s) = []
readable peer_closed = []
readable (silent m) = []

-- What a read meets behind those bytes.
unfoldable pub fate : Incoming → ReadExactResult
fate (chunk b bs s) = fate s
fate (recv_interrupted s) = fate s
fate (recv_failed m s) = error
fate peer_closed = peer_gone
fate (silent m) = error

pub readable-push_back : (bs : Bytes) (s : Incoming) → readable (push_back bs s) ≡ bs ++ readable s
unfolding push_back readable
readable-push_back [] s = refl
readable-push_back (b ∷ bs) s = refl

fate-push_back : (bs : Bytes) (s : Incoming) → fate (push_back bs s) ≡ fate s
unfolding push_back fate
fate-push_back [] s = refl
fate-push_back (b ∷ bs) s = refl

pub supply-push_back : (bs : Bytes) (s : Incoming) → supply (push_back bs s) ≡ length bs + supply s
unfolding push_back supply
supply-push_back [] s = omega arith
supply-push_back (b ∷ bs) s = omega arith

-- A read of `need` bytes that are there.
pub record Delivers (need : ℕ) (s : Incoming) (r : Read) : Type 0 where
  pub succeeds : r.status ≡ ok
  pub in_order : r.filled ≡ take need (readable s)
  pub leaves : readable r.rest ≡ drop need (readable s)
  pub same_fate : fate r.rest ≡ fate s
  pub progress : supply r.rest + need ≤ supply s

-- A read that asks for more than arrives.
pub record FallsShort (s : Incoming) (r : Read) : Type 0 where
  pub fails : r.status ≡ fate s
  pub partial : r.filled ≡ readable s

read_none : (f : ℕ) (s : Incoming) → Delivers 0 s (read_loop (suc f) s 0)
unfolding read_loop
read_none f s = record {
  succeeds = refl;
  in_order = refl;
  leaves = refl;
  same_fate = refl;
  progress = omega arith;
}

-- What the first call gets of a chunk, and what is left of the buffer.
module _ (f need b : ℕ) (bs : Bytes) (s : Incoming) where
  -- The chunk covers the rest of the buffer: it is cut, and the loop is left.
  read_loop_cut :
      need ≤ length bs
      → Delivers (suc need) (chunk b bs s) (read_loop (suc (suc f)) (chunk b bs s) (suc need))
  unfolding read_loop recv_socket readable fate supply
  read_loop_cut h =
      let all : suc need - suc (length (take need bs)) ≡ 0 = omega (arith, length-take need bs) in
      rw all (record {
        succeeds = refl;
        in_order = ap (◌∷◌ b) (append-nil _ ∙ sym (take-append_left need bs (readable s) h));
        leaves =
            readable-push_back (drop need bs) s ∙ sym (drop-append_left need bs (readable s) h);
        same_fate = fate-push_back (drop need bs) s;
        progress = omega (arith, supply-push_back (drop need bs) s, length-drop need bs);
      })

  read_loop_whole :
      length bs ≤ need
      → Delivers (need - length bs) s (read_loop f s (need - length bs))
      → Delivers (suc need) (chunk b bs s) (read_loop (suc f) (chunk b bs s) (suc need))
  unfolding read_loop recv_socket readable fate supply push_back
  read_loop_whole h d =
      let left : suc need - suc (length bs) ≡ need - length bs = omega arith in
      rw (take-of_length_le need bs h, drop-of_length_le need bs h, left)
        (record {
          succeeds = d.succeeds;
          in_order = ap (◌∷◌ b) (ap (◌++◌ bs) d.in_order ∙ sym (take-append_right bs need _ h));
          leaves = d.leaves ∙ sym (drop-append_right bs need _ h);
          same_fate = d.same_fate;
          progress = omega arith;
        })

  read_loop_short :
      length bs ≤ need
      → FallsShort s (read_loop f s (need - length bs))
      → FallsShort (chunk b bs s) (read_loop (suc f) (chunk b bs s) (suc need))
  unfolding read_loop recv_socket readable fate push_back
  read_loop_short h d =
      let left : suc need - suc (length bs) ≡ need - length bs = omega arith in
      rw (take-of_length_le need bs h, drop-of_length_le need bs h, left)
        (record { fails = d.fails; partial = ap (λ t. b ∷ (bs ++ t)) d.partial })

-- EINTR only costs a round.
module _ (f need : ℕ) (s : Incoming) where
  read_loop_retry :
      Delivers (suc need) s (read_loop f s (suc need))
      → Delivers (suc need) (recv_interrupted s) (read_loop (suc f) (recv_interrupted s) (suc need))
  unfolding read_loop recv_socket readable fate supply
  read_loop_retry d = record {
    succeeds = d.succeeds;
    in_order = d.in_order;
    leaves = d.leaves;
    same_fate = d.same_fate;
    progress = omega arith;
  }

  read_loop_retry_short :
      FallsShort s (read_loop f s (suc need))
      → FallsShort (recv_interrupted s) (read_loop (suc f) (recv_interrupted s) (suc need))
  unfolding read_loop recv_socket readable fate
  read_loop_retry_short d = record { fails = d.fails; partial = d.partial }

read_loop-Delivers :
    (s : Incoming) (f need : ℕ)
    → supply s < f
    → need ≤ length (readable s)
    → Delivers need s (read_loop f s need)
unfolding readable supply
read_loop-Delivers s zero need h k = absurd (omega arith)
read_loop-Delivers s (suc f) zero h k = read_none f s
read_loop-Delivers (chunk b bs s) (suc zero) (suc need) h k = absurd (omega arith)
read_loop-Delivers (chunk b bs s) (suc (suc f)) (suc need) h k = elim (dec_le need (length bs)) [
  | yes c ↦ read_loop_cut f need b bs s c
  | no c ↦ read_loop_whole (suc f) need b bs s (omega arith) (
      read_loop-Delivers s (suc f) (need - length bs) (omega arith)
        (omega (arith, length-append bs (readable s))))
]
read_loop-Delivers (recv_interrupted s) (suc f) (suc need) h k =
    read_loop_retry f need s (read_loop-Delivers s f (suc need) (omega arith) k)
read_loop-Delivers (recv_failed m s) (suc f) (suc need) h k = absurd (omega arith)
read_loop-Delivers peer_closed (suc f) (suc need) h k = absurd (omega arith)
read_loop-Delivers (silent m) (suc f) (suc need) h k = absurd (omega arith)

read_loop-FallsShort :
    (s : Incoming) (f need : ℕ)
    → supply s < f
    → length (readable s) < need
    → FallsShort s (read_loop f s need)
unfolding readable supply read_loop recv_socket fate
read_loop-FallsShort s zero need h k = absurd (omega arith)
read_loop-FallsShort s (suc f) zero h k = absurd (omega arith)
read_loop-FallsShort (chunk b bs s) (suc f) (suc need) h k =
    let fits : length bs ≤ need = omega (arith, length-append bs (readable s)) in
    read_loop_short f need b bs s fits (
      read_loop-FallsShort s f (need - length bs) (omega arith)
        (omega (arith, length-append bs (readable s))))
read_loop-FallsShort (recv_interrupted s) (suc f) (suc need) h k =
    read_loop_retry_short f need s (read_loop-FallsShort s f (suc need) (omega arith) k)
read_loop-FallsShort (recv_failed m s) (suc f) (suc need) h k = record {
  fails = refl;
  partial = refl;
}
read_loop-FallsShort peer_closed (suc f) (suc need) h k = record { fails = refl; partial = refl }
read_loop-FallsShort (silent m) (suc f) (suc need) h k = record { fails = refl; partial = refl }

-- When `len` bytes arrive, however they are cut, `read_exact` succeeds and fills the buffer with
-- the first `len` of them in order, and the next read starts right behind them.
pub read_exact-Delivers :
    (s : Incoming) (len : ℕ) → len ≤ length (readable s) → Delivers len s (read_exact s len)
unfolding read_exact
read_exact-Delivers s len h = read_loop-Delivers s (suc (supply s)) len (omega arith) h

-- When fewer than `len` bytes arrive, `read_exact` fails in the way in which the stream ends, by
-- the peer's close or by an error, and what it has filled is all that arrived.
pub read_exact-FallsShort :
    (s : Incoming) (len : ℕ) → length (readable s) < len → FallsShort s (read_exact s len)
unfolding read_exact
read_exact-FallsShort s len h = read_loop-FallsShort s (suc (supply s)) len (omega arith) h

pub fate-ne-ok : (s : Incoming) → fate s ≢ ok
unfolding fate
fate-ne-ok (chunk b bs s) = fate-ne-ok s
fate-ne-ok (recv_interrupted s) = fate-ne-ok s
fate-ne-ok (recv_failed m s) = λ e. cc
fate-ne-ok peer_closed = λ e. cc
fate-ne-ok (silent m) = λ e. cc

-- A read that succeeds has all of its bytes.
pub read_exact-ok :
    (s : Incoming) (len : ℕ) → (read_exact s len).status ≡ ok → len ≤ length (readable s)
read_exact-ok s len e = elim (dec_le len (length (readable s))) [
  | yes h ↦ h
  | no h ↦ absurd (fate-ne-ok s (sym (read_exact-FallsShort s len (omega arith)).fails ∙ e))
]
