-- ===== src/Matlab/Dispatch/Effects.antt =====
-- What a call of the binding does to the table as a function from handles to sessions.
use antsdr_dfone.Prelude.{
  ℕ, suc, ◌+◌, ◌%◌, ◌^◌, ◌<◌, ◌≤◌, ◌≡◌, ◌≢◌, refl, sym, ap, subst, ◌∙◌, Bool, true, false, Option,
  some, none, arith, if-elim, length, Bytes, codes,
}
use antsdr_dfone.Session.{Endpoint, Session, new_session}
use antsdr_dfone.Session.Methods.{connect_session}
use antsdr_dfone.Session.Invariant.{IsSound, connect_session-IsSound}
use antsdr_dfone.Session.Calls.{Call, step, CaptureCall}
use antsdr_dfone.Session.Reach.{step-IsSound}
use antsdr_dfone.Matlab.Values.{MxArray, Result, value, raises, undefined, and_then, get_u64}
use antsdr_dfone.Matlab.Capture.{CaptureStruct, make_capture_struct}
use antsdr_dfone.Matlab.Table.{MexState, find_slot, change_slot}
use antsdr_dfone.Matlab.Table.Laws.{
  update, IsTable, IsSound-find_slot, find_slot-fresh, find_slot-change_slot, change_slot-IsTable,
  length-change_slot, find_slot-erase_slot, erase_slot-IsTable, length-erase_slot,
  emplace_slot-fresh, emplace_slot-IsTable,
}
use antsdr_dfone.Matlab.Commands.{
  Output, handle_output, nothing, capture_output, Request, Reply, failing_with, converting,
  opened_with, close_slot, with_slot, with_session, after_call,
}
use antsdr_dfone.Matlab.Operations.{after_capture}

-- Handles are below the next one and in one slot each, the sessions are sound, and there is one lock
-- for each slot.
pub record IsValid (st : MexState) : Type 0 where
  pub listed : IsTable st.next_handle st.sessions
  pub locked : st.locks ≡ length st.sessions

abbrev pub View : Type 0
View = ℕ → Option Session

abbrev pub view : MexState → View
view st h = find_slot h st.sessions

-- What a call does to the view: nothing, a new session under a handle, a session's method, or the
-- end of a handle.
pub data Effect : Type 0 where
  stays : Effect
  opens : ℕ → Session → Effect
  calls : ℕ → Call → Effect
  closes : ℕ → Effect

abbrev pub call_on : Call → Option Session → Option Session
call_on c none = none
call_on c (some s) = some ((step s c).1)

abbrev pub abstract_step : Effect → View → View
abstract_step stays f = f
abstract_step (opens h s) f = update f h (some s)
abstract_step (calls h c) f = update f h (call_on c (f h))
abstract_step (closes h) f = update f h none

-- A handle that is opened is the next one and free, and its session has connected; the other handles
-- are in use.
abbrev pub IsAllowed : Request → MexState → Effect → Type 0
IsAllowed q st stays = Unit {0}
IsAllowed q st (opens h s) =
    (h ≡ st.next_handle)
    × (view st h ≡ none)
    × ((e : Endpoint) × (connect_session q.dial_control q.dial_stream new_session e ≡ (true, s)))
IsAllowed q st (calls h c) = (s : Session) × (view st h ≡ some s)
IsAllowed q st (closes h) = (s : Session) × (view st h ≡ some s)

-- A reply that gives a handle opens it.
abbrev pub Announces : Effect → Result Output → Type 0
Announces (opens h s) r = r ≡ value (handle_output h)
Announces e r = (h : ℕ) → r ≢ value (handle_output h)

pub record Acts (st : MexState) (q : Request) (r : Reply) : Type 0 where
  pub effect : Effect
  pub allowed : IsAllowed q st effect
  pub refines : (h : ℕ) → view r.1 h ≡ abstract_step effect (view st) h
  pub announces : Announces effect r.0
  pub keeps : IsValid r.1
  pub not_below : st.next_handle ≤ r.1.next_handle
  pub not_above : r.1.next_handle ≤ suc st.next_handle

module _ (st : MexState) (q : Request) (v : IsValid st) where
  pub stays-Acts : (r : Result Output) → Announces stays r → Acts st q (r, st)
  stays-Acts r no_handle = record {
    effect = stays;
    allowed = tt;
    refines = λ h. refl;
    announces = no_handle;
    keeps = v;
    not_below = omega arith;
    not_above = omega arith;
  }

  pub failing_with-Acts : (message : Bytes) → Acts st q (failing_with st message)
  failing_with-Acts message = stays-Acts (raises message) (λ h e. cc)

  pub converting-Acts :
      {A : Type 0} (r : Result A) (rest : A → Reply)
      → ((a : A) → Acts st q (rest a))
      → Acts st q (converting st r rest)
  converting-Acts (value a) rest h = h a
  converting-Acts (raises e) rest h = failing_with-Acts e
  converting-Acts undefined rest h = stays-Acts undefined (λ h e. cc)

  pub opened_with-Acts :
      (e : Endpoint) (r : Bool × Session)
      → st.next_handle + 1 < 2 ^ 64
      → connect_session q.dial_control q.dial_stream new_session e ≡ r
      → Acts st q (opened_with st r)
  unfolding find_slot
  opened_with-Acts e (false, s) w c = failing_with-Acts _
  opened_with-Acts e (true, s) w c =
      let next : (st.next_handle + 1) % 2 ^ 64 ≡ suc st.next_handle = omega arith in
      let fresh : view st st.next_handle ≡ none =
        find_slot-fresh st.next_handle st.sessions v.listed in
      let sound : IsSound s =
        subst (λ (r : Bool × Session). IsSound r.1) c
          (connect_session-IsSound q.dial_control q.dial_stream e new_session tt) in
      rw (emplace_slot-fresh st.next_handle s st.sessions v.listed, next)
        (record {
          effect = opens (st.next_handle) s;
          allowed = (refl, fresh, (e, c));
          refines = λ k. refl;
          announces = refl;
          keeps = record {
            listed = emplace_slot-IsTable st.next_handle s st.sessions sound v.listed;
            locked = omega (arith, v.locked);
          };
          not_below = omega arith;
          not_above = omega arith;
        })

  pub close_slot-Acts : (h : ℕ) (o : Option Session) → view st h ≡ o → Acts st q (close_slot st h o)
  close_slot-Acts h none e = stays-Acts (value nothing) (λ k p. cc)
  close_slot-Acts h (some s) e = record {
    effect = closes h;
    allowed = (s, e);
    refines = λ k. find_slot-erase_slot st.next_handle h k st.sessions v.listed;
    announces = λ k p. cc;
    keeps = record {
      listed = erase_slot-IsTable st.next_handle h st.sessions v.listed;
      locked = omega (arith, v.locked, length-erase_slot h st.sessions e);
    };
    not_below = omega arith;
    not_above = omega arith;
  }

  pub with_session-Acts :
      (x : MxArray) (rest : ℕ → Session → Reply)
      → ((h : ℕ) (s : Session) → view st h ≡ some s → Acts st q (rest h s))
      → Acts st q (with_session st x rest)
  unfolding with_session
  with_session-Acts x rest k =
      converting-Acts (get_u64 x (codes "handle")) _ (λ h. go h (view st h) refl)
    where
      go : (h : ℕ) (o : Option Session) → view st h ≡ o → Acts st q (with_slot st h o rest)
      go h none e = failing_with-Acts _
      go h (some s) e = k h s e

  -- A session that a method has changed.
  changed-Acts :
      (h : ℕ) (s : Session) (c : Call) (r : Result Output)
      → view st h ≡ some s
      → Announces stays r
      → Acts st q (r, record st { sessions = change_slot h (step s c).1 st.sessions })
  changed-Acts h s c r e no_handle = record {
    effect = calls h c;
    allowed = (s, e);
    refines = λ k.
        find_slot-change_slot h k (step s c).1 st.sessions e
        ∙ ap (λ o. update (view st) h (call_on c o) k) (sym e);
    announces = no_handle;
    keeps = record {
      listed =
          change_slot-IsTable st.next_handle h (step s c).1 st.sessions
            (step-IsSound s c (IsSound-find_slot st.next_handle h st.sessions v.listed e)) v.listed;
      locked = v.locked ∙ sym (length-change_slot h (step s c).1 st.sessions);
    };
    not_below = omega arith;
    not_above = omega arith;
  }

  changed_to-Acts :
      (h : ℕ) (s : Session) (c : Call) (s' : Session) (r : Result Output)
      → view st h ≡ some s
      → (step s c).1 ≡ s'
      → Announces stays r
      → Acts st q (r, record st { sessions = change_slot h s' st.sessions })
  changed_to-Acts h s c s' r e p no_handle =
      subst (λ x. Acts st q (r, record st { sessions = change_slot h x st.sessions })) p
        (changed-Acts h s c r e no_handle)

  pub after_call-Acts :
      (h : ℕ) (s : Session) (c : Call) (label : Bytes) (r : Bool × Session)
      → view st h ≡ some s
      → (step s c).1 ≡ r.1
      → Acts st q (after_call st h label r)
  unfolding after_call
  after_call-Acts h s c label (true, s') e p =
      changed_to-Acts h s c s' (value nothing) e p (λ k m. cc)
  after_call-Acts h s c label (false, s') e p = changed_to-Acts h s c s' (raises _) e p (λ k m. cc)

  -- A capture gives no handle.
  captured-Announces :
      (r : Result CaptureStruct) → Announces stays (and_then r (λ c. value (capture_output c)))
  captured-Announces (value c) k m = cc
  captured-Announces (raises e) k m = cc
  captured-Announces undefined k m = cc

  pub after_capture-Acts :
      (h : ℕ) (s : Session) (c : Call) (r : CaptureCall)
      → view st h ≡ some s
      → (step s c).1 ≡ r.session
      → Acts st q (after_capture st h r)
  unfolding after_capture
  after_capture-Acts h s c r e p =
      if-elim (Acts st q) r.done
        (changed_to-Acts h s c r.session _ e p (captured-Announces (make_capture_struct r.out)))
        (changed_to-Acts h s c r.session (raises _) e p (λ k m. cc))
