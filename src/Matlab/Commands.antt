-- ===== src/Matlab/Commands.antt =====
-- The commands of dfone_mex.cpp that open, close and look up a session.
use antsdr_dfone.Prelude.{
  ℕ, ◌+◌, ◌-◌, Bool, true, false, not, ◌||◌, List, [], ◌∷◌, ◌++◌, Option, some, none, ltb, ◌==◌,
  if◌then◌else◌, length, Bytes, codes,
}
use antsdr_dfone.Dial.{Dial}
use antsdr_dfone.Session.{Endpoint, error_text, Session, new_session}
use antsdr_dfone.Session.Methods.{connect_session, connected}
use antsdr_dfone.Matlab.Values.{
  MxArray, Result, value, raises, undefined, and_then, get_string, get_u16, get_u64,
}
use antsdr_dfone.Matlab.Capture.{CaptureStruct}
use antsdr_dfone.Matlab.Table.{MexState, find_slot, emplace_slot, erase_slot, change_slot, next_of}

-- What a call returns to MATLAB.
pub data Output : Type 0 where
  nothing : Output
  handle_output : ℕ → Output
  logical_output : Bool → Output
  capture_output : CaptureStruct → Output

-- A call: the count of outputs wanted, the arguments, and what the system answers to a connection.
pub record Request : Type 0 where
  pub nlhs : ℕ
  pub arguments : List MxArray
  pub dial_control : Dial
  pub dial_stream : Dial

-- How a call ends, and what the binding keeps then. With `undefined` that is the state in which the
-- behaviour becomes undefined; nothing is said of what it is after that.
abbrev pub Reply : Type 0
Reply = Result Output × MexState

-- `fail(...)`, with what has been done so far.
abbrev pub failing_with : MexState → Bytes → Reply
failing_with st message = (raises message, st)

-- The call gets to undefined behaviour in this state.
abbrev pub breaks_off : MexState → Reply
breaks_off st = (undefined, st)

-- A conversion, then the rest of a command.
abbrev pub converting : {A : Type 0} → MexState → Result A → (A → Reply) → Reply
converting st (value a) rest = rest a
converting st (raises e) rest = (raises e, st)
converting st undefined rest = breaks_off st

abbrev pub endpoint_of : List MxArray → Result Endpoint
endpoint_of [] = undefined
endpoint_of (ip ∷ []) =
    and_then (get_string ip (codes "ip"))
      (λ text. value (record (new_session.endpoint) { device_ip = text }))
endpoint_of (ip ∷ command ∷ []) = and_then (get_string ip (codes "ip")) (λ text.
    and_then (get_u16 command (codes "commandPort"))
      (λ port. value (record (new_session.endpoint) { device_ip = text; command_port = port })))
endpoint_of (ip ∷ command ∷ stream ∷ more) = and_then (get_string ip (codes "ip")) (λ text.
    and_then (get_u16 command (codes "commandPort")) (λ port.
      and_then (get_u16 stream (codes "dataPort")) (λ data_port.
        value (record { device_ip = text; command_port = port; data_port = data_port }))))

abbrev pub opened_with : MexState → Bool × Session → Reply
opened_with st (false, s) =
    failing_with st (codes "DFONE connect failed: " ++ error_text s.last_error)
opened_with st (true, s) = (
  value (handle_output st.next_handle),
  record {
    sessions = emplace_slot st.next_handle s st.sessions;
    next_handle = next_of st.next_handle;
    locks = st.locks + 1;
  },
)

-- Here and below `args` is what follows the command's name, one less than `nrhs`.
unfoldable pub command_open : MexState → Request → List MxArray → Reply
unfolding get_string get_u16 emplace_slot connect_session
command_open st q args =
    if ltb (length args) 1 || ltb 3 (length args)
    then failing_with st (codes "usage: handle = dfone_mex('open', ip, commandPort, dataPort)")
    else if ltb 1 q.nlhs
    then failing_with st (codes "open returns one output")
    else converting st (endpoint_of args)
        (λ e. opened_with st (connect_session q.dial_control q.dial_stream new_session e))

abbrev pub close_slot : MexState → ℕ → Option Session → Reply
close_slot st h none = (value nothing, st)
close_slot st h (some s) =
    (value nothing, record st { sessions = erase_slot h st.sessions; locks = st.locks - 1 })

unfoldable pub command_close : MexState → Request → List MxArray → Reply
unfolding get_u64 find_slot erase_slot
command_close st q (v ∷ []) =
    if not (q.nlhs == 0)
    then failing_with st (codes "close returns no outputs")
    else converting st (get_u64 v (codes "handle")) (λ h. close_slot st h (find_slot h st.sessions))
command_close st q args = failing_with st (codes "usage: dfone_mex('close', handle)")

abbrev pub slot_connected : Option Session → Bool
slot_connected none = false
slot_connected (some s) = connected s

unfoldable pub command_is_open : MexState → Request → List MxArray → Reply
unfolding get_u64 find_slot connected
command_is_open st q (v ∷ []) =
    if ltb 1 q.nlhs
    then failing_with st (codes "isOpen returns one output")
    else converting st (get_u64 v (codes "handle"))
        (λ h. (value (logical_output (slot_connected (find_slot h st.sessions))), st))
command_is_open st q args = failing_with st (codes "usage: isOpen = dfone_mex('isOpen', handle)")

-- `get_session`, then the rest of a command with the handle and its session.
abbrev pub with_slot : MexState → ℕ → Option Session → (ℕ → Session → Reply) → Reply
with_slot st h none rest = failing_with st (codes "invalid or closed DFONE handle")
with_slot st h (some s) rest = rest h s

unfoldable pub with_session : MexState → MxArray → (ℕ → Session → Reply) → Reply
unfolding get_u64 find_slot
with_session st v rest =
    converting st (get_u64 v (codes "handle")) (λ h. with_slot st h (find_slot h st.sessions) rest)

-- `if (!session.op(...)) fail_string(...)`; the session keeps what the method did.
unfoldable pub after_call : MexState → ℕ → Bytes → Bool × Session → Reply
unfolding change_slot
after_call st h label (done, s) =
    let st' : MexState = record st { sessions = change_slot h s st.sessions } in
    if done
    then (value nothing, st')
    else failing_with st' (codes "DFONE " ++ label ++ codes " failed: " ++ error_text s.last_error)
