-- ===== src/Fsm.antt =====
-- src/ppp_fsm.hpp and src/ppp_fsm.cpp: the automaton of RFC 1661 that LCP and IPCP share.
-- The virtual methods and the place of the object are a `Vtable` over any state `S`.

pub mod Moves
pub mod Keeps
pub mod Ends
use pppcpd.Common.{ℕ, Option, none, some, Bool, true, false, ◌==◌, if◌then◌else◌}
use pppcpd.Common.Bytes.{Bytes, load8}
use pppcpd.Common.Outcome.{Outcome, ok, ◌>>=◌}

-- PPP_FSM_STATE
pub data State : Type 0 where
  initial starting closed stopped closing stopping req_sent ack_rcvd ack_sent opened : State

-- PPP_FSM_ACTION; the enumerator NONE is `no_action`.
pub data Action : Type 0 where
  no_action layer_up layer_down : Action

-- The texts of FSM_RET; `none` in their place is the empty text.
pub data Error : Type 0 where
  invalid_state closing_now conf_req_in_closed id_mismatch : Error
  no_auth_proto no_options magic_wrong echo_timeout no_aaa_session : Error

abbrev pub FsmRet : Type 0
FsmRet = Action × Option Error

-- PPP_FSM
pub record Fsm : Type 0 where
  pub state : State
  pub nak_counter : ℕ
  pub session_id : ℕ
  pub pkt_id : ℕ
  pub seen_ack : Bool

unfoldable pub new_fsm : ℕ → Fsm
new_fsm sid = record {
  state = initial;
  nak_counter = 0;
  session_id = sid;
  pkt_id = 1;
  seen_ack = false;
}

-- LCP_CODE, the codes that `receive` tells apart
abbrev pub conf_req : ℕ
conf_req = 1

abbrev pub conf_ack : ℕ
conf_ack = 2

abbrev pub conf_nak : ℕ
conf_nak = 3

abbrev pub conf_rej : ℕ
conf_rej = 4

abbrev pub term_req : ℕ
term_req = 5

abbrev pub term_ack : ℕ
term_ack = 6

abbrev pub code_rej : ℕ
code_rej = 7

abbrev pub echo_req : ℕ
echo_req = 9

abbrev pub echo_reply : ℕ
echo_reply = 10

-- The methods that a protocol overrides, and the automaton inside the state.
pub record Vtable (S : Type 0) : Type 0 where
  pub fsm : S → Fsm
  pub with_fsm : Fsm → S → S
  pub send_conf_req : S → Outcome (FsmRet × S)
  pub check_conf : Bytes → S → Outcome (FsmRet × S)
  pub send_term_ack : Bytes → S → Outcome (FsmRet × S)
  pub send_echo_rep : Bytes → S → Outcome (FsmRet × S)
  pub recv_echo_rep : Bytes → S → Outcome (FsmRet × S)

-- sizeof( PPPOESESSION_HDR ), and the offsets of `code` and `identifier` behind it
abbrev pub session_hdr_size : ℕ
session_hdr_size = 8

abbrev pub code_at : ℕ
code_at = 8

abbrev pub identifier_at : ℕ
identifier_at = 9

-- What send_conf_ack of LCP and of IPCP reports.
abbrev pub up_if_open : State → Action
up_if_open opened = layer_up
up_if_open _ = no_action

-- The state that a Configure-Request is acknowledged in: the automaton opens if the peer's
-- acknowledgement has come; layer_up() does nothing there.
abbrev pub after_ack : State → State
after_ack ack_rcvd = opened
after_ack _ = ack_sent

-- The state that it is refused in.
abbrev pub after_refusal : State → State
after_refusal ack_rcvd = ack_rcvd
after_refusal _ = req_sent

abbrev pub is_down : State → Bool
is_down initial = true
is_down starting = true
is_down _ = false

module _ {S : Type 0} (v : Vtable S) where
  open v use {fsm, with_fsm, send_conf_req, check_conf, send_term_ack, send_echo_rep, recv_echo_rep}

  abbrev pub set_state : State → S → S
  set_state st s = with_fsm (record (fsm s) { state = st }) s

  abbrev pub ret : Action → Option Error → S → Outcome (FsmRet × S)
  ret a e s = ok ((a, e), s)

  -- The state after a Configure-Request was sent, unless it was refused with an error.
  abbrev pub sent : FsmRet × S → S
  sent ((a, none), s) = set_state req_sent s
  sent ((a, some e), s) = s

  abbrev pub layer_up_in : State → S → Outcome S
  layer_up_in initial s = ok (set_state closed s)
  layer_up_in starting s = do r ← send_conf_req s; ok (sent r)
  layer_up_in _ s = ok s

  unfoldable pub layer_up_event : S → Outcome S
  layer_up_event s = layer_up_in (fsm s).state s

  abbrev pub open_in : State → S → Outcome S
  open_in initial s = ok (set_state starting s)
  open_in closed s = do r ← send_conf_req s; ok (sent r)
  open_in closing s = ok (set_state stopping s)
  open_in _ s = ok s

  -- `open`
  unfoldable pub open_event : S → Outcome S
  open_event s = open_in (fsm s).state s

  abbrev pub conf_req_in : State → Bytes → S → Outcome (FsmRet × S)
  conf_req_in closing pkt s = ret no_action (some closing_now) s
  conf_req_in stopping pkt s = ret no_action (some closing_now) s
  conf_req_in closed pkt s = ret no_action (some conf_req_in_closed) s
  conf_req_in opened pkt s = do
    (r, s') ← send_conf_req s
    ret layer_down none (set_state req_sent s')
  conf_req_in stopped pkt s = do (r, s') ← send_conf_req s; check_conf pkt (set_state req_sent s')
  conf_req_in _ pkt s = check_conf pkt s

  unfoldable pub recv_conf_req : Bytes → S → Outcome (FsmRet × S)
  recv_conf_req pkt s = conf_req_in (fsm s).state pkt s

  abbrev pub conf_ack_in : State → S → Outcome (FsmRet × S)
  conf_ack_in req_sent s = ret no_action none (set_state ack_rcvd s)
  conf_ack_in ack_sent s = do s' ← layer_up_event (set_state opened s); ret layer_up none s'
  conf_ack_in opened s = do (r, s') ← send_conf_req s; ret layer_down none (set_state req_sent s')
  conf_ack_in _ s = ret no_action none s

  unfoldable pub recv_conf_ack : Bytes → S → Outcome (FsmRet × S)
  unfolding layer_up_event
  recv_conf_ack pkt s = do
    id ← load8 pkt identifier_at
    let s' = with_fsm (record (fsm s) { seen_ack = true }) s
    (if id == (fsm s).pkt_id
        then conf_ack_in (fsm s).state s'
        else ret no_action (some id_mismatch) s)

  abbrev pub term_req_in : State → Bytes → S → Outcome (FsmRet × S)
  term_req_in ack_rcvd pkt s = do
    (r, s') ← send_term_ack pkt (set_state req_sent s)
    ret no_action none s'
  term_req_in ack_sent pkt s = do
    (r, s') ← send_term_ack pkt (set_state req_sent s)
    ret no_action none s'
  term_req_in opened pkt s = do
    (r, s') ← send_term_ack pkt (set_state stopping s)
    ret layer_down none s'
  term_req_in _ pkt s = do (r, s') ← send_term_ack pkt s; ret no_action none s'

  unfoldable pub recv_term_req : Bytes → S → Outcome (FsmRet × S)
  recv_term_req pkt s = term_req_in (fsm s).state pkt s

  -- The switch on the code; Configure-Nak, Configure-Reject, Terminate-Ack and Code-Reject, like
  -- every other code, are passed over.
  unfoldable pub dispatch : ℕ → Bytes → S → Outcome (FsmRet × S)
  unfolding recv_conf_req recv_conf_ack recv_term_req
  dispatch code pkt s =
      if code == conf_req
      then recv_conf_req pkt s
      else (if code == conf_ack
          then recv_conf_ack pkt s
          else (if code == term_req
              then recv_term_req pkt s
              else (if code == echo_req
                  then send_echo_rep pkt s
                  else (if code == echo_reply then recv_echo_rep pkt s else ret no_action none s))))

  unfoldable pub receive : Bytes → S → Outcome (FsmRet × S)
  unfolding dispatch
  receive pkt s =
      if is_down (fsm s).state
      then ret no_action (some invalid_state) s
      else (do code ← load8 pkt code_at; dispatch code pkt s)
