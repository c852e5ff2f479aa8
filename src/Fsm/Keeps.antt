-- ===== src/Fsm/Keeps.antt =====
-- The automaton of src/ppp_fsm.cpp under any protocol: what every method leaves alone, every event
-- leaves alone.
use pppcpd.Common.{ℕ, none, some, true, ◌==◌, Bool-cases, inl, inr}
use pppcpd.Common.Bytes.{Bytes, load8}
use pppcpd.Common.Outcome.{◌>>=◌, Outcome, ok, Holds, Holds-bind, Holds-any}
use pppcpd.Fsm.{
  State, initial, starting, closed, stopped, closing, stopping, req_sent, ack_rcvd, ack_sent,
  opened, layer_down, FsmRet, Fsm, Vtable, conf_req, conf_ack, term_req, echo_req, echo_reply,
  is_down, code_at, identifier_at, receive, dispatch, recv_conf_req, recv_conf_ack, recv_term_req,
  conf_req_in, conf_ack_in, term_req_in, layer_up_event, layer_up_in, open_event, open_in,
  set_state, ret, sent,
}

-- That a call leaves a property standing, where it ends.
abbrev pub Kept : {S : Type 0} → (S → Type 0) → FsmRet × S → Type 0
Kept P (r, s) = P s

-- That every method does.
pub record IsSteady {S : Type 0} (v : Vtable S) (P : S → Type 0) : Type 0 where
  pub with_fsm-Kept : (f : Fsm) (s : S) → P s → P (v.with_fsm f s)
  pub send_conf_req-Kept : (s : S) → P s → Holds (Kept P) (v.send_conf_req s)
  pub check_conf-Kept : (pkt : Bytes) (s : S) → P s → Holds (Kept P) (v.check_conf pkt s)
  pub send_term_ack-Kept : (pkt : Bytes) (s : S) → P s → Holds (Kept P) (v.send_term_ack pkt s)
  pub send_echo_rep-Kept : (pkt : Bytes) (s : S) → P s → Holds (Kept P) (v.send_echo_rep pkt s)
  pub recv_echo_rep-Kept : (pkt : Bytes) (s : S) → P s → Holds (Kept P) (v.recv_echo_rep pkt s)

module _ {S : Type 0} (v : Vtable S) (P : S → Type 0) (steady : IsSteady v P) where
  open v use {fsm, with_fsm, send_conf_req, check_conf, send_term_ack, send_echo_rep, recv_echo_rep}

  set_state-Kept : (st : State) (s : S) → P s → P (set_state v st s)
  set_state-Kept st s p = steady.with_fsm-Kept (record (fsm s) { state = st }) s p

  sent-Kept : (r : FsmRet × S) → Kept P r → P (sent v r)
  sent-Kept ((a, none), s) p = set_state-Kept req_sent s p
  sent-Kept ((a, some e), s) p = p

  request_sent : (s : S) → P s → Holds P (send_conf_req s >>= λ r. ok (sent v r))
  request_sent s p =
      Holds-bind P (send_conf_req s) _ (steady.send_conf_req-Kept s p) (λ r q. sent-Kept r q)

  layer_up_in-Kept : (st : State) (s : S) → P s → Holds P (layer_up_in v st s)
  layer_up_in-Kept initial s p = set_state-Kept closed s p
  layer_up_in-Kept starting s p = request_sent s p
  layer_up_in-Kept closed s p = p
  layer_up_in-Kept stopped s p = p
  layer_up_in-Kept closing s p = p
  layer_up_in-Kept stopping s p = p
  layer_up_in-Kept req_sent s p = p
  layer_up_in-Kept ack_rcvd s p = p
  layer_up_in-Kept ack_sent s p = p
  layer_up_in-Kept opened s p = p

  pub layer_up_event-Kept : (s : S) → P s → Holds P (layer_up_event v s)
  unfolding layer_up_event
  layer_up_event-Kept s p = layer_up_in-Kept (fsm s).state s p

  open_in-Kept : (st : State) (s : S) → P s → Holds P (open_in v st s)
  open_in-Kept initial s p = set_state-Kept starting s p
  open_in-Kept closed s p = request_sent s p
  open_in-Kept closing s p = set_state-Kept stopping s p
  open_in-Kept starting s p = p
  open_in-Kept stopped s p = p
  open_in-Kept stopping s p = p
  open_in-Kept req_sent s p = p
  open_in-Kept ack_rcvd s p = p
  open_in-Kept ack_sent s p = p
  open_in-Kept opened s p = p

  pub open_event-Kept : (s : S) → P s → Holds P (open_event v s)
  unfolding open_event
  open_event-Kept s p = open_in-Kept (fsm s).state s p

  -- A request goes out and the automaton is back in Req-Sent.
  again :
      {B : Type 0} (Q : B → Type 0) (s : S) (f : S → Outcome B)
      → P s
      → ((t : S) → P t → Holds Q (f t))
      → Holds Q (send_conf_req s >>= λ r. f (set_state v req_sent r.1))
  again Q s f p g =
      Holds-bind Q (send_conf_req s) _ (steady.send_conf_req-Kept s p)
        (λ r q. g (set_state v req_sent r.1) (set_state-Kept req_sent r.1 q))

  conf_req_in-Kept :
      (st : State) (pkt : Bytes) (s : S) → P s → Holds (Kept P) (conf_req_in v st pkt s)
  conf_req_in-Kept closing pkt s p = p
  conf_req_in-Kept stopping pkt s p = p
  conf_req_in-Kept closed pkt s p = p
  conf_req_in-Kept opened pkt s p = again (Kept P) s (ret v layer_down none) p (λ t q. q)
  conf_req_in-Kept stopped pkt s p =
      again (Kept P) s (check_conf pkt) p (λ t q. steady.check_conf-Kept pkt t q)
  conf_req_in-Kept initial pkt s p = steady.check_conf-Kept pkt s p
  conf_req_in-Kept starting pkt s p = steady.check_conf-Kept pkt s p
  conf_req_in-Kept req_sent pkt s p = steady.check_conf-Kept pkt s p
  conf_req_in-Kept ack_rcvd pkt s p = steady.check_conf-Kept pkt s p
  conf_req_in-Kept ack_sent pkt s p = steady.check_conf-Kept pkt s p

  conf_ack_in-Kept : (st : State) (s : S) → P s → Holds (Kept P) (conf_ack_in v st s)
  conf_ack_in-Kept req_sent s p = set_state-Kept ack_rcvd s p
  conf_ack_in-Kept ack_sent s p =
      Holds-bind (Kept P) (layer_up_event v (set_state v opened s)) _
        (layer_up_event-Kept (set_state v opened s) (set_state-Kept opened s p)) (λ t q. q)
  conf_ack_in-Kept opened s p = again (Kept P) s (ret v layer_down none) p (λ t q. q)
  conf_ack_in-Kept initial s p = p
  conf_ack_in-Kept starting s p = p
  conf_ack_in-Kept closed s p = p
  conf_ack_in-Kept stopped s p = p
  conf_ack_in-Kept closing s p = p
  conf_ack_in-Kept stopping s p = p
  conf_ack_in-Kept ack_rcvd s p = p

  -- A Terminate-Ack goes out, and nothing that the caller does with the result matters.
  acknowledged :
      (pkt : Bytes) (s : S) (f : FsmRet × S → FsmRet)
      → P s
      → Holds (Kept P) (send_term_ack pkt s >>= λ r. ok (f r, r.1))
  acknowledged pkt s f p =
      Holds-bind (Kept P) (send_term_ack pkt s) _ (steady.send_term_ack-Kept pkt s p) (λ r q. q)

  term_req_in-Kept :
      (st : State) (pkt : Bytes) (s : S) → P s → Holds (Kept P) (term_req_in v st pkt s)
  term_req_in-Kept ack_rcvd pkt s p =
      acknowledged pkt (set_state v req_sent s) _ (set_state-Kept req_sent s p)
  term_req_in-Kept ack_sent pkt s p =
      acknowledged pkt (set_state v req_sent s) _ (set_state-Kept req_sent s p)
  term_req_in-Kept opened pkt s p =
      acknowledged pkt (set_state v stopping s) _ (set_state-Kept stopping s p)
  term_req_in-Kept initial pkt s p = acknowledged pkt s _ p
  term_req_in-Kept starting pkt s p = acknowledged pkt s _ p
  term_req_in-Kept closed pkt s p = acknowledged pkt s _ p
  term_req_in-Kept stopped pkt s p = acknowledged pkt s _ p
  term_req_in-Kept closing pkt s p = acknowledged pkt s _ p
  term_req_in-Kept stopping pkt s p = acknowledged pkt s _ p
  term_req_in-Kept req_sent pkt s p = acknowledged pkt s _ p

  recv_conf_ack-Kept : (pkt : Bytes) (s : S) → P s → Holds (Kept P) (recv_conf_ack v pkt s)
  unfolding recv_conf_ack
  recv_conf_ack-Kept pkt s p = Holds-any (Kept P) (load8 pkt identifier_at) _ (λ id.
      elim (Bool-cases (id == (fsm s).pkt_id)) [
        | inl ours ↦ rw ours (
            conf_ack_in-Kept (fsm s).state (with_fsm (record (fsm s) { seen_ack = true }) s)
              (steady.with_fsm-Kept (record (fsm s) { seen_ack = true }) s p))
        | inr other ↦ rw other p
      ])

  dispatch-Kept : (code : ℕ) (pkt : Bytes) (s : S) → P s → Holds (Kept P) (dispatch v code pkt s)
  unfolding dispatch recv_conf_req recv_term_req
  dispatch-Kept code pkt s p = elim (Bool-cases (code == conf_req)) [
    | inl a ↦ rw a (conf_req_in-Kept (fsm s).state pkt s p)
    | inr a ↦ elim (Bool-cases (code == conf_ack)) [
      | inl c ↦ rw (a, c) (recv_conf_ack-Kept pkt s p)
      | inr c ↦ elim (Bool-cases (code == term_req)) [
        | inl d ↦ rw (a, c, d) (term_req_in-Kept (fsm s).state pkt s p)
        | inr d ↦ elim (Bool-cases (code == echo_req)) [
          | inl g ↦ rw (a, c, d, g) (steady.send_echo_rep-Kept pkt s p)
          | inr g ↦ elim (Bool-cases (code == echo_reply)) [
            | inl h ↦ rw (a, c, d, g, h) (steady.recv_echo_rep-Kept pkt s p)
            | inr h ↦ rw (a, c, d, g, h) p
          ]
        ]
      ]
    ]
  ]

  pub receive-Kept : (pkt : Bytes) (s : S) → P s → Holds (Kept P) (receive v pkt s)
  unfolding receive
  receive-Kept pkt s p = elim (Bool-cases (is_down (fsm s).state)) [
    | inl down ↦ rw down p
    | inr up ↦ rw up (Holds-any (Kept P) (load8 pkt code_at) _ (λ code. dispatch-Kept code pkt s p))
  ]
