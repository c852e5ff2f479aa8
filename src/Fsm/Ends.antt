-- ===== src/Fsm/Ends.antt =====
-- The automaton of src/ppp_fsm.cpp under any protocol: where its methods end, every event ends.
use pppcpd.Common.{
  ℕ, zero, suc, ◌+◌, ◌*◌, ◌≤◌, ◌<◌, ◌≡◌, ◌≢◌, refl, arith, [], ◌∷◌, some, true, ◌==◌, ==_false,
  length,
}
use pppcpd.Common.{get_elem?}
use pppcpd.Common.Bytes.{Bytes, load8, load16, load32}
use pppcpd.Common.Outcome.{◌>>=◌, ok, Ends, Ends-bind, Ends-if}
use pppcpd.Fsm.{
  State, initial, starting, closed, stopped, closing, stopping, req_sent, ack_rcvd, ack_sent,
  opened, FsmRet, Vtable, conf_req, conf_ack, term_req, echo_req, echo_reply, is_down, code_at,
  identifier_at, receive, dispatch, recv_conf_ack, recv_term_req, conf_ack_in, term_req_in,
  layer_up_event, layer_up_in, open_event, open_in, set_state, sent,
}

elem_there : (p : Bytes) (i : ℕ) → i < length p → (x : ℕ) × (get_elem? p i ≡ some x)
elem_there [] i h = absurd (omega arith)
elem_there (x ∷ p) zero h = (x, refl)
elem_there (x ∷ p) (suc i) h = elem_there p i (omega arith)

pub load8-Ends : (p : Bytes) (i : ℕ) → i < length p → Ends (load8 p i)
load8-Ends p i h = let (x, e) = elem_there p i h in (x, rw e refl)

pub load16-Ends : (p : Bytes) (i : ℕ) → i + 1 < length p → Ends (load16 p i)
load16-Ends p i h =
    Ends-bind (load8 p i) _ (load8-Ends p i (omega arith))
      (λ a. Ends-bind (load8 p (i + 1)) _ (load8-Ends p (i + 1) h) (λ b. (a + b * 256, refl)))

pub load32-Ends : (p : Bytes) (i : ℕ) → i + 3 < length p → Ends (load32 p i)
load32-Ends p i h = Ends-bind (load16 p i) _ (load16-Ends p i (omega arith)) (λ a.
    Ends-bind (load16 p (i + 2)) _ (load16-Ends p (i + 2) (omega arith))
      (λ b. (a + b * 65536, refl)))

-- A packet that the fixed parts of a header and a magic number fit in.
abbrev pub IsWhole : Bytes → Type 0
IsWhole pkt = 16 ≤ length pkt

-- The methods end; check_conf, whose loop may not, is left out.
pub record IsEnding {S : Type 0} (v : Vtable S) : Type 0 where
  pub send_conf_req-Ends : (s : S) → Ends (v.send_conf_req s)
  pub send_term_ack-Ends : (pkt : Bytes) (s : S) → IsWhole pkt → Ends (v.send_term_ack pkt s)
  pub send_echo_rep-Ends : (pkt : Bytes) (s : S) → IsWhole pkt → Ends (v.send_echo_rep pkt s)
  pub recv_echo_rep-Ends : (pkt : Bytes) (s : S) → IsWhole pkt → Ends (v.recv_echo_rep pkt s)

module _ {S : Type 0} (v : Vtable S) (ends : IsEnding v) where
  open v use {fsm, with_fsm, send_conf_req, send_term_ack}

  layer_up_in-Ends : (st : State) (s : S) → Ends (layer_up_in v st s)
  layer_up_in-Ends initial s = (_, refl)
  layer_up_in-Ends starting s =
      Ends-bind (send_conf_req s) _ (ends.send_conf_req-Ends s) (λ r. (sent v r, refl))
  layer_up_in-Ends closed s = (s, refl)
  layer_up_in-Ends stopped s = (s, refl)
  layer_up_in-Ends closing s = (s, refl)
  layer_up_in-Ends stopping s = (s, refl)
  layer_up_in-Ends req_sent s = (s, refl)
  layer_up_in-Ends ack_rcvd s = (s, refl)
  layer_up_in-Ends ack_sent s = (s, refl)
  layer_up_in-Ends opened s = (s, refl)

  pub layer_up_event-Ends : (s : S) → Ends (layer_up_event v s)
  unfolding layer_up_event
  layer_up_event-Ends s = layer_up_in-Ends (fsm s).state s

  open_in-Ends : (st : State) (s : S) → Ends (open_in v st s)
  open_in-Ends initial s = (_, refl)
  open_in-Ends closed s =
      Ends-bind (send_conf_req s) _ (ends.send_conf_req-Ends s) (λ r. (sent v r, refl))
  open_in-Ends closing s = (_, refl)
  open_in-Ends starting s = (s, refl)
  open_in-Ends stopped s = (s, refl)
  open_in-Ends stopping s = (s, refl)
  open_in-Ends req_sent s = (s, refl)
  open_in-Ends ack_rcvd s = (s, refl)
  open_in-Ends ack_sent s = (s, refl)
  open_in-Ends opened s = (s, refl)

  pub open_event-Ends : (s : S) → Ends (open_event v s)
  unfolding open_event
  open_event-Ends s = open_in-Ends (fsm s).state s

  conf_ack_in-Ends : (st : State) (s : S) → Ends (conf_ack_in v st s)
  conf_ack_in-Ends ack_sent s =
      Ends-bind (layer_up_event v (set_state v opened s)) _
        (layer_up_event-Ends (set_state v opened s)) (λ t. (_, refl))
  conf_ack_in-Ends opened s =
      Ends-bind (send_conf_req s) _ (ends.send_conf_req-Ends s) (λ r. (_, refl))
  conf_ack_in-Ends req_sent s = (_, refl)
  conf_ack_in-Ends initial s = (_, refl)
  conf_ack_in-Ends starting s = (_, refl)
  conf_ack_in-Ends closed s = (_, refl)
  conf_ack_in-Ends stopped s = (_, refl)
  conf_ack_in-Ends closing s = (_, refl)
  conf_ack_in-Ends stopping s = (_, refl)
  conf_ack_in-Ends ack_rcvd s = (_, refl)

  recv_conf_ack-Ends : (pkt : Bytes) (s : S) → IsWhole pkt → Ends (recv_conf_ack v pkt s)
  unfolding recv_conf_ack
  recv_conf_ack-Ends pkt s w =
      Ends-bind (load8 pkt identifier_at) _ (load8-Ends pkt identifier_at (omega arith)) (λ id.
        Ends-if (id == (fsm s).pkt_id) _ _
          (conf_ack_in-Ends (fsm s).state (with_fsm (record (fsm s) { seen_ack = true }) s))
          (_, refl))

  acked-Ends :
      (pkt : Bytes) (s : S) (f : FsmRet × S → FsmRet)
      → IsWhole pkt
      → Ends {A = FsmRet × S} (send_term_ack pkt s >>= λ r. ok (f r, r.1))
  acked-Ends pkt s f w =
      Ends-bind (send_term_ack pkt s) _ (ends.send_term_ack-Ends pkt s w) (λ r. ((f r, r.1), refl))

  term_req_in-Ends :
      (st : State) (pkt : Bytes) (s : S) → IsWhole pkt → Ends (term_req_in v st pkt s)
  term_req_in-Ends ack_rcvd pkt s w = acked-Ends pkt (set_state v req_sent s) _ w
  term_req_in-Ends ack_sent pkt s w = acked-Ends pkt (set_state v req_sent s) _ w
  term_req_in-Ends opened pkt s w = acked-Ends pkt (set_state v stopping s) _ w
  term_req_in-Ends initial pkt s w = acked-Ends pkt s _ w
  term_req_in-Ends starting pkt s w = acked-Ends pkt s _ w
  term_req_in-Ends closed pkt s w = acked-Ends pkt s _ w
  term_req_in-Ends stopped pkt s w = acked-Ends pkt s _ w
  term_req_in-Ends closing pkt s w = acked-Ends pkt s _ w
  term_req_in-Ends stopping pkt s w = acked-Ends pkt s _ w
  term_req_in-Ends req_sent pkt s w = acked-Ends pkt s _ w

  dispatch-Ends :
      (code : ℕ) (pkt : Bytes) (s : S)
      → IsWhole pkt
      → code ≢ conf_req
      → Ends (dispatch v code pkt s)
  unfolding dispatch recv_term_req
  dispatch-Ends code pkt s w n = rw (==_false code conf_req n) (
      Ends-if (code == conf_ack) _ _ (recv_conf_ack-Ends pkt s w) (
        Ends-if (code == term_req) _ _ (term_req_in-Ends (fsm s).state pkt s w) (
          Ends-if (code == echo_req) _ _ (ends.send_echo_rep-Ends pkt s w)
            (Ends-if (code == echo_reply) _ _ (ends.recv_echo_rep-Ends pkt s w) (_, refl)))))

  pub receive-Ends :
      (pkt : Bytes) (s : S) (code : ℕ)
      → IsWhole pkt
      → load8 pkt code_at ≡ ok code
      → code ≢ conf_req
      → Ends (receive v pkt s)
  unfolding receive
  receive-Ends pkt s code w e n =
      Ends-if (is_down (fsm s).state) _ _ (_, refl) (rw e (dispatch-Ends code pkt s w n))
