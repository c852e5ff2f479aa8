-- ===== src/Fsm/Moves.antt =====
-- The automaton of src/ppp_fsm.cpp under any protocol that keeps to an interface: which moves a
-- packet can cause.
use pppcpd.Common.{ℕ, none, ◌≡◌, refl, ap, ◌≢◌, ◌⊎◌, inl, inr}
use pppcpd.Common.{Bool, true, false, ◌==◌, ==_iff, Bool-cases}
use pppcpd.Common.Bytes.{Bytes, load8}
use pppcpd.Common.Outcome.{
  ◌>>=◌, Outcome, ok, fault, stuck, Holds, Holds-bind, Holds-any, Holds-map,
}
use pppcpd.Fsm.{
  State, initial, starting, closed, stopped, closing, stopping, req_sent, ack_rcvd, ack_sent,
  opened, Action, no_action, layer_up, layer_down, FsmRet, Fsm, Vtable, conf_req, conf_ack,
  term_req, echo_req, echo_reply, is_down, code_at, identifier_at, receive, dispatch, recv_conf_req,
  recv_conf_ack, recv_term_req, conf_req_in, conf_ack_in, term_req_in, layer_up_event, set_state,
  ret, up_if_open, after_ack, after_refusal,
}

-- The moves: what makes a Configure-Request one to acknowledge, the code of the packet, whether it
-- carries our identifier, the state before, the action and the state after.
pub data Move (A : Type 0) : ℕ → Bool → State → Action → State → Type 0 where
  stays : {c : ℕ} {b : Bool} {st : State} → Move A c b st no_action st
  ack_before_request : Move A conf_ack true req_sent no_action ack_rcvd
  ack_after_request : Move A conf_ack true ack_sent layer_up opened
  request_before_ack :
      {b : Bool} {st : State} → A → st ≢ ack_rcvd → Move A conf_req b st no_action ack_sent
  request_after_ack : {b : Bool} → A → Move A conf_req b ack_rcvd layer_up opened
  request_refused :
      {b : Bool} {st : State} → st ≢ ack_rcvd → Move A conf_req b st no_action req_sent
  request_again : {b : Bool} → Move A conf_req b opened layer_down req_sent
  ack_again : Move A conf_ack true opened layer_down req_sent
  terminated_early :
      {b : Bool} {st : State}
      → (st ≡ ack_rcvd) ⊎ (st ≡ ack_sent)
      → Move A term_req b st no_action req_sent
  terminated : {b : Bool} → Move A term_req b opened layer_down stopping

-- From Stopped the automaton is in Req-Sent before it looks at the request.
restarted :
    {A : Type 0} {b : Bool} {a : Action} {st : State}
    → Move A conf_req b req_sent a st
    → Move A conf_req b stopped a st
restarted stays = request_refused (λ e. cc)
restarted (request_before_ack k n) = request_before_ack k (λ e. cc)
restarted (request_refused n) = request_refused (λ e. cc)

pub after_ack-Move :
    {A : Type 0}
    → A
    → (b : Bool) (st : State) → Move A conf_req b st (up_if_open (after_ack st)) (after_ack st)
after_ack-Move k b ack_rcvd = request_after_ack k
after_ack-Move k b initial = request_before_ack k (λ e. cc)
after_ack-Move k b starting = request_before_ack k (λ e. cc)
after_ack-Move k b closed = request_before_ack k (λ e. cc)
after_ack-Move k b stopped = request_before_ack k (λ e. cc)
after_ack-Move k b closing = request_before_ack k (λ e. cc)
after_ack-Move k b stopping = request_before_ack k (λ e. cc)
after_ack-Move k b req_sent = request_before_ack k (λ e. cc)
after_ack-Move k b ack_sent = request_before_ack k (λ e. cc)
after_ack-Move k b opened = request_before_ack k (λ e. cc)

pub after_refusal-Move :
    {A : Type 0} (b : Bool) (st : State) → Move A conf_req b st no_action (after_refusal st)
after_refusal-Move b ack_rcvd = stays
after_refusal-Move b initial = request_refused (λ e. cc)
after_refusal-Move b starting = request_refused (λ e. cc)
after_refusal-Move b closed = request_refused (λ e. cc)
after_refusal-Move b stopped = request_refused (λ e. cc)
after_refusal-Move b closing = request_refused (λ e. cc)
after_refusal-Move b stopping = request_refused (λ e. cc)
after_refusal-Move b req_sent = request_refused (λ e. cc)
after_refusal-Move b ack_sent = request_refused (λ e. cc)
after_refusal-Move b opened = request_refused (λ e. cc)

-- A Configure-Ack of ours: the layer comes up if the peer's has come before.
abbrev pub on_our_ack : State → Action × State
on_our_ack ack_rcvd = (layer_up, opened)
on_our_ack st = (no_action, ack_sent)

pub on_our_ack-action : (st : State) → up_if_open (after_ack st) ≡ (on_our_ack st).0
on_our_ack-action initial = refl
on_our_ack-action starting = refl
on_our_ack-action closed = refl
on_our_ack-action stopped = refl
on_our_ack-action closing = refl
on_our_ack-action stopping = refl
on_our_ack-action req_sent = refl
on_our_ack-action ack_rcvd = refl
on_our_ack-action ack_sent = refl
on_our_ack-action opened = refl

pub on_our_ack-state : (st : State) → after_ack st ≡ (on_our_ack st).1
on_our_ack-state initial = refl
on_our_ack-state starting = refl
on_our_ack-state closed = refl
on_our_ack-state stopped = refl
on_our_ack-state closing = refl
on_our_ack-state stopping = refl
on_our_ack-state req_sent = refl
on_our_ack-state ack_rcvd = refl
on_our_ack-state ack_sent = refl
on_our_ack-state opened = refl

abbrev is_id : ℕ → Outcome ℕ → Bool
is_id n (ok id) = id == n
is_id n _ = false

module _ {S : Type 0} (v : Vtable S) where
  abbrev pub state_in : S → State
  state_in s = (v.fsm s).state

  -- That a call ends in such a move, where it ends.
  abbrev pub MovesIn : Type 0 → ℕ → Bool → State → FsmRet × S → Type 0
  MovesIn A c b st ((a, e), s) = Move A c b st a (state_in s)

  -- That a call reports nothing and leaves the state of the automaton alone, where it ends.
  abbrev pub IsQuiet : State → FsmRet × S → Type 0
  IsQuiet st ((a, e), s) = (a ≡ no_action) × (state_in s ≡ st)

  -- Whether the packet carries the identifier of our last request.
  unfoldable pub carries_ours : Bytes → S → Bool
  carries_ours pkt s = is_id (v.fsm s).pkt_id (load8 pkt identifier_at)

-- What the automaton relies on in the methods of a protocol, where `A` says of which packets the
-- protocol acknowledges.
pub record IsLawful {S : Type 0} (v : Vtable S) (A : Bytes → Type 0) : Type 0 where
  pub fsm-with_fsm : (f : Fsm) (s : S) → v.fsm (v.with_fsm f s) ≡ f
  pub check_conf-Moves :
      (b : Bool) (pkt : Bytes) (s : S)
      → Holds (MovesIn v (A pkt) conf_req b (state_in v s)) (v.check_conf pkt s)
  pub send_term_ack-IsQuiet :
      (pkt : Bytes) (s : S) → Holds (IsQuiet v (state_in v s)) (v.send_term_ack pkt s)
  pub send_echo_rep-IsQuiet :
      (pkt : Bytes) (s : S) → Holds (IsQuiet v (state_in v s)) (v.send_echo_rep pkt s)
  pub recv_echo_rep-IsQuiet :
      (pkt : Bytes) (s : S) → Holds (IsQuiet v (state_in v s)) (v.recv_echo_rep pkt s)

module _ {S : Type 0} (v : Vtable S) (A : Bytes → Type 0) (lawful : IsLawful v A) where
  open v use {fsm, with_fsm, send_conf_req, check_conf, send_term_ack, send_echo_rep, recv_echo_rep}

  state_set : (st : State) (s : S) → state_in v (set_state v st s) ≡ st
  state_set st s = ap (λ (f : Fsm). f.state) (lawful.fsm-with_fsm (record (fsm s) { state = st }) s)

  conf_req-Moves :
      (b : Bool) (pkt : Bytes) (st : State) (s : S)
      → state_in v s ≡ st
      → Holds (MovesIn v (A pkt) conf_req b st) (conf_req_in v st pkt s)
  conf_req-Moves b pkt closing s e = rw e stays
  conf_req-Moves b pkt stopping s e = rw e stays
  conf_req-Moves b pkt closed s e = rw e stays
  conf_req-Moves b pkt opened s e =
      Holds-any (MovesIn v (A pkt) conf_req b opened) (send_conf_req s) _
        (λ r. rw (state_set req_sent r.1) request_again)
  conf_req-Moves b pkt stopped s e =
      Holds-any (MovesIn v (A pkt) conf_req b stopped) (send_conf_req s) _ (λ r.
        Holds-map (MovesIn v (A pkt) conf_req b req_sent) (MovesIn v (A pkt) conf_req b stopped)
          (check_conf pkt (set_state v req_sent r.1)) (λ x m. restarted m)
          (rw (state_set req_sent r.1) at
            (lawful.check_conf-Moves b pkt (set_state v req_sent r.1))))
  conf_req-Moves b pkt initial s e = rw e at (lawful.check_conf-Moves b pkt s)
  conf_req-Moves b pkt starting s e = rw e at (lawful.check_conf-Moves b pkt s)
  conf_req-Moves b pkt req_sent s e = rw e at (lawful.check_conf-Moves b pkt s)
  conf_req-Moves b pkt ack_rcvd s e = rw e at (lawful.check_conf-Moves b pkt s)
  conf_req-Moves b pkt ack_sent s e = rw e at (lawful.check_conf-Moves b pkt s)

  layer_up-opened : (s : S) → state_in v s ≡ opened → layer_up_event v s ≡ ok s
  unfolding layer_up_event
  layer_up-opened s e = rw e refl

  conf_ack-Moves :
      (B : Type 0) (st : State) (s : S)
      → state_in v s ≡ st
      → Holds (MovesIn v B conf_ack true st) (conf_ack_in v st s)
  conf_ack-Moves B req_sent s e = rw (state_set ack_rcvd s) ack_before_request
  conf_ack-Moves B ack_sent s e =
      rw (layer_up-opened (set_state v opened s) (state_set opened s))
        (rw (state_set opened s) ack_after_request)
  conf_ack-Moves B opened s e =
      Holds-any (MovesIn v B conf_ack true opened) (send_conf_req s) _
        (λ r. rw (state_set req_sent r.1) ack_again)
  conf_ack-Moves B initial s e = rw e stays
  conf_ack-Moves B starting s e = rw e stays
  conf_ack-Moves B closed s e = rw e stays
  conf_ack-Moves B stopped s e = rw e stays
  conf_ack-Moves B closing s e = rw e stays
  conf_ack-Moves B stopping s e = rw e stays
  conf_ack-Moves B ack_rcvd s e = rw e stays

  -- The answer to a Terminate-Request where it changes no state.
  unmoved_term :
      (b : Bool) (pkt : Bytes) (st : State) (s : S)
      → state_in v s ≡ st
      → Holds
          (MovesIn v (A pkt) term_req b st)
          (send_term_ack pkt s >>= λ r. ret v no_action none r.1)
  unmoved_term b pkt st s e =
      Holds-bind (MovesIn v (A pkt) term_req b st) (send_term_ack pkt s) _
        (lawful.send_term_ack-IsQuiet pkt s) (λ r (n, k). rw (k, e) stays)

  term_req-Moves :
      (b : Bool) (pkt : Bytes) (st : State) (s : S)
      → state_in v s ≡ st
      → Holds (MovesIn v (A pkt) term_req b st) (term_req_in v st pkt s)
  term_req-Moves b pkt ack_rcvd s e =
      Holds-bind (MovesIn v (A pkt) term_req b ack_rcvd)
        (send_term_ack pkt (set_state v req_sent s)) _
        (lawful.send_term_ack-IsQuiet pkt (set_state v req_sent s))
        (λ r (n, k). rw (k, state_set req_sent s) (terminated_early (inl refl)))
  term_req-Moves b pkt ack_sent s e =
      Holds-bind (MovesIn v (A pkt) term_req b ack_sent)
        (send_term_ack pkt (set_state v req_sent s)) _
        (lawful.send_term_ack-IsQuiet pkt (set_state v req_sent s))
        (λ r (n, k). rw (k, state_set req_sent s) (terminated_early (inr refl)))
  term_req-Moves b pkt opened s e =
      Holds-bind (MovesIn v (A pkt) term_req b opened) (send_term_ack pkt (set_state v stopping s))
        _ (lawful.send_term_ack-IsQuiet pkt (set_state v stopping s))
        (λ r (n, k). rw (k, state_set stopping s) terminated)
  term_req-Moves b pkt initial s e = unmoved_term b pkt initial s e
  term_req-Moves b pkt starting s e = unmoved_term b pkt starting s e
  term_req-Moves b pkt closed s e = unmoved_term b pkt closed s e
  term_req-Moves b pkt stopped s e = unmoved_term b pkt stopped s e
  term_req-Moves b pkt closing s e = unmoved_term b pkt closing s e
  term_req-Moves b pkt stopping s e = unmoved_term b pkt stopping s e
  term_req-Moves b pkt req_sent s e = unmoved_term b pkt req_sent s e

  recv_conf_ack-Moves :
      (pkt : Bytes) (s : S)
      → Holds
          (MovesIn v (A pkt) conf_ack (carries_ours v pkt s) (state_in v s))
          (recv_conf_ack v pkt s)
  unfolding recv_conf_ack
  recv_conf_ack-Moves pkt s = go (load8 pkt identifier_at) refl
    where
      go :
          (o : Outcome ℕ)
          → load8 pkt identifier_at ≡ o
          → Holds
              (MovesIn v (A pkt) conf_ack (carries_ours v pkt s) (state_in v s))
              (recv_conf_ack v pkt s)
      go fault e = rw e tt
      go stuck e = rw e tt
      go (ok id) e = elim (Bool-cases (id == (fsm s).pkt_id)) [
        | inl ours ↦
            let mine : carries_ours v pkt s ≡ true = unfold carries_ours in rw e ours in
            let seen : Fsm = record (fsm s) { seen_ack = true } in
            rw (e, ours, mine)
              (conf_ack-Moves (A pkt) (state_in v s) (with_fsm seen s)
                (ap (λ (f : Fsm). f.state) (lawful.fsm-with_fsm seen s)))
        | inr other ↦ rw (e, other) stays
      ]

  quiet-Moves :
      (B : Type 0) (code : ℕ) (b : Bool) (st : State) (m : Outcome (FsmRet × S))
      → Holds (IsQuiet v st) m
      → Holds (MovesIn v B code b st) m
  quiet-Moves B code b st m h =
      Holds-map (IsQuiet v st) (MovesIn v B code b st) m (λ r (n, k). rw (n, k) stays) h

  dispatch-Moves :
      (code : ℕ) (pkt : Bytes) (s : S)
      → Holds (MovesIn v (A pkt) code (carries_ours v pkt s) (state_in v s)) (dispatch v code pkt s)
  unfolding dispatch recv_conf_req recv_term_req
  dispatch-Moves code pkt s = elim (Bool-cases (code == conf_req)) [
    | inl a ↦
        rw (a, (==_iff code conf_req).0 a)
          (conf_req-Moves (carries_ours v pkt s) pkt (state_in v s) s refl)
    | inr a ↦ elim (Bool-cases (code == conf_ack)) [
      | inl c ↦ rw (a, c, (==_iff code conf_ack).0 c) (recv_conf_ack-Moves pkt s)
      | inr c ↦ elim (Bool-cases (code == term_req)) [
        | inl d ↦
            rw (a, c, d, (==_iff code term_req).0 d)
              (term_req-Moves (carries_ours v pkt s) pkt (state_in v s) s refl)
        | inr d ↦ elim (Bool-cases (code == echo_req)) [
          | inl g ↦
              rw (a, c, d, g)
                (quiet-Moves (A pkt) code _ (state_in v s) _ (lawful.send_echo_rep-IsQuiet pkt s))
          | inr g ↦ elim (Bool-cases (code == echo_reply)) [
            | inl h ↦
                rw (a, c, d, g, h)
                  (quiet-Moves (A pkt) code _ (state_in v s) _ (lawful.recv_echo_rep-IsQuiet pkt s))
            | inr h ↦ rw (a, c, d, g, h) stays
          ]
        ]
      ]
    ]
  ]

  pub received :
      (pkt : Bytes) (s : S) (code : ℕ)
      → load8 pkt code_at ≡ ok code
      → Holds (MovesIn v (A pkt) code (carries_ours v pkt s) (state_in v s)) (receive v pkt s)
  unfolding receive
  received pkt s code e = elim (Bool-cases (is_down (state_in v s))) [
    | inl down ↦ rw down stays
    | inr up ↦ rw (up, e) (dispatch-Moves code pkt s)
  ]
