-- ===== src/EventLoop/Runs.antt =====
-- The tables of the runtime through any sequence of events.
use pppcpd.Common.{
  ℕ, ◌+◌, ◌%◌, ◌^◌, ltb, Bool-cases, refl, List, [], ◌∷◌, inl, inr, ◌==◌, Option-cases,
}
use pppcpd.Common.Bytes.{Bytes, load16, bswap16}
use pppcpd.Common.Outcome.{Outcome, Holds, Holds-any, Holds-bind, Holds-if, Holds-map}
use pppcpd.Common.Map.{Str, find}
use pppcpd.Encap.{Encap, parse_encap, eth_pppoe_discovery, eth_pppoe_session}
use pppcpd.Session.{Session}
use pppcpd.Keys.{SessionKey, session_key, conn_key, key_of}
use pppcpd.Fsm.{FsmRet, no_action, layer_up, layer_down}
use pppcpd.Fsm.Keeps.{Kept}
use pppcpd.Link.{Link}
use pppcpd.Aaa.{Aaa}
use pppcpd.Aaa.Methods.{Call}
use pppcpd.Lcp.{send_echo_req}
use pppcpd.Pap.{run_calls}
use pppcpd.Runtime.{Runtime, clear_pending_session}
use pppcpd.Runtime.Valid.{IsValid, IsValid-tables}
use pppcpd.Runtime.Release.{deallocate_session-Released}
use pppcpd.Discovery.{process_pppoe}
use pppcpd.Discovery.Valid.{process_pppoe-Leaves}
use pppcpd.Ppp.{Env, process_ppp, link_of, put}
use pppcpd.Ppp.Owner.{Owns}
use pppcpd.Ppp.Logins.{run_calls-Owns, pap_callback-Owns, chap_callback-Owns}
use pppcpd.Ppp.Isolation.{IsIsolated, deliver-Isolated, put-IsIsolated, with_aaa-IsIsolated}
use pppcpd.Ppp.Timer.{echo_active, echo_orphan, after_echo}
use pppcpd.EventLoop.{
  Draw, generic_receive, periodic, Login, by_pap, by_chap, callback_of, Radius, calls_of,
  radius_answered, Event, frame, sending, pending_timeout, echo, late_echo, radius, second, step,
  run,
}

-- That a call leaves valid tables, whatever else it gives.
abbrev pub LeavesValid : {A : Type 0} → A × Runtime → Type 0
LeavesValid (a, rt) = IsValid rt

process_ppp-LeavesValid :
    (env : Env) (pkt : Bytes) (e : Encap) (rt : Runtime)
    → IsValid rt
    → Holds LeavesValid (process_ppp env pkt e rt)
unfolding process_ppp
process_ppp-LeavesValid env pkt e rt v = Holds-any LeavesValid (load16 pkt 2) _ (λ sid.
    let k = key_of e (bswap16 sid) in
    Holds-map (λ r. IsIsolated k rt r.1) LeavesValid _ (λ r x. x.valid)
      (deliver-Isolated env pkt k rt v))

receive-LeavesValid :
    (env : Env) (d : Draw) (pkt : Bytes) (outer inner : ℕ) (rt : Runtime)
    → IsValid rt
    → Holds LeavesValid (generic_receive env d pkt outer inner rt)
unfolding generic_receive
receive-LeavesValid env d pkt outer inner rt v =
    Holds-any LeavesValid (parse_encap d.ethertype pkt outer inner) _ (λ (e, payload).
      Holds-if LeavesValid (e.ethertype == eth_pppoe_discovery) _ _
        (Holds-bind LeavesValid
          (process_pppoe env.counters env.policies d.junk d.cookie payload e rt) _
          (process_pppoe-Leaves env.counters env.policies d.junk d.cookie payload e rt v)
          (λ r q. q))
        (Holds-if LeavesValid (e.ethertype == eth_pppoe_session) _ _
          (Holds-bind LeavesValid (process_ppp env payload e rt) _
            (process_ppp-LeavesValid env payload e rt v) (λ r q. q))
          v))

callback-Owns :
    (e : Encap) (i : ℕ) (login : Login) (a : Aaa) (c : Call) (l : Link)
    → Owns e i l
    → Holds (Kept (Owns e i)) (callback_of login a c l)
callback-Owns e i by_pap a c l p = pap_callback-Owns e i a c l p
callback-Owns e i by_chap a c l p = chap_callback-Owns e i a c l p

radius-IsValid :
    (env : Env) (k : SessionKey) (login : Login) (user : Str) (r : Radius) (rt : Runtime)
    → IsValid rt
    → Holds IsValid (radius_answered env k login user r rt)
unfolding radius_answered
radius-IsValid env k login user r rt v = elim (Option-cases (find k rt.active_sessions)) [
  | inl gone ↦ rw (gone, radius_answered) tt
  | inr (s, there) ↦
      rw (there, radius_answered)
        (Holds-any IsValid (calls_of user r rt.aaa) _ (λ (calls, a).
          Holds-bind IsValid (run_calls (callback_of login a) calls (link_of env rt s)) _
            (run_calls-Owns s.encap s.session_id (callback_of login a)
              (callback-Owns s.encap s.session_id login a) calls (link_of env rt s) (refl, refl))
            (λ l p.
              (with_aaa-IsIsolated k rt v s there a (put k l rt)
                (put-IsIsolated k rt v s there l p)).valid)))
]

after_echo-LeavesValid :
    (env : Env) (rt : Runtime) (r : FsmRet × Link) → IsValid rt → LeavesValid (after_echo env rt r)
after_echo-LeavesValid env rt ((layer_down, e), l) v =
    (deallocate_session-Released env.counters l.session.session_id rt v).1
after_echo-LeavesValid env rt ((no_action, e), l) v = v
after_echo-LeavesValid env rt ((layer_up, e), l) v = v

send_echo_req-Owns :
    (e : Encap) (i : ℕ) (l : Link) → Owns e i l → Holds (Kept (Owns e i)) (send_echo_req l)
unfolding send_echo_req
send_echo_req-Owns e i l p = elim (Bool-cases (ltb 9 ((l.session.lcp.echo_counter + 1) % 2 ^ 8))) [
  | inl late ↦ rw late p
  | inr early ↦ rw early p
]

echo_active-LeavesValid :
    (env : Env) (k : SessionKey) (rt : Runtime)
    → IsValid rt
    → Holds LeavesValid (echo_active env k rt)
unfolding echo_active
echo_active-LeavesValid env k rt v = elim (Option-cases (find k rt.active_sessions)) [
  | inl gone ↦ rw (gone, echo_active) v
  | inr (s, there) ↦
      rw (there, echo_active)
        (Holds-bind LeavesValid (send_echo_req (link_of env rt s)) _
          (send_echo_req-Owns s.encap s.session_id (link_of env rt s) (refl, refl))
          (λ r p.
            after_echo-LeavesValid env (put k r.1 rt) r
              (put-IsIsolated k rt v s there r.1 p).valid))
]

echo_orphan-LeavesValid :
    (env : Env) (s : Session) (rt : Runtime) → IsValid rt → Holds LeavesValid (echo_orphan env s rt)
unfolding echo_orphan
echo_orphan-LeavesValid env s rt v =
    Holds-any LeavesValid (send_echo_req (link_of env rt s)) _ (λ r.
      let rt' : Runtime = record rt { ppp_outcoming = r.1.ppp_outcoming } in
      after_echo-LeavesValid env rt' r (IsValid-tables rt rt' refl refl refl v))

second-IsValid :
    {A : Type 0} (o : Outcome (A × Runtime)) → Holds LeavesValid o → Holds IsValid (second o)
second-IsValid o h = Holds-bind IsValid o _ h (λ r q. q)

step-IsValid : (ev : Event) (rt : Runtime) → IsValid rt → Holds IsValid (step ev rt)
unfolding step periodic clear_pending_session
step-IsValid (frame env d pkt outer inner) rt v =
    second-IsValid (generic_receive env d pkt outer inner rt)
      (receive-LeavesValid env d pkt outer inner rt v)
step-IsValid sending rt v = IsValid-tables rt (periodic rt).1 refl refl refl v
step-IsValid (pending_timeout k) rt v =
    IsValid-tables rt (clear_pending_session k rt) refl refl refl v
step-IsValid (echo env k) rt v =
    second-IsValid (echo_active env k rt) (echo_active-LeavesValid env k rt v)
step-IsValid (late_echo env s) rt v =
    second-IsValid (echo_orphan env s rt) (echo_orphan-LeavesValid env s rt v)
step-IsValid (radius env k login user r) rt v = radius-IsValid env k login user r rt v

-- Through any sequence of frames, timers and answers of RADIUS the tables stay valid: an id in use
-- belongs to exactly one session, an id that is free to none, and every session stands under the key
-- of its own addresses and id; unless the run ends in a read or a call outside an object.
pub run-IsValid : (events : List Event) (rt : Runtime) → IsValid rt → Holds IsValid (run events rt)
unfolding run
run-IsValid [] rt v = v
run-IsValid (ev ∷ events) rt v =
    Holds-bind IsValid (step ev rt) (run events) (step-IsValid ev rt v)
      (λ rt' q. run-IsValid events rt' q)
