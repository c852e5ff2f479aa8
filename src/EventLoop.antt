-- ===== src/EventLoop.antt =====
-- src/evloop.cpp: what the control plane does with a frame, a timer and an answer of RADIUS, one
-- after the other in its one thread.
pub mod Runs
use pppcpd.Common.{
  ℕ, List, [], ◌∷◌, ◌++◌, Option, none, some, Bool, true, false, ◌==◌, if◌then◌else◌,
}
use pppcpd.Common.Bytes.{Bytes}
use pppcpd.Common.Outcome.{Outcome, ok, fault, ◌>>=◌}
use pppcpd.Common.Map.{Str, find}
use pppcpd.Encap.{parse_encap, eth_pppoe_discovery, eth_pppoe_session}
use pppcpd.Session.{Session, Junk}
use pppcpd.Keys.{SessionKey, ConnKey, session_key}
use pppcpd.Fsm.{FsmRet}
use pppcpd.Link.{Link}
use pppcpd.Aaa.{Aaa, RadiusResponse}
use pppcpd.Aaa.Methods.{Call, process_radius_answer, process_radius_error}
use pppcpd.Pap.{run_calls, pap_callback}
use pppcpd.Chap.{chap_callback}
use pppcpd.Runtime.{Runtime, clear_pending_session}
use pppcpd.Discovery.{Answer, process_pppoe}
use pppcpd.Ppp.{Env, Report, process_ppp, link_of, put}
use pppcpd.Ppp.Timer.{echo_active, echo_orphan}

-- What a frame finds in memory that has no initialiser, and the cookie that random_string gives.
pub record Draw : Type 0 where
  pub junk : Junk
  pub ethertype : ℕ
  pub cookie : Str

pub data Handled : Type 0 where
  discovery : Answer → Handled
  session : Report → Handled
  unknown_type : Handled

unfoldable pub generic_receive : Env → Draw → Bytes → ℕ → ℕ → Runtime → Outcome (Handled × Runtime)
generic_receive env d pkt outer inner rt = do
  (e, payload) ← parse_encap d.ethertype pkt outer inner
  (if e.ethertype == eth_pppoe_discovery
      then (do
        (a, rt') ← process_pppoe env.counters env.policies d.junk d.cookie payload e rt
        ok (discovery a, rt'))
      else (if e.ethertype == eth_pppoe_session
          then (do (r, rt') ← process_ppp env payload e rt; ok (session r, rt'))
          else ok (unknown_type, rt)))

-- Both queues are sent, discovery first.
unfoldable pub periodic : Runtime → List Bytes × Runtime
periodic rt =
    (rt.pppoe_outcoming ++ rt.ppp_outcoming, record rt { pppoe_outcoming = []; ppp_outcoming = [] })

-- The protocol whose auth_callback the AAA holds.
pub data Login : Type 0 where
  by_pap by_chap : Login

abbrev pub callback_of : Login → Aaa → Call → Link → Outcome (FsmRet × Link)
callback_of by_pap = pap_callback
callback_of by_chap = chap_callback

-- What RADIUS comes back with: an answer, or no answer in time.
pub data Radius : Type 0 where
  answer : ℕ → RadiusResponse → Radius
  no_answer : Radius

abbrev pub calls_of : Str → Radius → Aaa → Outcome (List Call × Aaa)
calls_of user (answer code res) a = process_radius_answer user code res a
calls_of user no_answer a = ok (process_radius_error, a)

-- The callback is bound to the plain address of the session's protocol object: once the session is
-- off the tables, a call goes to an object that is not there. An event stands for an answer while the
-- session that asked is in place: a session that was made again under its key is another object, which
-- the code would not reach.
unfoldable pub radius_answered : Env → SessionKey → Login → Str → Radius → Runtime → Outcome Runtime
radius_answered env k login user r rt = elim (find k rt.active_sessions) [
  | none ↦ fault
  | some s ↦ (do
    (calls, a) ← calls_of user r rt.aaa
    l ← run_calls (callback_of login a) calls (link_of env rt s)
    ok (record (put k l rt) { aaa = a }))
]

pub data Event : Type 0 where
  frame : Env → Draw → Bytes → ℕ → ℕ → Event
  sending : Event
  pending_timeout : ConnKey → Event
  echo : Env → SessionKey → Event
  late_echo : Env → Session → Event
  radius : Env → SessionKey → Login → Str → Radius → Event

abbrev pub second {ℓ ℓ'} : {A : Type ℓ} {B : Type ℓ'} → Outcome (A × B) → Outcome B
second o = do (a, b) ← o; ok b

unfoldable pub step : Event → Runtime → Outcome Runtime
unfolding generic_receive periodic radius_answered
step (frame env d pkt outer inner) rt = second (generic_receive env d pkt outer inner rt)
step sending rt = ok (periodic rt).1
step (pending_timeout k) rt = ok (clear_pending_session k rt)
step (echo env k) rt = second (echo_active env k rt)
step (late_echo env s) rt = second (echo_orphan env s rt)
step (radius env k login user r) rt = radius_answered env k login user r rt

unfoldable pub run : List Event → Runtime → Outcome Runtime
unfolding step
run [] rt = ok rt
run (e ∷ es) rt = do rt' ← step e rt; run es rt'
