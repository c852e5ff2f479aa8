-- ===== src/Ppp.antt =====
-- src/ppp.cpp: processPPP, with provision_dp of src/session.cpp; its echo timer in Ppp/Timer; the frame
-- that src/evloop.cpp hands over in Ppp/Receive. The calls of VPP are functions that say what it answers.
pub mod Owner
pub mod Logins
pub mod Isolation
pub mod Timer
pub mod Ends
use pppcpd.Common.{
  ℕ, ◌+◌, Option, none, some, Bool, true, false, not, ◌&&◌, ◌==◌, if◌then◌else◌, set,
}
use pppcpd.Common.Bytes.{Bytes, load8, load16, bswap16}
use pppcpd.Common.Outcome.{Outcome, ok, ◌>>=◌}
use pppcpd.Common.Map.{Str, find, update}
use pppcpd.Encap.{Encap}
use pppcpd.Session.{Session}
use pppcpd.Keys.{SessionKey, session_key, key_of}
use pppcpd.Fsm.{
  Action, no_action, layer_up, layer_down, FsmRet, receive, open_event, layer_up_event, code_at,
  code_rej,
}
use pppcpd.Link.{LcpPolicy, Link, push, proto_lcp, proto_pap, proto_chap}
use pppcpd.Lcp.{lcp_vtable}
use pppcpd.Ipcp.{proto_ipcp, ipcp_vtable}
use pppcpd.Pap.{pap_receive, start_network}
use pppcpd.Chap.{chap_receive, chap_open}
use pppcpd.Aaa.{Aaa, is_empty}
use pppcpd.Aaa.Methods.{CountersOf, map_iface_to_session}
use pppcpd.Discovery.{Policies}
use pppcpd.Runtime.{Runtime, Error, deallocate_session}

-- What VPP answers: the index of the interface of a new session, whether a table could be set, the
-- index of an interface with that name, whether one could be made unnumbered.
pub record Vpp : Type 0 where
  pub add_pppoe_session : Session → Option ℕ
  pub set_interface_table : ℕ → Str → Bool
  pub get_iface_by_name : Str → Option ℕ
  pub set_unnumbered : ℕ → ℕ → Bool

-- The configuration, and what stands outside the code: VPP, the digest of the next challenge and the
-- next random number.
pub record Env : Type 0 where
  pub lcp_conf : LcpPolicy
  pub policies : Policies
  pub counters : CountersOf
  pub vpp : Vpp
  pub digest : Str
  pub random : ℕ

-- The texts of provision_dp; `none` in their place is the empty text.
pub data ProvisionError : Type 0 where
  cannot_add cannot_move no_such_interface cannot_unnumber : ProvisionError

unfoldable pub unnumber : Vpp → Session → Option ProvisionError
unnumber vpp s =
    if is_empty s.unnumbered then none else (elim (vpp.get_iface_by_name s.unnumbered) [
      | none ↦ some no_such_interface
      | some i ↦ if vpp.set_unnumbered s.ifindex i then none else some cannot_unnumber
    ])

unfoldable pub provision_dp : Vpp → Session → Option ProvisionError × Session
unfolding unnumber
provision_dp vpp s = elim (vpp.add_pppoe_session s) [
  | none ↦ (some cannot_add, s)
  | some i ↦
      let s' : Session = record s { ifindex = i } in
      if not (is_empty s.vrf) && not (vpp.set_interface_table i s.vrf)
      then (some cannot_move, s')
      else (unnumber vpp s', s')
]

-- What a packet comes to besides the state: startEcho was called, or the text that is returned.
pub data Report : Type 0 where
  done echo_started : Report
  cannot_terminate : Error → Report

abbrev pub link_of : Env → Runtime → Session → Link
link_of env rt s = record {
  session = s;
  hwaddr = rt.hwaddr;
  lcp_conf = env.lcp_conf;
  random = env.random;
  ppp_outcoming = rt.ppp_outcoming;
}

-- The session object and the queue are shared with the runtime.
unfoldable pub put : SessionKey → Link → Runtime → Runtime
put k l rt = record rt {
  active_sessions = update k (λ s. l.session) rt.active_sessions;
  ppp_outcoming = l.ppp_outcoming;
}

abbrev pub started : Link → Link
started l = record l { session = record l.session { started = true } }

-- The first packet of a session opens LCP.
unfoldable pub start_lcp : Link → Outcome Link
start_lcp l =
    if l.session.started
    then ok l
    else (do l₁ ← open_event lcp_vtable l; l₂ ← layer_up_event lcp_vtable l₁; ok (started l₂))

-- What follows on LCP being up: CHAP goes before PAP, whose open() is empty.
unfoldable pub authenticate : Env → Runtime → Link → Outcome Link
authenticate env rt l =
    if env.lcp_conf.auth_chap
    then ok (chap_open env.policies env.digest l)
    else (if env.lcp_conf.auth_pap then ok l else start_network rt.aaa l)

abbrev pub terminated : Option Error × Runtime → Report × Runtime
terminated (none, rt) = (done, rt)
terminated (some e, rt) = (cannot_terminate e, rt)

-- The case of LCP; an error is only logged.
unfoldable pub after_lcp : Env → SessionKey → Runtime → FsmRet × Link → Outcome (Report × Runtime)
unfolding authenticate put
after_lcp env k rt ((layer_up, none), l) = do l' ← authenticate env rt l; ok (done, put k l' rt)
after_lcp env k rt ((layer_down, none), l) =
    ok (terminated (deallocate_session env.counters l.session.session_id (put k l rt)))
after_lcp env k rt ((a, e), l) = ok (done, put k l rt)

-- The case of IPCP: an error of provision_dp is only logged.
unfoldable pub after_ipcp : Env → SessionKey → Runtime → FsmRet × Link → Report × Runtime
unfolding put provision_dp
after_ipcp env k rt ((layer_up, none), l) =
    let s = (provision_dp env.vpp l.session).1 in
    (
      echo_started,
      record (put k (record l { session = s }) rt) {
        aaa = map_iface_to_session s.aaa_session_id s.ifindex rt.aaa;
      },
    )
after_ipcp env k rt ((a, e), l) = (done, put k l rt)

-- A protocol that is not known goes back with the code overwritten.
unfoldable pub reject_proto : Bytes → Link → Outcome Link
reject_proto pkt l = do _ ← load8 pkt code_at; ok (push (set pkt code_at code_rej) l)

abbrev pub with_aaa : SessionKey → Runtime → FsmRet × (Link × Aaa) → Report × Runtime
with_aaa k rt (r, (l, a)) = (done, record (put k l rt) { aaa = a })

-- The switch on the protocol.
unfoldable pub by_proto : Env → ℕ → Bytes → SessionKey → Runtime → Link → Outcome (Report × Runtime)
unfolding after_lcp after_ipcp reject_proto put
by_proto env proto pkt k rt l =
    if proto == proto_lcp
    then (do r ← receive lcp_vtable pkt l; after_lcp env k rt r)
    else (if proto == proto_pap
        then (do r ← pap_receive pkt l rt.aaa; ok (with_aaa k rt r))
        else (if proto == proto_chap
            then (do r ← chap_receive pkt l rt.aaa; ok (with_aaa k rt r))
            else (if proto == proto_ipcp
                then (do r ← receive (ipcp_vtable rt.aaa) pkt l; ok (after_ipcp env k rt r))
                else (do l' ← reject_proto pkt l; ok (done, put k l' rt)))))

-- What is behind the session id, with the key made of it.
unfoldable pub deliver : Env → Bytes → SessionKey → Runtime → Outcome (Report × Runtime)
unfolding by_proto start_lcp
deliver env pkt k rt = elim (find k rt.active_sessions) [
  | none ↦ ok (done, rt)
  | some s ↦ (do
    l ← start_lcp (link_of env rt s)
    proto ← load16 pkt 6
    by_proto env (bswap16 proto) pkt k rt l)
]

-- processPPP
unfoldable pub process_ppp : Env → Bytes → Encap → Runtime → Outcome (Report × Runtime)
process_ppp env pkt e rt = do sid ← load16 pkt 2; deliver env pkt (key_of e (bswap16 sid)) rt
