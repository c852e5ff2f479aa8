-- ===== src/Ppp/Ends.antt =====
-- processPPP of src/ppp.cpp comes to an end.
use pppcpd.Common.{
  ℕ, ◌+◌, ◌≡◌, ◌≢◌, refl, arith, none, some, true, ◌==◌, ==_iff, inl, inr, Option-cases,
}
use pppcpd.Common.Bytes.{Bytes, load8, load16, load32, bswap16}
use pppcpd.Common.Outcome.{ok, Ends, Ends-bind, Ends-if, Holds-Ends}
use pppcpd.Common.Map.{find}
use pppcpd.Encap.{Encap}
use pppcpd.Keys.{SessionKey, session_key, key_of}
use pppcpd.Fsm.{
  no_action, layer_up, layer_down, FsmRet, code_at, conf_req, session_hdr_size, receive, open_event,
  layer_up_event,
}
use pppcpd.Fsm.Ends.{
  IsEnding, IsWhole, load8-Ends, load32-Ends, receive-Ends, open_event-Ends, layer_up_event-Ends,
}
use pppcpd.Link.{Link, proto_lcp, lcp_size}
use pppcpd.Lcp.{lcp_vtable, send_conf_req, send_magic, recv_echo_rep, auth_option}
use pppcpd.Ipcp.{ipcp_vtable, ipcp_send_conf_req}
use pppcpd.Aaa.{Aaa}
use pppcpd.Pap.{start_network}
use pppcpd.Chap.{chap_open}
use pppcpd.Runtime.{Runtime}
use pppcpd.Runtime.Valid.{IsValid}
use pppcpd.Ppp.{
  Env, Report, done, link_of, put, start_lcp, started, authenticate, after_lcp, by_proto, deliver,
  process_ppp,
}
use pppcpd.Ppp.Isolation.{Isolated, process_ppp-Isolated}

send_conf_req-Ends : (l : Link) → Ends (send_conf_req l)
unfolding send_conf_req
send_conf_req-Ends l = elim (Option-cases (auth_option l.lcp_conf)) [
  | inl unset ↦ rw (unset, send_conf_req) (_, refl)
  | inr (auth, set) ↦ rw (set, send_conf_req) (_, refl)
]

send_magic-Ends : (code : ℕ) (pkt : Bytes) (l : Link) → IsWhole pkt → Ends (send_magic code pkt l)
unfolding send_magic
send_magic-Ends code pkt l w =
    Ends-bind (load8 pkt code_at) _ (load8-Ends pkt code_at (omega arith)) (λ c.
      Ends-bind (load32 pkt (session_hdr_size + lcp_size)) _
        (load32-Ends pkt (session_hdr_size + lcp_size) (omega arith)) (λ m. (_, refl)))

recv_echo_rep-Ends : (pkt : Bytes) (l : Link) → IsWhole pkt → Ends (recv_echo_rep pkt l)
unfolding recv_echo_rep
recv_echo_rep-Ends pkt l w = (_, refl)

lcp-IsEnding : IsEnding lcp_vtable
lcp-IsEnding = record {
  send_conf_req-Ends = send_conf_req-Ends;
  send_term_ack-Ends = send_magic-Ends _;
  send_echo_rep-Ends = send_magic-Ends _;
  recv_echo_rep-Ends = recv_echo_rep-Ends;
}

ipcp_send_conf_req-Ends : (l : Link) → Ends (ipcp_send_conf_req l)
unfolding ipcp_send_conf_req
ipcp_send_conf_req-Ends l = (_, refl)

ipcp-IsEnding : (a : Aaa) → IsEnding (ipcp_vtable a)
ipcp-IsEnding a = record {
  send_conf_req-Ends = ipcp_send_conf_req-Ends;
  send_term_ack-Ends = λ pkt l w. (_, refl);
  send_echo_rep-Ends = λ pkt l w. (_, refl);
  recv_echo_rep-Ends = λ pkt l w. (_, refl);
}

start_network-Ends : (a : Aaa) (l : Link) → Ends (start_network a l)
start_network-Ends a l =
    Ends-bind (open_event (ipcp_vtable a) l) _ (open_event-Ends (ipcp_vtable a) (ipcp-IsEnding a) l)
      (λ l'. layer_up_event-Ends (ipcp_vtable a) (ipcp-IsEnding a) l')

start_lcp-Ends : (l : Link) → Ends (start_lcp l)
unfolding start_lcp
start_lcp-Ends l =
    Ends-if l.session.started (ok l) _ (l, refl)
      (Ends-bind (open_event lcp_vtable l) _ (open_event-Ends lcp_vtable lcp-IsEnding l) (λ l₁.
        Ends-bind (layer_up_event lcp_vtable l₁) (λ l₂. ok (started l₂))
          (layer_up_event-Ends lcp_vtable lcp-IsEnding l₁) (λ l₂. (started l₂, refl))))

authenticate-Ends : (env : Env) (rt : Runtime) (l : Link) → Ends (authenticate env rt l)
unfolding authenticate
authenticate-Ends env rt l =
    Ends-if env.lcp_conf.auth_chap (ok (chap_open env.policies env.digest l)) _ (_, refl)
      (Ends-if env.lcp_conf.auth_pap (ok l) _ (l, refl) (start_network-Ends rt.aaa l))

after_lcp-Ends :
    (env : Env) (k : SessionKey) (rt : Runtime) (r : FsmRet × Link) → Ends (after_lcp env k rt r)
unfolding after_lcp
after_lcp-Ends env k rt ((layer_up, none), l) =
    Ends-bind (authenticate env rt l) (λ l'. ok (done, put k l' rt)) (authenticate-Ends env rt l)
      (λ l'. ((done, put k l' rt), refl))
after_lcp-Ends env k rt ((layer_down, none), l) = (_, refl)
after_lcp-Ends env k rt ((no_action, none), l) = (_, refl)
after_lcp-Ends env k rt ((no_action, some e), l) = (_, refl)
after_lcp-Ends env k rt ((layer_up, some e), l) = (_, refl)
after_lcp-Ends env k rt ((layer_down, some e), l) = (_, refl)

by_proto-Ends :
    (env : Env) (proto : ℕ) (pkt : Bytes) (k : SessionKey) (rt : Runtime) (l : Link) (code : ℕ)
    → (proto == proto_lcp) ≡ true
    → IsWhole pkt
    → load8 pkt code_at ≡ ok code
    → code ≢ conf_req
    → Ends (by_proto env proto pkt k rt l)
unfolding by_proto
by_proto-Ends env proto pkt k rt l code p w e n = rw p (
    Ends-bind (receive lcp_vtable pkt l) (after_lcp env k rt)
      (receive-Ends lcp_vtable lcp-IsEnding pkt l code w e n) (after_lcp-Ends env k rt))

deliver-Ends :
    (env : Env) (pkt : Bytes) (k : SessionKey) (rt : Runtime) (proto code : ℕ)
    → load16 pkt 6 ≡ ok proto
    → (bswap16 proto == proto_lcp) ≡ true
    → IsWhole pkt
    → load8 pkt code_at ≡ ok code
    → code ≢ conf_req
    → Ends (deliver env pkt k rt)
unfolding deliver
deliver-Ends env pkt k rt proto code f p w e n = elim (Option-cases (find k rt.active_sessions)) [
  | inl unknown ↦ rw (unknown, deliver) ((done, rt), refl)
  | inr (s, there) ↦
      rw (there, deliver)
        (Ends-bind (start_lcp (link_of env rt s)) _ (start_lcp-Ends (link_of env rt s))
          (λ l. rw f (by_proto-Ends env (bswap16 proto) pkt k rt l code p w e n)))
]

-- A packet of LCP of 16 bytes or more whose code is not Configure-Request is always worked off,
-- whatever session it is for and whatever state that is in: processPPP ends without a read outside the
-- packet, the tables stay valid, and no other session is touched.
pub process_ppp-Ends :
    (env : Env) (pkt : Bytes) (e : Encap) (rt : Runtime) (sid proto code : ℕ)
    → IsValid rt
    → IsWhole pkt
    → load16 pkt 2 ≡ ok sid
    → load16 pkt 6 ≡ ok proto
    → bswap16 proto ≡ proto_lcp
    → load8 pkt code_at ≡ ok code
    → code ≢ conf_req
    → (r : Report × Runtime) × (process_ppp env pkt e rt ≡ ok r)
      × Isolated (key_of e (bswap16 sid)) rt r
unfolding process_ppp
process_ppp-Ends env pkt e rt sid proto code v w g f p c n =
    let k = key_of e (bswap16 sid) in
    Holds-Ends (Isolated k rt) (process_ppp env pkt e rt)
      (rw g (deliver-Ends env pkt k rt proto code f ((==_iff (bswap16 proto) proto_lcp).1 p) w c n))
      (process_ppp-Isolated env pkt e rt sid v g)
