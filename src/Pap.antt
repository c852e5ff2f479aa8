-- ===== src/Pap.antt =====
-- src/ppp_auth.cpp and src/ppp_auth.hpp: PAP. A packet begins at its PPPoE session header. The byte
-- `*auth->data` of a reply stands one past the end of the vector, so that it is not sent.
use pppcpd.Common.{ℕ, ◌+◌, List, [], ◌∷◌, ◌++◌, none, some, true, ◌==◌, if◌then◌else◌}
use pppcpd.Common.Bytes.{Bytes, load8, copy, be16}
use pppcpd.Common.Outcome.{Outcome, ok, ◌>>=◌}
use pppcpd.Common.Map.{Str}
use pppcpd.Fsm.{no_action, layer_up, FsmRet, code_at, session_hdr_size, open_event, layer_up_event}
use pppcpd.Link.{Link, proto_pap, session_header, push}
use pppcpd.Aaa.{Aaa, pap}
use pppcpd.Aaa.Methods.{Call, start_session}
use pppcpd.Ipcp.{ipcp_vtable}

-- PAP_CODE
abbrev pub authenticate_req : ℕ
authenticate_req = 1

abbrev pub authenticate_ack : ℕ
authenticate_ack = 2

abbrev pub authenticate_nak : ℕ
authenticate_nak = 3

-- sizeof( PPP_AUTH_HDR )
abbrev pub auth_size : ℕ
auth_size = 4

-- PPP_AUTH_HDR of a reply, whose identifier stays 0
abbrev pub pap_reply : ℕ → ℕ → Bytes
pap_reply code sid = session_header sid (auth_size + 2) proto_pap ++ (code ∷ 0 ∷ be16 auth_size)

-- The network layer starts: session.ipcp.open() and session.ipcp.layer_up().
abbrev pub start_network : Aaa → Link → Outcome Link
start_network a l = do l' ← open_event (ipcp_vtable a) l; layer_up_event (ipcp_vtable a) l'

unfoldable pub pap_send_auth_ack : Aaa → Link → Outcome (FsmRet × Link)
pap_send_auth_ack a l = do
  l' ← start_network a (push (pap_reply authenticate_ack l.session.session_id) l)
  ok ((layer_up, none), l')

unfoldable pub pap_send_auth_nak : Link → Outcome (FsmRet × Link)
pap_send_auth_nak l =
    ok ((no_action, none), push (pap_reply authenticate_nak l.session.session_id) l)

abbrev pub pap_started : ℕ → Link → Link
pap_started sid l = record l {
  session = record l.session {
    aaa_session_id = sid;
    auth = record l.session.auth { started = true };
  };
}

-- auth_callback
unfoldable pub pap_callback : Aaa → Call → Link → Outcome (FsmRet × Link)
unfolding pap_send_auth_ack pap_send_auth_nak
pap_callback a (sid, none) l = pap_send_auth_ack a (pap_started sid l)
pap_callback a (sid, some e) l = pap_send_auth_nak l

-- The calls that the AAA makes, one after the other, each into `callback`. The AAA has worked off its
-- part by then, and a call does not change it.
unfoldable pub run_calls : (Call → Link → Outcome (FsmRet × Link)) → List Call → Link → Outcome Link
run_calls callback [] l = ok l
run_calls callback (c ∷ calls) l = do (r, l') ← callback c l; run_calls callback calls l'

abbrev pub named : Str → Link → Link
named user l = record l { session = record l.session { username = user } }

-- recv_auth_req of a peer that is not let in yet: the AAA is asked.
unfoldable pub pap_ask : Bytes → Link → Aaa → Outcome (Link × Aaa)
unfolding pap_callback run_calls
pap_ask pkt l a = do
  let at = session_hdr_size + auth_size
  user_len ← load8 pkt at
  user ← copy pkt (at + 1) user_len
  pass_len ← load8 pkt (at + user_len + 1)
  pass ← copy pkt (at + 1 + user_len + 1) pass_len
  let l' = named user l
  (calls, a') ← start_session user (pap pass) l'.session.encap a
  l'' ← run_calls (pap_callback a') calls l'
  ok (l'', a')

unfoldable pub pap_recv_auth_req : Bytes → Link → Aaa → Outcome (Link × Aaa)
unfolding pap_send_auth_ack
pap_recv_auth_req pkt l a =
    if l.session.auth.started
    then (do (r, l') ← pap_send_auth_ack a l; ok (l', a))
    else pap_ask pkt l a

unfoldable pub pap_receive : Bytes → Link → Aaa → Outcome (FsmRet × (Link × Aaa))
unfolding pap_recv_auth_req
pap_receive pkt l a = do
  code ← load8 pkt code_at
  (if code == authenticate_req
      then (do r ← pap_recv_auth_req pkt l a; ok ((no_action, none), r))
      else ok ((no_action, none), (l, a)))
