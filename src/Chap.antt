-- ===== src/Chap.antt =====
-- src/ppp_chap.cpp and src/ppp_chap.hpp: CHAP. A packet begins at its PPPoE session header. What
-- md5( random_string( 32 ) ) gives is an argument.
use pppcpd.Common.{ℕ, ◌+◌, ◌-◌, ◌%◌, ◌^◌, ◌∷◌, ◌++◌, none, some, true, ◌==◌}
use pppcpd.Common.{if◌then◌else◌, length, replicate}
use pppcpd.Common.Bytes.{Bytes, load8, load16, copy, be16, bswap16}
use pppcpd.Common.Outcome.{Outcome, ok, ◌>>=◌}
use pppcpd.Common.Map.{Str}
use pppcpd.Fsm.{no_action, layer_up, FsmRet, code_at, identifier_at, session_hdr_size}
use pppcpd.Link.{Link, proto_chap, session_header, push}
use pppcpd.Aaa.{Aaa, chap}
use pppcpd.Aaa.Methods.{Call, start_session}
use pppcpd.Discovery.{Policies, policy_of, resize}
use pppcpd.Pap.{start_network, run_calls, named}

-- CHAP_CODE
abbrev pub challenge_code : ℕ
challenge_code = 1

abbrev pub response_code : ℕ
response_code = 2

abbrev pub success_code : ℕ
success_code = 3

abbrev pub failure_code : ℕ
failure_code = 4

-- sizeof( PPP_CHAP_HDR ), and the size of its value
abbrev pub chap_size : ℕ
chap_size = 21

abbrev pub value_size : ℕ
value_size = 16

-- A reply: identifier, value_len and value stay 0.
abbrev pub chap_reply : ℕ → ℕ → Bytes
chap_reply code sid =
    session_header sid (chap_size + 2) proto_chap
    ++ (code ∷ 0 ∷ be16 chap_size)
    ++ replicate (value_size + 1) 0

unfoldable pub chap_send_auth_ack : Aaa → Link → Outcome (FsmRet × Link)
chap_send_auth_ack a l = do
  l' ← start_network a (push (chap_reply success_code l.session.session_id) l)
  ok ((layer_up, none), l')

unfoldable pub chap_send_auth_nak : Link → Outcome (FsmRet × Link)
chap_send_auth_nak l = ok ((no_action, none), push (chap_reply failure_code l.session.session_id) l)

abbrev pub chap_started : ℕ → Link → Link
chap_started sid l = record l {
  session = record l.session {
    aaa_session_id = sid;
    chap = record l.session.chap { started = true };
  };
}

-- auth_callback
unfoldable pub chap_callback : Aaa → Call → Link → Outcome (FsmRet × Link)
unfolding chap_send_auth_ack chap_send_auth_nak
chap_callback a (sid, none) l = chap_send_auth_ack a (chap_started sid l)
chap_callback a (sid, some e) l = chap_send_auth_nak l

-- recv_auth_req of a peer that is not let in yet. The length of the name is an uint8_t; the identifier
-- stands before the response.
unfoldable pub chap_ask : Bytes → Link → Aaa → Outcome (Link × Aaa)
unfolding chap_callback run_calls
chap_ask pkt l a = do
  v ← load16 pkt (session_hdr_size + 2)
  user ← copy pkt (session_hdr_size + chap_size) ((bswap16 v + (2 ^ 8 - chap_size)) % 2 ^ 8)
  value ← copy pkt (session_hdr_size + 5) value_size
  id ← load8 pkt identifier_at
  let l' = named user l
  (calls, a') ← start_session user (chap l'.session.chap.challenge (id ∷ value)) l'.session.encap a
  l'' ← run_calls (chap_callback a') calls l'
  ok (l'', a')

unfoldable pub chap_recv_auth_req : Bytes → Link → Aaa → Outcome (Link × Aaa)
unfolding chap_send_auth_ack
chap_recv_auth_req pkt l a =
    if l.session.chap.started
    then (do (r, l') ← chap_send_auth_ack a l; ok (l', a))
    else chap_ask pkt l a

unfoldable pub chap_receive : Bytes → Link → Aaa → Outcome (FsmRet × (Link × Aaa))
unfolding chap_recv_auth_req
chap_receive pkt l a = do
  code ← load8 pkt code_at
  (if code == response_code
      then (do r ← chap_recv_auth_req pkt l a; ok ((no_action, none), r))
      else ok ((no_action, none), (l, a)))

abbrev pub challenged : Str → Link → Link
challenged c l = record l {
  session = record l.session { chap = record l.session.chap { challenge = c } };
}

-- open and send_conf_req: a challenge under the name of the policy.
unfoldable pub chap_open : Policies → Str → Link → Link
chap_open p digest l =
    let c = resize value_size digest in
    let name = (policy_of p l.session.encap.outer_vlan).ac_name in
    push
      (session_header l.session.session_id (chap_size + length name + 2) proto_chap
        ++ (challenge_code ∷ 0 ∷ be16 (chap_size + length name))
        ++ (value_size ∷ c)
        ++ name)
      (challenged c l)
