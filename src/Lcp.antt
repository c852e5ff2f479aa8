-- ===== src/Lcp.antt =====
-- src/ppp_lcp.cpp, the options of src/packet.cpp and LCPPolicy of src/policy.hpp.
-- A packet in memory begins at the PPPoE session header; a read outside it is a `fault`.
pub mod Options
pub mod Echo
pub mod Known
pub mod Moves
pub mod Opening
use pppcpd.Common.{ℕ, zero, suc, ◌+◌, ◌-◌, ◌*◌, ◌%◌, ◌^◌, List, [], ◌∷◌, ◌++◌, Option, none, some}
use pppcpd.Common.{Bool, true, false, ◌&&◌, ◌==◌, ltb, if◌then◌else◌, length, set, replicate}
use pppcpd.Common.Bytes.{Bytes, load8, load16, load32, copy, store32, be16, be32, bswap16, bswap32}
use pppcpd.Common.Outcome.{Outcome, ok, stuck, ◌>>=◌}
use pppcpd.Encap.{Mac, generate_header, eth_pppoe_session}
use pppcpd.Session.{Session, Lcp}
use pppcpd.Link.{
  Link, LcpPolicy, proto_lcp, proto_pap, proto_chap, lcp_size, options_at, opt_2b, opt_3b, opt_4b,
  push, lcp_packet, rej_packet,
}
use pppcpd.Fsm.{
  up_if_open, after_ack, after_refusal, State, ack_rcvd, ack_sent, req_sent, opened, Action,
  no_action, layer_up, layer_down, Error, no_auth_proto, no_options, magic_wrong, echo_timeout,
  FsmRet, Fsm, conf_req, conf_ack, conf_rej, term_ack, echo_req, echo_reply, Vtable,
  session_hdr_size, code_at, identifier_at,
}

abbrev pub lcp_fsm : Link → Fsm
lcp_fsm l = l.session.lcp.fsm

abbrev pub with_lcp_fsm : Fsm → Link → Link
with_lcp_fsm f l = record l {
  session = record l.session { lcp = record l.session.lcp { fsm = f } };
}

-- LCP_OPTIONS
abbrev pub opt_mru : ℕ
opt_mru = 1

abbrev pub opt_auth : ℕ
opt_auth = 3

abbrev pub opt_magic : ℕ
opt_magic = 5

abbrev pub auth_option : LcpPolicy → Option Bytes
auth_option c =
    if c.auth_chap
    then some (opt_3b opt_auth proto_chap 5)
    else (if c.auth_pap then some (opt_2b opt_auth proto_pap) else none)

-- A magic number of 0 is taken for none.
abbrev pub with_magic : Link → Link
with_magic l = record l {
  session = record l.session {
    our_magic_number =
        if l.session.our_magic_number == 0 then l.random else l.session.our_magic_number;
  };
}

unfoldable pub send_conf_req : Link → Outcome (FsmRet × Link)
send_conf_req l = elim (auth_option l.lcp_conf) [
  | none ↦ ok ((no_action, some no_auth_proto), l)
  | some auth ↦
      let l' = with_magic l in
      let opts =
        opt_2b opt_mru l.lcp_conf.mru ++ auth ++ opt_4b opt_magic l'.session.our_magic_number in
      ok (
        (no_action, none),
        push (lcp_packet proto_lcp conf_req (lcp_fsm l).session_id (lcp_fsm l).pkt_id opts) l',
      )
]

-- The packet itself goes back with another code.
unfoldable pub send_conf_ack : Bytes → Link → Outcome (FsmRet × Link)
send_conf_ack pkt l = do
  _ ← load8 pkt code_at
  ok ((up_if_open (lcp_fsm l).state, none), push (set pkt code_at conf_ack) l)

unfoldable pub send_conf_rej : Bytes → ℕ → Link → Outcome (FsmRet × Link)
send_conf_rej rejected id l =
    ok ((no_action, none), push (rej_packet proto_lcp (lcp_fsm l).session_id id rejected) l)

-- One option of a request, its kind and length read at `at`: what the session takes over, and the
-- bytes to reject.
unfoldable pub read_option : Bytes → ℕ → ℕ → ℕ → Session × Bytes → Outcome (Session × Bytes)
read_option pkt at kind len (s, rejected) =
    if kind == opt_mru
    then (do v ← load16 pkt (at + 2); ok (record s { peer_mru = bswap16 v }, rejected))
    else (if kind == opt_magic
        then (do v ← load32 pkt (at + 2); ok (record s { peer_magic_number = bswap32 v }, rejected))
        else (do bytes ← copy pkt at len; ok (s, rejected ++ bytes)))

-- The loop of check_conf over `len` bytes of options, from `offset` on.
unfoldable pub scan : ℕ → Bytes → ℕ → ℕ → Session × Bytes → Outcome (Session × Bytes)
unfolding read_option
scan zero pkt len offset acc = stuck
scan (suc fuel) pkt len offset acc =
    if ltb offset len
    then (do
      n ← load8 pkt (options_at + offset + 1)
      kind ← load8 pkt (options_at + offset)
      acc' ← read_option pkt (options_at + offset) kind n acc
      scan fuel pkt len (offset + n) acc')
    else ok acc

abbrev pub in_state : State → Link → Link
in_state st l = with_lcp_fsm (record (lcp_fsm l) { state = st }) l

abbrev pub acked : State → Link → Link
acked st l = in_state (after_ack st) l

abbrev pub unacked : State → Link → Link
unacked st l = in_state (after_refusal st) l

abbrev pub no_naks : Link → Link
no_naks l = with_lcp_fsm (record (lcp_fsm l) { nak_counter = 0 }) l

-- What follows the loop. An option that is not known has at least the byte of its kind, so that
-- nothing to reject is to say that no such option came; one of length 0 is never got past.
unfoldable pub answer_conf : Bytes → Session × Bytes → Link → Outcome (FsmRet × Link)
unfolding send_conf_ack send_conf_rej
answer_conf pkt (s, []) l =
    send_conf_ack pkt (no_naks (acked (lcp_fsm l).state (record l { session = s })))
answer_conf pkt (s, b ∷ rejected) l = do
  id ← load8 pkt identifier_at
  send_conf_rej (b ∷ rejected) id (unacked (lcp_fsm l).state (record l { session = s }))

-- The length without its header is an uint32_t. Every option that is got past takes a byte of the
-- packet, so that one round for each byte and one more are enough.
unfoldable pub check_conf : Bytes → Link → Outcome (FsmRet × Link)
unfolding scan answer_conf
check_conf pkt l = do
  v ← load16 pkt (session_hdr_size + 2)
  let len = (bswap16 v + (2 ^ 32 - lcp_size)) % 2 ^ 32
  (if len == 0
      then ok ((no_action, some no_options), l)
      else (do acc ← scan (suc (length pkt)) pkt len 0 (l.session, []); answer_conf pkt acc l))

-- The answers to a Terminate-Request and an Echo-Request, which carry the peer's magic number.
unfoldable pub send_magic : ℕ → Bytes → Link → Outcome (FsmRet × Link)
send_magic code pkt l = do
  _ ← load8 pkt code_at
  m ← load32 pkt (session_hdr_size + lcp_size)
  ok (
      if m == bswap32 l.session.peer_magic_number
      then (
        (no_action, none),
        push
            (store32 (session_hdr_size + lcp_size) (bswap32 l.session.our_magic_number)
              (set pkt code_at code))
            l,
      )
      else ((no_action, some magic_wrong), l))

abbrev pub send_term_ack : Bytes → Link → Outcome (FsmRet × Link)
send_term_ack = send_magic term_ack

abbrev pub send_echo_rep : Bytes → Link → Outcome (FsmRet × Link)
send_echo_rep = send_magic echo_reply

abbrev pub with_echoes : ℕ → Link → Link
with_echoes n l = record l {
  session = record l.session { lcp = record l.session.lcp { echo_counter = n } };
}

unfoldable pub recv_echo_rep : Bytes → Link → Outcome (FsmRet × Link)
recv_echo_rep pkt l = ok ((no_action, none), with_echoes 0 l)

-- echo_counter is an uint8_t.
unfoldable pub send_echo_req : Link → Outcome (FsmRet × Link)
send_echo_req l =
    let n = (l.session.lcp.echo_counter + 1) % 2 ^ 8 in
    let l' = with_echoes n l in
    if ltb 9 n
    then ok ((layer_down, some echo_timeout), l')
    else ok (
      (no_action, none),
      push
          (lcp_packet proto_lcp echo_req (lcp_fsm l).session_id (lcp_fsm l).pkt_id
            (opt_4b opt_magic l.session.our_magic_number))
          l',
    )

abbrev pub lcp_vtable : Vtable Link
lcp_vtable = record {
  fsm = lcp_fsm;
  with_fsm = with_lcp_fsm;
  send_conf_req = send_conf_req;
  check_conf = check_conf;
  send_term_ack = send_term_ack;
  send_echo_rep = send_echo_rep;
  recv_echo_rep = recv_echo_rep;
}
