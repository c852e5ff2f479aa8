-- ===== src/Ipcp.antt =====
-- src/ppp_ipcp.cpp, and parseIPCPOptions of src/packet.cpp. The AAA is only read: it is an argument.
pub mod Moves
pub mod Options
pub mod Agreement
use pppcpd.Common.{ℕ, zero, suc, ◌+◌, ◌-◌, ◌%◌, ◌^◌, List, [], ◌∷◌, ◌++◌, Option, none, some}
use pppcpd.Common.{Bool, true, false, not, ◌||◌, ◌==◌, ltb, if◌then◌else◌, length, set}
use pppcpd.Common.Bytes.{Bytes, load8, load16, load32, copy, store32, bswap16, bswap32}
use pppcpd.Common.Outcome.{Outcome, ok, stuck, ◌>>=◌}
use pppcpd.Common.Map.{ℕ_key, find}
use pppcpd.Session.{Session}
use pppcpd.Fsm.{
  State, no_action, no_options, no_aaa_session, FsmRet, Fsm, conf_req, conf_ack, conf_nak, Vtable,
  session_hdr_size, code_at, identifier_at, up_if_open, after_ack, after_refusal,
}
use pppcpd.Link.{Link, lcp_size, options_at, opt_4b, push, lcp_packet, rej_packet}
use pppcpd.Aaa.{Aaa, AaaSession}

abbrev pub ipcp_fsm : Link → Fsm
ipcp_fsm l = l.session.ipcp

abbrev pub with_ipcp_fsm : Fsm → Link → Link
with_ipcp_fsm f l = record l { session = record l.session { ipcp = f } }

abbrev pub proto_ipcp : ℕ
proto_ipcp = 0x8021

-- IPCP_OPTIONS
abbrev pub ip_address : ℕ
ip_address = 3

abbrev pub primary_dns : ℕ
primary_dns = 129

abbrev pub secondary_dns : ℕ
secondary_dns = 131

-- 100.64.0.1
abbrev pub our_address : ℕ
our_address = 0x64400001

unfoldable pub ipcp_send_conf_req : Link → Outcome (FsmRet × Link)
ipcp_send_conf_req l = ok (
  (no_action, none),
  push
      (lcp_packet proto_ipcp conf_req (ipcp_fsm l).session_id (ipcp_fsm l).pkt_id
        (opt_4b ip_address our_address))
      l,
)

-- The value that the peer's option of that kind is to have; `none` for a kind that is rejected.
abbrev pub expected : AaaSession → ℕ → Option ℕ
expected s kind =
    if kind == ip_address
    then some s.address
    else (if kind == primary_dns
        then some s.dns1
        else (if kind == secondary_dns then some s.dns2 else none))

-- parseIPCPOptions: the places of the options, in the order of the set of pointers. `size` is the
-- length field. An option that is got past takes a byte of the packet or more.
unfoldable pub parse_ipcp_options : ℕ → Bytes → ℕ → ℕ → Outcome (List ℕ)
parse_ipcp_options zero pkt size offset = stuck
parse_ipcp_options (suc fuel) pkt size offset =
    if ltb (offset + lcp_size) size
    then (do
      n ← load8 pkt (options_at + offset + 1)
      rest ← parse_ipcp_options fuel pkt size (offset + n)
      ok ((options_at + offset) ∷ rest))
    else ok []

-- The bytes of the options to reject.
unfoldable pub rejected_options : AaaSession → Bytes → List ℕ → Outcome Bytes
rejected_options s pkt [] = ok []
rejected_options s pkt (at ∷ opts) = do
  kind ← load8 pkt at
  here ← elim (expected s kind) [
    | some v ↦ ok []
    | none ↦ (do n ← load8 pkt (at + 1); copy pkt at n)
  ]
  rest ← rejected_options s pkt opts
  ok (here ++ rest)

-- Whether an option has another value than the expected one.
unfoldable pub differs : AaaSession → Bytes → List ℕ → Outcome Bool
differs s pkt [] = ok false
differs s pkt (at ∷ opts) = do
  kind ← load8 pkt at
  here ← elim (expected s kind) [
    | none ↦ ok false
    | some v ↦ (do w ← load32 pkt (at + 2); ok (not (w == bswap32 v)))
  ]
  rest ← differs s pkt opts
  ok (here || rest)

-- The loop of send_conf_nak, which writes the expected values over the packet's.
unfoldable pub corrected : AaaSession → List ℕ → Bytes → Outcome Bytes
corrected s [] pkt = ok pkt
corrected s (at ∷ opts) pkt = do
  kind ← load8 pkt at
  corrected s opts
      (elim (expected s kind) [ none ↦ pkt | some v ↦ store32 (at + 2) (bswap32 v) pkt ])

abbrev pub in_ipcp_state : State → Link → Link
in_ipcp_state st l = with_ipcp_fsm (record (ipcp_fsm l) { state = st }) l

unfoldable pub ipcp_send_conf_ack : Bytes → Link → Outcome (FsmRet × Link)
ipcp_send_conf_ack pkt l = do
  _ ← load8 pkt code_at
  ok ((up_if_open (ipcp_fsm l).state, none), push (set pkt code_at conf_ack) l)

-- The length field and the rounds that parseIPCPOptions may take.
abbrev pub options_of : Bytes → Outcome (List ℕ)
options_of pkt = do
  v ← load16 pkt (session_hdr_size + 2)
  parse_ipcp_options (suc (length pkt)) pkt (bswap16 v) 0

unfoldable pub ipcp_send_conf_nak : Aaa → Bytes → Link → Outcome (FsmRet × Link)
unfolding parse_ipcp_options corrected
ipcp_send_conf_nak a pkt l = elim (find l.session.aaa_session_id a.sessions) [
  | none ↦ ok ((no_action, some no_aaa_session), l)
  | some s ↦ (do
    _ ← load8 pkt code_at
    let nak = set pkt code_at conf_nak
    opts ← options_of nak
    out ← corrected s opts nak
    ok ((no_action, none), push out l))
]

-- What check_conf takes over of the AAA session before it looks at the options.
abbrev pub assigned : AaaSession → Link → Link
assigned s l = record l {
  session = record l.session { address = s.address; vrf = s.vrf; unnumbered = s.unnumbered };
}

abbrev pub ipcp_acked : Link → Link
ipcp_acked l =
    with_ipcp_fsm (record (ipcp_fsm l) { state = after_ack (ipcp_fsm l).state; nak_counter = 0 }) l

-- nak_counter is an uint8_t.
abbrev pub ipcp_naked : Link → Link
ipcp_naked l =
    with_ipcp_fsm
      (record (ipcp_fsm l) {
        state = after_refusal (ipcp_fsm l).state;
        nak_counter = ((ipcp_fsm l).nak_counter + 1) % 2 ^ 8;
      })
      l

-- A rejection leaves the state of the automaton alone.
unfoldable pub ipcp_answer :
    Aaa → AaaSession → Bytes → List ℕ → Bytes → Link → Outcome (FsmRet × Link)
unfolding ipcp_send_conf_ack ipcp_send_conf_nak differs
ipcp_answer a s pkt opts (b ∷ rejected) l = do
  id ← load8 pkt identifier_at
  ok ((no_action, none), push (rej_packet proto_ipcp (ipcp_fsm l).session_id id (b ∷ rejected)) l)
ipcp_answer a s pkt opts [] l = do
  d ← differs s pkt opts
  (if d then ipcp_send_conf_nak a pkt (ipcp_naked l) else ipcp_send_conf_ack pkt (ipcp_acked l))

unfoldable pub ipcp_check_conf : Aaa → Bytes → Link → Outcome (FsmRet × Link)
unfolding ipcp_answer parse_ipcp_options rejected_options
ipcp_check_conf a pkt l = do
  v ← load16 pkt (session_hdr_size + 2)
  let len = (bswap16 v + (2 ^ 32 - lcp_size)) % 2 ^ 32
  (if len == 0
      then ok ((no_action, some no_options), l)
      else (elim (find l.session.aaa_session_id a.sessions) [
        | none ↦ ok ((no_action, some no_aaa_session), l)
        | some s ↦ (do
          opts ← options_of pkt
          rejected ← rejected_options s pkt opts
          ipcp_answer a s pkt opts rejected (assigned s l))
      ]))

abbrev pub quiet : Bytes → Link → Outcome (FsmRet × Link)
quiet pkt l = ok ((no_action, none), l)

-- send_term_ack, send_echo_rep and recv_echo_rep have empty bodies.
abbrev pub ipcp_vtable : Aaa → Vtable Link
ipcp_vtable a = record {
  fsm = ipcp_fsm;
  with_fsm = with_ipcp_fsm;
  send_conf_req = ipcp_send_conf_req;
  check_conf = ipcp_check_conf a;
  send_term_ack = quiet;
  send_echo_rep = quiet;
  recv_echo_rep = quiet;
}
