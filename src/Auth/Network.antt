-- ===== src/Auth/Network.antt =====
-- The start of the network layer by PAP and CHAP: session.ipcp.open() and session.ipcp.layer_up().
use pppcpd.Common.{ℕ, ◌≡◌, refl, none}
use pppcpd.Common.Bytes.{Bytes}
use pppcpd.Common.Outcome.{ok}
use pppcpd.Fsm.{initial, req_sent, conf_req, layer_up, open_event, layer_up_event}
use pppcpd.Link.{Link, push, lcp_packet, opt_4b}
use pppcpd.Aaa.{Aaa}
use pppcpd.Ipcp.{ipcp_fsm, in_ipcp_state, ipcp_send_conf_req, proto_ipcp, ip_address, our_address}
use pppcpd.Pap.{
  start_network, pap_send_auth_ack, pap_reply, authenticate_ack, pap_callback, pap_started,
}
use pppcpd.Chap.{chap_send_auth_ack, chap_reply, success_code, chap_callback, chap_started}

-- Our Configure-Request for IPCP.
abbrev pub network_request : Link → Bytes
network_request l =
    lcp_packet proto_ipcp conf_req (ipcp_fsm l).session_id (ipcp_fsm l).pkt_id
      (opt_4b ip_address our_address)

-- The link once IPCP has sent it.
abbrev pub requested : Link → Link
requested l = in_ipcp_state req_sent (push (network_request l) l)

pub start_network-requested :
    (a : Aaa) (l : Link) → (ipcp_fsm l).state ≡ initial → start_network a l ≡ ok (requested l)
unfolding open_event layer_up_event ipcp_send_conf_req
start_network-requested a l e = rw (e, open_event) refl

pub pap_callback-success :
    (a : Aaa) (i : ℕ) (l : Link)
    → (ipcp_fsm l).state ≡ initial
    → pap_callback a (i, none) l
      ≡ ok (
        (layer_up, none),
        requested (push (pap_reply authenticate_ack l.session.session_id) (pap_started i l)),
      )
unfolding pap_callback pap_send_auth_ack
pap_callback-success a i l e =
    rw
      (start_network-requested a
        (push (pap_reply authenticate_ack l.session.session_id) (pap_started i l)) e)
      refl

pub chap_callback-success :
    (a : Aaa) (i : ℕ) (l : Link)
    → (ipcp_fsm l).state ≡ initial
    → chap_callback a (i, none) l
      ≡ ok (
        (layer_up, none),
        requested (push (chap_reply success_code l.session.session_id) (chap_started i l)),
      )
unfolding chap_callback chap_send_auth_ack
chap_callback-success a i l e =
    rw
      (start_network-requested a
        (push (chap_reply success_code l.session.session_id) (chap_started i l)) e)
      refl
