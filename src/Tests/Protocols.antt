-- ===== src/Tests/Protocols.antt =====
-- LCP run on the bytes of packets.
use pppcpd.Common.{◌≡◌, refl, List, [], ◌∷◌, ◌++◌, true, false, arith}
use pppcpd.Common.Bytes.{Bytes}
use pppcpd.Common.Outcome.{stuck, Holds}
use pppcpd.Encap.{Encap, zero_mac}
use pppcpd.Session.{Junk, new_session}
use pppcpd.Fsm.{receive, conf_ack, conf_req, ack_sent}
use pppcpd.Link.{Link, session_header, lcp_header, proto_lcp}
use pppcpd.Lcp.{lcp_vtable, check_conf, scan, in_state}
use pppcpd.Lcp.Opening.{receive-Moves}
use pppcpd.Fsm.Moves.{MovesIn, carries_ours, state_in}
use pppcpd.Lcp.Known.{HasKnownOptions}
use pppcpd.Lcp.Options.{
  lcp_options, replied, LcpOption, mru, magic, other, take_over, check_conf-take_over,
  scan_zero_length,
}

abbrev port : Encap
port = record {
  source_mac = zero_mac;
  destination_mac = zero_mac;
  outer_vlan = 0;
  inner_vlan = 0;
  ethertype = 0x8864;
}

abbrev unset : Junk
unset = record {
  address = 0;
  our_mru = 0;
  peer_mru = 0;
  our_magic_number = 7;
  peer_magic_number = 0;
}

abbrev pub line : Link
line = record {
  session = new_session unset port 1;
  hwaddr = zero_mac;
  lcp_conf = record { mru = 1492; auth_chap = true; auth_pap = false };
  random = 7;
  ppp_outcoming = [];
}

abbrev waiting : Link
waiting = in_state ack_sent line

abbrev ack_of_1 : Bytes
ack_of_1 = session_header 1 6 proto_lcp ++ lcp_header conf_ack 1 4

receive-Moves_example :
    Holds
      (MovesIn lcp_vtable
        (HasKnownOptions ack_of_1)
        conf_ack
        (carries_ours lcp_vtable ack_of_1 waiting)
        (state_in lcp_vtable waiting))
      (receive lcp_vtable ack_of_1 waiting)
receive-Moves_example = receive-Moves ack_of_1 waiting conf_ack refl

abbrev options : List LcpOption
options = mru 1400 ∷ other 3 (0xc0 ∷ 0x23 ∷ []) ∷ magic 99 ∷ []

check_conf-take_over_example :
    check_conf (lcp_options conf_req 1 20 5 options []) line
    ≡ replied
        (3 ∷ 4 ∷ 0xc0 ∷ 0x23 ∷ [])
        1
        20
        5
        options
        []
        (take_over options (line.session, [])).0
        line
check_conf-take_over_example =
    check_conf-take_over options 1 20 5 [] line
      (omega arith, ((λ e. cc, λ e. cc, omega arith), (omega arith, tt))) (omega arith)
      (omega arith)

abbrev endless : Bytes
endless = session_header 1 8 proto_lcp ++ lcp_header conf_req 5 6 ++ (9 ∷ 0 ∷ [])

scan_zero_length_example : scan 1000 endless 2 0 (line.session, []) ≡ stuck
scan_zero_length_example =
    scan_zero_length 1000 endless 2 0 9 (line.session, []) (omega arith) refl refl (λ e. cc)
      (λ e. cc)
