-- ===== src/Tests/Logins.antt =====
-- PAP, CHAP and IPCP run on the bytes of packets.
use pppcpd.Common.{◌≡◌, refl, List, [], ◌∷◌, ◌++◌, arith, replicate, none, some, inl, inr, false}
use pppcpd.Common.Bytes.{Bytes}
use pppcpd.Common.Map.{Str, ℕ_key, find}
use pppcpd.Fsm.{ack_sent, conf_ack, conf_req}
use pppcpd.Link.{Link, lcp_header, session_header}
use pppcpd.Aaa.{Aaa, AaaSession}
use pppcpd.Ipcp.{proto_ipcp, in_ipcp_state, ipcp_check_conf, ip_address, primary_dns}
use pppcpd.Ipcp.Options.{Wish, grant}
use pppcpd.Ipcp.Agreement.{acknowledged, ipcp_packet, settled, ipcp_check_conf-settled}
use pppcpd.Tests.Addresses.{empty_aaa, user}
use pppcpd.Tests.Protocols.{line}

abbrev secret : Str
secret = b's' ∷ b'3' ∷ []

abbrev value : Bytes
value = replicate 16 7

abbrev waiting : Link
waiting = in_ipcp_state ack_sent line

abbrev ack_of_1 : Bytes
ack_of_1 = session_header 1 6 proto_ipcp ++ lcp_header conf_ack 1 4

abbrev customer : AaaSession
customer = record {
  session_id = 3;
  username = user;
  address = 10;
  dns1 = 11;
  dns2 = 12;
  framed_pool = [];
  vrf = [];
  unnumbered = [];
  acct = false;
  free_ip = false;
  to_stop_acct = false;
  ifindex = none;
}

abbrev serving : Aaa
serving = record empty_aaa { sessions = (3, customer) ∷ [] }

abbrev logged_in : Link
logged_in = record line { session = record line.session { aaa_session_id = 3 } }

-- The peer begins with address 0.0.0.0, and asks for one name server.
abbrev wishes : List Wish
wishes = (ip_address, 0) ∷ (primary_dns, 11) ∷ []

customer_found : find logged_in.session.aaa_session_id serving.sessions ≡ some customer
unfolding find
customer_found = refl

ipcp_check_conf-settled_example :
    (ipcp_check_conf serving (ipcp_packet conf_req 1 18 5 wishes []) logged_in
      ≡ settled customer wishes 1 18 5 [] serving logged_in)
    × (ipcp_check_conf serving (ipcp_packet conf_req 1 18 5 (grant customer wishes) []) logged_in
        ≡ acknowledged customer (grant customer wishes) 1 18 5 [] logged_in)
ipcp_check_conf-settled_example =
    ipcp_check_conf-settled serving customer wishes 1 18 5 [] logged_in (omega arith) (omega arith)
      (record { address_lt = omega arith; dns1_lt = omega arith; dns2_lt = omega arith })
      ((omega arith, inl refl), ((omega arith, inr (inl refl)), tt)) customer_found
