-- ===== src/Tests/Links.antt =====
-- Headers of the link.
use pppcpd.Common.{ℕ, ◌≡◌, refl, [], ◌∷◌, ◌++◌, arith}
use pppcpd.Common.Outcome.{ok}
use pppcpd.Encap.{Mac, Encap, zero_mac, eth_pppoe_session, parse_encap, generate_header}
use pppcpd.Encap.RoundTrip.{far_end, parse_encap-generate_header}

abbrev mac_a : Mac
mac_a = record { b0 = 2; b1 = 0; b2 = 0; b3 = 0; b4 = 0; b5 = 1 }

abbrev tagged : Encap
tagged = record {
  source_mac = mac_a;
  destination_mac = zero_mac;
  outer_vlan = 100;
  inner_vlan = 7;
  ethertype = eth_pppoe_session;
}

header_of_tagged :
    generate_header tagged zero_mac eth_pppoe_session
    ≡ 2 ∷ 0 ∷ 0 ∷ 0 ∷ 0 ∷ 1 ∷ 0 ∷ 0 ∷ 0 ∷ 0 ∷ 0 ∷ 0 ∷ 0x81 ∷ 0 ∷ 0 ∷ 100 ∷ 0x81 ∷ 0 ∷ 0 ∷ 7 ∷ 0x88
      ∷ 0x64 ∷ []
unfolding generate_header pppcpd.Common.Bytes.bswap16
header_of_tagged = refl

parse_encap-generate_header_example :
    parse_encap 0 (generate_header tagged zero_mac eth_pppoe_session ++ (0x11 ∷ 0 ∷ [])) 0 0
    ≡ ok (far_end tagged zero_mac eth_pppoe_session, 0x11 ∷ 0 ∷ [])
parse_encap-generate_header_example =
    parse_encap-generate_header tagged zero_mac eth_pppoe_session 0 (0x11 ∷ 0 ∷ []) (omega arith)
      (omega arith) (λ h. absurd (omega arith)) (omega arith) (omega arith)
