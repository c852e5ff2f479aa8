-- ===== src/Link.antt =====
-- A session with what its protocols use of the runtime, and the packets that LCP and IPCP share:
-- src/packet.hpp, src/packet.cpp, src/policy.hpp and the parts of src/ppp_lcp.cpp that
-- src/ppp_ipcp.cpp repeats. A packet in memory begins at the PPPoE session header.
use pppcpd.Common.{ℕ, ◌+◌, List, [], ◌∷◌, ◌++◌, Bool, length, replicate}
use pppcpd.Common.Bytes.{Bytes, be16, be32}
use pppcpd.Encap.{Mac, generate_header, eth_pppoe_session}
use pppcpd.Session.{Session}
use pppcpd.Fsm.{conf_rej, session_hdr_size}

-- LCPPolicy; insertMagicNumber is read nowhere.
pub record LcpPolicy : Type 0 where
  pub mru : ℕ
  pub auth_chap : Bool
  pub auth_pap : Bool

-- A session with what its protocols use of the runtime. `random` is what random_uin32_t gives next,
-- `ppp_outcoming` the queue of frames, the newest last.
pub record Link : Type 0 where
  pub session : Session
  pub hwaddr : Mac
  pub lcp_conf : LcpPolicy
  pub random : ℕ
  pub ppp_outcoming : List Bytes

abbrev pub proto_lcp : ℕ
proto_lcp = 0xc021

abbrev pub proto_pap : ℕ
proto_pap = 0xc023

abbrev pub proto_chap : ℕ
proto_chap = 0xc223

-- PPPOESESSION_HDR with version and type 1 and code SESSION_DATA
abbrev pub session_header : ℕ → ℕ → ℕ → Bytes
session_header sid len proto = 0x11 ∷ 0 ∷ be16 sid ++ be16 len ++ be16 proto

-- PPP_LCP
abbrev pub lcp_header : ℕ → ℕ → ℕ → Bytes
lcp_header code id len = code ∷ id ∷ be16 len

abbrev pub lcp_size : ℕ
lcp_size = 4

abbrev pub options_at : ℕ
options_at = session_hdr_size + lcp_size

-- LCP_OPT_2B, LCP_OPT_3B and LCP_OPT_4B, as their `set` fills them in
abbrev pub opt_2b : ℕ → ℕ → Bytes
opt_2b o v = o ∷ 4 ∷ be16 v

abbrev pub opt_3b : ℕ → ℕ → ℕ → Bytes
opt_3b o v w = o ∷ 5 ∷ be16 v ++ (w ∷ [])

abbrev pub opt_4b : ℕ → ℕ → Bytes
opt_4b o v = o ∷ 6 ∷ be32 v

-- A frame goes out behind the headers of the session's encapsulation.
abbrev pub push : Bytes → Link → Link
push pkt l = record l {
  ppp_outcoming =
      l.ppp_outcoming ++ ((generate_header l.session.encap l.hwaddr eth_pppoe_session ++ pkt) ∷ []);
}

-- A request made from nothing: the vector is resized for an Ethernet header too, before that header
-- is inserted, so that 14 zero bytes trail.
abbrev pub lcp_packet : ℕ → ℕ → ℕ → ℕ → Bytes → Bytes
lcp_packet proto code sid id opts =
    session_header sid (lcp_size + length opts + 2) proto
    ++ lcp_header code id (lcp_size + length opts)
    ++ opts
    ++ replicate 14 0

-- What send_conf_rej of LCP and of IPCP makes of the options to reject.
abbrev pub rej_packet : ℕ → ℕ → ℕ → Bytes → Bytes
rej_packet proto sid id rejected =
    session_header sid (lcp_size + length rejected + 2) proto
    ++ lcp_header conf_rej id (lcp_size + length rejected)
    ++ rejected
