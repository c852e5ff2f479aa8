-- ===== src/Session.antt =====
-- src/session.hpp: PPPOESession with the four protocol objects in it; their state from
-- src/ppp_lcp.hpp, src/ppp_auth.hpp and src/ppp_chap.hpp.
use pppcpd.Common.{ℕ, ◌-◌, ◌^◌, [], Bool, false}
use pppcpd.Common.Bytes.{Bytes}
use pppcpd.Common.Map.{Str}
use pppcpd.Encap.{Encap}
use pppcpd.Fsm.{Fsm, new_fsm}

-- LCP_FSM
pub record Lcp : Type 0 where
  pub fsm : Fsm
  pub echo_counter : ℕ

-- PPP_AUTH
pub record Auth : Type 0 where
  pub pkt_id : ℕ
  pub started : Bool

-- PPP_CHAP
pub record Chap : Type 0 where
  pub pkt_id : ℕ
  pub started : Bool
  pub challenge : Bytes

pub record Session : Type 0 where
  pub encap : Encap
  pub started : Bool
  pub aaa_session_id : ℕ
  pub session_id : ℕ
  pub cookie : Str
  pub username : Str
  pub address : ℕ
  pub ifindex : ℕ
  pub vrf : Str
  pub unnumbered : Str
  pub lcp : Lcp
  pub auth : Auth
  pub chap : Chap
  pub ipcp : Fsm
  pub our_mru : ℕ
  pub peer_mru : ℕ
  pub our_magic_number : ℕ
  pub peer_magic_number : ℕ

-- What the members without an initialiser hold in a new object.
pub record Junk : Type 0 where
  pub address : ℕ
  pub our_mru : ℕ
  pub peer_mru : ℕ
  pub our_magic_number : ℕ
  pub peer_magic_number : ℕ

-- The constructor. UINT32_MAX stands for no AAA session and no interface.
unfoldable pub new_session : Junk → Encap → ℕ → Session
unfolding new_fsm
new_session junk e sid = record {
  encap = e;
  started = false;
  aaa_session_id = 2 ^ 32 - 1;
  session_id = sid;
  cookie = [];
  username = [];
  address = junk.address;
  ifindex = 2 ^ 32 - 1;
  vrf = [];
  unnumbered = [];
  lcp = record { fsm = new_fsm sid; echo_counter = 0 };
  auth = record { pkt_id = 1; started = false };
  chap = record { pkt_id = 1; started = false; challenge = [] };
  ipcp = new_fsm sid;
  our_mru = junk.our_mru;
  peer_mru = junk.peer_mru;
  our_magic_number = junk.our_magic_number;
  peer_magic_number = junk.peer_magic_number;
}
