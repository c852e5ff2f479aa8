-- ===== src/Aaa.antt =====
-- src/aaa.hpp, src/aaa.cpp and the life of an AAA_Session of src/aaa_session.cpp.
-- The RADIUS client, its sockets and timers stand outside: what is handed to it is a list of requests.
pub mod Methods
pub mod Held
pub mod Exclusive
pub mod Steps
pub mod Stop
pub mod Reach
pub mod Interim
use pppcpd.Common.{ℕ, zero, suc, ◌+◌, ◌^◌, ◌-◌, List, [], ◌∷◌, ◌++◌, Option, none, some}
use pppcpd.Common.{Bool, true, false, ◌&&◌, not, ◌==◌, if◌then◌else◌}
use pppcpd.Common.Outcome.{Outcome, ok, fault, ◌>>=◌}
use pppcpd.Common.Map.{Map, Str, str_key, ℕ_key, find, update}
use pppcpd.Encap.{Mac}
use pppcpd.Pool.{Pool, allocate_ip, deallocate_ip}

-- PPPOELocalTemplate
pub record Template : Type 0 where
  pub framed_pool : Str
  pub dns1 : ℕ
  pub dns2 : ℕ
  pub vrf : Str
  pub unnumbered : Str

-- AAA_METHODS; the enumerator NONE is `no_auth`.
pub data Method : Type 0 where
  no_auth local radius : Method

-- RadiusResponse, as `deserialize` of src/request_response.cpp fills it in.
pub record RadiusResponse : Type 0 where
  pub framed_ip : ℕ
  pub dns1 : ℕ
  pub dns2 : ℕ
  pub framed_pool : Str
  pub pppoe_template : Str

-- AAA_Session. `acct` says whether it has a client for accounting.
pub record AaaSession : Type 0 where
  pub session_id : ℕ
  pub username : Str
  pub address : ℕ
  pub dns1 : ℕ
  pub dns2 : ℕ
  pub framed_pool : Str
  pub vrf : Str
  pub unnumbered : Str
  pub acct : Bool
  pub free_ip : Bool
  pub to_stop_acct : Bool
  pub ifindex : Option ℕ

-- An accounting request; its session id is "session_" and the number in decimal.
pub data Status : Type 0 where
  start alive stop : Status

pub record Counters : Type 0 where
  pub rx_pkts : ℕ
  pub tx_pkts : ℕ
  pub rx_bytes : ℕ
  pub tx_bytes : ℕ

pub record AcctRequest : Type 0 where
  pub session_id : ℕ
  pub username : Str
  pub acct_status_type : Status
  pub in_pkts : ℕ
  pub out_pkts : ℕ
  pub in_bytes : ℕ
  pub out_bytes : ℕ

-- The texts that a callback or a caller gets; `none` in their place is the empty text.
pub data Error : Type 0 where
  no_template no_space emplace_failed no_accept cannot_find radius_error : Error

-- RadiusRequest and RadiusRequestChap; the fields that are constants in the code are left out.
pub data Credentials : Type 0 where
  pap : Str → Credentials
  chap : Str → Str → Credentials

pub record RadiusRequest : Type 0 where
  pub username : Str
  pub credentials : Credentials
  pub calling_station_id : Mac
  pub nas_port_id : Option ℕ

-- AAA with the part of the configuration that it reads and changes. `lingering` holds the sessions
-- that are erased but kept alive by a callback of the RADIUS client; `requests` is what was handed
-- to the accounting client, the newest last, and `auth_requests` what was handed to the first authentication server.
pub record Aaa : Type 0 where
  pub methods : List Method
  pub pools : Map Str Pool
  pub templates : Map Str Template
  pub local_template : Str
  pub has_auth : Bool
  pub has_acct : Bool
  pub sessions : Map ℕ AaaSession
  pub lingering : List AaaSession
  pub requests : List AcctRequest
  pub auth_requests : List RadiusRequest

abbrev pub uint32_max : ℕ
uint32_max = 2 ^ 32 - 1

abbrev pub is_empty : Str → Bool
is_empty [] = true
is_empty (c ∷ s) = false

-- What both constructors do first: the fields that are set before the body.
abbrev pub bare_session : ℕ → Str → ℕ → Bool → AaaSession
bare_session sid user addr acct = record {
  session_id = sid;
  username = user;
  address = addr;
  dns1 = 0;
  dns2 = 0;
  framed_pool = [];
  vrf = [];
  unnumbered = [];
  acct = acct;
  free_ip = false;
  to_stop_acct = false;
  ifindex = none;
}

-- The template of a session without RADIUS: `unnumbered` is not taken over.
abbrev pub with_template : Option Template → AaaSession → AaaSession
with_template none s = s
with_template (some t) s = record s {
  dns1 = t.dns1;
  dns2 = t.dns2;
  framed_pool = t.framed_pool;
  vrf = t.vrf;
}

abbrev pub with_radius_template : Option Template → AaaSession → AaaSession
with_radius_template none s = s
with_radius_template (some t) s = record s {
  dns1 = t.dns1;
  dns2 = t.dns2;
  framed_pool = t.framed_pool;
  vrf = t.vrf;
  unnumbered = t.unnumbered;
}

-- The address that a pool of that name gives, if there is one.
unfoldable pub draw_address : Aaa → AaaSession → Outcome (AaaSession × Aaa)
draw_address a s = elim (find s.framed_pool a.pools) [
  | none ↦ ok (s, a)
  | some p ↦ (do
    (i, p') ← allocate_ip p
    ok (
      record s { address = i; free_ip = true },
      record a { pools = update s.framed_pool (λ _. p') a.pools },
    ))
]

-- The constructor without a RADIUS response.
unfoldable pub new_session : ℕ → Str → Str → Aaa → Outcome (AaaSession × Aaa)
unfolding draw_address
new_session sid user template a =
    draw_address a (with_template (find template a.templates) (bare_session sid user 0 false))

abbrev pub or_default : Str → Str → Str
or_default s d = if is_empty s then d else s

abbrev pub or_zero : ℕ → ℕ → ℕ
or_zero v d = if v == 0 then d else v

-- The constructor with a RADIUS response.
unfoldable pub new_radius_session :
    ℕ → Str → Str → RadiusResponse → Aaa → Outcome (AaaSession × Aaa)
unfolding draw_address
new_radius_session sid user template resp a =
    let t = find (or_default resp.pppoe_template template) a.templates in
    let s = with_radius_template t (bare_session sid user resp.framed_ip true) in
    let s' : AaaSession = record s {
      framed_pool = or_default resp.framed_pool s.framed_pool;
      dns1 = or_zero resp.dns1 s.dns1;
      dns2 = or_zero resp.dns2 s.dns2;
    } in
    if s'.address == 0 && not (is_empty s'.framed_pool) then draw_address a s' else ok (s', a)
