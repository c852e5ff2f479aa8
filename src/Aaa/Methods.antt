-- ===== src/Aaa/Methods.antt =====
-- The methods of AAA (src/aaa.cpp), and start, stop and the destructor of AAA_Session.
-- A callback is not run in place: the calls made are listed in their order, each with the session
-- id and the error text that it gets. What auth_callback changes is the PPPoE session alone.
use pppcpd.Common.{ℕ, zero, suc, ◌+◌, List, [], ◌∷◌, ◌++◌, Option, none, some}
use pppcpd.Common.{without, ◌==◌, if◌then◌else◌, get_elem?}
use pppcpd.Common.Outcome.{Outcome, ok, fault, ◌>>=◌}
use pppcpd.Common.Map.{Map, Str, ℕ_key, str_key, find, emplace, erase, update}
use pppcpd.Pool.{deallocate_ip}
use pppcpd.Encap.{Encap}
use pppcpd.Aaa.{
  Method, no_auth, local, radius, RadiusResponse, AaaSession, Status, start, stop, Counters,
  AcctRequest, Error, no_template, no_space, emplace_failed, no_accept, cannot_find, radius_error,
  Credentials, RadiusRequest, Aaa, uint32_max, is_empty, new_session, new_radius_session,
}

abbrev pub Call : Type 0
Call = ℕ × Option Error

abbrev pub access_accept : ℕ
access_accept = 2

-- The loop `for( i = 0; i < UINT32_MAX; i++ )` over the ids in use, by the rounds left.
unfoldable pub free_id : ℕ → ℕ → Map ℕ AaaSession → ℕ
free_id zero i m = i
free_id (suc rounds) i m =
    let rest = free_id rounds (i + 1) m in elim (find i m) [ none ↦ i | some s ↦ rest ]

-- ~AAA_Session, when nothing points to it any more
unfoldable pub destroy : AaaSession → Aaa → Aaa
destroy s a =
    if s.free_ip
    then record a { pools = update s.framed_pool (deallocate_ip s.address) a.pools }
    else a

abbrev pub request_of : AaaSession → Status → Option Counters → AcctRequest
request_of s st none = record {
  session_id = s.session_id;
  username = s.username;
  acct_status_type = st;
  in_pkts = 0;
  out_pkts = 0;
  in_bytes = 0;
  out_bytes = 0;
}
request_of s st (some c) = record {
  session_id = s.session_id;
  username = s.username;
  acct_status_type = st;
  in_pkts = c.rx_pkts;
  out_pkts = c.tx_pkts;
  in_bytes = c.rx_bytes;
  out_bytes = c.tx_bytes;
}

-- AAA_Session::start
unfoldable pub start_acct : AaaSession → Aaa → Aaa
start_acct s a =
    if s.acct then record a { requests = a.requests ++ (request_of s start none ∷ []) } else a

-- AAA_Session::stop; the counters are those of the interface in VPP, if it answers.
unfoldable pub stop_acct : Option Counters → AaaSession → Aaa → Aaa
stop_acct c s a =
    if s.acct then record a { requests = a.requests ++ (request_of s stop c ∷ []) } else a

unfoldable pub start_session_none : Str → Aaa → Outcome ((ℕ × Option Error) × Aaa)
unfolding free_id
start_session_none user a =
    let i = free_id uint32_max 0 a.sessions in
    if is_empty a.local_template
    then ok ((uint32_max, some no_template), a)
    else (if i == uint32_max then ok ((uint32_max, some no_space), a) else (do
      (s, a') ← new_session i user a.local_template a
      let (m, fresh) = emplace i s a'.sessions
      ok (
          if fresh
          then ((i, none), record a' { sessions = m })
          else ((uint32_max, some emplace_failed), destroy s a'))))

-- What a session is asked with: the vlan names the port, "ethernet" without one.
abbrev radius_request : Str → Credentials → Encap → RadiusRequest
radius_request user c e = record {
  username = user;
  credentials = c;
  calling_station_id = e.destination_mac;
  nas_port_id = if e.outer_vlan == 0 then none else some e.outer_vlan;
}

-- startSessionRadius and startSessionRadiusChap: the first server is asked, if there is one.
unfoldable pub start_session_radius : Str → Credentials → Encap → Aaa → Aaa
start_session_radius user c e a =
    if a.has_auth
    then record a { auth_requests = a.auth_requests ++ (radius_request user c e ∷ []) }
    else a

abbrev answer : ℕ × Option Error → List Call → List Call
answer (sid, none) calls = (sid, none) ∷ calls
answer (sid, some e) calls = calls

-- The loop over conf.method: NONE goes on with the next method whether it failed or not.
unfoldable pub try_methods :
    List Method → Str → Credentials → Encap → Aaa → Outcome (List Call × Aaa)
unfolding start_session_none start_session_radius
try_methods [] user c e a = ok ([], a)
try_methods (no_auth ∷ ms) user c e a = do
  (r, a') ← start_session_none user a
  (calls, b) ← try_methods ms user c e a'
  ok (answer r calls, b)
try_methods (local ∷ ms) user c e a = try_methods ms user c e a
try_methods (radius ∷ ms) user c e a = ok ([], start_session_radius user c e a)

-- startSession and startSessionCHAP
unfoldable pub start_session : Str → Credentials → Encap → Aaa → Outcome (List Call × Aaa)
unfolding try_methods
start_session user c e a = try_methods a.methods user c e a

-- processRadiusAnswer: `acct.begin()` of an empty map is no client.
unfoldable pub process_radius_answer : Str → ℕ → RadiusResponse → Aaa → Outcome (List Call × Aaa)
unfolding start_acct
process_radius_answer user code res a =
    let calls = if code == access_accept then [] else (0, some no_accept) ∷ [] in
    let i = free_id uint32_max 0 a.sessions in
    if i == uint32_max
    then ok (calls ++ ((0, some no_space) ∷ []), a)
    else (if a.has_acct
        then (do
          (s, a') ← new_radius_session i user a.local_template res a
          let (m, fresh) = emplace i s a'.sessions
          ok (
              if fresh
              then (calls ++ ((i, none) ∷ []), start_acct s (record a' { sessions = m }))
              else (calls ++ ((uint32_max, some emplace_failed) ∷ []), destroy s a')))
        else fault)

abbrev pub process_radius_error : List Call
process_radius_error = (0, some radius_error) ∷ []

unfoldable pub get_session : ℕ → Aaa → Option AaaSession × Option Error
get_session sid a = elim (find sid a.sessions) [
  | none ↦ (none, some cannot_find)
  | some s ↦ (some s, none)
]

-- An erased session lives on while the accounting client holds the callbacks of its last request.
unfoldable pub let_go : AaaSession → Aaa → Aaa
unfolding destroy
let_go s a = if s.acct then record a { lingering = s ∷ a.lingering } else destroy s a

-- What VPP answers about an interface; the session has none before map_iface.
abbrev pub CountersOf : Type 0
CountersOf = Option ℕ → Option Counters

unfoldable pub stop_session : CountersOf → ℕ → Aaa → Aaa
unfolding stop_acct let_go
stop_session counters sid a = elim (find sid a.sessions) [
  | none ↦ a
  | some s ↦
      let_go s (record (stop_acct (counters s.ifindex) s a) { sessions = erase sid a.sessions })
]

unfoldable pub map_iface_to_session : ℕ → ℕ → Aaa → Aaa
map_iface_to_session sid ifi a = record a {
  sessions = update sid (λ s. record s { ifindex = some ifi }) a.sessions;
}

abbrev each : (AaaSession → Aaa → Aaa) → Map ℕ AaaSession → Aaa → Aaa
each f [] a = a
each f ((k, s) ∷ m) a = each f m (f s a)

-- stopAllSessions: every session is stopped, and only then the map is cleared.
unfoldable pub stop_all_sessions : CountersOf → Aaa → Aaa
unfolding stop_acct let_go
stop_all_sessions counters a =
    each let_go a.sessions
      (record (each (λ s. stop_acct (counters s.ifindex) s) a.sessions a) { sessions = [] })

-- The client drops the callbacks of one of the sessions that linger: its destructor runs.
unfoldable pub release : ℕ → Aaa → Aaa
unfolding destroy without
release i a = elim (get_elem? a.lingering i) [
  | none ↦ a
  | some s ↦ destroy s (record a { lingering = without i a.lingering })
]
