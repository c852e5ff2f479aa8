-- ===== src/Tests/Frames.antt =====
-- Frames, timers and answers on the tables.
use pppcpd.Common.{
  ◌+◌, ◌*◌, ◌≡◌, refl, List, [], ◌∷◌, ◌++◌, arith, none, some, inl, inr, true, false, contains,
  replicate, Bool-cases,
}
use pppcpd.Common.Bytes.{Bytes, bswap16}
use pppcpd.Common.Outcome.{ok, Holds}
use pppcpd.Common.Map.{find}
use pppcpd.Session.{Session, new_session}
use pppcpd.Keys.{SessionKey, session_key, session_key_eq, session_key_eq_iff, key_of}
use pppcpd.Link.{session_header, lcp_header, proto_lcp}
use pppcpd.Discovery.{Policies}
use pppcpd.Runtime.{Runtime}
use pppcpd.Common.Counting.{weight, count_list}
use pppcpd.Cli.{get_pppoe_sessions, run_cmd}
use pppcpd.Cli.Dump.{listed, dump_has_id, run_cmd-listed}
use pppcpd.Runtime.Valid.{IsValid}
use pppcpd.Runtime.Release.{IsReleased}
use pppcpd.Ppp.{Env, Report, process_ppp}
use pppcpd.Ppp.Ends.{process_ppp-Ends}
use pppcpd.Ppp.Isolation.{Isolated, IsIsolated, process_ppp-Isolated}
use pppcpd.Ppp.Timer.{echo_orphan, echo_orphan-Released, echo_ticks, echo_ticks-gone}
use pppcpd.EventLoop.{Event, frame, sending, echo, run}
use pppcpd.EventLoop.Runs.{run-IsValid}
use pppcpd.Tests.Tables.{idle, junk, plain}

abbrev policies : Policies
policies = record {
  confs = [];
  default_conf = record {
    ac_name = b'a' ∷ [];
    service_name = [];
    insert_cookie = false;
    ignore_service_name = true;
  };
}

-- A VPP that refuses nothing.
abbrev env : Env
env = record {
  lcp_conf = record { mru = 1492; auth_chap = false; auth_pap = true };
  policies = policies;
  counters = λ i. none;
  vpp = record {
    add_pppoe_session = λ s. some 4;
    set_interface_table = λ i t. true;
    get_iface_by_name = λ n. some 1;
    set_unnumbered = λ i j. true;
  };
  digest = replicate 16 9;
  random = 77;
}

abbrev peer : Session
peer = new_session junk plain 1

abbrev peer_key : SessionKey
peer_key = key_of plain 1

-- One session, with the id 1.
abbrev busy : Runtime
busy = record idle { active_sessions = (peer_key, peer) ∷ []; session_set = 1 ∷ [] }

only :
    (k : SessionKey) (s : Session)
    → find k busy.active_sessions ≡ some s
    → (peer_key ≡ k) × (peer ≡ s)
unfolding find
only k s h = elim (Bool-cases (session_key_eq peer_key k)) [
  | inl same ↦ ((session_key_eq_iff peer_key k).0 same, ground (arith, h, same))
  | inr other ↦ absurd (ground (arith, h, other))
]

busy-IsValid : IsValid busy
unfolding find contains new_session
busy-IsValid = record {
  distinct = (refl, tt);
  next_pos = omega arith;
  next_lt = omega arith;
  in_range = λ c h. ground arith;
  one_each = λ c. ground arith;
  keyed = λ k s h. let (a, b) = only k s h in rw (← b, ← a) refl;
}

-- An Echo-Request of that session.
abbrev echo_request : Bytes
echo_request = session_header 1 10 proto_lcp ++ lcp_header 9 3 8 ++ (0 ∷ 0 ∷ 0 ∷ 5 ∷ [])

process_ppp-Isolated_example :
    Holds
      (Isolated (key_of plain (bswap16 (0 + 1 * 256))) busy)
      (process_ppp env echo_request plain busy)
process_ppp-Isolated_example =
    process_ppp-Isolated env echo_request plain busy (0 + 1 * 256) busy-IsValid refl

process_ppp-Ends_example :
    (r : Report × Runtime) × (process_ppp env echo_request plain busy ≡ ok r)
    × Isolated (key_of plain (bswap16 (0 + 1 * 256))) busy r
unfolding bswap16
process_ppp-Ends_example =
    process_ppp-Ends env echo_request plain busy (0 + 1 * 256) (0xc0 + 0x21 * 256) 9 busy-IsValid
      (omega arith) refl refl refl refl (λ e. cc)

-- An object that the tables do not hold any more, whose id the session above got.
abbrev stale : Session
stale = record peer {
  encap = record plain { outer_vlan = 7 };
  lcp = record peer.lcp { echo_counter = 9 };
}

there : find peer_key busy.active_sessions ≡ some peer
unfolding find session_key_eq
there = refl

stale_off : find (key_of stale.encap 1) busy.active_sessions ≡ none
unfolding find session_key_eq new_session
stale_off = refl

echo_orphan-Released_example :
    (session_key_eq (key_of stale.encap 1) peer_key ≡ false)
    × ((rt' : Runtime) × (echo_orphan env stale busy ≡ ok (none, rt'))
        × (find peer_key rt'.active_sessions ≡ none)
        × IsReleased env.counters 1 busy rt' peer)
unfolding new_session
echo_orphan-Released_example =
    echo_orphan-Released env stale busy peer_key peer busy-IsValid refl stale_off there refl

echo_ticks-gone_example :
    (rt' : Runtime) × (echo_ticks env peer_key 10 busy ≡ ok rt')
    × IsIsolated peer_key busy rt'
    × (find peer_key rt'.active_sessions ≡ none)
unfolding new_session
echo_ticks-gone_example = echo_ticks-gone env peer_key 9 busy peer busy-IsValid there (omega arith)

abbrev padt_of_1 : Bytes
padt_of_1 = 0x11 ∷ 0xa7 ∷ 0 ∷ 1 ∷ 0 ∷ 0 ∷ []

abbrev events : List Event
events =
    frame env (record { junk = junk; ethertype = 0; cookie = [] })
      (replicate 12 0 ++ (0x88 ∷ 0x64 ∷ echo_request)) 0 0
    ∷ echo env peer_key
    ∷ sending
    ∷ []

run-IsValid_example : Holds IsValid (run events busy)
run-IsValid_example = run-IsValid events busy busy-IsValid

run_cmd-listed_example :
    count_list (dump_has_id 1) (listed (run_cmd get_pppoe_sessions [] busy).content)
    ≡ weight (contains busy.session_set 1)
run_cmd-listed_example = run_cmd-listed [] busy 1 busy-IsValid
