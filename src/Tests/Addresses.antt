-- ===== src/Tests/Addresses.antt =====
-- Pools of addresses, and AAA sessions.
use pppcpd.Common.{ℕ, ◌^◌, ◌-◌, ◌≤◌, ◌≡◌, refl, [], ◌∷◌, arith, none, some, true, false}
use pppcpd.Common.{contains, if◌then◌else◌, ◌==◌}
use pppcpd.Common.Outcome.{ok}
use pppcpd.Common.Map.{Str, str_key, ℕ_key, find, update, emplace, insert, str_eq, str_eq_iff}
use pppcpd.Common.Counting.{weight}
use pppcpd.Pool.{Pool, allocate_ip, deallocate_ip, find_ip}
use pppcpd.Pool.Laws.{Allocated, allocate_ip-Allocated, deallocate_ip-contains}
use pppcpd.Aaa.{Aaa, AaaSession, new_session, draw_address, Template, no_auth, RadiusResponse}
use pppcpd.Aaa.Methods.{
  free_id, start_session_none, process_radius_answer, stop_session, CountersOf,
}
use pppcpd.Aaa.Held.{holders}
use pppcpd.Aaa.Exclusive.{IsExclusive}
use pppcpd.Aaa.Steps.{Answered, process_radius_answer-Answered}
use pppcpd.Aaa.Stop.{IsStopped, stop_session-IsStopped}
use pppcpd.Aaa.Reach.{IsFresh, IsFresh-IsExclusive, here, holders-Reach, next, started}

abbrev small : Pool
small = record { start_ip = 10; stop_ip = 12; ips = 10 ∷ [] }

second_address :
    allocate_ip small ≡ ok (11, record { start_ip = 10; stop_ip = 12; ips = 11 ∷ 10 ∷ [] })
unfolding allocate_ip find_ip contains
second_address = refl

allocate_ip-Allocated_example : (r : ℕ × Pool) × (allocate_ip small ≡ ok r) × Allocated small r
allocate_ip-Allocated_example = allocate_ip-Allocated small (omega arith) (omega arith)

ten_is_free :
    contains (deallocate_ip 10 small).ips 10 ≡ (if 10 == 10 then false else contains small.ips 10)
ten_is_free = deallocate_ip-contains 10 10 small

abbrev top : ℕ
top = 2 ^ 32 - 1

abbrev topmost : Pool
topmost = record { start_ip = top; stop_ip = top; ips = top ∷ [] }

topmost_used : (j : ℕ) → top ≤ j → j ≤ top → contains topmost.ips j ≡ true
unfolding contains
topmost_used j a b = ground arith

zero_unused : contains topmost.ips 0 ≡ false
unfolding contains
zero_unused = refl

abbrev gold : Str
gold = b'g' ∷ []

abbrev template : Template
template = record { framed_pool = gold; dns1 = 1; dns2 = 2; vrf = []; unnumbered = b'l' ∷ [] }

abbrev pub empty_aaa : Aaa
empty_aaa = record {
  methods = no_auth ∷ [];
  pools = (gold, record { start_ip = 10; stop_ip = 12; ips = [] }) ∷ [];
  templates = (gold, template) ∷ [];
  local_template = gold;
  has_auth = true;
  has_acct = true;
  sessions = [];
  lingering = [];
  requests = [];
  auth_requests = [];
}

empty_aaa-IsFresh : IsFresh empty_aaa
unfolding find
empty_aaa-IsFresh = record {
  no_sessions = refl;
  no_lingering = refl;
  unused = λ n p e. ground (arith, str_eq_iff gold n);
  bounded = λ n p e. ground (arith, str_eq_iff gold n);
}

abbrev pub user : Str
user = b'u' ∷ []

pub empty_aaa-IsExclusive : IsExclusive empty_aaa
empty_aaa-IsExclusive = IsFresh-IsExclusive empty_aaa empty_aaa-IsFresh

abbrev pub no_response : RadiusResponse
no_response = record { framed_ip = 0; dns1 = 0; dns2 = 0; framed_pool = []; pppoe_template = [] }

-- An Access-Reject (3).
process_radius_answer-Answered_example :
    Answered user 3 empty_aaa (process_radius_answer user 3 no_response empty_aaa)
process_radius_answer-Answered_example =
    process_radius_answer-Answered user 3 no_response empty_aaa empty_aaa-IsExclusive refl

abbrev no_counters : CountersOf
no_counters i = none

stop_session-IsStopped_example : IsStopped 0 empty_aaa (stop_session no_counters 0 empty_aaa)
stop_session-IsStopped_example =
    stop_session-IsStopped no_counters 0 empty_aaa empty_aaa-IsExclusive

-- The state after the first start: the session 0 has drawn the address 10.
abbrev first_session : AaaSession
first_session = record {
  session_id = 0;
  username = user;
  address = 10;
  dns1 = 1;
  dns2 = 2;
  framed_pool = gold;
  vrf = [];
  unnumbered = [];
  ifindex = none;
  acct = false;
  free_ip = true;
  to_stop_acct = false;
}

abbrev one_session : Aaa
one_session = record empty_aaa {
  sessions = (0, first_session) ∷ [];
  pools = (gold, record { start_ip = 10; stop_ip = 12; ips = 10 ∷ [] }) ∷ [];
}

first_start : start_session_none user empty_aaa ≡ ok ((0, none), one_session)
unfolding start_session_none free_id find new_session draw_address str_eq allocate_ip find_ip
    contains update emplace insert
first_start = refl

first_found :
    find gold one_session.pools ≡ some (record { start_ip = 10; stop_ip = 12; ips = 10 ∷ [] })
unfolding find str_eq
first_found = refl

-- A session that draws an address.
holders-Reach_example : holders gold 10 one_session ≡ weight (contains (10 ∷ []) 10)
holders-Reach_example =
    holders-Reach empty_aaa one_session gold (record { start_ip = 10; stop_ip = 12; ips = 10 ∷ [] })
      10 empty_aaa-IsFresh (next here (started user first_start)) first_found (omega arith)
