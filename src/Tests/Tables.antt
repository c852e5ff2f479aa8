-- ===== src/Tests/Tables.antt =====
-- Session tables.
use pppcpd.Common.{ℕ, ◌≡◌, refl, [], arith, Option, none, false, contains}
use pppcpd.Common.Outcome.{ok}
use pppcpd.Common.Map.{find}
use pppcpd.Encap.{Encap, zero_mac}
use pppcpd.Session.{Junk}
use pppcpd.Keys.{ConnKey, conn_key}
use pppcpd.Aaa.{Aaa}
use pppcpd.Aaa.Methods.{CountersOf}
use pppcpd.Runtime.{Runtime, Error, allocate_session, deallocate_session}
use pppcpd.Runtime.Valid.{IsValid, IsAllocated, allocate_session-IsValid}
use pppcpd.Runtime.Release.{Released, deallocate_session-Released}
use pppcpd.Runtime.Pending.{Pended, pending, pend-check}

abbrev idle_aaa : Aaa
idle_aaa = record {
  methods = [];
  pools = [];
  templates = [];
  local_template = [];
  has_auth = false;
  has_acct = false;
  sessions = [];
  lingering = [];
  requests = [];
  auth_requests = [];
}

abbrev pub idle : Runtime
idle = record {
  hwaddr = zero_mac;
  active_sessions = [];
  session_set = [];
  pending_session = [];
  next_session_id = 65535;
  aaa = idle_aaa;
  pppoe_outcoming = [];
  ppp_outcoming = [];
  dropped = [];
}

pub idle-IsValid : IsValid idle
unfolding find contains
idle-IsValid = record {
  distinct = tt;
  next_pos = omega arith;
  next_lt = omega arith;
  in_range = λ c h. cc;
  one_each = λ c. refl;
  keyed = λ k s h. cc;
}

abbrev pub junk : Junk
junk = record {
  address = 0;
  our_mru = 0;
  peer_mru = 0;
  our_magic_number = 0;
  peer_magic_number = 0;
}

abbrev pub plain : Encap
plain = record {
  source_mac = zero_mac;
  destination_mac = zero_mac;
  outer_vlan = 0;
  inner_vlan = 0;
  ethertype = 0x8863;
}

allocate_session-IsValid_example :
    (r : (ℕ × Option Error) × Runtime) × (allocate_session junk plain idle ≡ ok r)
    × IsAllocated junk plain idle r
    × IsValid r.1
allocate_session-IsValid_example = allocate_session-IsValid junk plain idle idle-IsValid

abbrev no_counters : CountersOf
no_counters i = none

deallocate_session-Released_example :
    Released no_counters 5 idle (deallocate_session no_counters 5 idle)
    × IsValid (deallocate_session no_counters 5 idle).1
deallocate_session-Released_example = deallocate_session-Released no_counters 5 idle idle-IsValid

abbrev conn : ConnKey
conn = record { mac = zero_mac; outer_vlan = 0; inner_vlan = 0; cookie = [] }

pend-check_example : Pended conn idle (pending conn idle)
pend-check_example = pend-check conn idle

nothing_pending : pending conn idle ≡ none
unfolding find
nothing_pending = refl
