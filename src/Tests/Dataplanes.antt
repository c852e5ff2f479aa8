-- ===== src/Tests/Dataplanes.antt =====
-- A small VPP, and the dataplane theorems on it.
use pppcpd.Common.{
  ℕ, ◌+◌, ◌≡◌, ◌≢◌, refl, List, [], ◌∷◌, ◌++◌, some, true, false, replicate, ◌==◌, ==_iff,
  if◌then◌else◌, arith, All, inl, inr, Bool-cases,
}
use pppcpd.Common.Outcome.{ok}
use pppcpd.Aaa.{uint32_max}
use pppcpd.Encap.{zero_mac}
use pppcpd.Session.{Session, new_session}
use pppcpd.Dataplane.{
  Vapi, VppApi, UnnumberedDetails, IfaceCounters, InterfaceUnit, InterfaceConf, RibEntry, loopback,
}
use pppcpd.Dataplane.Provision.{provision_dp, deprovision_dp}
use pppcpd.Dataplane.Provision.Sent.{IsSent, entry}
use pppcpd.Dataplane.Provision.Withdrawn.{
  withdrawal, IsAbout, deprovision_dp-unset, deprovision_dp-IsAbout,
}
use pppcpd.Dataplane.SetUp.{SetUpConf, set_up}
use pppcpd.Dataplane.SetUp.Provisioned.{set_up-provisioned}
use pppcpd.Dataplane.Stats.{
  Stat, counter_vector_combined, rx_name, collect_counters, get_counters_by_index,
}
use pppcpd.Dataplane.Stats.Threads.{collect_counters-last}
use pppcpd.Tests.Tables.{junk, plain}

abbrev peer : Session
peer = new_session junk plain 1

abbrev unnumbered_one : ℕ → UnnumberedDetails
unnumbered_one i = record { sw_if_index = i; ip_sw_if_index = 1 }

abbrev subscribers : List UnnumberedDetails
subscribers = unnumbered_one 7 ∷ unnumbered_one 8 ∷ []

-- Its state is the next index; it takes every message, and has one device, one TAP interface, one table
-- besides the default one, and two unnumbered interfaces.
instance abbrev small : Vapi ℕ
small = record {
  respond =
      λ r n. (record { executed = true; retval = 0; sw_if_index = n; stats_index = n }, n + 1);
  tap_available = true;
  taps = λ n. (true, 9 ∷ []);
  interfaces = λ n.
      record {
        interface_name = b'e' ∷ 0 ∷ [];
        interface_dev_type = b'd' ∷ 0 ∷ [];
        l2_address = zero_mac;
        sw_if_index = 1;
        link_speed = 0;
        mtu = 1500;
        is_sub = false;
        unset = loopback;
      }
      ∷ [];
  addresses = λ i n. (true, []);
  unnumbered = λ i n. (true, if i == uint32_max then subscribers else unnumbered_one i ∷ []);
  pppoe_sessions = λ n. [];
  tables = λ n. (true, record { table_id = 5; name = b'a' ∷ replicate 63 0 } ∷ []);
}

abbrev connected : VppApi ℕ
connected = record { vpp = 20; log = []; counters = []; vrfs = [] }

abbrev unit_10 : InterfaceUnit
unit_10 = record {
  address = some (record { address = 1; prefix_length = 24 });
  vlan = 10;
  admin_state = true;
  vrf = b'a' ∷ [];
  unnumbered = [];
}

abbrev ethernet : InterfaceConf
ethernet = record {
  device = b'e' ∷ [];
  admin_state = true;
  mtu = some 1500;
  units = (10, unit_10) ∷ [];
}

abbrev conf : SetUpConf
conf = record {
  tap_name = b't' ∷ [];
  interfaces = ethernet ∷ [];
  vrfs =
      record { name = b'a' ∷ []; table_id = 6; rib = [] }
      ∷ record { name = b'b' ∷ []; table_id = 7; rib = [] }
      ∷ [];
  global_rib = [];
}

differ : (a b : ℕ) → a ≢ b → (a ∷ []) ≢ (b ∷ [])
differ a b h e = h (cc)

set_up-provisioned_example :
    (r : List RibEntry × VppApi ℕ) × (set_up conf connected ≡ ok r)
    × All
        (λ c.
          let s' : Session = record peer { vrf = c.name } in
          IsSent (entry s' c.table_id) (provision_dp s' r.1).1.log)
        conf.vrfs
set_up-provisioned_example =
    set_up-provisioned conf connected peer refl (λ v. (refl, tt)) (λ id field v. (refl, refl))
      ((omega arith, refl), ((omega arith, refl), tt))
      ((differ b'a' b'b' (λ e. omega (arith, e)), tt), (tt, tt))

deprovision_dp-unset_example :
    All (λ d. IsSent (withdrawal d) (deprovision_dp peer connected).1.log) subscribers
unfolding new_session
deprovision_dp-unset_example = deprovision_dp-unset peer connected subscribers refl refl

abbrev provisioned : Session
provisioned = record peer { ifindex = 7 }

one_interface : (i v : ℕ) → i ≢ uint32_max → All (λ d. d.sw_if_index ≡ i) (small.unnumbered i v).1
one_interface i v h = elim (Bool-cases (i == uint32_max)) [
  | inl greatest ↦ absurd (h (omega (arith, (==_iff i uint32_max).0 greatest)))
  | inr other ↦ rw other (refl, tt)
]

deprovision_dp-IsAbout_example :
    All (IsAbout provisioned) (deprovision_dp provisioned connected).1.log
deprovision_dp-IsAbout_example =
    deprovision_dp-IsAbout provisioned connected (λ e. omega (arith, e)) one_interface refl

-- Two threads have counted 5 and 2 packets.
collect_counters-last_example :
    let received : Stat = record {
      name = rx_name;
      value = counter_vector_combined ((((5, 500) ∷ []) ∷ []) ++ (((2, 200) ∷ []) ∷ []));
    } in
    (c : IfaceCounters) × (get_counters_by_index 0 (collect_counters ([] ++ (received ∷ [])) [])
      ≡ some c)
    × ((c.rx_pkts ≡ 2) × (c.rx_bytes ≡ 200))
collect_counters-last_example =
    collect_counters-last [] [] (((5, 500) ∷ []) ∷ []) ((2, 200) ∷ []) 0 2 200 [] tt refl
