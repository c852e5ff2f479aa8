-- ===== src/Dataplane/SetUp.antt =====
-- src/runtime.cpp: what the constructor of PPPOERuntime asks of VPP, in its order. What fails is logged
-- and passed over.
pub mod Keeps
pub mod Tables
pub mod Named
pub mod Provisioned
use pppcpd.Common.{
  ℕ, List, [], ◌∷◌, Option, none, some, Bool, true, false, for_each, ◌==◌, if◌then◌else◌,
}
use pppcpd.Common.Map.{Str}
use pppcpd.Common.Outcome.{Outcome, ok, ◌>>=◌}
use pppcpd.Dataplane.{
  Vapi, VppApi, VppInterface, VppVrf, IfaceType, subif, loopback, hw_iface, tap, VrfConf, RibEntry,
  InterfaceConf,
}
use pppcpd.Dataplane.Messages.{
  delete_tap, get_tap_interfaces, create_tap, set_state, add_pppoe_cp, add_route, dump_ip, set_ip,
  del_subif, get_ifaces,
}
use pppcpd.Dataplane.Vrfs.{set_vrf, dump_vrfs}
use pppcpd.Dataplane.Interfaces.{setup_interfaces}
use pppcpd.Dataplane.Provision.{withdraw_all}

-- The parts of PPPOEGlobalConf that VPP is set up with.
pub record SetUpConf : Type 0 where
  pub tap_name : Str
  pub interfaces : List InterfaceConf
  pub vrfs : List VrfConf
  pub global_rib : List RibEntry

unfoldable pub is_subif : IfaceType → Bool
is_subif subif = true
is_subif loopback = false
is_subif hw_iface = false
is_subif tap = false

module _ {V : Type 0} ⦃vapi : Vapi V⦄ where
  unfoldable pub delete_taps : VppApi V → VppApi V
  delete_taps api = for_each (λ i a. (delete_tap i a).1) (get_tap_interfaces api) api

  unfoldable pub start_tap : Option ℕ × VppApi V → VppApi V
  start_tap (none, api) = api
  start_tap (some ifi, api) = (add_pppoe_cp ifi (set_state ifi true api).1).1

  -- The default table is kept.
  unfoldable pub clear_vrfs : List VppVrf → VppApi V → Outcome (VppApi V)
  clear_vrfs [] api = ok api
  clear_vrfs (v ∷ vs) api =
      if v.table_id == 0
      then clear_vrfs vs api
      else (do r ← set_vrf v.name v.table_id false api; clear_vrfs vs r.1)

  unfoldable pub add_routes : ℕ → List RibEntry → VppApi V → VppApi V
  add_routes table rib = for_each (λ e a. (add_route e.destination e.nexthop table a).1) rib

  unfoldable pub fill_vrf : VrfConf → Bool × VppApi V → VppApi V
  unfolding add_routes
  fill_vrf c (created, api) = if created then add_routes c.table_id c.rib api else api

  unfoldable pub create_vrfs : List VrfConf → VppApi V → Outcome (VppApi V)
  unfolding fill_vrf
  create_vrfs [] api = ok api
  create_vrfs (c ∷ cs) api = do
    r ← set_vrf c.name c.table_id true api
    create_vrfs cs (fill_vrf c r)

  unfoldable pub clear_ips : ℕ → VppApi V → VppApi V
  clear_ips ifi api =
      for_each (λ e a. (set_ip e.sw_if_index e.address false a).1) (dump_ip ifi api) api

  unfoldable pub clear_iface : VppInterface → VppApi V → VppApi V
  unfolding clear_ips withdraw_all is_subif
  clear_iface i api =
      let api' = withdraw_all i.sw_if_index (clear_ips i.sw_if_index api) in
      if is_subif i.type then (del_subif i.sw_if_index api').1 else api'

  unfoldable pub clear_ifaces : VppApi V → VppApi V
  unfolding clear_iface
  clear_ifaces api = for_each clear_iface (get_ifaces api) api

  -- The routes of the default table, with the index of their counters where VPP took them.
  unfoldable pub global_routes : List RibEntry → VppApi V → List RibEntry × VppApi V
  global_routes [] api = ([], api)
  global_routes (e ∷ es) api =
      let ((success, rid), api₁) = add_route e.destination e.nexthop 0 api in
      let (rest, api₂) = global_routes es api₁ in
      ((if success then record e { rid_in_vpp = rid } else e) ∷ rest, api₂)

  -- From setup_interfaces on.
  unfoldable pub finish_set_up : SetUpConf → VppApi V → List RibEntry × VppApi V
  unfolding clear_ifaces global_routes
  finish_set_up conf api =
      global_routes conf.global_rib (setup_interfaces conf.interfaces (clear_ifaces api))

  unfoldable pub set_up : SetUpConf → VppApi V → Outcome (List RibEntry × VppApi V)
  unfolding delete_taps start_tap clear_vrfs create_vrfs finish_set_up
  set_up conf api = do
    let api₁ = start_tap (create_tap conf.tap_name (delete_taps api))
    api₂ ← clear_vrfs (dump_vrfs api₁) api₁
    api₃ ← create_vrfs conf.vrfs api₂
    ok (finish_set_up conf api₃)
