-- ===== src/Dataplane/SetUp/Keeps.antt =====
-- src/vpp.cpp and src/runtime.cpp: only set_vrf changes the names of the VRFs.
use pppcpd.Common.{
  ℕ, ◌≡◌, List, [], ◌∷◌, Option, none, some, Bool, true, false, for_each-keeps, if◌then◌else◌,
  arith,
}
use pppcpd.Common.Map.{Map, Str}
use pppcpd.Aaa.{is_empty}
use pppcpd.Dataplane.{
  Vapi, VppApi, VppInterface, Network, InterfaceUnit, InterfaceConf, RibEntry, call,
}
use pppcpd.Dataplane.Messages.{
  add_subif, set_state, set_interface_table, set_ip, set_mtu, set_unnumbered, get_iface_by_name,
  delete_tap, get_tap_interfaces, create_tap, add_pppoe_cp, add_route, dump_ip, dump_unnumbered,
  del_subif, get_ifaces,
}
use pppcpd.Dataplane.Interfaces.{
  move_unit, address_unit, mtu_iface, lend_address, unnumber_unit, configure_unit, setup_unit,
  setup_iface, setup_interfaces,
}
use pppcpd.Dataplane.Provision.{withdraw, withdraw_all}
use pppcpd.Dataplane.SetUp.{
  delete_taps, start_tap, add_routes, clear_ips, clear_iface, clear_ifaces, global_routes,
  finish_set_up, is_subif, SetUpConf,
}

module _ {V : Type 0} ⦃vapi : Vapi V⦄ (m : Map Str ℕ) where
  abbrev pub HasVrfs : VppApi V → Type 0
  HasVrfs api = api.vrfs ≡ m

  set_state-HasVrfs :
      (i : ℕ) (up : Bool) (api : VppApi V) → HasVrfs api → HasVrfs (set_state i up api).1
  unfolding set_state call
  set_state-HasVrfs i up api h = h

  set_unnumbered-HasVrfs :
      (i j : ℕ) (b : Bool) (api : VppApi V) → HasVrfs api → HasVrfs (set_unnumbered i j b api).1
  unfolding set_unnumbered call
  set_unnumbered-HasVrfs i j b api h = h

  set_ip-HasVrfs :
      (i : ℕ) (n : Network) (b : Bool) (api : VppApi V) → HasVrfs api → HasVrfs (set_ip i n b api).1
  unfolding set_ip call
  set_ip-HasVrfs i n b api h = h

  create_tap-HasVrfs : (n : Str) (api : VppApi V) → HasVrfs api → HasVrfs (create_tap n api).1
  unfolding create_tap call
  create_tap-HasVrfs n api h = ground (arith, h)

  delete_tap-HasVrfs : (i : ℕ) (api : VppApi V) → HasVrfs api → HasVrfs (delete_tap i api).1
  unfolding delete_tap call
  delete_tap-HasVrfs i api h = ground (arith, h)

  pub delete_taps-HasVrfs : (api : VppApi V) → HasVrfs api → HasVrfs (delete_taps api)
  unfolding delete_taps
  delete_taps-HasVrfs api h =
      for_each-keeps _ (get_tap_interfaces api) api (λ i a. delete_tap-HasVrfs i a) h

  pub start_tap-HasVrfs :
      (n : Str) (api : VppApi V) → HasVrfs api → HasVrfs (start_tap (create_tap n api))
  unfolding start_tap set_state add_pppoe_cp call
  start_tap-HasVrfs n api h =
      let (tap, api') = create_tap n api in
      let h' : HasVrfs api' = create_tap-HasVrfs n api h in
      elim tap as (λ t. HasVrfs (start_tap (t, api'))) [ none ↦ h' | some i ↦ h' ]

  add_route-HasVrfs :
      (n : Network) (hop table : ℕ) (api : VppApi V)
      → HasVrfs api
      → HasVrfs (add_route n hop table api).1
  unfolding add_route call
  add_route-HasVrfs n hop table api h = h

  pub add_routes-HasVrfs :
      (table : ℕ) (rib : List RibEntry) (api : VppApi V)
      → HasVrfs api
      → HasVrfs (add_routes table rib api)
  unfolding add_routes
  add_routes-HasVrfs table rib api h =
      for_each-keeps _ rib api (λ e a. add_route-HasVrfs e.destination e.nexthop table a) h

  global_routes-HasVrfs :
      (rib : List RibEntry) (api : VppApi V) → HasVrfs api → HasVrfs (global_routes rib api).1
  unfolding global_routes
  global_routes-HasVrfs [] api h = h
  global_routes-HasVrfs (e ∷ es) api h =
      global_routes-HasVrfs es (add_route e.destination e.nexthop 0 api).1
        (add_route-HasVrfs e.destination e.nexthop 0 api h)

  withdraw_all-HasVrfs : (i : ℕ) (api : VppApi V) → HasVrfs api → HasVrfs (withdraw_all i api)
  unfolding withdraw_all withdraw
  withdraw_all-HasVrfs i api h =
      for_each-keeps _ (dump_unnumbered i api) api
        (λ u a. set_unnumbered-HasVrfs u.unnumbered_sw_if_index u.iface_sw_if_index false a) h

  clear_ips-HasVrfs : (i : ℕ) (api : VppApi V) → HasVrfs api → HasVrfs (clear_ips i api)
  unfolding clear_ips
  clear_ips-HasVrfs i api h =
      for_each-keeps _ (dump_ip i api) api (λ e a. set_ip-HasVrfs e.sw_if_index e.address false a) h

  del_subif-HasVrfs :
      (b : Bool) (i : ℕ) (api : VppApi V)
      → HasVrfs api
      → HasVrfs (if b then (del_subif i api).1 else api)
  unfolding del_subif call
  del_subif-HasVrfs true i api h = h
  del_subif-HasVrfs false i api h = h

  clear_iface-HasVrfs :
      (i : VppInterface) (api : VppApi V) → HasVrfs api → HasVrfs (clear_iface i api)
  unfolding clear_iface
  clear_iface-HasVrfs i api h =
      del_subif-HasVrfs (is_subif i.type) i.sw_if_index _
        (withdraw_all-HasVrfs i.sw_if_index _ (clear_ips-HasVrfs i.sw_if_index api h))

  clear_ifaces-HasVrfs : (api : VppApi V) → HasVrfs api → HasVrfs (clear_ifaces api)
  unfolding clear_ifaces
  clear_ifaces-HasVrfs api h = for_each-keeps _ (get_ifaces api) api clear_iface-HasVrfs h

  add_subif-HasVrfs :
      (i unit outer inner : ℕ) (api : VppApi V)
      → HasVrfs api
      → HasVrfs (add_subif i unit outer inner api).1
  unfolding add_subif call
  add_subif-HasVrfs i unit outer inner api h = h

  move_unit-HasVrfs :
      (i : ℕ) (vrf : Str) (api : VppApi V) → HasVrfs api → HasVrfs (move_unit i vrf api)
  unfolding move_unit set_interface_table call
  move_unit-HasVrfs i vrf api h = ground (arith, h)

  address_unit-HasVrfs :
      (i : ℕ) (n : Option Network) (api : VppApi V) → HasVrfs api → HasVrfs (address_unit i n api)
  unfolding address_unit
  address_unit-HasVrfs i none api h = h
  address_unit-HasVrfs i (some n) api h = set_ip-HasVrfs i n true api h

  lend_address-HasVrfs :
      (i : ℕ) (j : Option ℕ) (api : VppApi V) → HasVrfs api → HasVrfs (lend_address i j api)
  unfolding lend_address
  lend_address-HasVrfs i none api h = h
  lend_address-HasVrfs i (some j) api h = set_unnumbered-HasVrfs i j true api h

  unnumber_unit-HasVrfs :
      (i : ℕ) (n : Str) (api : VppApi V) → HasVrfs api → HasVrfs (unnumber_unit i n api)
  unfolding unnumber_unit
  unnumber_unit-HasVrfs i n api h =
      elim (is_empty n)
        as (λ b. HasVrfs (if b then api else lend_address i (get_iface_by_name n api) api)) [
          | true ↦ h
          | false ↦ lend_address-HasVrfs i (get_iface_by_name n api) api h
        ]

  configure_unit-HasVrfs :
      (u : InterfaceUnit) (i : Option ℕ) (api : VppApi V)
      → HasVrfs api
      → HasVrfs (configure_unit u i api)
  unfolding configure_unit
  configure_unit-HasVrfs u none api h = h
  configure_unit-HasVrfs u (some i) api h = unnumber_unit-HasVrfs i u.unnumbered _ (
      address_unit-HasVrfs i u.address _
        (move_unit-HasVrfs i u.vrf _ (set_state-HasVrfs i u.admin_state api h)))

  setup_unit-HasVrfs :
      (parent : ℕ) (e : ℕ × InterfaceUnit) (api : VppApi V)
      → HasVrfs api
      → HasVrfs (setup_unit parent e api)
  unfolding setup_unit
  setup_unit-HasVrfs parent (id, u) api h =
      configure_unit-HasVrfs u _ _ (add_subif-HasVrfs parent id u.vlan 0 api h)

  mtu_iface-HasVrfs :
      (i : ℕ) (mtu : Option ℕ) (api : VppApi V) → HasVrfs api → HasVrfs (mtu_iface i mtu api)
  unfolding mtu_iface set_mtu call
  mtu_iface-HasVrfs i none api h = h
  mtu_iface-HasVrfs i (some v) api h = h

  setup_iface-HasVrfs :
      (c : InterfaceConf) (i : Option VppInterface) (api : VppApi V)
      → HasVrfs api
      → HasVrfs (setup_iface c i api)
  unfolding setup_iface
  setup_iface-HasVrfs c none api h = h
  setup_iface-HasVrfs c (some i) api h =
      for_each-keeps _ c.units _ (setup_unit-HasVrfs i.sw_if_index) (
        mtu_iface-HasVrfs i.sw_if_index c.mtu _
          (set_state-HasVrfs i.sw_if_index c.admin_state api h))

  setup_interfaces-HasVrfs :
      (confs : List InterfaceConf) (api : VppApi V)
      → HasVrfs api
      → HasVrfs (setup_interfaces confs api)
  unfolding setup_interfaces
  setup_interfaces-HasVrfs confs api h =
      for_each-keeps _ confs api (λ c a. setup_iface-HasVrfs c _ a) h

  pub finish_set_up-HasVrfs :
      (conf : SetUpConf) (api : VppApi V) → HasVrfs api → HasVrfs (finish_set_up conf api).1
  unfolding finish_set_up
  finish_set_up-HasVrfs conf api h =
      global_routes-HasVrfs conf.global_rib _
        (setup_interfaces-HasVrfs conf.interfaces _ (clear_ifaces-HasVrfs api h))
