-- ===== src/Dataplane/Interfaces.antt =====
-- src/vpp.cpp: setup_interfaces, one interface and one unit at a time.
pub mod Log
pub mod Owned
use pppcpd.Common.{ℕ, List, [], ◌∷◌, Option, none, some, Bool, true, if◌then◌else◌, for_each}
use pppcpd.Common.Map.{Str}
use pppcpd.Aaa.{is_empty}
use pppcpd.Dataplane.{Vapi, VppApi, VppInterface, Network, InterfaceUnit, InterfaceConf}
use pppcpd.Dataplane.Messages.{
  add_subif, set_state, set_interface_table, set_ip, set_mtu, set_unnumbered, get_iface_by_name,
  get_ifaces, iface_named,
}

module _ {V : Type 0} ⦃vapi : Vapi V⦄ where
  unfoldable pub move_unit : ℕ → Str → VppApi V → VppApi V
  move_unit ifi vrf api = if is_empty vrf then api else (set_interface_table ifi vrf api).1

  unfoldable pub address_unit : ℕ → Option Network → VppApi V → VppApi V
  address_unit ifi none api = api
  address_unit ifi (some n) api = (set_ip ifi n true api).1

  unfoldable pub mtu_iface : ℕ → Option ℕ → VppApi V → VppApi V
  mtu_iface ifi none api = api
  mtu_iface ifi (some mtu) api = (set_mtu ifi mtu api).1

  -- An interface that is not there is only logged.
  unfoldable pub lend_address : ℕ → Option ℕ → VppApi V → VppApi V
  lend_address ifi none api = api
  lend_address ifi (some iface) api = (set_unnumbered ifi iface true api).1

  unfoldable pub unnumber_unit : ℕ → Str → VppApi V → VppApi V
  unfolding lend_address
  unnumber_unit ifi name api =
      if is_empty name then api else lend_address ifi (get_iface_by_name name api) api

  -- What follows on a new sub-interface; a step that fails is only logged.
  unfoldable pub configure_unit : InterfaceUnit → Option ℕ → VppApi V → VppApi V
  unfolding move_unit address_unit unnumber_unit
  configure_unit u none api = api
  configure_unit u (some ifi) api =
      unnumber_unit ifi u.unnumbered
        (address_unit ifi u.address (move_unit ifi u.vrf (set_state ifi u.admin_state api).1))

  unfoldable pub setup_unit : ℕ → ℕ × InterfaceUnit → VppApi V → VppApi V
  unfolding configure_unit
  setup_unit parent (id, u) api =
      let (ifi, api') = add_subif parent id u.vlan 0 api in configure_unit u ifi api'

  unfoldable pub setup_iface : InterfaceConf → Option VppInterface → VppApi V → VppApi V
  unfolding setup_unit mtu_iface
  setup_iface c none api = api
  setup_iface c (some i) api =
      for_each (setup_unit i.sw_if_index) c.units
        (mtu_iface i.sw_if_index c.mtu (set_state i.sw_if_index c.admin_state api).1)

  -- The interfaces are dumped once, before the loop.
  unfoldable pub setup_interfaces : List InterfaceConf → VppApi V → VppApi V
  unfolding setup_iface
  setup_interfaces confs api =
      let vpp_ifs = get_ifaces api in
      for_each (λ c. setup_iface c (iface_named c.device vpp_ifs)) confs api
