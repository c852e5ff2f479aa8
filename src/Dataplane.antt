-- ===== src/Dataplane.antt =====
-- src/vpp.hpp, src/vpp_types.hpp and src/config.hpp: what VPPAPI keeps and what it is configured with.
-- VPP and its binary API are not code of the repository: `Vapi` says what VPP answers to a message.

pub mod Messages
pub mod Vrfs
pub mod Interfaces
pub mod Stats
pub mod Provision
pub mod SetUp
use pppcpd.Common.{ℕ, List, ◌∷◌, Option, Bool, leb, ◌^◌}
use pppcpd.Common.Bytes.{Bytes}
use pppcpd.Common.Map.{Map, Str}
use pppcpd.Encap.{Mac}

pub data IfaceType : Type 0 where
  loopback hw_iface tap subif : IfaceType

pub record VppInterface : Type 0 where
  pub name : Str
  pub device : Str
  pub mac : Mac
  pub sw_if_index : ℕ
  pub speed : ℕ
  pub mtu : ℕ
  pub type : IfaceType

-- VPPUnnumbered
pub record VppUnnumbered : Type 0 where
  pub unnumbered_sw_if_index : ℕ
  pub iface_sw_if_index : ℕ

-- VPPVRF
pub record VppVrf : Type 0 where
  pub name : Str
  pub table_id : ℕ

-- VPP_PPPOE_Session; an address_v4_t is 0 until it is set.
pub record VppPppoeSession : Type 0 where
  pub session_id : ℕ
  pub mac : Mac
  pub address : ℕ
  pub sw_if_index : ℕ
  pub encap_if_index : ℕ

-- network_v4_t: a host's address with the length of its prefix
pub record Network : Type 0 where
  pub address : ℕ
  pub prefix_length : ℕ

-- VPPIP
pub record VppIp : Type 0 where
  pub sw_if_index : ℕ
  pub address : Network

-- VPPIfaceCounters
pub record IfaceCounters : Type 0 where
  pub rx_pkts : ℕ
  pub rx_bytes : ℕ
  pub tx_pkts : ℕ
  pub tx_bytes : ℕ
  pub drops : ℕ

-- InterfaceUnit; its index in VPP is written to a copy of the configuration and read only from there.
pub record InterfaceUnit : Type 0 where
  pub address : Option Network
  pub vlan : ℕ
  pub admin_state : Bool
  pub vrf : Str
  pub unnumbered : Str

pub record InterfaceConf : Type 0 where
  pub device : Str
  pub admin_state : Bool
  pub mtu : Option ℕ
  pub units : Map ℕ InterfaceUnit

-- StaticRIBEntry
pub record RibEntry : Type 0 where
  pub destination : Network
  pub nexthop : ℕ
  pub rid_in_vpp : ℕ

-- VRFConf
pub record VrfConf : Type 0 where
  pub name : Str
  pub table_id : ℕ
  pub rib : List RibEntry

-- The four bytes of an address in a message
abbrev pub Ip4 : Type 0
Ip4 = ℕ × ℕ × ℕ × ℕ

-- The flags of a sub-interface, all with the exact match.
pub data SubIfFlags : Type 0 where
  no_tags one_tag two_tags : SubIfFlags

-- A message with the fields that the code fills in.
pub data Request : Type 0 where
  pppoe_add_del_session :
      (client_ip : Ip4)
      → (client_mac : Mac) → (decap_vrf_id : ℕ) → (session_id : ℕ) → (is_add : Bool) → Request
  create_subif :
      (sw_if_index : ℕ)
      → (sub_id : ℕ) → (outer_vlan_id : ℕ) → (inner_vlan_id : ℕ) → SubIfFlags
      → Request
  delete_subif : (sw_if_index : ℕ) → Request
  sw_interface_set_table : (sw_if_index : ℕ) → (vrf_id : ℕ) → Request
  sw_interface_set_flags : (sw_if_index : ℕ) → (admin_up : Bool) → Request
  sw_interface_set_mtu : (sw_if_index : ℕ) → (mtu : List ℕ) → Request
  sw_interface_set_unnumbered :
      (is_add : Bool) → (sw_if_index : ℕ) → (unnumbered_sw_if_index : ℕ) → Request
  sw_interface_add_del_address :
      (sw_if_index : ℕ) → (is_add : Bool) → (ip4 : Ip4) → (len : ℕ) → Request
  tap_create_v2 : (host_if_name : Option Str) → Request
  tap_delete_v2 : (sw_if_index : ℕ) → Request
  ip_table_add_del : (is_add : Bool) → (table_id : ℕ) → (name : Option Bytes) → Request
  ip_route_add : (ip4 : Ip4) → (len : ℕ) → (table_id : ℕ) → (nexthop : Ip4) → Request
  pppoe_add_cp : (sw_if_index : ℕ) → Request
  want_interface_events : Request

-- Whether `execute` was VAPI_OK, and the response that ends the wait; `retval` as its 32 bits.
pub record Response : Type 0 where
  pub executed : Bool
  pub retval : ℕ
  pub sw_if_index : ℕ
  pub stats_index : ℕ

-- One element of Sw_interface_dump. `unset` is what the memory of a member holds that is not assigned.
pub record IfaceDetails : Type 0 where
  pub interface_name : Bytes
  pub interface_dev_type : Bytes
  pub l2_address : Mac
  pub sw_if_index : ℕ
  pub link_speed : ℕ
  pub mtu : ℕ
  pub is_sub : Bool
  pub unset : IfaceType

-- One element of Ip_address_dump
pub record AddressDetails : Type 0 where
  pub sw_if_index : ℕ
  pub ip4 : Ip4
  pub len : ℕ

-- One element of Ip_unnumbered_dump
pub record UnnumberedDetails : Type 0 where
  pub sw_if_index : ℕ
  pub ip_sw_if_index : ℕ

-- One element of Ip_table_dump; the name's field has 64 bytes.
pub record TableDetails : Type 0 where
  pub table_id : ℕ
  pub name : Bytes

-- One element of Pppoe_session_dump, without its IPv6 address.
pub record PppoeDetails : Type 0 where
  pub client_mac : Mac
  pub is_ip4 : Bool
  pub ip4 : Ip4
  pub encap_if_index : ℕ
  pub session_id : ℕ
  pub sw_if_index : ℕ

-- VPP in a state of type V. A dump says first whether it was executed; the messages for TAP interfaces
-- may be missing.
pub record Vapi (V : Type 0) : Type 0 where
  pub respond : Request → V → Response × V
  pub tap_available : Bool
  pub taps : V → Bool × List ℕ
  pub interfaces : V → List IfaceDetails
  pub addresses : ℕ → V → Bool × List AddressDetails
  pub unnumbered : ℕ → V → Bool × List UnnumberedDetails
  pub pppoe_sessions : V → List PppoeDetails
  pub tables : V → Bool × List TableDetails

-- VPPAPI, with VPP behind the connection and the messages sent over it, the newest first.
pub record VppApi (V : Type 0) : Type 0 where
  pub vpp : V
  pub log : List (Request × Response)
  pub counters : Map ℕ IfaceCounters
  pub vrfs : Map Str ℕ

-- `< 0` on 32 bits
abbrev pub is_negative : ℕ → Bool
is_negative v = leb (2 ^ 31) v

-- One message from `execute` to its response.
unfoldable pub call : {V : Type 0} ⦃vapi : Vapi V⦄ → Request → VppApi V → Response × VppApi V
call ⦃vapi⦄ r api =
    let (a, v) = vapi.respond r api.vpp in (a, record api { vpp = v; log = (r, a) ∷ api.log })
