-- ===== src/Dataplane/Messages.antt =====
-- src/vpp.cpp: the methods of VPPAPI that send one message, or dump one table. An error of `execute`
-- that is only logged changes nothing: the response is read all the same.
use pppcpd.Common.{
  ℕ, ◌+◌, ◌*◌, ◌/◌, ◌%◌, List, [], ◌∷◌, Option, none, some, Bool, true, false, not, ◌&&◌, ◌==◌,
  if◌then◌else◌, take, ltb,
}
use pppcpd.Common.Bytes.{Bytes, bswap32}
use pppcpd.Common.Map.{Str, str_key, str_eq, find}
use pppcpd.Encap.{Mac}
use pppcpd.Aaa.{is_empty, uint32_max}
use pppcpd.Dataplane.{
  UnnumberedDetails, IfaceType, loopback, hw_iface, subif, VppInterface, VppUnnumbered,
  VppPppoeSession, Network, VppIp, Ip4, SubIfFlags, no_tags, one_tag, two_tags, Request,
  pppoe_add_del_session, create_subif, delete_subif, sw_interface_set_table, sw_interface_set_flags,
  sw_interface_set_mtu, sw_interface_set_unnumbered, sw_interface_add_del_address, tap_create_v2,
  tap_delete_v2, ip_route_add, pppoe_add_cp, want_interface_events, IfaceDetails, Vapi, VppApi,
  is_negative, call,
}

-- std::string of a field that is ended by a zero byte
unfoldable pub until_nul : Bytes → Str
until_nul [] = []
until_nul (b ∷ bs) = let rest = until_nul bs in if b == 0 then [] else b ∷ rest

-- A 32-bit number in the memory of the host, and read from there.
unfoldable pub store_ip4 : ℕ → Ip4
store_ip4 v = (v % 256, v / 256 % 256, v / 65536 % 256, v / 16777216 % 256)

unfoldable pub load_ip4 : Ip4 → ℕ
load_ip4 (a, b, c, d) = a + b * 256 + c * 65536 + d * 16777216

abbrev loopback_type : Str
loopback_type = b'L' ∷ b'o' ∷ b'o' ∷ b'p' ∷ b'b' ∷ b'a' ∷ b'c' ∷ b'k' ∷ []

abbrev dpdk_type : Str
dpdk_type = b'd' ∷ b'p' ∷ b'd' ∷ b'k' ∷ []

abbrev iface_type : IfaceDetails → IfaceType
iface_type d =
    if d.is_sub
    then subif
    else if str_eq (until_nul d.interface_dev_type) loopback_type
    then loopback
    else if str_eq (until_nul d.interface_dev_type) dpdk_type
    then hw_iface
    else d.unset

abbrev iface_of : IfaceDetails → VppInterface
iface_of d = record {
  name = until_nul d.interface_name;
  device = until_nul d.interface_dev_type;
  mac = d.l2_address;
  sw_if_index = d.sw_if_index;
  speed = d.link_speed;
  mtu = d.mtu;
  type = iface_type d;
}

abbrev pub map {ℓ κ} : {A : Type ℓ} {B : Type κ} → (A → B) → List A → List B
map f [] = []
map f (x ∷ xs) = f x ∷ map f xs

-- std::set<uint32_t>
unfoldable pub insert_ordered : ℕ → List ℕ → List ℕ
insert_ordered x [] = x ∷ []
insert_ordered x (y ∷ ys) =
    let rest = insert_ordered x ys in
    if ltb x y then x ∷ y ∷ ys else (if x == y then y ∷ ys else y ∷ rest)

abbrev ordered : List ℕ → List ℕ
ordered [] = []
ordered (x ∷ xs) = insert_ordered x (ordered xs)

-- `{}` where the dump was not executed
abbrev pub rows {ℓ κ} : {A : Type ℓ} {B : Type κ} → (A → B) → Bool × List A → List B
rows f (executed, results) = if executed then map f results else []

-- The first interface with a name, in the order of the dump.
unfoldable pub iface_named : Str → List VppInterface → Option VppInterface
iface_named n [] = none
iface_named n (i ∷ is) = let rest = iface_named n is in if str_eq i.name n then some i else rest

abbrev pub unnumbered_of : UnnumberedDetails → VppUnnumbered
unnumbered_of d = record {
  unnumbered_sw_if_index = d.sw_if_index;
  iface_sw_if_index = d.ip_sw_if_index;
}

unfoldable pub subif_flags : ℕ → ℕ → SubIfFlags
subif_flags outer inner = if outer == 0 then no_tags else (if inner == 0 then one_tag else two_tags)

module _ {V : Type 0} ⦃vapi : Vapi V⦄ where
  abbrev succeeds : (ℕ → Bool) → Request → VppApi V → Bool × VppApi V
  succeeds failed r api = let (a, api') = call r api in (not (failed a.retval), api')

  -- add_pppoe_session: a VRF that is not known ends it before anything is sent, and so does the
  -- index of no interface in the response.
  abbrev pub vrf_id : Str → VppApi V → Option ℕ
  vrf_id vrf api = if is_empty vrf then some 0 else find vrf api.vrfs

  unfoldable pub add_to_table : ℕ → ℕ → Mac → Bool → Option ℕ → VppApi V → Option ℕ × VppApi V
  unfolding call
  add_to_table ip sid mac is_add none api = (none, api)
  add_to_table ip sid mac is_add (some table) api =
      let ip4 : Ip4 = (ip / 16777216 % 256, ip / 65536 % 256, ip / 256 % 256, ip % 256) in
      let (a, api') = call (pppoe_add_del_session ip4 mac table sid is_add) api in
      (if a.sw_if_index == uint32_max then none else some a.sw_if_index, api')

  unfoldable pub add_pppoe_session : ℕ → ℕ → Mac → Str → Bool → VppApi V → Option ℕ × VppApi V
  unfolding add_to_table
  add_pppoe_session ip sid mac vrf is_add api = add_to_table ip sid mac is_add (vrf_id vrf api) api

  unfoldable pub add_subif : ℕ → ℕ → ℕ → ℕ → VppApi V → Option ℕ × VppApi V
  unfolding call subif_flags
  add_subif interface unit outer inner api =
      let (a, api') =
        call (create_subif interface unit outer inner (subif_flags outer inner)) api in
      (if a.retval == uint32_max then none else some a.sw_if_index, api')

  -- A VRF that is not known stands for the default table.
  unfoldable pub set_interface_table : ℕ → Str → VppApi V → Bool × VppApi V
  unfolding call
  set_interface_table ifi vrf api =
      let table : ℕ = elim (find vrf api.vrfs) [ none ↦ 0 | some i ↦ i ] in
      succeeds (λ r. r == uint32_max) (sw_interface_set_table ifi table) api

  -- host_if_name has 64 bytes, the last of them zero.
  unfoldable pub create_tap : Str → VppApi V → Option ℕ × VppApi V
  unfolding call until_nul
  create_tap name api =
      if not vapi.tap_available
      then (none, api)
      else let host_if_name = if is_empty name then none else some (take 63 (until_nul name)) in
        let (a, api') = call (tap_create_v2 host_if_name) api in
        (if a.executed && not (is_negative a.retval) then some a.sw_if_index else none, api')

  unfoldable pub delete_tap : ℕ → VppApi V → Bool × VppApi V
  unfolding call
  delete_tap id api =
      if not vapi.tap_available
      then (false, api)
      else let (a, api') = call (tap_delete_v2 id) api in
        (a.executed && not (is_negative a.retval), api')

  unfoldable pub get_tap_interfaces : VppApi V → List ℕ
  unfolding insert_ordered
  get_tap_interfaces api =
      if vapi.tap_available then ordered (rows (λ i. i) (vapi.taps api.vpp)) else []

  unfoldable pub get_ifaces : VppApi V → List VppInterface
  unfolding until_nul
  get_ifaces api = map iface_of (vapi.interfaces api.vpp)

  unfoldable pub get_iface_by_name : Str → VppApi V → Option ℕ
  unfolding get_ifaces iface_named
  get_iface_by_name n api = elim (iface_named n (get_ifaces api)) [
    | none ↦ none
    | some i ↦ some i.sw_if_index
  ]

  unfoldable pub set_ip : ℕ → Network → Bool → VppApi V → Bool × VppApi V
  unfolding call store_ip4
  set_ip id n is_add =
      succeeds is_negative
        (sw_interface_add_del_address id is_add (store_ip4 (bswap32 n.address)) n.prefix_length)

  unfoldable pub dump_ip : ℕ → VppApi V → List VppIp
  unfolding load_ip4
  dump_ip id api =
      rows
        (λ d. record {
          sw_if_index = d.sw_if_index;
          address = record { address = bswap32 (load_ip4 d.ip4); prefix_length = d.len };
        })
        (vapi.addresses id api.vpp)

  unfoldable pub dump_unnumbered : ℕ → VppApi V → List VppUnnumbered
  dump_unnumbered id api = rows unnumbered_of (vapi.unnumbered id api.vpp)

  unfoldable pub set_state : ℕ → Bool → VppApi V → Bool × VppApi V
  unfolding call
  set_state ifi up = succeeds is_negative (sw_interface_set_flags ifi up)

  unfoldable pub set_mtu : ℕ → ℕ → VppApi V → Bool × VppApi V
  unfolding call
  set_mtu ifi mtu = succeeds is_negative (sw_interface_set_mtu ifi (mtu ∷ mtu ∷ mtu ∷ mtu ∷ []))

  unfoldable pub set_unnumbered : ℕ → ℕ → Bool → VppApi V → Bool × VppApi V
  unfolding call
  set_unnumbered ifi iface is_add api =
      let (a, api') = call (sw_interface_set_unnumbered is_add iface ifi) api in
      (a.executed && a.retval == 0, api')

  -- The index of the route's counters, and -1 without one.
  unfoldable pub add_route : Network → ℕ → ℕ → VppApi V → (Bool × ℕ) × VppApi V
  unfolding call store_ip4
  add_route prefix nexthop table api =
      let (a, api') =
        call
          (ip_route_add (store_ip4 (bswap32 prefix.address)) prefix.prefix_length table
            (store_ip4 (bswap32 nexthop)))
          api in
      (if a.executed && a.retval == 0 then (true, a.stats_index) else (false, uint32_max), api')

  unfoldable pub del_subif : ℕ → VppApi V → Bool × VppApi V
  unfolding call
  del_subif ifi = succeeds is_negative (delete_subif ifi)

  unfoldable pub add_pppoe_cp : ℕ → VppApi V → Bool × VppApi V
  unfolding call
  add_pppoe_cp ifi = succeeds (λ r. not (r == 0)) (pppoe_add_cp ifi)

  unfoldable pub dump_pppoe_sessions : VppApi V → List VppPppoeSession
  unfolding load_ip4
  dump_pppoe_sessions api =
      map
        (λ d. record {
          session_id = d.session_id;
          mac = d.client_mac;
          address = if d.is_ip4 then bswap32 (load_ip4 d.ip4) else 0;
          sw_if_index = d.sw_if_index;
          encap_if_index = d.encap_if_index;
        })
        (vapi.pppoe_sessions api.vpp)

  unfoldable pub get_stats : VppApi V → VppApi V
  unfolding call
  get_stats api = (call want_interface_events api).1
