-- ===== src/Dataplane/Provision/Withdrawn.antt =====
-- src/session.cpp: what the end of a session takes out of VPP.
use pppcpd.Common.{
  ℕ, ◌≡◌, ◌≢◌, ◌⊎◌, inl, inr, refl, ap, List, [], ◌∷◌, Option, none, some, true, false, Bool-cases,
  All, for_each, for_each-keeps,
}
use pppcpd.Aaa.{uint32_max}
use pppcpd.Session.{Session}
use pppcpd.Dataplane.{
  Vapi, VppApi, Request, Response, VppUnnumbered, UnnumberedDetails, Ip4, pppoe_add_del_session,
  sw_interface_set_unnumbered, call,
}
use pppcpd.Dataplane.Messages.{
  add_to_table, add_pppoe_session, vrf_id, set_unnumbered, dump_unnumbered, map, unnumbered_of,
}
use pppcpd.Dataplane.Provision.Sent.{IsSent, call-IsSent, call-now}
use pppcpd.Dataplane.Provision.{enter, withdraw, withdraw_all, deprovision_dp}

-- The message that takes the address from an unnumbered interface.
abbrev pub withdrawal : UnnumberedDetails → Request
withdrawal d = sw_interface_set_unnumbered false d.ip_sw_if_index d.sw_if_index

-- A message about this session, or about its interface.
abbrev pub IsAbout : Session → Request × Response → Type 0
IsAbout s (r, a) =
    ((iface : ℕ) × (r ≡ sw_interface_set_unnumbered false iface s.ifindex))
    ⊎ ((ip : Ip4) × (table : ℕ) × (r
          ≡ pppoe_add_del_session ip s.encap.source_mac table s.session_id false))

module _ {V : Type 0} ⦃vapi : Vapi V⦄ where
  withdraw-IsSent :
      (u : VppUnnumbered) (r : Request) (api : VppApi V)
      → IsSent r api.log
      → IsSent r (withdraw u api).log
  unfolding withdraw set_unnumbered
  withdraw-IsSent u r api h = call-IsSent _ r api h

  withdraw-now :
      (d : UnnumberedDetails) (api : VppApi V)
      → IsSent (withdrawal d) (withdraw (unnumbered_of d) api).log
  unfolding withdraw set_unnumbered
  withdraw-now d api = call-now (withdrawal d) api

  add_to_table-IsSent :
      (s : Session) (t : Option ℕ) (r : Request) (api : VppApi V)
      → IsSent r api.log
      → IsSent r (add_to_table s.address s.session_id s.encap.source_mac false t api).1.log
  unfolding add_to_table
  add_to_table-IsSent s none r api h = h
  add_to_table-IsSent s (some t) r api h = call-IsSent _ r api h

  later-IsSent :
      (us : List VppUnnumbered) (r : Request) (api : VppApi V)
      → IsSent r api.log
      → IsSent r (for_each withdraw us api).log
  later-IsSent us r api h =
      for_each-keeps {P = λ t. IsSent r t.log} withdraw us api (λ u t. withdraw-IsSent u r t) h

  withdrawn-IsSent :
      (ds : List UnnumberedDetails) (api : VppApi V)
      → All (λ d. IsSent (withdrawal d) (for_each withdraw (map unnumbered_of ds) api).log) ds
  withdrawn-IsSent [] api = tt
  withdrawn-IsSent (d ∷ ds) api =
      let api' = withdraw (unnumbered_of d) api in
      (
        later-IsSent (map unnumbered_of ds) (withdrawal d) api' (withdraw-now d api),
        withdrawn-IsSent ds api',
      )

  -- The messages of the end of a session, where none was sent before.
  withdraw-IsAbout :
      (s : Session) (ds : List UnnumberedDetails) (api : VppApi V)
      → All (λ d. d.sw_if_index ≡ s.ifindex) ds
      → All (IsAbout s) api.log
      → All (IsAbout s) (for_each withdraw (map unnumbered_of ds) api).log
  unfolding withdraw set_unnumbered call
  withdraw-IsAbout s [] api own h = h
  withdraw-IsAbout s (d ∷ ds) api (mine, own) h =
      withdraw-IsAbout s ds (withdraw (unnumbered_of d) api) own
        (inl (d.ip_sw_if_index, ap (sw_interface_set_unnumbered false d.ip_sw_if_index) mine), h)

  add_to_table-IsAbout :
      (s : Session) (t : Option ℕ) (api : VppApi V)
      → All (IsAbout s) api.log
      → All (IsAbout s) (add_to_table s.address s.session_id s.encap.source_mac false t api).1.log
  unfolding add_to_table call
  add_to_table-IsAbout s none api h = h
  add_to_table-IsAbout s (some t) api h = (inr (_, t, refl), h)

  withdraw_all-IsSent :
      (i : ℕ) (every : List UnnumberedDetails) (api : VppApi V)
      → i ≡ uint32_max
      → vapi.unnumbered uint32_max api.vpp ≡ (true, every)
      → All (λ d. IsSent (withdrawal d) (withdraw_all i api).log) every
  unfolding withdraw_all dump_unnumbered
  withdraw_all-IsSent i every api unset dumped = rw (unset, dumped) (withdrawn-IsSent every api)

  entered-IsSent :
      (s : Session) (t : Option ℕ) (ds : List UnnumberedDetails) (api : VppApi V)
      → All (λ d. IsSent (withdrawal d) api.log) ds
      → All
          (λ d.
            IsSent
              (withdrawal d)
              (add_to_table s.address s.session_id s.encap.source_mac false t api).1.log)
          ds
  entered-IsSent s t [] api h = tt
  entered-IsSent s t (d ∷ ds) api (h, hs) =
      (add_to_table-IsSent s t (withdrawal d) api h, entered-IsSent s t ds api hs)

  withdraw_all-IsAbout :
      (s : Session) (api : VppApi V)
      → All (λ d. d.sw_if_index ≡ s.ifindex) (vapi.unnumbered s.ifindex api.vpp).1
      → All (IsAbout s) api.log
      → All (IsAbout s) (withdraw_all s.ifindex api).log
  unfolding withdraw_all dump_unnumbered
  withdraw_all-IsAbout s api own h = elim (Bool-cases (vapi.unnumbered s.ifindex api.vpp).0) [
    | inl executed ↦
        rw executed (withdraw-IsAbout s (vapi.unnumbered s.ifindex api.vpp).1 api own h)
    | inr failed ↦ rw failed h
  ]

-- Where VPP takes the greatest number for all interfaces, the end of a session that was never
-- provisioned takes the address from every unnumbered interface of the router.
pub deprovision_dp-unset :
    {V : Type 0} ⦃vapi : Vapi V⦄ (s : Session) (api : VppApi V) (every : List UnnumberedDetails)
    → s.ifindex ≡ uint32_max
    → vapi.unnumbered uint32_max api.vpp ≡ (true, every)
    → All (λ d. IsSent (withdrawal d) (deprovision_dp s api).1.log) every
unfolding deprovision_dp enter add_pppoe_session
deprovision_dp-unset s api every unset dumped =
    let api' = withdraw_all s.ifindex api in
    entered-IsSent s (vrf_id s.vrf api') every api'
      (withdraw_all-IsSent s.ifindex every api unset dumped)

-- The end of a session that was provisioned sends nothing but messages about its own interface and
-- itself, where VPP lists under the index of an interface that interface alone.
pub deprovision_dp-IsAbout :
    {V : Type 0} ⦃vapi : Vapi V⦄ (s : Session) (api : VppApi V)
    → s.ifindex ≢ uint32_max
    → ((i : ℕ) (v : V) → i ≢ uint32_max → All (λ d. d.sw_if_index ≡ i) (vapi.unnumbered i v).1)
    → api.log ≡ []
    → All (IsAbout s) (deprovision_dp s api).1.log
unfolding deprovision_dp enter add_pppoe_session
deprovision_dp-IsAbout s api real own start =
    let api' = withdraw_all s.ifindex api in
    add_to_table-IsAbout s (vrf_id s.vrf api') api'
      (withdraw_all-IsAbout s api (own s.ifindex api.vpp real) (rw start tt))
