-- ===== src/Dataplane/Provision.antt =====
-- src/session.cpp: provision_dp and deprovision_dp, message by message.
pub mod Answers
pub mod Sent
pub mod Withdrawn
use pppcpd.Common.{ℕ, Option, none, some, Bool, true, false, if◌then◌else◌, for_each}
use pppcpd.Common.Map.{Str}
use pppcpd.Aaa.{is_empty}
use pppcpd.Session.{Session}
use pppcpd.Ppp.{ProvisionError, cannot_add, cannot_move, no_such_interface, cannot_unnumber}
use pppcpd.Dataplane.{Vapi, VppApi, VppUnnumbered}
use pppcpd.Dataplane.Messages.{
  add_pppoe_session, set_interface_table, get_iface_by_name, set_unnumbered, dump_unnumbered,
}

module _ {V : Type 0} ⦃vapi : Vapi V⦄ where
  -- The session is entered into VPP, and taken out with `false`.
  unfoldable pub enter : Session → Bool → VppApi V → Option ℕ × VppApi V
  enter s is_add = add_pppoe_session s.address s.session_id s.encap.source_mac s.vrf is_add

  unfoldable pub move_session : ℕ → Str → VppApi V → Bool × VppApi V
  move_session ifi vrf api = if is_empty vrf then (true, api) else set_interface_table ifi vrf api

  unfoldable pub lend_to_session : ℕ → Option ℕ → VppApi V → Option ProvisionError × VppApi V
  lend_to_session ifi none api = (some no_such_interface, api)
  lend_to_session ifi (some iface) api =
      let (done, api') = set_unnumbered ifi iface true api in
      (if done then none else some cannot_unnumber, api')

  unfoldable pub unnumber_session : ℕ → Str → VppApi V → Option ProvisionError × VppApi V
  unfolding lend_to_session
  unnumber_session ifi name api =
      if is_empty name then (none, api) else lend_to_session ifi (get_iface_by_name name api) api

  unfoldable pub after_move : Session → ℕ → Bool × VppApi V → Option ProvisionError × VppApi V
  unfolding unnumber_session
  after_move s ifi (false, api) = (some cannot_move, api)
  after_move s ifi (true, api) = unnumber_session ifi s.unnumbered api

  unfoldable pub after_entry :
      Session → Option ℕ × VppApi V → (Option ProvisionError × Session) × VppApi V
  unfolding move_session after_move
  after_entry s (none, api) = ((some cannot_add, s), api)
  after_entry s (some ifi, api) =
      let (e, api') = after_move s ifi (move_session ifi s.vrf api) in
      ((e, record s { ifindex = ifi }), api')

  unfoldable pub provision_dp : Session → VppApi V → (Option ProvisionError × Session) × VppApi V
  unfolding enter after_entry
  provision_dp s api = after_entry s (enter s true api)

  unfoldable pub withdraw : VppUnnumbered → VppApi V → VppApi V
  withdraw u api = (set_unnumbered u.unnumbered_sw_if_index u.iface_sw_if_index false api).1

  unfoldable pub withdraw_all : ℕ → VppApi V → VppApi V
  unfolding withdraw
  withdraw_all ifi api = for_each withdraw (dump_unnumbered ifi api) api

  -- The destructor calls it whether the session was provisioned or not; `false` stands for its text.
  unfoldable pub deprovision_dp : Session → VppApi V → Bool × VppApi V
  unfolding withdraw_all enter
  deprovision_dp s api =
      let (gone, api') = enter s false (withdraw_all s.ifindex api) in
      (elim gone [ none ↦ false | some i ↦ true ], api')
