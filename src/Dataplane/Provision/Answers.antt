-- ===== src/Dataplane/Provision/Answers.antt =====
-- src/session.cpp: provisioning by messages does what Ppp takes it to do.
use pppcpd.Common.{
  ℕ, ◌≡◌, refl, ap, Option, none, some, Bool, true, false, Option-cases, Bool-cases, inl, inr, not,
  ◌&&◌, if◌then◌else◌,
}
use pppcpd.Common.Map.{Str}
use pppcpd.Aaa.{is_empty}
use pppcpd.Session.{Session}
use pppcpd.Ppp.{
  Vpp, ProvisionError, cannot_add, cannot_move, no_such_interface, cannot_unnumber, unnumber,
}
use pppcpd.Ppp
use pppcpd.Dataplane.{Vapi, VppApi}
use pppcpd.Dataplane.Messages.{set_interface_table, get_iface_by_name, set_unnumbered}
use pppcpd.Dataplane.Provision.{
  enter, move_session, lend_to_session, unnumber_session, after_move, after_entry, provision_dp,
}

module _ {V : Type 0} ⦃vapi : Vapi V⦄ where
  -- The messages behind the entry of a session see the state that VPP is then in.
  moved : Session → Option ℕ → VppApi V → VppApi V
  moved s none api = api
  moved s (some i) api = (move_session i s.vrf api).1

  abbrev answers_of : Session → Option ℕ × VppApi V → Vpp
  answers_of s (r, api) = record {
    add_pppoe_session = λ t. r;
    set_interface_table = λ i vrf. (set_interface_table i vrf api).0;
    get_iface_by_name = λ n. get_iface_by_name n (moved s r api);
    set_unnumbered = λ i iface. (set_unnumbered i iface true (moved s r api)).0;
  }

  -- What VPP answers while this session is provisioned.
  unfoldable pub answers : Session → VppApi V → Vpp
  unfolding moved
  answers s api = answers_of s (enter s true api)

  module _ (add : Session → Option ℕ) (tab : ℕ → Str → Bool) where
    abbrev then_answers : VppApi V → Vpp
    then_answers api = record {
      add_pppoe_session = add;
      set_interface_table = tab;
      get_iface_by_name = λ n. get_iface_by_name n api;
      set_unnumbered = λ i iface. (set_unnumbered i iface true api).0;
    }

    unnumber-answers :
        (s : Session) (i : ℕ) (api : VppApi V)
        → (unnumber_session i s.unnumbered api).0
          ≡ unnumber (then_answers api) (record s { ifindex = i })
    unfolding unnumber_session lend_to_session unnumber
    unnumber-answers s i api = elim (Bool-cases (is_empty s.unnumbered)) [
      | inl nothing ↦ rw nothing refl
      | inr wanted ↦ elim (Option-cases (get_iface_by_name s.unnumbered api)) [
        | inl missing ↦ rw (wanted, missing) refl
        | inr (iface, there) ↦ rw (wanted, there) refl
      ]
    ]

    after_move-answers :
        (s : Session) (i : ℕ) (done : Bool) (api : VppApi V)
        → let s' : Session = record s { ifindex = i } in
          ◌≡◌ {A = Option ProvisionError × Session}
            ((after_move s i (done, api)).0, s')
            (if not done then (some cannot_move, s') else (unnumber (then_answers api) s', s'))
    unfolding after_move
    after_move-answers s i false api = refl
    after_move-answers s i true api =
        let s' : Session = record s { ifindex = i } in ap (λ e. (e, s')) (unnumber-answers s i api)

  move_session-done :
      (i : ℕ) (vrf : Str) (api : VppApi V)
      → (not (is_empty vrf) && not (set_interface_table i vrf api).0)
        ≡ not (move_session i vrf api).0
  unfolding move_session
  move_session-done i vrf api = elim (Bool-cases (is_empty vrf)) [
    | inl default ↦ rw default refl
    | inr own ↦ rw own refl
  ]

  after_entry-answers :
      (s : Session) (r : Option ℕ) (api : VppApi V)
      → (after_entry s (r, api)).0 ≡ Ppp.provision_dp (answers_of s (r, api)) s
  unfolding after_entry Ppp.provision_dp moved
  after_entry-answers s none api = refl
  after_entry-answers s (some i) api =
      let (done, api') = move_session i s.vrf api in
      rw (move_session-done i s.vrf api) (
        after_move-answers (λ t. some i) (λ j vrf. (set_interface_table j vrf api).0) s i done api')

-- Provisioning a session message by message returns the error and leaves the session that the model of
-- the PPP dispatch takes it to, with the answers that VPP gives on the way.
pub provision_dp-answers :
    {V : Type 0} ⦃vapi : Vapi V⦄ (s : Session) (api : VppApi V)
    → (provision_dp s api).0 ≡ Ppp.provision_dp (answers s api) s
unfolding provision_dp answers
provision_dp-answers s api = after_entry-answers s (enter s true api).0 (enter s true api).1
