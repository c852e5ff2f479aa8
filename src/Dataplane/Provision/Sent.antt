-- ===== src/Dataplane/Provision/Sent.antt =====
-- src/vpp.cpp and src/session.cpp: the messages that VPPAPI has sent.
use pppcpd.Common.{
  ℕ, ◌≡◌, refl, ap, List, [], ◌∷◌, ◌++◌, Option, none, some, Bool, true, false, ◌/◌, ◌%◌,
  Bool-cases, inl, inr,
}
use pppcpd.Common.Map.{Str, str_key, find}
use pppcpd.Aaa.{is_empty}
use pppcpd.Session.{Session}
use pppcpd.Dataplane.{Vapi, VppApi, Request, Response, pppoe_add_del_session, call}
use pppcpd.Dataplane.Messages.{
  add_to_table, add_pppoe_session, set_interface_table, get_iface_by_name, set_unnumbered,
}
use pppcpd.Dataplane.Provision.{
  enter, move_session, lend_to_session, unnumber_session, after_move, after_entry, provision_dp,
}

-- A message that is in the log.
abbrev pub IsSent : Request → List (Request × Response) → Type 0
IsSent r log =
    (a : Response) × (newer older : List (Request × Response)) × (log ≡ newer ++ ((r, a) ∷ older))

-- The message that enters a session into a table.
abbrev pub entry : Session → ℕ → Request
entry s table =
    pppoe_add_del_session
      (s.address / 16777216 % 256, s.address / 65536 % 256, s.address / 256 % 256, s.address % 256)
      s.encap.source_mac table s.session_id true

module _ {V : Type 0} ⦃vapi : Vapi V⦄ where
  -- What is sent stays in the log.
  pub call-IsSent :
      (q r : Request) (api : VppApi V) → IsSent r api.log → IsSent r (call q api).1.log
  unfolding call
  call-IsSent q r api (a, newer, older, e) =
      let sent : Request × Response = (q, (vapi.respond q api.vpp).0) in
      (a, sent ∷ newer, older, ap (λ l. sent ∷ l) e)

  pub call-now : (r : Request) (api : VppApi V) → IsSent r (call r api).1.log
  unfolding call
  call-now r api = ((vapi.respond r api.vpp).0, [], api.log, refl)

  module _ (r : Request) where
    move_session-IsSent :
        (i : ℕ) (vrf : Str) (api : VppApi V)
        → IsSent r api.log
        → IsSent r (move_session i vrf api).1.log
    unfolding move_session set_interface_table
    move_session-IsSent i vrf api h = elim (Bool-cases (is_empty vrf)) [
      | inl default ↦ rw default h
      | inr own ↦ rw own (call-IsSent _ r api h)
    ]

    lend-IsSent :
        (i : ℕ) (iface : Option ℕ) (api : VppApi V)
        → IsSent r api.log
        → IsSent r (lend_to_session i iface api).1.log
    unfolding lend_to_session set_unnumbered
    lend-IsSent i none api h = h
    lend-IsSent i (some iface) api h = call-IsSent _ r api h

    unnumber_session-IsSent :
        (i : ℕ) (name : Str) (api : VppApi V)
        → IsSent r api.log
        → IsSent r (unnumber_session i name api).1.log
    unfolding unnumber_session
    unnumber_session-IsSent i name api h = elim (Bool-cases (is_empty name)) [
      | inl nothing ↦ rw nothing h
      | inr wanted ↦ rw wanted (lend-IsSent i (get_iface_by_name name api) api h)
    ]

    after_move-IsSent :
        (s : Session) (i : ℕ) (done : Bool) (api : VppApi V)
        → IsSent r api.log
        → IsSent r (after_move s i (done, api)).1.log
    unfolding after_move
    after_move-IsSent s i false api h = h
    after_move-IsSent s i true api h = unnumber_session-IsSent i s.unnumbered api h

    after_entry-IsSent :
        (s : Session) (o : Option ℕ) (api : VppApi V)
        → IsSent r api.log
        → IsSent r (after_entry s (o, api)).1.log
    unfolding after_entry
    after_entry-IsSent s none api h = h
    after_entry-IsSent s (some i) api h =
        let (done, api') = move_session i s.vrf api in
        after_move-IsSent s i done api' (move_session-IsSent i s.vrf api h)

  add_to_table-now :
      (s : Session) (t : ℕ) (api : VppApi V)
      → IsSent
          (entry s t)
          (add_to_table s.address s.session_id s.encap.source_mac true (some t) api).1.log
  unfolding add_to_table
  add_to_table-now s t api = call-now (entry s t) api

  -- A session of a VRF that is known is entered into the table of that VRF.
  pub provision_dp-IsSent :
      (s : Session) (t : ℕ) (api : VppApi V)
      → is_empty s.vrf ≡ false
      → find s.vrf api.vrfs ≡ some t
      → IsSent (entry s t) (provision_dp s api).1.log
  unfolding provision_dp enter add_pppoe_session
  provision_dp-IsSent s t api named known =
      let now : IsSent (entry s t) (enter s true api).1.log =
        rw (named, known) (add_to_table-now s t api) in
      after_entry-IsSent (entry s t) s (enter s true api).0 (enter s true api).1 now
