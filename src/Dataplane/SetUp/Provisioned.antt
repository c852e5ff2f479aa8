-- ===== src/Dataplane/SetUp/Provisioned.antt =====
-- src/runtime.cpp and src/session.cpp: a session in a VRF of the configuration, after the set-up.
use pppcpd.Common.{◌≡◌, List, [], ◌∷◌, some, false, All}
use pppcpd.Common.Map.{str_key, find}
use pppcpd.Common.Outcome.{ok}
use pppcpd.Aaa.{is_empty}
use pppcpd.Session.{Session}
use pppcpd.Dataplane.{Vapi, VppApi, VrfConf, RibEntry}
use pppcpd.Dataplane.Provision.{provision_dp}
use pppcpd.Dataplane.Provision.Sent.{IsSent, entry, provision_dp-IsSent}
use pppcpd.Dataplane.SetUp.{SetUpConf, set_up}
use pppcpd.Dataplane.SetUp.Tables.{IsShort, Distinct, HasFields, TakesTables}
use pppcpd.Dataplane.SetUp.Named.{set_up-named}

-- A VRF of the configuration that a session can be in, since no VRF has the empty name.
abbrev pub IsUsable : VrfConf → Type 0
IsUsable c = IsShort c.name × (is_empty c.name ≡ false)

short : (cs : List VrfConf) → All IsUsable cs → All (λ c. IsShort c.name) cs
short [] h = tt
short (c ∷ cs) (h, hs) = (h.0, short cs hs)

module _ {V : Type 0} ⦃vapi : Vapi V⦄ (s : Session) (api : VppApi V) where
  each_entered :
      (cs : List VrfConf)
      → All IsUsable cs
      → All (λ c. find c.name api.vrfs ≡ some c.table_id) cs
      → All
          (λ c.
            let s' : Session = record s { vrf = c.name } in
            IsSent (entry s' c.table_id) (provision_dp s' api).1.log)
          cs
  each_entered [] usable bound = tt
  each_entered (c ∷ cs) (u, usable) (b, bound) = (
    provision_dp-IsSent (record s { vrf = c.name }) c.table_id api u.1 b,
    each_entered cs usable bound,
  )

-- The set-up ends, whatever VPP held before, when VPP refuses no new table, the names of the
-- configured VRFs are distinct, and each has 1 to 62 bytes. A session that is provisioned after it in
-- one of these VRFs is entered into VPP in the table that the configuration gives this VRF.
pub set_up-provisioned :
    {V : Type 0} ⦃vapi : Vapi V⦄ (conf : SetUpConf) (api : VppApi V) (s : Session)
    → api.vrfs ≡ []
    → HasFields vapi
    → TakesTables vapi
    → All IsUsable conf.vrfs
    → Distinct conf.vrfs
    → (r : List RibEntry × VppApi V) × (set_up conf api ≡ ok r)
      × All
          (λ c.
            let s' : Session = record s { vrf = c.name } in
            IsSent (entry s' c.table_id) (provision_dp s' r.1).1.log)
          conf.vrfs
set_up-provisioned conf api s new fields takes usable distinct =
    let (r, e, bound) = set_up-named conf api new fields takes (short conf.vrfs usable) distinct in
    (r, e, each_entered s r.1 conf.vrfs usable bound)
