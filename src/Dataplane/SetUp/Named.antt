-- ===== src/Dataplane/SetUp/Named.antt =====
-- src/runtime.cpp and set_vrf of src/vpp.cpp: which table a name of a VRF stands for after the set-up.
use pppcpd.Common.{◌≡◌, refl, ap, ◌∙◌, List, [], some, All}
use pppcpd.Common.Map.{str_key, find}
use pppcpd.Common.Outcome.{ok}
use pppcpd.Dataplane.{Vapi, VppApi, RibEntry}
use pppcpd.Dataplane.Messages.{create_tap}
use pppcpd.Dataplane.Vrfs.{dump_vrfs}
use pppcpd.Dataplane.SetUp.{SetUpConf, delete_taps, start_tap, finish_set_up, set_up}
use pppcpd.Dataplane.SetUp.Keeps.{
  HasVrfs, delete_taps-HasVrfs, start_tap-HasVrfs, finish_set_up-HasVrfs,
}
use pppcpd.Dataplane.SetUp.Tables.{
  IsShort, Distinct, HasFields, TakesTables, clear_vrfs-free, dump_vrfs-long, create_vrfs-bound,
  each_free,
}

module _ {V : Type 0} ⦃vapi : Vapi V⦄ where
  -- The set-up ends, whatever VPP held before, when VPP refuses no new table, and the names of the
  -- configured VRFs are distinct and shorter than 63 bytes; after it each of these names stands for the
  -- table configured under it.
  pub set_up-named :
      (conf : SetUpConf) (api : VppApi V)
      → api.vrfs ≡ []
      → HasFields vapi
      → TakesTables vapi
      → All (λ c. IsShort c.name) conf.vrfs
      → Distinct conf.vrfs
      → (r : List RibEntry × VppApi V) × (set_up conf api ≡ ok r)
        × All (λ c. find c.name r.1.vrfs ≡ some c.table_id) conf.vrfs
  unfolding set_up find
  set_up-named conf api new fields takes short distinct =
      let api₁ = start_tap (create_tap conf.tap_name (delete_taps api)) in
      let none_yet : HasVrfs [] api₁ =
        start_tap-HasVrfs [] conf.tap_name (delete_taps api) (delete_taps-HasVrfs [] api new) in
      let (api₂, cleared, free) =
        clear_vrfs-free (dump_vrfs api₁) api₁ (dump_vrfs-long api₁ fields) in
      let (api₃, made, bound, stays) =
        create_vrfs-bound conf.vrfs api₂ takes short distinct
          (each_free conf.vrfs api₂.vrfs short (λ n s. free n s ∙ ap (find n) none_yet)) in
      let r = finish_set_up conf api₃ in
      (r, rw (cleared, made) refl, rw (finish_set_up-HasVrfs api₃.vrfs conf api₃ refl) bound)
