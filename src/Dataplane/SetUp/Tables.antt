-- ===== src/Dataplane/SetUp/Tables.antt =====
-- src/runtime.cpp and set_vrf of src/vpp.cpp: the tables of VPP go, and those of the configuration come.
use pppcpd.Common.{
  ℕ, length-take, ◌++◌, replicate, ◌≡◌, ◌≢◌, ◌<◌, ◌-◌, refl, ap, ◌∙◌, List, [], ◌∷◌, Option, none,
  some, true, false, All, length, Bool-cases, inl, inr, arith, ◌==◌, ltb-false, not, ◌&&◌,
}
use pppcpd.Common.Bytes.{Bytes}
use pppcpd.Common.Map.{
  Map, Str, str_key, find, emplace, find-emplace, find-emplace_other, find-emplace_new,
}
use pppcpd.Common.Outcome.{ok}
use pppcpd.Dataplane.{
  Vapi, VppApi, Response, TableDetails, VppVrf, VrfConf, ip_table_add_del, is_negative, call,
}
use pppcpd.Dataplane.Messages.{map}
use pppcpd.Dataplane.Vrfs.{set_vrf, dump_vrfs, table_answer, name_field, vrf_of}
use pppcpd.Dataplane.SetUp.{clear_vrfs, create_vrfs, fill_vrf, add_routes}
use pppcpd.Dataplane.SetUp.Keeps.{add_routes-HasVrfs}

abbrev pub IsShort : Str → Type 0
IsShort n = length n < 63

abbrev pub Distinct : List VrfConf → Type 0
Distinct [] = Unit
Distinct (c ∷ cs) = All (λ d. c.name ≢ d.name) cs × Distinct cs

-- The fields of 64 bytes that the dump gives.
abbrev pub HasFields : {V : Type 0} → Vapi V → Type 0
HasFields {V} vapi = (v : V) → All (λ d. length d.name ≡ 64) (vapi.tables v).1

-- No table is refused.
abbrev pub TakesTables : {V : Type 0} → Vapi V → Type 0
TakesTables {V} vapi =
    (id : ℕ) (field : Option Bytes) (v : V)
    → let (a, _) = vapi.respond (ip_table_add_del true id field) v in
      (a.executed ≡ true) × (is_negative a.retval ≡ false)

dumped-long :
    (ds : List TableDetails)
    → All (λ d. length d.name ≡ 64) ds
    → All (λ v. length v.name ≡ 63) (map vrf_of ds)
dumped-long [] h = h
dumped-long (d ∷ ds) (h, hs) = (length-take 63 d.name (omega (arith, h)), dumped-long ds hs)

still_free :
    (c : VrfConf) (cs : List VrfConf) (m : Map Str ℕ)
    → All (λ d. c.name ≢ d.name) cs
    → All (λ d. find d.name m ≡ none) cs
    → All (λ d. find d.name (emplace c.name c.table_id m).0 ≡ none) cs
still_free c [] m differ free = tt
still_free c (d ∷ ds) m (differs, differ) (f, free) =
    (find-emplace_other c.name d.name c.table_id m differs ∙ f, still_free c ds m differ free)

pub each_free :
    (cs : List VrfConf) (m : Map Str ℕ)
    → All (λ c. IsShort c.name) cs
    → ((n : Str) → IsShort n → find n m ≡ none)
    → All (λ c. find c.name m ≡ none) cs
each_free [] m short free = tt
each_free (c ∷ cs) m (s, short) free = (free c.name s, each_free cs m short free)

module _ {V : Type 0} ⦃vapi : Vapi V⦄ where
  table_answer-other :
      (name n : Str) (id : ℕ) (a : Response) (api : VppApi V)
      → name ≢ n
      → find n (table_answer name id a api).1.vrfs ≡ find n api.vrfs
  unfolding table_answer
  table_answer-other name n id a api h =
      elim (Bool-cases (a.executed && not (is_negative a.retval))) [
        | inl took ↦ rw took (find-emplace_other name n id api.vrfs h)
        | inr refused ↦ rw refused refl
      ]

  deleted : VppVrf → VppApi V → VppApi V
  unfolding call
  deleted v api =
      let (a, api') = call (ip_table_add_del false v.table_id none) api in
      (table_answer v.name v.table_id a api').1

  deleted-other :
      (v : VppVrf) (api : VppApi V) (n : Str)
      → v.name ≢ n
      → find n (deleted v api).vrfs ≡ find n api.vrfs
  unfolding deleted call
  deleted-other v api n h =
      let (a, api') = call (ip_table_add_del false v.table_id none) api in
      table_answer-other v.name n v.table_id a api' h

  -- A name that is shorter than those of the dump stays free while the tables go.
  pub clear_vrfs-free :
      (vs : List VppVrf) (api : VppApi V)
      → All (λ v. length v.name ≡ 63) vs
      → (api' : VppApi V) × (clear_vrfs vs api ≡ ok api')
        × ((n : Str) → IsShort n → find n api'.vrfs ≡ find n api.vrfs)
  unfolding clear_vrfs set_vrf deleted call
  clear_vrfs-free [] api long = (api, refl, λ n s. refl)
  clear_vrfs-free (v ∷ vs) api (long, rest) = elim (Bool-cases (v.table_id == 0)) [
    | inl default ↦ rw default (clear_vrfs-free vs api rest)
    | inr other ↦
        let (api', e, same) = clear_vrfs-free vs (deleted v api) rest in
        (
          api',
          rw other e,
          λ n s.
              same n s
              ∙ deleted-other v api n
                  (λ x. let y : length v.name ≡ length n = ap length x in omega (arith, long, s)),
        )
  ]

  pub dump_vrfs-long :
      (api : VppApi V) → HasFields vapi → All (λ v. length v.name ≡ 63) (dump_vrfs api)
  unfolding dump_vrfs
  dump_vrfs-long api h = elim (Bool-cases (vapi.tables api.vpp).0) [
    | inl executed ↦ rw executed (dumped-long (vapi.tables api.vpp).1 (h api.vpp))
    | inr failed ↦ rw failed tt
  ]

  -- A VRF of the configuration with its routes.
  created : VrfConf → Bytes → VppApi V → VppApi V
  unfolding call
  created c field api =
      let (a, api') = call (ip_table_add_del true c.table_id (some field)) api in
      add_routes c.table_id c.rib (record api' { vrfs = (emplace c.name c.table_id api.vrfs).0 })

  created-vrfs :
      (c : VrfConf) (field : Bytes) (api : VppApi V)
      → (created c field api).vrfs ≡ (emplace c.name c.table_id api.vrfs).0
  unfolding created call
  created-vrfs c field api =
      add_routes-HasVrfs (emplace c.name c.table_id api.vrfs).0 c.table_id c.rib _ refl

  create_vrfs-cons :
      (c : VrfConf) (cs : List VrfConf) (api : VppApi V)
      → TakesTables vapi
      → IsShort c.name
      → let field = c.name ++ replicate (64 - length c.name) 0 in
        create_vrfs (c ∷ cs) api ≡ create_vrfs cs (created c field api)
  unfolding create_vrfs set_vrf name_field table_answer fill_vrf created call
  create_vrfs-cons c cs api takes short =
      let field = c.name ++ replicate (64 - length c.name) 0 in
      let (done, fine) = takes c.table_id (some field) api.vpp in
      rw (ltb-false 64 (length c.name) (omega (arith, short)), done, fine) refl

  pub create_vrfs-bound :
      (cs : List VrfConf) (api : VppApi V)
      → TakesTables vapi
      → All (λ c. IsShort c.name) cs
      → Distinct cs
      → All (λ c. find c.name api.vrfs ≡ none) cs
      → (api' : VppApi V) × (create_vrfs cs api ≡ ok api')
        × All (λ c. find c.name api'.vrfs ≡ some c.table_id) cs
        × ((n : Str) (t : ℕ) → find n api.vrfs ≡ some t → find n api'.vrfs ≡ some t)
  unfolding create_vrfs
  create_vrfs-bound [] api takes short distinct free = (api, refl, tt, λ n t h. h)
  create_vrfs-bound (c ∷ cs) api takes (s, short) (differ, distinct) (f, free) =
      let field = c.name ++ replicate (64 - length c.name) 0 in
      let now = created-vrfs c field api in
      let (api', e, bound, stays) =
        create_vrfs-bound cs (created c field api) takes short distinct
          (rw now (still_free c cs api.vrfs differ free)) in
      (
        api',
        create_vrfs-cons c cs api takes s ∙ e,
        (stays c.name c.table_id (rw now (find-emplace_new c.name c.table_id api.vrfs f)), bound),
        λ n t h. stays n t (rw now (find-emplace c.name n c.table_id t api.vrfs h)),
      )
