-- ===== src/Dataplane/Vrfs.antt =====
-- src/vpp.cpp: set_vrf and dump_vrfs, and the names of the VRFs that VPPAPI keeps.
use pppcpd.Common.{
  ℕ, List, some, none, ◌++◌, Bool, true, false, not, ◌-◌, ◌&&◌, ltb, if◌then◌else◌, take, length,
  replicate,
}
use pppcpd.Common.Bytes.{Bytes}
use pppcpd.Common.Map.{Str, str_key, emplace}
use pppcpd.Common.Outcome.{Outcome, ok, fault, ◌>>=◌}
use pppcpd.Dataplane.{
  Vapi, VppApi, Response, TableDetails, VppVrf, ip_table_add_del, is_negative, call,
}
use pppcpd.Dataplane.Messages.{rows}

-- The name is copied into a field of 64 bytes, whatever its length is: `fault` is a write past it.
unfoldable pub name_field : Str → Outcome Bytes
name_field name =
    if ltb 64 (length name) then fault else ok (name ++ replicate (64 - length name) 0)

-- The name is read from 63 bytes of its field, zeros and all.
abbrev pub vrf_of : TableDetails → VppVrf
vrf_of d = record { name = take 63 d.name; table_id = d.table_id }

module _ {V : Type 0} ⦃vapi : Vapi V⦄ where
  -- A success binds the name, also where the table was deleted; a name that is bound stays so.
  unfoldable pub table_answer : Str → ℕ → Response → VppApi V → Bool × VppApi V
  table_answer name id a api =
      if a.executed && not (is_negative a.retval)
      then (true, record api { vrfs = (emplace name id api.vrfs).0 })
      else (false, api)

  unfoldable pub set_vrf : Str → ℕ → Bool → VppApi V → Outcome (Bool × VppApi V)
  unfolding table_answer name_field call
  set_vrf name id true api = do
    field ← name_field name
    let (a, api') = call (ip_table_add_del true id (some field)) api
    ok (table_answer name id a api')
  set_vrf name id false api =
      let (a, api') = call (ip_table_add_del false id none) api in ok (table_answer name id a api')

  unfoldable pub dump_vrfs : VppApi V → List VppVrf
  dump_vrfs api = rows vrf_of (vapi.tables api.vpp)
