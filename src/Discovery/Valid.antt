-- ===== src/Discovery/Valid.antt =====
-- Every packet of discovery keeps the tables valid: processPPPOE of src/pppoe.cpp.
use pppcpd.Common.{
  [], Bool-cases, refl, Option, none, some, inl, inr, ◌==◌, if◌then◌else◌, Option-cases, length,
  drop, ltb,
}
use pppcpd.Common.Bytes.{Bytes, load8, load16, bswap16}
use pppcpd.Common.Outcome.{ok, Holds, Holds-any, Holds-bind, Holds-if}
use pppcpd.Common.Map.{Str, find, ℕ_key, insert}
use pppcpd.Common.Counting.{emplace_fresh, emplace_present}
use pppcpd.Encap.{Encap}
use pppcpd.Session.{Junk}
use pppcpd.Keys.{ConnKey, conn_key}
use pppcpd.Aaa.Methods.{CountersOf}
use pppcpd.Runtime.{Runtime, Error, pend_session}
use pppcpd.Runtime.Valid.{IsValid, IsValid-tables, allocate_session-IsValid}
use pppcpd.Runtime.Release.{deallocate_session-Released}
use pppcpd.Runtime.Pending.{check-pending, check-absent}
use pppcpd.Discovery.{
  Policy, Policies, Tags, Answer, refused, reply, done, padi, padr, padt, pended, offer,
  has_service, process_padi, process_padr, process_pppoe, confirm, conn_of, send, parse_tags,
  disc_hdr_size, policy_of, service_name_tag, offer_tags, finish, pado,
}
use pppcpd.Discovery.Sessions.{unpended, unpended-IsValid, confirmed-state, asked}

abbrev pub Leaves : Answer × Runtime → Type 0
Leaves (x, rt) = IsValid rt

pend_session-IsValid : (k : ConnKey) (rt : Runtime) → IsValid rt → IsValid (pend_session k rt).1
unfolding pend_session
pend_session-IsValid k rt v = elim (Option-cases (find k rt.pending_session)) [
  | inl fresh ↦ rw (emplace_fresh k tt rt.pending_session fresh) (
      IsValid-tables rt (record rt { pending_session = insert k tt rt.pending_session }) refl refl
        refl v)
  | inr (u, there) ↦ rw (emplace_present k tt u rt.pending_session there) v
]

pended-Leaves : (out : Bytes) (r : Option Error × Runtime) → IsValid r.1 → Leaves (pended out r)
pended-Leaves out (none, rt) v = v
pended-Leaves out (some e, rt) v = v

offer-Leaves :
    (c : Policy) (random : Str) (tags : Tags) (e : Encap) (rt : Runtime)
    → IsValid rt
    → Leaves (offer c random tags e rt)
unfolding offer
offer-Leaves c random tags e rt v =
    let k = conn_of e (if c.insert_cookie then random else []) in
    elim (Bool-cases (has_service c (find service_name_tag tags))) [
      | inl served ↦ rw served (
          pended-Leaves (finish pado 0 (offer_tags c random tags)) (pend_session k rt)
            (pend_session-IsValid k rt v))
      | inr unserved ↦ rw unserved v
    ]

padi-Leaves :
    (p : Policies) (random : Str) (pkt : Bytes) (e : Encap) (rt : Runtime)
    → IsValid rt
    → Holds Leaves (process_padi p random pkt e rt)
unfolding process_padi
padi-Leaves p random pkt e rt v = Holds-if Leaves (ltb (length pkt) disc_hdr_size) _ _ v (
    Holds-any Leaves (parse_tags (drop disc_hdr_size pkt)) _ (λ (tags, err).
      elim (Option-cases err) [
        | inl read ↦ rw read (offer-Leaves (policy_of p e.outer_vlan) random tags e rt v)
        | inr (r, unread) ↦ rw unread v
      ]))

confirm-Leaves :
    (junk : Junk) (tags : Tags) (e : Encap) (rt : Runtime)
    → IsValid rt
    → Holds Leaves (confirm junk tags e rt)
unfolding confirm
confirm-Leaves junk tags e rt v = elim (Option-cases (find (asked e tags) rt.pending_session)) [
  | inl absent ↦ rw (check-absent (asked e tags) rt absent) v
  | inr (u, there) ↦
      let rt' = unpended (asked e tags) rt in
      let (r, made, how, valid) =
        allocate_session-IsValid junk e rt' (unpended-IsValid (asked e tags) rt v) in
      rw (check-pending (asked e tags) rt there, made) (rw (confirmed-state tags r) valid)
]

padr-Leaves :
    (junk : Junk) (pkt : Bytes) (e : Encap) (rt : Runtime)
    → IsValid rt
    → Holds Leaves (process_padr junk pkt e rt)
unfolding process_padr
padr-Leaves junk pkt e rt v = Holds-if Leaves (ltb (length pkt) disc_hdr_size) _ _ v (
    Holds-any Leaves (parse_tags (drop disc_hdr_size pkt)) _ (λ (tags, err).
      elim (Option-cases err) [
        | inl read ↦ rw read (confirm-Leaves junk tags e rt v)
        | inr (r, unread) ↦ rw unread v
      ]))

send-Leaves : (e : Encap) (r : Answer × Runtime) → Leaves r → Leaves (send e r)
send-Leaves e (reply out, rt) v = IsValid-tables rt (send e (reply out, rt)).1 refl refl refl v
send-Leaves e (refused r, rt) v = v
send-Leaves e (done, rt) v = v

-- Every packet of discovery that is read to its end keeps the tables valid, whatever its code and its
-- tags are.
pub process_pppoe-Leaves :
    (counters : CountersOf) (p : Policies) (junk : Junk) (random : Str) (pkt : Bytes) (e : Encap)
    (rt : Runtime)
    → IsValid rt
    → Holds Leaves (process_pppoe counters p junk random pkt e rt)
unfolding process_pppoe
process_pppoe-Leaves counters p junk random pkt e rt v = Holds-any Leaves (load8 pkt 1) _ (λ code.
    Holds-if Leaves (code == padi) _ _
      (Holds-bind Leaves (process_padi p random pkt e rt) (λ r. ok (send e r))
        (padi-Leaves p random pkt e rt v) (λ r q. send-Leaves e r q))
      (Holds-if Leaves (code == padr) _ _
        (Holds-bind Leaves (process_padr junk pkt e rt) (λ r. ok (send e r))
          (padr-Leaves junk pkt e rt v) (λ r q. send-Leaves e r q))
        (Holds-if Leaves (code == padt) _ _
          (Holds-any Leaves (load16 pkt 2) _
            (λ sid. (deallocate_session-Released counters (bswap16 sid) rt v).1))
          v)))
