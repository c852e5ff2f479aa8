-- ===== src/Radius/Requests/Answers.antt =====
-- The attributes of a request in their order, and what is taken from an answer in the format of the RFC.
use pppcpd.Common.{ℕ, suc, ◌≤◌, ◌≡◌, refl, arith, List, [], ◌∷◌, inl, inr, All}
use pppcpd.Common.{ltb, ◌==◌, Bool-cases}
use pppcpd.Common.Bytes.{Bytes}
use pppcpd.Common.Map.{Str}
use pppcpd.Aaa.{is_empty}
use pppcpd.Radius.{RadiusDict, Avp, avp_be32, avp_string, get_value_by_name}
use pppcpd.Radius.Wire.{
  WireAttribute, IsWireAttribute, encode_attributes, all_seen, parse_avp-encode,
}
use pppcpd.Radius.Requests.{
  insert_avp, insert_all, with_text, with_value, with_fields, RequestFields, request_avps,
  chap_avps, AcctFields, acct_avps, deserialize, take_avps, no_response,
}

-- From a bound on, the types increase: none of them is there twice.
abbrev pub IsAscending : ℕ → List Avp → Type 0
IsAscending low [] = Unit
IsAscending low (a ∷ s) = (low ≤ a.type) × IsAscending (suc a.type) s

-- What an answer in the format of the RFC says is taken over attribute by attribute, to the last one.
pub deserialize-encode :
    (junk : ℕ → ℕ) (d : RadiusDict) (more : List WireAttribute)
    → All IsWireAttribute more
    → deserialize junk d (encode_attributes more) ≡ take_avps d no_response (all_seen junk 0 more)
unfolding deserialize
deserialize-encode junk d more h = rw (parse_avp-encode junk more h) refl

insert_avp-IsAscending :
    (low : ℕ) (a : Avp) (s : List Avp)
    → low ≤ a.type
    → IsAscending low s
    → IsAscending low (insert_avp a s)
unfolding insert_avp
insert_avp-IsAscending low a [] l h = (l, tt)
insert_avp-IsAscending low a (b ∷ s) l (p, h) = elim (Bool-cases (ltb a.type b.type)) [
  | inl before ↦ rw before (l, (ground arith, h))
  | inr not_before ↦ elim (Bool-cases (ltb b.type a.type)) [
    | inl behind ↦
        rw (not_before, behind) (p, insert_avp-IsAscending (suc b.type) a s (ground arith) h)
    | inr same ↦ rw (not_before, same) (p, h)
  ]
]

with_text-IsAscending :
    (junk : ℕ) (d : RadiusDict) (attr s : Str) (set : List Avp)
    → IsAscending 0 set
    → IsAscending 0 (with_text junk d attr s set)
with_text-IsAscending junk d attr s set h = elim (Bool-cases (is_empty s)) [
  | inl empty ↦ rw empty h
  | inr given ↦ rw given (insert_avp-IsAscending 0 (avp_string junk d attr s) set (omega arith) h)
]

with_value-IsAscending :
    (junk : ℕ) (d : RadiusDict) (attr s : Str) (set : List Avp)
    → IsAscending 0 set
    → IsAscending 0 (with_value junk d attr s set)
with_value-IsAscending junk d attr s set h = elim (Bool-cases (is_empty s)) [
  | inl empty ↦ rw empty h
  | inr given ↦ elim (Bool-cases (get_value_by_name d attr s == 0)) [
    | inl unknown ↦ rw (given, unknown) h
    | inr known ↦
        rw (given, known)
          (insert_avp-IsAscending 0 (avp_be32 junk d attr (get_value_by_name d attr s)) set
            (omega arith) h)
  ]
]

with_fields-IsAscending :
    (junk : ℕ) (d : RadiusDict) (r : RequestFields) (set : List Avp)
    → IsAscending 0 set
    → IsAscending 0 (with_fields junk d r set)
with_fields-IsAscending junk d r set h = with_text-IsAscending junk d _ r.nas_port_id _ (
    with_text-IsAscending junk d _ r.calling_station_id _ (
      with_value-IsAscending junk d _ r.service_type _ (
        with_value-IsAscending junk d _ r.framed_protocol _
          (with_text-IsAscending junk d _ r.nas_id set h))))

insert_all-IsAscending :
    (more set : List Avp) → IsAscending 0 set → IsAscending 0 (insert_all more set)
unfolding insert_all
insert_all-IsAscending [] set h = h
insert_all-IsAscending (a ∷ more) set h =
    insert_all-IsAscending more (insert_avp a set) (insert_avp-IsAscending 0 a set (omega arith) h)

-- Whatever the dictionary says of the names, the attributes of an authentication request by PAP or by
-- CHAP and of an accounting request stand in the order of their types, and no type is there twice.
pub requests-IsAscending :
    (md5 : Str → Str) (junk : ℕ) (d : RadiusDict) (r : RequestFields) (password secret : Str)
    (auth : Bytes) (challenge response : Str) (acct : AcctFields)
    → IsAscending 0 (request_avps md5 junk d r password auth secret)
      × IsAscending 0 (chap_avps junk d r challenge response)
      × IsAscending 0 (acct_avps junk d acct)
unfolding request_avps chap_avps acct_avps
requests-IsAscending md5 junk d r password secret auth challenge response acct = (
  with_fields-IsAscending junk d r _ (insert_all-IsAscending _ [] tt),
  with_fields-IsAscending junk d r _ (insert_all-IsAscending _ [] tt),
  with_text-IsAscending junk d _ acct.nas_port_id _ (
      with_text-IsAscending junk d _ acct.calling_station_id _ (
        with_text-IsAscending junk d _ acct.nas_id _ (
          with_text-IsAscending junk d _ acct.acct_status_type _
            (insert_all-IsAscending _ [] tt)))),
)
