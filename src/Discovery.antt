-- ===== src/Discovery.antt =====
-- src/pppoe.cpp with PPPOEPolicy of src/policy.hpp: discovery of PPPoE, PADI, PADR and PADT.
-- A packet begins at its PPPoE header; what random_string gives is an argument.
pub mod Sessions
pub mod Tagging
pub mod Valid
use pppcpd.Common.{ℕ, zero, suc, ◌+◌, ◌-◌, ◌%◌, ◌^◌, List, [], ◌∷◌, ◌++◌, Option, none, some}
use pppcpd.Common.{Bool, true, false, not, ◌==◌, ltb, if◌then◌else◌, length, take, drop, replicate}
use pppcpd.Common.Bytes.{Bytes, load8, load16, copy, be16, bswap16}
use pppcpd.Common.Outcome.{Outcome, ok, fault, stuck, ◌>>=◌}
use pppcpd.Common.Map.{Map, Str, ℕ_key, find, emplace, str_eq}
use pppcpd.Encap.{Encap, generate_header, eth_pppoe_discovery}
use pppcpd.Session.{Junk}
use pppcpd.Keys.{ConnKey}
use pppcpd.Aaa.{is_empty}
use pppcpd.Aaa.Methods.{CountersOf}
use pppcpd.Runtime.{
  Runtime, Error, cannot_pend, pend_session, check_session, allocate_session, deallocate_session,
}

-- PPPOEPolicy
pub record Policy : Type 0 where
  pub ac_name : Str
  pub service_name : List Str
  pub insert_cookie : Bool
  pub ignore_service_name : Bool

-- conf.pppoe_confs and conf.default_pppoe_conf
pub record Policies : Type 0 where
  pub confs : Map ℕ Policy
  pub default_conf : Policy

pub data Refusal : Type 0 where
  too_small wrong_service unexpected_session incorrect_code : Refusal
  cannot_insert : ℕ → Refusal
  of_runtime : Error → Refusal

-- PPPOE_CODE
abbrev pub padi : ℕ
padi = 0x09

abbrev pub pado : ℕ
pado = 0x07

abbrev pub padr : ℕ
padr = 0x19

abbrev pub pads : ℕ
pads = 0x65

abbrev pub padt : ℕ
padt = 0xa7

-- PPPOE_TAG
abbrev pub end_of_list : ℕ
end_of_list = 0x0000

abbrev pub service_name_tag : ℕ
service_name_tag = 0x0101

abbrev pub ac_name_tag : ℕ
ac_name_tag = 0x0102

abbrev pub host_uniq_tag : ℕ
host_uniq_tag = 0x0103

abbrev pub ac_cookie_tag : ℕ
ac_cookie_tag = 0x0104

abbrev pub disc_hdr_size : ℕ
disc_hdr_size = 6

abbrev pub Tags : Type 0
Tags = Map ℕ Str

-- The bytes that insertTag appends, and what it returns: their number as an uint8_t.
abbrev pub tag_bytes : ℕ → Str → Bytes
tag_bytes tag val = be16 tag ++ be16 (length val) ++ val

unfoldable pub insert_tag : Bytes → ℕ → Str → Bytes × ℕ
insert_tag pkt tag val = (pkt ++ tag_bytes tag val, length (tag_bytes tag val) % 2 ^ 8)

-- The loop of parseTags; every round takes four bytes or more.
unfoldable pub parse_from : ℕ → Bytes → ℕ → Tags → Outcome (Tags × Option Refusal)
parse_from zero pkt offset tags = stuck
parse_from (suc fuel) pkt offset tags = do
  t ← load16 pkt offset
  l ← load16 pkt (offset + 2)
  let tag = bswap16 t
  let len = bswap16 l
  (if tag == end_of_list then ok (tags, none) else (do
    val ← copy pkt (offset + 4) len
    let (tags', fresh) = emplace tag val tags
    let rest = parse_from fuel pkt (offset + (4 + len)) tags'
    (if fresh
        then (if ltb (offset + (4 + len)) (length pkt) then rest else ok (tags', none))
        else ok (tags, some (cannot_insert tag)))))

unfoldable pub parse_tags : Bytes → Outcome (Tags × Option Refusal)
unfolding parse_from
parse_tags pkt = parse_from (suc (length pkt)) pkt 0 []

-- A reply under construction, and `taglen`, an uint16_t.
abbrev pub Reply : Type 0
Reply = Bytes × ℕ

abbrev pub add_tag : ℕ → Str → Reply → Reply
add_tag tag val (out, taglen) =
    let (out', n) = insert_tag out tag val in (out', (taglen + n) % 2 ^ 16)

-- A tag of the request that is sent back.
abbrev pub echo_tag : ℕ → Option Str → Reply → Reply
echo_tag tag none r = r
echo_tag tag (some val) r = add_tag tag val r

-- resize
abbrev pub resize : ℕ → Bytes → Bytes
resize n out = take n (out ++ replicate (n - length out) 0)

-- The header of the answer, and the length it is cut to.
abbrev pub finish : ℕ → ℕ → Reply → Bytes
finish code sid (out, taglen) =
    resize (disc_hdr_size + taglen) (0x11 ∷ code ∷ be16 sid ++ be16 taglen ++ out)

abbrev pub policy_of : Policies → ℕ → Policy
policy_of p vlan = elim (find vlan p.confs) [ none ↦ p.default_conf | some c ↦ c ]

-- What a handler hands back: a text for the log, a reply, or nothing.
pub data Answer : Type 0 where
  refused : Refusal → Answer
  reply : Bytes → Answer
  done : Answer

-- The conditions of the service name: it is one of the policy's, or the policy ignores it. An empty
-- name that is not ignored is refused even where the policy lists it.
abbrev offered : List Str → Str → Bool
offered [] val = false
offered (s ∷ services) val = if str_eq s val then true else offered services val

abbrev pub is_served : Policy → Str → Bool
is_served c val =
    let selected = if offered c.service_name val then not (is_empty val) else false in
    if selected then true else c.ignore_service_name

abbrev pub has_service : Policy → Option Str → Bool
has_service c none = true
has_service c (some val) = is_served c val

abbrev pub conn_of : Encap → Str → ConnKey
conn_of e cookie = record {
  mac = e.source_mac;
  outer_vlan = e.outer_vlan;
  inner_vlan = e.inner_vlan;
  cookie = cookie;
}

abbrev pub pended : Bytes → Option Error × Runtime → Answer × Runtime
pended out (none, rt) = (reply out, rt)
pended out (some err, rt) = (refused (of_runtime err), rt)

abbrev pub offer_tags : Policy → Str → Tags → Reply
offer_tags c random tags =
    let r =
      echo_tag service_name_tag (find service_name_tag tags) (
        echo_tag host_uniq_tag (find host_uniq_tag tags) (add_tag ac_name_tag c.ac_name ([], 0))) in
    if c.insert_cookie then add_tag ac_cookie_tag random r else r

-- process_padi behind the parser
unfoldable pub offer : Policy → Str → Tags → Encap → Runtime → Answer × Runtime
offer c random tags e rt =
    if has_service c (find service_name_tag tags)
    then pended (finish pado 0 (offer_tags c random tags))
        (pend_session (conn_of e (if c.insert_cookie then random else [])) rt)
    else (refused wrong_service, rt)

unfoldable pub process_padi : Policies → Str → Bytes → Encap → Runtime → Outcome (Answer × Runtime)
unfolding parse_tags offer
process_padi p random pkt e rt =
    if ltb (length pkt) disc_hdr_size then ok (refused too_small, rt) else (do
      (tags, err) ← parse_tags (drop disc_hdr_size pkt)
      ok (elim err [
        | none ↦ offer (policy_of p e.outer_vlan) random tags e rt
        | some r ↦ (refused r, rt)
      ]))

abbrev pub or_empty : Option Str → Str
or_empty none = []
or_empty (some s) = s

abbrev pub confirmed : Tags → (ℕ × Option Error) × Runtime → Answer × Runtime
confirmed tags ((sid, some err), rt) = (refused (of_runtime err), rt)
confirmed tags ((sid, none), rt) = (
  reply (
      finish pads sid (
        echo_tag host_uniq_tag (find host_uniq_tag tags)
          (echo_tag service_name_tag (find service_name_tag tags) ([], 0)))),
  rt,
)

-- process_padr behind the parser
unfoldable pub confirm : Junk → Tags → Encap → Runtime → Outcome (Answer × Runtime)
confirm junk tags e rt =
    let (expected, rt') = check_session (conn_of e (or_empty (find ac_cookie_tag tags))) rt in
    if expected
    then (do r ← allocate_session junk e rt'; ok (confirmed tags r))
    else ok (refused unexpected_session, rt')

unfoldable pub process_padr : Junk → Bytes → Encap → Runtime → Outcome (Answer × Runtime)
unfolding parse_tags confirm
process_padr junk pkt e rt =
    if ltb (length pkt) disc_hdr_size then ok (refused too_small, rt) else (do
      (tags, err) ← parse_tags (drop disc_hdr_size pkt)
      elim err [ none ↦ confirm junk tags e rt | some r ↦ ok (refused r, rt) ])

abbrev pub send : Encap → Answer × Runtime → Answer × Runtime
send e (reply out, rt) = (
  done,
  record rt {
    pppoe_outcoming =
        rt.pppoe_outcoming ++ ((generate_header e rt.hwaddr eth_pppoe_discovery ++ out) ∷ []);
  },
)
send e (a, rt) = (a, rt)

unfoldable pub process_pppoe :
    CountersOf → Policies → Junk → Str → Bytes → Encap → Runtime → Outcome (Answer × Runtime)
unfolding process_padi process_padr
process_pppoe counters p junk random pkt e rt = do
  code ← load8 pkt 1
  (if code == padi
      then (do r ← process_padi p random pkt e rt; ok (send e r))
      else (if code == padr
          then (do r ← process_padr junk pkt e rt; ok (send e r))
          else (if code == padt
              then (do
                sid ← load16 pkt 2
                ok (done, (deallocate_session counters (bswap16 sid) rt).1))
              else ok (refused incorrect_code, rt))))
