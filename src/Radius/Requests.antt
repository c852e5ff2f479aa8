-- ===== src/Radius/Requests.antt =====
-- src/request_response.cpp: what a request to RADIUS carries, and what is taken from its answer. What
-- md5 gives is a parameter.
pub mod Passwords
pub mod Answers
use pppcpd.Common.{
  ℕ, zero, suc, ◌+◌, ◌-◌, ◌*◌, ◌%◌, ◌/◌, ◌^◌, List, [], ◌∷◌, ◌++◌, Option, none, some,
}
use pppcpd.Common.{Bool, true, false, ◌==◌, ltb, if◌then◌else◌, length, take, drop, replicate}
use pppcpd.Common.Bytes.{Bytes, load32, bswap32}
use pppcpd.Common.Outcome.{Outcome, ok, ◌>>=◌}
use pppcpd.Common.Map.{Str, str_eq}
use pppcpd.Aaa.{RadiusResponse, is_empty}
use pppcpd.Radius.{
  RadiusDict, Avp, avp_be32, avp_string, get_value_by_name, get_attr_by_id, serialize_all,
  parse_avp,
}
use pppcpd.Radius.Names.{
  user_name, user_password, chap_password, chap_challenge, nas_identifier, framed_protocol,
  service_type, calling_station_id, nas_port_id, framed_ip_address, client_dns_pri, client_dns_sec,
  framed_pool, subscriber_profile_name, acct_session_id, acct_input_packets, acct_output_packets,
  acct_input_octets, acct_output_octets, acct_status_type,
}

-- The operator ^ on numbers of so many bits.
unfoldable pub bit_xor : ℕ → ℕ → ℕ → ℕ
bit_xor zero a b = 0
bit_xor (suc n) a b = (a % 2 + b % 2) % 2 + 2 * bit_xor n (a / 2) (b / 2)

abbrev pub xor_bytes : Bytes → Bytes → Bytes
xor_bytes [] ys = []
xor_bytes (x ∷ xs) [] = []
xor_bytes (x ∷ xs) (y ∷ ys) = bit_xor 8 x y ∷ xor_bytes xs ys

-- The loop of password_pap_process: `n` blocks of 16 bytes, each under the digest of the secret and
-- the block before it.
unfoldable pub hide_blocks : (Str → Str) → Str → ℕ → Bytes → Str → Str
hide_blocks md5 secret zero b pass = []
hide_blocks md5 secret (suc n) b pass =
    let c = xor_bytes b (take 16 pass) in
    c ++ hide_blocks md5 secret n (md5 (secret ++ c)) (drop 16 pass)

-- The password with zeros up to a multiple of 16.
abbrev pub padded_length : ℕ → ℕ
padded_length n = if n % 16 == 0 then n else n + (16 - n % 16)

abbrev pub padded : Str → Str
padded pass = pass ++ replicate (padded_length (length pass) - length pass) 0

unfoldable pub password_pap_process : (Str → Str) → Bytes → Str → Str → Str
unfolding hide_blocks
password_pap_process md5 auth secret pass =
    hide_blocks md5 secret (padded_length (length pass) / 16) (md5 (secret ++ auth)) (padded pass)

-- std::set<AVP>: in the order of the types, and one attribute of a type.
unfoldable pub insert_avp : Avp → List Avp → List Avp
insert_avp a [] = a ∷ []
insert_avp a (b ∷ s) =
    if ltb a.type b.type
    then a ∷ b ∷ s
    else (if ltb b.type a.type then b ∷ insert_avp a s else b ∷ s)

-- The initialiser list of a set, in its order
unfoldable pub insert_all : List Avp → List Avp → List Avp
insert_all [] set = set
insert_all (a ∷ more) set = insert_all more (insert_avp a set)

-- `junk` is what the member without an initialiser holds.
abbrev pub with_text : ℕ → RadiusDict → Str → Str → List Avp → List Avp
with_text junk d attr s set = if is_empty s then set else insert_avp (avp_string junk d attr s) set

abbrev pub with_value : ℕ → RadiusDict → Str → Str → List Avp → List Avp
with_value junk d attr s set =
    if is_empty s
    then set
    else (let v = get_value_by_name d attr s in
        if v == 0 then set else insert_avp (avp_be32 junk d attr v) set)

-- The fields that RadiusRequest and RadiusRequestChap share.
pub record RequestFields : Type 0 where
  pub username : Str
  pub nas_id : Str
  pub service_type : Str
  pub framed_protocol : Str
  pub calling_station_id : Str
  pub nas_port_id : Str

abbrev pub with_fields : ℕ → RadiusDict → RequestFields → List Avp → List Avp
with_fields junk d r set = with_text junk d nas_port_id r.nas_port_id (
    with_text junk d calling_station_id r.calling_station_id (
      with_value junk d service_type r.service_type (
        with_value junk d framed_protocol r.framed_protocol
          (with_text junk d nas_identifier r.nas_id set))))

-- serialize<RadiusRequest>
unfoldable pub request_avps :
    (Str → Str) → ℕ → RadiusDict → RequestFields → Str → Bytes → Str → List Avp
unfolding insert_avp password_pap_process
request_avps md5 junk d r password auth secret =
    let avps =
      avp_string junk d user_name r.username
      ∷ avp_string junk d user_password (password_pap_process md5 auth secret password)
      ∷ [] in
    with_fields junk d r (insert_all avps [])

unfoldable pub serialize_request :
    (Str → Str) → ℕ → RadiusDict → RequestFields → Str → Bytes → Str → Bytes
unfolding request_avps
serialize_request md5 junk d r password auth secret =
    serialize_all (request_avps md5 junk d r password auth secret)

-- serialize<RadiusRequestChap>
unfoldable pub chap_avps : ℕ → RadiusDict → RequestFields → Str → Str → List Avp
unfolding insert_avp
chap_avps junk d r challenge response =
    let avps =
      avp_string junk d user_name r.username
      ∷ avp_string junk d chap_password response
      ∷ avp_string junk d chap_challenge challenge
      ∷ [] in
    with_fields junk d r (insert_all avps [])

unfoldable pub serialize_chap_request : ℕ → RadiusDict → RequestFields → Str → Str → Bytes
unfolding chap_avps
serialize_chap_request junk d r challenge response =
    serialize_all (chap_avps junk d r challenge response)

-- AcctRequest
pub record AcctFields : Type 0 where
  pub session_id : Str
  pub username : Str
  pub nas_id : Str
  pub nas_port_id : Str
  pub acct_status_type : Str
  pub calling_station_id : Str
  pub in_pkts : ℕ
  pub out_pkts : ℕ
  pub in_bytes : ℕ
  pub out_bytes : ℕ

-- serialize<AcctRequest>
unfoldable pub acct_avps : ℕ → RadiusDict → AcctFields → List Avp
unfolding insert_avp
acct_avps junk d r =
    let avps =
      avp_string junk d acct_session_id r.session_id
      ∷ avp_string junk d user_name r.username
      ∷ avp_be32 junk d acct_input_packets r.in_pkts
      ∷ avp_be32 junk d acct_output_packets r.out_pkts
      ∷ avp_be32 junk d acct_input_octets r.in_bytes
      ∷ avp_be32 junk d acct_output_octets r.out_bytes
      ∷ [] in
    with_text junk d nas_port_id r.nas_port_id (
      with_text junk d calling_station_id r.calling_station_id (
        with_text junk d nas_identifier r.nas_id
          (with_text junk d acct_status_type r.acct_status_type (insert_all avps []))))

unfoldable pub serialize_acct : ℕ → RadiusDict → AcctFields → Bytes
unfolding acct_avps
serialize_acct junk d r = serialize_all (acct_avps junk d r)

-- getVal<BE32>, native
unfoldable pub get_be32 : Avp → Outcome (Option ℕ)
get_be32 a =
    if length a.value == 4 then (do v ← load32 a.value 0; ok (some (bswap32 v))) else ok none

-- One round of the loop of deserialize<RadiusResponse>; a number of the wrong size changes nothing.
unfoldable pub take_avp : RadiusDict → RadiusResponse → Avp → Outcome RadiusResponse
unfolding get_be32
take_avp d res a =
    let name = (get_attr_by_id d a.type a.vendor).0 in
    if str_eq name framed_ip_address
    then (do v ← get_be32 a; ok (elim v [ none ↦ res | some ip ↦ record res { framed_ip = ip } ]))
    else (if str_eq name client_dns_pri
        then (do v ← get_be32 a; ok (elim v [ none ↦ res | some ip ↦ record res { dns1 = ip } ]))
        else (if str_eq name client_dns_sec
            then (do
              v ← get_be32 a
              ok (elim v [ none ↦ res | some ip ↦ record res { dns2 = ip } ]))
            else (if str_eq name framed_pool
                then ok (record res { framed_pool = a.value })
                else (if str_eq name subscriber_profile_name
                    then ok (record res { pppoe_template = a.value })
                    else ok res))))

unfoldable pub take_avps : RadiusDict → RadiusResponse → List Avp → Outcome RadiusResponse
unfolding take_avp
take_avps d res [] = ok res
take_avps d res (a ∷ more) = do res' ← take_avp d res a; take_avps d res' more

abbrev pub no_response : RadiusResponse
no_response = record { framed_ip = 0; dns1 = 0; dns2 = 0; framed_pool = []; pppoe_template = [] }

-- deserialize<RadiusResponse>
unfoldable pub deserialize : (ℕ → ℕ) → RadiusDict → Bytes → Outcome RadiusResponse
unfolding take_avps parse_avp
deserialize junk d v = do avps ← parse_avp (suc (length v)) junk v 0; take_avps d no_response avps
