-- ===== src/Tests/Attributes.antt =====
-- Attributes of RADIUS, and the requests made of them.
use pppcpd.Common.{ℕ, ◌≡◌, refl, List, [], ◌∷◌, arith, replicate, length, suc}
use pppcpd.Common.Bytes.{Bytes}
use pppcpd.Common.Map.{Str}
use pppcpd.Common.Outcome.{ok}
use pppcpd.Radius.{RadiusDict, string, ipaddr, Avp, parse_avp}
use pppcpd.Radius.Wire.{
  WireAttribute, plain, of_vendor, encode_attributes, all_seen, parse_avp-encode,
}
use pppcpd.Radius.Requests.{
  RequestFields, AcctFields, password_pap_process, padded, deserialize, take_avps, no_response,
}
use pppcpd.Radius.Requests.Passwords.{reveal, reveal-password_pap_process}
use pppcpd.Radius.Requests.Answers.{deserialize-encode}

-- Framed-IP-Address, and an attribute of a vendor.
abbrev attributes : List WireAttribute
attributes = plain 8 (10 ∷ 0 ∷ 0 ∷ 1 ∷ []) ∷ of_vendor 2352 1 (8 ∷ 8 ∷ 8 ∷ 8 ∷ []) ∷ []

abbrev memory : ℕ → ℕ
memory at = 0

parse_avp-encode_example :
    parse_avp (suc (length (encode_attributes attributes))) memory (encode_attributes attributes) 0
    ≡ ok (all_seen memory 0 attributes)
parse_avp-encode_example =
    parse_avp-encode memory attributes ((λ e. cc, omega arith), ((omega arith, omega arith), tt))

abbrev objects : List Avp
objects =
    record { type = 1; length_field = 3; value = 98 ∷ []; vendor = 0; original_len = 0 }
    ∷ record {
      type = 8;
      length_field = 6;
      value = 10 ∷ 0 ∷ 0 ∷ 1 ∷ [];
      vendor = 0;
      original_len = 0;
    }
    ∷ []

-- A vendor's attribute with the outer length 0.
abbrev endless : Bytes
endless = 26 ∷ 0 ∷ 0 ∷ 0 ∷ 9 ∷ 48 ∷ 1 ∷ 3 ∷ 7 ∷ []

abbrev first : Avp
first = record { type = 1; length_field = 3; value = 7 ∷ []; vendor = 2352; original_len = 0 }

abbrev digest : Str → Str
digest s = replicate 16 0x5a

abbrev password : Str
password = b's' ∷ b'3' ∷ []

reveal-password_pap_process_example :
    reveal digest
      (replicate 16 1)
      (b'k' ∷ [])
      (password_pap_process digest (replicate 16 1) (b'k' ∷ []) password)
    ≡ padded password
reveal-password_pap_process_example =
    reveal-password_pap_process digest (replicate 16 1) (b'k' ∷ []) password (λ s. refl)
      (omega arith, (omega arith, tt))

abbrev dict : RadiusDict
dict = record {
  attrs =
      (1, record { name = b'n' ∷ []; kind = string; values = [] })
      ∷ (8, record { name = b'i' ∷ []; kind = ipaddr; values = [] })
      ∷ [];
  vsa = [];
}

taken_over :
    deserialize memory dict (encode_attributes attributes)
    ≡ take_avps dict no_response (all_seen memory 0 attributes)
taken_over =
    deserialize-encode memory dict attributes
      ((λ e. cc, omega arith), ((omega arith, omega arith), tt))

abbrev fields : RequestFields
fields = record {
  username = b'u' ∷ [];
  nas_id = b'n' ∷ [];
  service_type = [];
  framed_protocol = [];
  calling_station_id = [];
  nas_port_id = b'e' ∷ [];
}

abbrev acct : AcctFields
acct = record {
  session_id = b'7' ∷ [];
  username = b'u' ∷ [];
  nas_id = [];
  nas_port_id = [];
  acct_status_type = [];
  calling_station_id = [];
  in_pkts = 1;
  out_pkts = 2;
  in_bytes = 3;
  out_bytes = 4;
}
