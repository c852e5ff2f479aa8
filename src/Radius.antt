-- ===== src/Radius.antt =====
-- src/radius_avp.cpp and src/radius_dict.cpp: the attributes of RADIUS as bytes, and the lookups in
-- the dictionary. The values of a dictionary are not negative.
pub mod Wire
mod Names
pub mod Dictionary
pub mod Requests
use pppcpd.Common.{
  ℕ, zero, suc, ◌+◌, ◌-◌, ◌*◌, ◌%◌, ◌/◌, ◌^◌, List, [], ◌∷◌, ◌++◌, Option, none, some,
}
use pppcpd.Common.{Bool, true, false, ◌==◌, ltb, if◌then◌else◌, length}
use pppcpd.Common.Bytes.{Bytes, load8, load32, copy, be32, bswap32}
use pppcpd.Common.Outcome.{Outcome, ok, stuck, ◌>>=◌}
use pppcpd.Common.Map.{Map, Str, str_eq, ℕ_key, find}

-- RADIUS_TYPE_T
pub data RadiusType : Type 0 where
  string integer ipaddr octets vsa error : RadiusType

-- radius_attribute_t
pub record Attribute : Type 0 where
  pub name : Str
  pub kind : RadiusType
  pub values : Map ℕ Str

abbrev pub Attributes : Type 0
Attributes = Map ℕ Attribute

-- RadiusDict; the vendors serve its construction only.
pub record RadiusDict : Type 0 where
  pub attrs : Attributes
  pub vsa : Map ℕ Attributes

abbrev pub id_in : Attributes → Str → Option ℕ
id_in [] attr = none
id_in ((k, v) ∷ m) attr = if str_eq v.name attr then some k else id_in m attr

abbrev pub id_in_vendors : Map ℕ Attributes → Str → ℕ × ℕ
id_in_vendors [] attr = (0, 0)
id_in_vendors ((vendor, m) ∷ vs) attr = elim (id_in m attr) [
  | none ↦ id_in_vendors vs attr
  | some k ↦ (k, vendor)
]

-- getIdByName: the type and the vendor
unfoldable pub get_id_by_name : RadiusDict → Str → ℕ × ℕ
get_id_by_name d attr = elim (id_in d.attrs attr) [
  | none ↦ id_in_vendors d.vsa attr
  | some k ↦ (k, 0)
]

abbrev pub described : Option Attribute → Str × RadiusType
described none = ([], error)
described (some a) = (a.name, a.kind)

unfoldable pub get_attr_by_id : RadiusDict → ℕ → ℕ → Str × RadiusType
get_attr_by_id d id vendor =
    if vendor == 0
    then described (find id d.attrs)
    else (elim (find vendor d.vsa) [ none ↦ ([], error) | some m ↦ described (find id m) ])

abbrev pub index_in : Map ℕ Str → Str → Option ℕ
index_in [] text = none
index_in ((i, value) ∷ m) text = if str_eq value text then some i else index_in m text

abbrev pub value_in : Attributes → Str → Str → ℕ
value_in [] attr text = 0
value_in ((k, v) ∷ m) attr text =
    let rest = value_in m attr text in
    if str_eq v.name attr
    then (elim (index_in v.values text) [ none ↦ rest | some i ↦ i ])
    else rest

-- getValueByName; 0 for none
unfoldable pub get_value_by_name : RadiusDict → Str → Str → ℕ
get_value_by_name d attr text = value_in d.attrs attr text

-- getValueString; the attribute's id is read nowhere.
unfoldable pub get_value_string : Attribute → ℕ → Str
get_value_string a v = elim (find v a.values) [ none ↦ [] | some text ↦ text ]

-- AVP
pub record Avp : Type 0 where
  pub type : ℕ
  pub length_field : ℕ
  pub value : Bytes
  pub vendor : ℕ
  pub original_len : ℕ

-- `length` is an uint8_t; `original_len` keeps what is in memory.
abbrev pub avp_of : ℕ → ℕ × ℕ → Bytes → Avp
avp_of junk (id, vendor) value = record {
  type = id;
  length_field = (2 + length value) % 2 ^ 8;
  value = value;
  vendor = vendor;
  original_len = junk;
}

-- The constructors from a name, and a number or a text
unfoldable pub avp_be32 : ℕ → RadiusDict → Str → ℕ → Avp
avp_be32 junk d attr v = avp_of junk (get_id_by_name d attr) (be32 v)

unfoldable pub avp_string : ℕ → RadiusDict → Str → Str → Avp
avp_string junk d attr s =
    let i = get_value_by_name d attr s in
    avp_of junk (get_id_by_name d attr) (if i == 0 then s else be32 i)

abbrev pub radius_vsa : ℕ
radius_vsa = 26

-- serialize: the vendor of the object goes out in the order of the host, and without the type 26.
unfoldable pub serialize : Avp → Bytes
serialize a =
    if a.vendor == 0
    then a.type ∷ a.length_field ∷ a.value
    else ((1 + 1 + 4 + 1 + 1 + length a.value) % 2 ^ 8
        ∷ a.vendor % 256
        ∷ a.vendor / 256 % 256
        ∷ a.vendor / 65536 % 256
        ∷ a.vendor / 16777216 % 256
        ∷ a.type
        ∷ a.length_field
        ∷ a.value)

-- The constructor from the bytes at `it`; `none` is an exception, which parseAVP catches: no room, or
-- a length below 2, which makes a range that runs backwards. `vendor` keeps what is in memory unless the
-- attribute is a vendor's.
abbrev pub read_avp : Bytes → ℕ → ℕ → ℕ → ℕ → Outcome (Option Avp)
read_avp v it type vendor original = do
  len ← load8 v it
  (if ltb len 2 then ok none else (do
    value ← copy v (it + 1) (len - 2)
    ok (
        some (record {
          type = type;
          length_field = len;
          value = value;
          vendor = vendor;
          original_len = original;
        }))))

unfoldable pub parse_one : ℕ → Bytes → ℕ → Outcome (Option Avp)
parse_one junk v it = if ltb (length v) (it + 2) then ok none else (do
  type ← load8 v it
  original ← load8 v (it + 1)
  (if type == radius_vsa
      then (do
        vendor ← load32 v (it + 2)
        inner ← load8 v (it + 6)
        read_avp v (it + 7) inner (bswap32 vendor) original)
      else read_avp v (it + 1) type junk original))

-- parseAVP. `junk` says what is in memory where the attribute at an offset is made. An attribute that
-- is got past takes a byte or more, unless its length is 0.
unfoldable pub parse_avp : ℕ → (ℕ → ℕ) → Bytes → ℕ → Outcome (List Avp)
unfolding parse_one
parse_avp zero junk v it = stuck
parse_avp (suc fuel) junk v it = if it == length v then ok [] else (do
  r ← parse_one (junk it) v it
  elim r [
    | none ↦ ok []
    | some a ↦ (do rest ← parse_avp fuel junk v (it + a.original_len); ok (a ∷ rest))
  ])

abbrev pub serialize_all : List Avp → Bytes
serialize_all [] = []
serialize_all (a ∷ more) = serialize a ++ serialize_all more
