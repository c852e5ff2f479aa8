-- ===== src/Radius/Dictionary.antt =====
-- src/radius_dict.cpp: RadiusDict read from text files, line by line. A file that cannot be opened gives
-- no lines. An exception of std::stoi, which nobody catches, stands as a fault.
-- remove_if leaves as many words as there were, with unspecified text behind those that are not empty:
-- `left` is that text by its place. A negative value stands as its 32 bits, which std::map would put before the others.
use pppcpd.Common.{
  ℕ, zero, suc, ◌+◌, ◌-◌, ◌*◌, ◌%◌, ◌^◌, List, [], ◌∷◌, ◌++◌, none, some, Bool, true, false, not,
  ◌&&◌, ◌||◌, ◌==◌, leb, ltb, if◌then◌else◌, length,
}
use pppcpd.Common.Outcome.{Outcome, ok, fault, ◌>>=◌}
use pppcpd.Common.Map.{Map, Str, str_key, ℕ_key, find, emplace, update}
use pppcpd.Common.Words.{begins_with, occurs_in, split_by, filled}
use pppcpd.Radius.{
  RadiusType, string, integer, ipaddr, octets, vsa, error, Attribute, Attributes, RadiusDict,
}

abbrev attribute_word : Str
attribute_word = b'A' ∷ b'T' ∷ b'T' ∷ b'R' ∷ b'I' ∷ b'B' ∷ b'U' ∷ b'T' ∷ b'E' ∷ []

abbrev value_word : Str
value_word = b'V' ∷ b'A' ∷ b'L' ∷ b'U' ∷ b'E' ∷ []

abbrev vendor_word : Str
vendor_word = b'V' ∷ b'E' ∷ b'N' ∷ b'D' ∷ b'O' ∷ b'R' ∷ []

abbrev begin_vendor_word : Str
begin_vendor_word = b'B' ∷ b'E' ∷ b'G' ∷ b'I' ∷ b'N' ∷ b'-' ∷ vendor_word

abbrev end_vendor_word : Str
end_vendor_word = b'E' ∷ b'N' ∷ b'D' ∷ b'-' ∷ vendor_word

-- The names of the types, the last that fits being taken.
abbrev string_word : Str
string_word = b's' ∷ b't' ∷ b'r' ∷ b'i' ∷ b'n' ∷ b'g' ∷ []

abbrev octets_word : Str
octets_word = b'o' ∷ b'c' ∷ b't' ∷ b'e' ∷ b't' ∷ b's' ∷ []

abbrev ipaddr_word : Str
ipaddr_word = b'i' ∷ b'p' ∷ b'a' ∷ b'd' ∷ b'd' ∷ b'r' ∷ []

abbrev integer_word : Str
integer_word = b'i' ∷ b'n' ∷ b't' ∷ b'e' ∷ b'g' ∷ b'e' ∷ b'r' ∷ []

abbrev vsa_word : Str
vsa_word = b'v' ∷ b's' ∷ b'a' ∷ []

unfoldable pub type_of : Str → RadiusType
type_of w =
    if begins_with w vsa_word
    then vsa
    else if begins_with w integer_word
    then integer
    else if begins_with w ipaddr_word
    then ipaddr
    else if begins_with w octets_word
    then octets
    else if begins_with w string_word
    then string
    else error

abbrev is_digit : ℕ → Bool
is_digit c = leb b'0' c && leb c b'9'

-- The number that the digits at the front make, behind what was read.
unfoldable pub digits : ℕ → Str → ℕ
digits n [] = n
digits n (c ∷ s) = let rest = digits (n * 10 + (c - b'0')) s in if is_digit c then rest else n

abbrev starts_with_digit : Str → Bool
starts_with_digit [] = false
starts_with_digit (c ∷ s) = is_digit c

-- std::stoi behind the sign, as the 32 bits of the int
unfoldable pub signed : Bool → Str → Outcome ℕ
unfolding digits
signed negative s =
    let n = digits 0 s in
    if not (starts_with_digit s)
    then fault
    else if negative
    then (if ltb (2 ^ 31) n then fault else ok ((2 ^ 32 - n) % 2 ^ 32))
    else (if ltb n (2 ^ 31) then ok n else fault)

-- std::stoi of a word, which has no space
unfoldable pub stoi : Str → Outcome ℕ
unfolding signed
stoi [] = fault
stoi (c ∷ s) =
    if c == b'-'
    then signed true s
    else (if c == b'+' then signed false s else signed false (c ∷ s))

-- The file's reader: the tables, the vendors by name, and the vendor whose attributes follow.
pub record Reader : Type 0 where
  pub dict : RadiusDict
  pub vendors : Map Str ℕ
  pub current_vendor : ℕ

-- boost::split at spaces and tabs, and remove_if
abbrev left_words : ℕ → ℕ → (ℕ → Str) → List Str
left_words i zero left = []
left_words i (suc n) left = left i ∷ left_words (i + 1) n left

unfoldable pub words_of : (ℕ → Str) → Str → List Str
unfolding split_by filled
words_of left line =
    let all = split_by (λ c. c == b' ' || c == 9) line in
    let kept = filled all in kept ++ left_words (length kept) (length all - length kept) left

-- The attributes that a line is about; `vsa[ … ]` makes an empty table.
unfoldable pub on_current : (Attributes → Attributes) → Reader → Reader
on_current f r =
    if r.current_vendor == 0
    then record r { dict = record r.dict { attrs = f r.dict.attrs } }
    else record r {
      dict = record r.dict {
        vsa = update r.current_vendor f (emplace r.current_vendor [] r.dict.vsa).0;
      };
    }

unfoldable pub add_attribute : ℕ → Str → RadiusType → Attributes → Attributes
add_attribute id name kind m =
    (emplace (id % 2 ^ 8) (record { name = name; kind = kind; values = [] }) m).0

-- The attributes whose name the word begins with, not that name alone.
abbrev with_value : Str → Str → ℕ → Attribute → Attribute
with_value attr text v a =
    if begins_with attr a.name then record a { values = (emplace v text a.values).0 } else a

unfoldable pub add_value : Str → Str → ℕ → Attributes → Attributes
add_value attr text v [] = []
add_value attr text v ((k, a) ∷ m) = (k, with_value attr text v a) ∷ add_value attr text v m

unfoldable pub add_vendor : Str → ℕ → Reader → Reader
add_vendor name id r = record r { vendors = (emplace name id r.vendors).0 }

unfoldable pub begin_vendor : Str → Reader → Reader
begin_vendor name r = elim (find name r.vendors) [
  | none ↦ r
  | some id ↦ record r { current_vendor = id }
]

-- The cases behind the first word, each with its test of the size.
unfoldable pub attribute_line : List Str → Reader → Outcome Reader
unfolding on_current add_attribute stoi type_of
attribute_line (name ∷ (number ∷ (kind ∷ more))) r = do
  id ← stoi number
  ok (on_current (add_attribute id name (type_of kind)) r)
attribute_line _ r = ok r

unfoldable pub value_line : List Str → Reader → Outcome Reader
unfolding on_current add_value stoi
value_line (attr ∷ (text ∷ (number ∷ more))) r = do
  v ← stoi number
  ok (on_current (add_value attr text v) r)
value_line _ r = ok r

unfoldable pub vendor_line : List Str → Reader → Outcome Reader
unfolding add_vendor stoi
vendor_line (name ∷ (number ∷ more)) r = do id ← stoi number; ok (add_vendor name id r)
vendor_line _ r = ok r

unfoldable pub begin_line : List Str → Reader → Outcome Reader
unfolding begin_vendor
begin_line (name ∷ more) r = ok (begin_vendor name r)
begin_line [] r = ok r

unfoldable pub read_words : List Str → Reader → Outcome Reader
unfolding attribute_line value_line vendor_line begin_line
read_words [] r = ok r
read_words (w ∷ out) r =
    if begins_with w attribute_word
    then attribute_line out r
    else if begins_with w value_word
    then value_line out r
    else if begins_with w vendor_word
    then vendor_line out r
    else if begins_with w begin_vendor_word
    then begin_line out r
    else if begins_with w end_vendor_word
    then ok (record r { current_vendor = 0 })
    else ok r

abbrev is_comment : Str → Bool
is_comment [] = false
is_comment (c ∷ line) = c == b'#'

-- The first test of a line; the words BEGIN-VENDOR and END-VENDOR have VENDOR in them.
abbrev is_entry : Str → Bool
is_entry line =
    occurs_in attribute_word line || (occurs_in value_word line || occurs_in vendor_word line)

unfoldable pub read_line : (ℕ → Str) → Str → Reader → Outcome Reader
unfolding words_of read_words occurs_in
read_line left line r =
    if is_comment line || not (is_entry line) then ok r else read_words (words_of left line) r

unfoldable pub read_lines : (ℕ → Str) → List Str → Reader → Outcome Reader
unfolding read_line
read_lines left [] r = ok r
read_lines left (line ∷ lines) r = do r' ← read_line left line r; read_lines left lines r'

-- parseFreeradDict of one file
unfoldable pub parse_freerad_dict : (ℕ → Str) → List Str → Reader → Outcome Reader
unfolding read_lines
parse_freerad_dict left lines r = read_lines left lines (record r { current_vendor = 0 })

-- The constructor: the files one after the other into the same tables.
unfoldable pub read_files : (ℕ → Str) → List (List Str) → Reader → Outcome Reader
unfolding parse_freerad_dict
read_files left [] r = ok r
read_files left (file ∷ files) r = do r' ← parse_freerad_dict left file r; read_files left files r'

abbrev pub empty_reader : Reader
empty_reader = record { dict = record { attrs = []; vsa = [] }; vendors = []; current_vendor = 0 }

unfoldable pub radius_dict : (ℕ → Str) → List (List Str) → Outcome RadiusDict
unfolding read_files
radius_dict left files = do r ← read_files left files empty_reader; ok r.dict
