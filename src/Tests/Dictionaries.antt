-- ===== src/Tests/Dictionaries.antt =====
-- A dictionary of RADIUS that is read.
use pppcpd.Common.{ℕ, ◌≡◌, refl, List, [], ◌∷◌}
use pppcpd.Common.Outcome.{Outcome, ok, ◌>>=◌}
use pppcpd.Common.Map.{Str, str_eq, find, insert, emplace, update}
use pppcpd.Radius.{get_id_by_name, get_value_by_name}
use pppcpd.Radius.Dictionary.{radius_dict}

abbrev nothing_left : ℕ → Str
nothing_left i = []

-- ATTRIBUTE Port 300 integer
abbrev port_line : Str
port_line =
    b'A' ∷ b'T' ∷ b'T' ∷ b'R' ∷ b'I' ∷ b'B' ∷ b'U' ∷ b'T' ∷ b'E' ∷ 9 ∷ b'P' ∷ b'o' ∷ b'r' ∷ b't' ∷ 9
    ∷ b'3' ∷ b'0' ∷ b'0' ∷ 9 ∷ b'i' ∷ b'n' ∷ b't' ∷ b'e' ∷ b'g' ∷ b'e' ∷ b'r' ∷ []

-- VALUE PortType Up 15
abbrev up_line : Str
up_line =
    b'V' ∷ b'A' ∷ b'L' ∷ b'U' ∷ b'E' ∷ 9 ∷ b'P' ∷ b'o' ∷ b'r' ∷ b't' ∷ b'T' ∷ b'y' ∷ b'p' ∷ b'e' ∷ 9
    ∷ b'U' ∷ b'p' ∷ 9 ∷ b'1' ∷ b'5' ∷ []

abbrev file : List Str
file = (b'#' ∷ []) ∷ port_line ∷ up_line ∷ []

abbrev port : Str
port = b'P' ∷ b'o' ∷ b'r' ∷ b't' ∷ []

-- The id loses all but its last byte, and the value of another attribute is taken for one of this one.
looked_up : Outcome ((ℕ × ℕ) × ℕ)
unfolding radius_dict get_id_by_name get_value_by_name
looked_up = do
  d ← radius_dict nothing_left (file ∷ [])
  ok (get_id_by_name d port, get_value_by_name d port (b'U' ∷ b'p' ∷ []))

read_file : looked_up ≡ ok ((44, 0), 15)
unfolding looked_up str_eq find insert emplace update
read_file = refl
