-- ===== src/Common/Words.antt =====
-- Searching and splitting std::string, as boost::split does it at the characters that pass a test.
use pppcpd.Common.Tests.{◌==◌, if◌then◌else◌}
use pppcpd.Common.Map.{Str}
use Prim.Native.Nat.{ℕ}
use mathlib.Core.Bool.{Bool, true, false, ◌&&◌, ◌||◌}
use mathlib.Core.List.{List, [], ◌∷◌}

-- `find( t ) == 0`
unfoldable pub begins_with : Str → Str → Bool
begins_with s [] = true
begins_with [] (c ∷ t) = false
begins_with (d ∷ s) (c ∷ t) = d == c && begins_with s t

-- `find( t ) != npos`
unfoldable pub occurs_in : Str → Str → Bool
unfolding begins_with
occurs_in t [] = begins_with [] t
occurs_in t (c ∷ s) = let rest = occurs_in t s in begins_with (c ∷ s) t || rest

abbrev put_first : ℕ → List Str → List Str
put_first c [] = (c ∷ []) ∷ []
put_first c (w ∷ ws) = (c ∷ w) ∷ ws

-- Two separators side by side have an empty word between them.
unfoldable pub split_by : (ℕ → Bool) → Str → List Str
split_by sep [] = [] ∷ []
split_by sep (x ∷ s) = let rest = split_by sep s in if sep x then [] ∷ rest else put_first x rest

abbrev pub is_empty_word : Str → Bool
is_empty_word [] = true
is_empty_word (c ∷ w) = false

unfoldable pub filled : List Str → List Str
filled [] = []
filled (w ∷ ws) = let rest = filled ws in if is_empty_word w then rest else w ∷ rest
