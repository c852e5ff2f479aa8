-- ===== src/Dataplane/Stats.antt =====
-- src/vpp.cpp: collect_counters and get_counters_by_index. What the statistics segment holds is a
-- parameter: its entries in the order of the directory.
pub mod Threads
use pppcpd.Common.{ℕ, ◌+◌, List, [], ◌∷◌, Option, none, some, Bool, if◌then◌else◌, for_each}
use pppcpd.Common.Map.{Map, Str, str_eq, ℕ_key, find, emplace, update}
use pppcpd.Dataplane.{IfaceCounters}

-- Of a vector of counters there is a row for each thread of VPP, and in it a value for each interface.
-- A combined value is the packets and the bytes.
pub data StatValue : Type 0 where
  name_vector : List Str → StatValue
  counter_vector_simple : List (List ℕ) → StatValue
  counter_vector_combined : List (List (ℕ × ℕ)) → StatValue
  other_value : StatValue

pub record Stat : Type 0 where
  pub name : Str
  pub value : StatValue

abbrev pub drops_name : Str
drops_name = b'/' ∷ b'i' ∷ b'f' ∷ b'/' ∷ b'd' ∷ b'r' ∷ b'o' ∷ b'p' ∷ b's' ∷ []

abbrev pub tx_name : Str
tx_name = b'/' ∷ b'i' ∷ b'f' ∷ b'/' ∷ b't' ∷ b'x' ∷ []

abbrev pub rx_name : Str
rx_name = b'/' ∷ b'i' ∷ b'f' ∷ b'/' ∷ b'r' ∷ b'x' ∷ []

abbrev pub no_counters : IfaceCounters
no_counters = record { rx_pkts = 0; rx_bytes = 0; tx_pkts = 0; tx_bytes = 0; drops = 0 }

-- What the value of one interface in an entry with that name changes.
unfoldable pub put_simple : Str → ℕ → IfaceCounters → IfaceCounters
put_simple n v c = if str_eq n drops_name then record c { drops = v } else c

unfoldable pub put_combined : Str → ℕ × ℕ → IfaceCounters → IfaceCounters
put_combined n (pkts, bytes) c =
    if str_eq n tx_name
    then record c { tx_pkts = pkts; tx_bytes = bytes }
    else if str_eq n rx_name
    then record c { rx_pkts = pkts; rx_bytes = bytes }
    else c

module _ {A : Type 0} (put : A → IfaceCounters → IfaceCounters) where
  -- The inner loop, from the interface `k` on: counters that are missing begin at 0.
  unfoldable pub put_row : ℕ → List A → Map ℕ IfaceCounters → Map ℕ IfaceCounters
  put_row k [] m = m
  put_row k (v ∷ vs) m = put_row (k + 1) vs (update k (put v) (emplace k no_counters m).0)

  unfoldable pub put_rows : List (List A) → Map ℕ IfaceCounters → Map ℕ IfaceCounters
  unfolding put_row
  put_rows rows m = for_each (put_row 0) rows m

unfoldable pub put_value : Str → StatValue → Map ℕ IfaceCounters → Map ℕ IfaceCounters
unfolding put_rows put_simple put_combined
put_value n (counter_vector_simple rows) m = put_rows (put_simple n) rows m
put_value n (counter_vector_combined rows) m = put_rows (put_combined n) rows m
put_value n (name_vector ns) m = m
put_value n other_value m = m

-- One entry of the directory; the others are skipped by their name.
unfoldable pub put_stat : Stat → Map ℕ IfaceCounters → Map ℕ IfaceCounters
unfolding put_value
put_stat s m =
    if str_eq s.name drops_name
    then put_value s.name s.value m
    else if str_eq s.name tx_name
    then put_value s.name s.value m
    else if str_eq s.name rx_name
    then put_value s.name s.value m
    else m

unfoldable pub collect_counters : List Stat → Map ℕ IfaceCounters → Map ℕ IfaceCounters
unfolding put_stat
collect_counters stats m = for_each put_stat stats m

abbrev pub get_counters_by_index : ℕ → Map ℕ IfaceCounters → Option IfaceCounters
get_counters_by_index i m = find i m
