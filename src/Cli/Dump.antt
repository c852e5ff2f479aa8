-- ===== src/Cli/Dump.antt =====
-- src/cli.cpp: the sessions that the daemon lists.
use pppcpd.Common.{ℕ, ◌≡◌, refl, ◌∙◌, List, [], ◌∷◌, Bool, ◌==◌, contains, arith}
use pppcpd.Common.Map.{Map}
use pppcpd.Common.Counting.{weight, count, count_list}
use pppcpd.Session.{Session}
use pppcpd.Keys.{SessionKey, session_key}
use pppcpd.Runtime.{Runtime}
use pppcpd.Runtime.Valid.{IsValid, has_id}
use pppcpd.Dataplane.{VppInterface}
use pppcpd.Cli.{
  CliData, get_pppoe_sessions, pppoe_sessions_resp, PppoeSessionDump, pppoe_dump, pppoe_dumps,
  run_cmd,
}

-- The sessions that a response lists.
abbrev pub listed : CliData → List PppoeSessionDump
listed (pppoe_sessions_resp ds) = ds
listed _ = []

abbrev pub dump_has_id : ℕ → PppoeSessionDump → Bool
dump_has_id c d = d.session_id == c

count-pppoe_dumps :
    (c : ℕ) (m : Map SessionKey Session)
    → count_list (dump_has_id c) (pppoe_dumps m) ≡ count (has_id c) m
unfolding pppoe_dumps pppoe_dump
count-pppoe_dumps c [] = refl
count-pppoe_dumps c ((k, s) ∷ m) = omega (arith, count-pppoe_dumps c m)

-- In a valid state the response to GET_PPPOE_SESSIONS lists each session id in use once, and no other.
pub run_cmd-listed :
    (ifaces : List VppInterface) (rt : Runtime) (c : ℕ)
    → IsValid rt
    → count_list (dump_has_id c) (listed (run_cmd get_pppoe_sessions ifaces rt).content)
      ≡ weight (contains rt.session_set c)
unfolding run_cmd
run_cmd-listed ifaces rt c v = count-pppoe_dumps c rt.active_sessions ∙ v.one_each c
