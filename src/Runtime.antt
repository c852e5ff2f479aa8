-- ===== src/Runtime.antt =====
-- PPPOERuntime of src/runtime.hpp and src/runtime.cpp: the pending sessions, the session ids in use
-- and the active sessions. The log is left out, and with it the count of deallocations that only it reads.
pub mod Search
pub mod Valid
pub mod Release
pub mod Pending
use pppcpd.Common.{ℕ, zero, suc, ◌+◌, ◌%◌, ◌^◌, List, [], ◌∷◌, ◌++◌}
use pppcpd.Common.{Option, none, some, Bool, true, false, ◌==◌, if◌then◌else◌, contains, remove}
use pppcpd.Common.Outcome.{Outcome, ok, stuck, ◌>>=◌}
use pppcpd.Common.Bytes.{Bytes}
use pppcpd.Common.Map.{Map, Key, Str, find, emplace, erase, find_if}
use pppcpd.Encap.{Mac, Encap}
use pppcpd.Session.{Session, Junk, new_session}
use pppcpd.Keys.{SessionKey, ConnKey, session_key, conn_key, key_of}
use pppcpd.Aaa.{Aaa}
use pppcpd.Aaa.Methods.{CountersOf, stop_session, stop_all_sessions}

-- `session_set` and `pending_session` are std::sets. `dropped` lists the sessions that were taken out
-- of `active_sessions`, the newest first: what their destructor tells VPP is outside the model.
pub record Runtime : Type 0 where
  pub hwaddr : Mac
  pub active_sessions : Map SessionKey Session
  pub session_set : List ℕ
  pub pending_session : Map ConnKey (Unit {0})
  pub next_session_id : ℕ
  pub aaa : Aaa
  pub pppoe_outcoming : List Bytes
  pub ppp_outcoming : List Bytes
  pub dropped : List Session

-- The texts that the methods return; `none` in their place is the empty text.
pub data Error : Type 0 where
  cannot_pend cannot_emplace maximum_of_sessions cannot_find_session : Error

-- The key of a pending session goes in with a timer of ten seconds, which calls clear_pending_session.
unfoldable pub pend_session : ConnKey → Runtime → Option Error × Runtime
pend_session k rt =
    let (m, fresh) = emplace k tt rt.pending_session in
    if fresh then (none, record rt { pending_session = m }) else (some cannot_pend, rt)

unfoldable pub check_session : ConnKey → Runtime → Bool × Runtime
check_session k rt = elim (find k rt.pending_session) [
  | none ↦ (false, rt)
  | some u ↦ (true, record rt { pending_session = erase k rt.pending_session })
]

unfoldable pub clear_pending_session : ConnKey → Runtime → Runtime
clear_pending_session k rt = record rt { pending_session = erase k rt.pending_session }

-- The increment of a uint16_t that skips 0.
unfoldable pub next_id : ℕ → ℕ
next_id c = let n = (c + 1) % 2 ^ 16 in if n == 0 then 1 else n

abbrev pub skip_zero : ℕ → ℕ
skip_zero c = if c == 0 then 1 else c

-- The do-while loop over `current_id`: the first id that is not in use, or none back at the start.
unfoldable pub search : ℕ → List ℕ → ℕ → ℕ → Outcome (Option ℕ)
unfolding next_id
search zero ids start current = stuck
search (suc fuel) ids start current =
    let c = skip_zero current in
    let rest = search fuel ids start (next_id c) in
    if contains ids c then (if next_id c == start then ok none else rest) else ok (some c)

-- There are 65535 ids.
abbrev pub id_count : ℕ
id_count = 65535

-- The body of the loop at an id that is not in use.
unfoldable pub place : Junk → Encap → ℕ → Runtime → (ℕ × Option Error) × Runtime
unfolding next_id
place junk e c rt =
    let ids = c ∷ rt.session_set in
    let (m, fresh) = emplace (key_of e c) (new_session junk e c) rt.active_sessions in
    if fresh
    then (
      (c, none),
      record rt { session_set = ids; active_sessions = m; next_session_id = next_id c },
    )
    else ((0, some cannot_emplace), record rt { session_set = remove c ids })

abbrev placed : Junk → Encap → Option ℕ → Runtime → (ℕ × Option Error) × Runtime
placed junk e none rt = ((0, some maximum_of_sessions), rt)
placed junk e (some c) rt = place junk e c rt

unfoldable pub allocate_session : Junk → Encap → Runtime → Outcome ((ℕ × Option Error) × Runtime)
unfolding search place
allocate_session junk e rt = do
  r ← search id_count rt.session_set rt.next_session_id rt.next_session_id
  ok (placed junk e r rt)

-- The AAA session is stopped, then the map's reference to the session goes.
abbrev remove_active : CountersOf → Option (SessionKey × Session) → Runtime → Runtime
remove_active counters none rt = rt
remove_active counters (some (k, s)) rt = record rt {
  aaa = stop_session counters s.aaa_session_id rt.aaa;
  active_sessions = erase k rt.active_sessions;
  dropped = s ∷ rt.dropped;
}

unfoldable pub deallocate_session : CountersOf → ℕ → Runtime → Option Error × Runtime
deallocate_session counters sid rt =
    let at = find_if (λ (s : Session). s.session_id == sid) rt.active_sessions in
    if contains rt.session_set sid
    then (none, record (remove_active counters at rt) { session_set = remove sid rt.session_set })
    else (some cannot_find_session, rt)

-- The sessions of the map, which clear() lets go of.
abbrev cleared : Map SessionKey Session → List Session
cleared [] = []
cleared ((k, s) ∷ m) = s ∷ cleared m

unfoldable pub cleanup : CountersOf → Runtime → Runtime
cleanup counters rt = record rt {
  aaa = stop_all_sessions counters rt.aaa;
  active_sessions = [];
  session_set = [];
  pending_session = [];
  dropped = cleared rt.active_sessions ++ rt.dropped;
}
