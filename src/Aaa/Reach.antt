-- ===== src/Aaa/Reach.antt =====
-- AAA under any sequence of its events: starts, answers of the RADIUS server, stops, and the end of
-- callbacks that kept a session alive.
use pppcpd.Common.{ℕ, ◌≡◌, ◌≢◌, List, [], arith}
use pppcpd.Common.{Option, some, true, contains}
use pppcpd.Common.Outcome.{Outcome, ok}
use pppcpd.Common.Map.{Str, str_key, ℕ_key, find}
use pppcpd.Common.Counting.{weight}
use pppcpd.Pool.{Pool}
use pppcpd.Aaa.{Aaa, Error, RadiusResponse}
use pppcpd.Aaa.Methods.{
  Call, CountersOf, start_session_none, process_radius_answer, stop_session, release,
  map_iface_to_session,
}
use pppcpd.Aaa.Held.{holders, Bounded}
use pppcpd.Aaa.Exclusive.{IsExclusive}
use pppcpd.Aaa.Steps.{start_session_none-Started, process_radius_answer-Answered}
use pppcpd.Aaa.Stop.{stop_session-IsStopped, release-IsExclusive, map_iface_to_session-IsExclusive}

pub data Step : Aaa → Aaa → Type 0 where
  started :
      {a b : Aaa} (user : Str) {r : ℕ × Option Error}
      → start_session_none user a ≡ ok (r, b)
      → Step a b
  answered :
      {a b : Aaa} (user : Str) (code : ℕ) (res : RadiusResponse) {calls : List Call}
      → a.has_acct ≡ true
      → process_radius_answer user code res a ≡ ok (calls, b)
      → Step a b
  stopped : {a : Aaa} (counters : CountersOf) (sid : ℕ) → Step a (stop_session counters sid a)
  mapped : {a : Aaa} (sid ifi : ℕ) → Step a (map_iface_to_session sid ifi a)
  released : {a : Aaa} (i : ℕ) → Step a (release i a)

pub data Reach (a : Aaa) : Aaa → Type 0 where
  here : Reach a a
  next : {b c : Aaa} → Reach a b → Step b c → Reach a c

ok_state :
    {A : Type 0} (o : Outcome (A × Aaa)) (r : A) (r' : A × Aaa) (b : Aaa)
    → o ≡ ok r'
    → o ≡ ok (r, b)
    → IsExclusive r'.1
    → IsExclusive b
ok_state o r r' b e f x = let p : r'.1 ≡ b = cc in rw (← p) x

Step-IsExclusive : {a b : Aaa} → Step a b → IsExclusive a → IsExclusive b
Step-IsExclusive (started {b = b} user {r} e) x =
    let (r', f, s, y) = start_session_none-Started user _ x in ok_state _ r r' b f e y
Step-IsExclusive (answered {b = b} user code res {calls} acct e) x =
    let (r', f, s, y) = process_radius_answer-Answered user code res _ x acct in
    ok_state _ calls r' b f e y
Step-IsExclusive (stopped counters sid) x = (stop_session-IsStopped counters sid _ x).exclusive
Step-IsExclusive (mapped sid ifi) x = map_iface_to_session-IsExclusive sid ifi _ x
Step-IsExclusive (released i) x = release-IsExclusive i _ x

pub Reach-IsExclusive : {a b : Aaa} → IsExclusive a → Reach a b → IsExclusive b
Reach-IsExclusive x here = x
Reach-IsExclusive x (next r s) = Step-IsExclusive s (Reach-IsExclusive x r)

-- No session, and no address in use; every pool ends below 255.255.255.255.
pub record IsFresh (a : Aaa) : Type 0 where
  pub no_sessions : a.sessions ≡ []
  pub no_lingering : a.lingering ≡ []
  pub unused : (n : Str) (p : Pool) → find n a.pools ≡ some p → p.ips ≡ []
  pub bounded : Bounded a

pub IsFresh-IsExclusive : (a : Aaa) → IsFresh a → IsExclusive a
unfolding contains
IsFresh-IsExclusive a f = record {
  distinct = rw f.no_sessions tt;
  held = λ n p i e nz. rw (f.no_sessions, f.no_lingering, f.unused n p e);
  bounded = f.bounded;
}

-- From a fresh state, whatever the users, the server and the timers do, an address other than 0 of a
-- pool that the pool has in use was drawn from it by exactly one session that is alive, and one that it
-- has not in use by none. Sessions whose address the server gave, which may be the same one, are not
-- counted: they have drawn none.
pub holders-Reach :
    (a b : Aaa) (n : Str) (p : Pool) (i : ℕ)
    → IsFresh a
    → Reach a b
    → find n b.pools ≡ some p
    → i ≢ 0
    → holders n i b ≡ weight (contains p.ips i)
holders-Reach a b n p i f r e nz =
    omega (arith, (Reach-IsExclusive (IsFresh-IsExclusive a f) r).held n p i e nz)
