-- ===== src/Aaa/Interim/Cycle.antt =====
-- src/aaa_session.cpp: the interim updates of a session come one at a time.
pub mod Goes
use pppcpd.Common.{
  ℕ, zero, suc, ◌+◌, ◌≤◌, ◌≡◌, refl, List, [], ◌∷◌, ◌++◌, Option, none, some, Bool, true, false,
  All, inl, inr, get_elem?, if◌then◌else◌, without, Bool-cases, Option-cases, arith, not, ◌&&◌,
}
use pppcpd.Common.Counting.{weight, count_list, count_list-without, count_list-append}
use pppcpd.Aaa.{AaaSession, Status, start, alive, stop, Counters, AcctRequest}
use pppcpd.Aaa.Interim.{
  Account, AccountEvent, expire, interim, answered, lost, stopped, mapped_to, ask, opened,
  on_started, on_answer, on_interim, stop_account, handled, answer_of, account_step, run_account,
}

abbrev pub is_update : Status → Bool
is_update start = true
is_update alive = true
is_update stop = false

-- The updates under way: a timer that runs, an expiry whose handler is to be run, and the requests for
-- which an answer starts the timer.
unfoldable pub updates : Account → ℕ
updates a = weight a.waiting + a.queued + count_list is_update a.pending

ask-updates :
    (st : Status) (c : Option Counters) (a : Account)
    → updates (ask st c a) ≡ updates a + weight (a.session.acct && is_update st)
unfolding ask updates
ask-updates st c a = elim (Bool-cases a.session.acct) [
  | inl client ↦ rw client (omega (arith, count_list-append is_update a.pending (st ∷ [])))
  | inr no_client ↦ rw no_client (omega arith)
]

without-le :
    (i : ℕ) (xs : List Status) → count_list is_update (without i xs) ≤ count_list is_update xs
unfolding without
without-le i [] = omega arith
without-le zero (x ∷ xs) = omega arith
without-le (suc i) (x ∷ xs) = omega (arith, without-le i xs)

-- An answer takes a request away and starts the timer, or stops it.
answer-updates :
    (i : ℕ) (st : Status) (a : Account)
    → get_elem? a.pending i ≡ some st
    → updates (on_answer st (record a { pending = without i a.pending })) ≤ updates a
unfolding updates on_answer on_started
answer-updates i start a e = omega (arith, count_list-without is_update i start a.pending e)
answer-updates i alive a e = omega (arith, count_list-without is_update i alive a.pending e)
answer-updates i stop a e = omega (arith, count_list-without is_update i stop a.pending e)

on_interim-updates :
    (c : Option Counters) (n : ℕ) (a : Account)
    → a.queued ≡ suc n
    → updates (on_interim c (record a { queued = n })) ≤ updates a
unfolding on_interim updates ask
on_interim-updates c n a e = elim (Bool-cases a.session.acct) [
  | inl client ↦ rw client (omega (arith, e, count_list-append is_update a.pending (alive ∷ [])))
  | inr no_client ↦ rw no_client (omega (arith, e))
]

expire-updates :
    (a : Account)
    → updates (if a.waiting then record a { waiting = false; queued = a.queued + 1 } else a)
      ≡ updates a
unfolding updates
expire-updates a = elim (Bool-cases a.waiting) [
  | inl runs ↦ rw runs (omega (arith, runs))
  | inr rests ↦ rw rests (omega (arith, rests))
]

handled-updates :
    (c : Option Counters) (q : ℕ) (a : Account) → a.queued ≡ q → updates (handled c q a) ≤ updates a
unfolding handled
handled-updates c zero a e = omega arith
handled-updates c (suc n) a e = on_interim-updates c n a e

answer_of-updates :
    (i : ℕ) (o : Option Status) (a : Account)
    → get_elem? a.pending i ≡ o
    → updates (answer_of i o a) ≤ updates a
unfolding answer_of
answer_of-updates i none a e = omega arith
answer_of-updates i (some st) a e = answer-updates i st a e

lost-updates :
    (i : ℕ) (a : Account) → updates (record a { pending = without i a.pending }) ≤ updates a
unfolding updates
lost-updates i a = omega (arith, without-le i a.pending)

stop_account-updates : (c : Option Counters) (a : Account) → updates (stop_account c a) ≤ updates a
unfolding stop_account ask updates
stop_account-updates c a = elim (Bool-cases a.session.acct) [
  | inl client ↦ rw client (omega (arith, count_list-append is_update a.pending (stop ∷ [])))
  | inr no_client ↦ rw no_client (omega arith)
]

mapped_to-updates :
    (i : ℕ) (a : Account)
    → updates (record a { session = record a.session { ifindex = some i } }) ≤ updates a
unfolding updates
mapped_to-updates i a = omega arith

if-updates :
    (b : Bool) (x a : Account) → updates x ≤ updates a → updates (if b then x else a) ≤ updates a
if-updates true x a h = h
if-updates false x a h = omega arith

-- No event adds an update to those under way.
pub account_step-updates : (e : AccountEvent) (a : Account) → updates (account_step e a) ≤ updates a
unfolding account_step
account_step-updates expire a = omega (arith, expire-updates a)
account_step-updates (interim c) a = handled-updates c a.queued a refl
account_step-updates (answered i) a = answer_of-updates i (get_elem? a.pending i) a refl
account_step-updates (lost i) a = lost-updates i a
account_step-updates (stopped c) a =
    if-updates a.mapped (stop_account c a) a (stop_account-updates c a)
account_step-updates (mapped_to i) a = if-updates a.mapped _ a (mapped_to-updates i a)

opened-updates : (s : AaaSession) → updates (opened s) ≤ 1
unfolding opened ask updates
opened-updates s = elim (Bool-cases s.acct) [
  | inl client ↦ rw client (omega arith)
  | inr no_client ↦ rw no_client (omega arith)
]

pub run_account-updates :
    (es : List AccountEvent) (a : Account) → updates (run_account es a) ≤ updates a
unfolding run_account
run_account-updates [] a = omega arith
run_account-updates (e ∷ es) a =
    omega (arith, run_account-updates es (account_step e a), account_step-updates e a)

-- Whatever happens to a session, and in whatever order, at most one interim update is under way: either
-- its timer runs, or an expiry waits for its handler, or one request waits for the answer that starts the
-- timer.
pub run_account-single :
    (s : AaaSession) (es : List AccountEvent) → updates (run_account es (opened s)) ≤ 1
unfolding opened
run_account-single s es = omega (arith, run_account-updates es (opened s), opened-updates s)
