-- ===== src/Aaa/Interim/Cycle/Goes.antt =====
-- src/aaa_session.cpp: the interim updates go on while requests are answered, and stop when one is lost.
use pppcpd.Common.{
  ℕ, zero, suc, ◌+◌, ◌≤◌, ◌≡◌, refl, ◌∙◌, List, [], ◌∷◌, Option, none, some, Bool, true, false, All,
  inl, inr, get_elem?, if◌then◌else◌, without, Bool-cases, arith, not,
}
use pppcpd.Common.Counting.{weight, count_list, count_list-without, count_list-append}
use pppcpd.Aaa.{AaaSession, Status, start, alive, stop, Counters, AcctRequest}
use pppcpd.Aaa.Interim.{
  Account, AccountEvent, expire, interim, answered, lost, stopped, mapped_to, ask, opened,
  on_started, on_answer, on_interim, stop_account, handled, answer_of, account_step, run_account,
}
use pppcpd.Aaa.Methods.{request_of}
use pppcpd.Aaa.Interim.Cycle.{is_update, updates, account_step-updates}

-- Events that neither end the session nor lose a request
abbrev pub is_smooth : AccountEvent → Bool
is_smooth (lost i) = false
is_smooth (stopped c) = false
is_smooth _ = true

abbrev is_stop : Status → Bool
is_stop st = not (is_update st)

-- One update is under way, and nothing else is pending.
record IsGoing (a : Account) : Type 0 where
  client : a.session.acct ≡ true
  one : updates a ≡ 1
  no_stop : count_list is_stop a.pending ≡ 0

answer-IsGoing :
    (i : ℕ) (st : Status) (a : Account)
    → get_elem? a.pending i ≡ some st
    → IsGoing a
    → IsGoing (on_answer st (record a { pending = without i a.pending }))
unfolding updates on_answer on_started
answer-IsGoing i start a e g = record {
  client = g.client;
  one = omega (arith, g.one, count_list-without is_update i start a.pending e);
  no_stop = omega (arith, g.no_stop, count_list-without is_stop i start a.pending e);
}
answer-IsGoing i alive a e g = record {
  client = g.client;
  one = omega (arith, g.one, count_list-without is_update i alive a.pending e);
  no_stop = omega (arith, g.no_stop, count_list-without is_stop i alive a.pending e);
}
answer-IsGoing i stop a e g =
    absurd (omega (arith, g.no_stop, count_list-without is_stop i stop a.pending e))

answer_of-IsGoing :
    (i : ℕ) (o : Option Status) (a : Account)
    → get_elem? a.pending i ≡ o
    → IsGoing a
    → IsGoing (answer_of i o a)
unfolding answer_of
answer_of-IsGoing i none a e g = g
answer_of-IsGoing i (some st) a e g = answer-IsGoing i st a e g

handled-IsGoing :
    (c : Option Counters) (q : ℕ) (a : Account) → a.queued ≡ q → IsGoing a → IsGoing (handled c q a)
unfolding handled on_interim ask updates
handled-IsGoing c zero a e g = g
handled-IsGoing c (suc n) a e g = rw g.client (record {
  client = refl;
  one = omega (arith, e, g.one, count_list-append is_update a.pending (alive ∷ []));
  no_stop = omega (arith, g.no_stop, count_list-append is_stop a.pending (alive ∷ []));
})

expire-IsGoing :
    (b : Bool) (a : Account)
    → a.waiting ≡ b
    → IsGoing a
    → IsGoing (if b then record a { waiting = false; queued = a.queued + 1 } else a)
unfolding updates
expire-IsGoing true a e g =
    let runs : weight a.waiting ≡ 1 = rw e refl in
    record { client = g.client; one = omega (arith, runs, g.one); no_stop = g.no_stop }
expire-IsGoing false a e g = g

mapped_to-IsGoing :
    (b : Bool) (i : ℕ) (a : Account)
    → IsGoing a
    → IsGoing (if b then record a { session = record a.session { ifindex = some i } } else a)
unfolding updates
mapped_to-IsGoing true i a g = record { client = g.client; one = g.one; no_stop = g.no_stop }
mapped_to-IsGoing false i a g = g

account_step-IsGoing :
    (e : AccountEvent) (a : Account) → is_smooth e ≡ true → IsGoing a → IsGoing (account_step e a)
unfolding account_step
account_step-IsGoing expire a h g = expire-IsGoing a.waiting a refl g
account_step-IsGoing (interim c) a h g = handled-IsGoing c a.queued a refl g
account_step-IsGoing (answered i) a h g = answer_of-IsGoing i (get_elem? a.pending i) a refl g
account_step-IsGoing (lost i) a h g = cc
account_step-IsGoing (stopped c) a h g = cc
account_step-IsGoing (mapped_to i) a h g = mapped_to-IsGoing a.mapped i a g

run_account-IsGoing :
    (es : List AccountEvent) (a : Account)
    → All (λ e. is_smooth e ≡ true) es
    → IsGoing a
    → IsGoing (run_account es a)
unfolding run_account
run_account-IsGoing [] a h g = g
run_account-IsGoing (e ∷ es) a (h, hs) g =
    run_account-IsGoing es (account_step e a) hs (account_step-IsGoing e a h g)

-- While no request is lost and the session is not ended, the updates of a session with an accounting
-- client never come to a halt: exactly one is under way at any time.
pub run_account-goes_on :
    (s : AaaSession) (es : List AccountEvent)
    → s.acct ≡ true
    → All (λ e. is_smooth e ≡ true) es
    → updates (run_account es (opened s)) ≡ 1
unfolding opened ask updates
run_account-goes_on s es client smooth =
    let begun : IsGoing (opened s) =
      rw client (record { client = refl; one = omega arith; no_stop = refl }) in
    (run_account-IsGoing es (opened s) smooth begun).one

-- The interim updates that were sent.
abbrev pub is_alive : AcctRequest → Bool
is_alive r = elim r.acct_status_type [ start ↦ false | alive ↦ true | stop ↦ false ]

abbrev pub sent_updates : Account → ℕ
sent_updates a = count_list is_alive a.requests

lost_update-none :
    (i : ℕ) (st : Status) (a : Account)
    → get_elem? a.pending i ≡ some st
    → is_update st ≡ true
    → updates a ≤ 1
    → updates (account_step (lost i) a) ≡ 0
unfolding account_step updates
lost_update-none i st a there update one =
    omega (arith, one, (rw update at (count_list-without is_update i st a.pending there)))

answer_of-same :
    (i : ℕ) (o : Option Status) (a : Account) → sent_updates (answer_of i o a) ≡ sent_updates a
unfolding answer_of on_answer on_started
answer_of-same i none a = refl
answer_of-same i (some start) a = refl
answer_of-same i (some alive) a = refl
answer_of-same i (some stop) a = refl

handled-same :
    (c : Option Counters) (q : ℕ) (a : Account)
    → a.queued ≡ q
    → updates a ≡ 0
    → sent_updates (handled c q a) ≡ sent_updates a
unfolding handled updates
handled-same c zero a e h = refl
handled-same c (suc n) a e h = absurd (omega (arith, e, h))

stop_account-same :
    (c : Option Counters) (a : Account) → sent_updates (stop_account c a) ≡ sent_updates a
unfolding stop_account ask
stop_account-same none a = elim (Bool-cases a.session.acct) [
  | inl client ↦
      rw client
        (omega (arith, count_list-append is_alive a.requests (request_of a.session stop none ∷ [])))
  | inr no_client ↦ rw no_client refl
]
stop_account-same (some k) a = elim (Bool-cases a.session.acct) [
  | inl client ↦ rw client (
      omega
        (arith, count_list-append is_alive a.requests (request_of a.session stop (some k) ∷ [])))
  | inr no_client ↦ rw no_client refl
]

if-same :
    (b : Bool) (x a : Account)
    → sent_updates x ≡ sent_updates a
    → sent_updates (if b then x else a) ≡ sent_updates a
if-same true x a h = h
if-same false x a h = refl

account_step-same :
    (e : AccountEvent) (a : Account)
    → updates a ≡ 0
    → sent_updates (account_step e a) ≡ sent_updates a
unfolding account_step
account_step-same expire a h = if-same a.waiting _ a refl
account_step-same (interim c) a h = handled-same c a.queued a refl h
account_step-same (answered i) a h = answer_of-same i (get_elem? a.pending i) a
account_step-same (lost i) a h = refl
account_step-same (stopped c) a h = if-same a.mapped (stop_account c a) a (stop_account-same c a)
account_step-same (mapped_to i) a h = if-same a.mapped _ a refl

run_account-same :
    (es : List AccountEvent) (a : Account)
    → updates a ≡ 0
    → sent_updates (run_account es a) ≡ sent_updates a
unfolding run_account
run_account-same [] a h = refl
run_account-same (e ∷ es) a h =
    run_account-same es (account_step e a) (omega (arith, h, account_step-updates e a))
    ∙ account_step-same e a h

lost-same : (i : ℕ) (a : Account) → sent_updates (account_step (lost i) a) ≡ sent_updates a
unfolding account_step
lost-same i a = refl

-- When the request of the one update under way ends without an answer, the session sends no interim
-- update any more, whatever happens to it later.
pub run_account-halts :
    (i : ℕ) (st : Status) (a : Account) (es : List AccountEvent)
    → get_elem? a.pending i ≡ some st
    → is_update st ≡ true
    → updates a ≤ 1
    → sent_updates (run_account (lost i ∷ es) a) ≡ sent_updates a
unfolding run_account
run_account-halts i st a es there update one =
    run_account-same es (account_step (lost i) a) (lost_update-none i st a there update one)
    ∙ lost-same i a
