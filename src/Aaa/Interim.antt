-- ===== src/Aaa/Interim.antt =====
-- The accounting of one AAA_Session over time (src/aaa_session.cpp): its requests, their answers, the
-- timer of the interim updates and the end of the session, in any order.
-- A request that the client drops ends without an answer.
-- What the answers hold is read and thrown away, and is left out.
pub mod Cycle
pub mod Endless
use pppcpd.Common.{
  ℕ, zero, suc, ◌+◌, List, [], ◌∷◌, ◌++◌, Option, none, some, Bool, true, false, get_elem?,
  if◌then◌else◌, without,
}
use pppcpd.Aaa.{AaaSession, Status, start, alive, stop, Counters, AcctRequest}
use pppcpd.Aaa.Methods.{request_of}

-- A session with what holds it: `mapped` says that AAA has it, `waiting` that its timer runs, `queued`
-- counts the expiries whose handler has not run yet, and `pending` has the requests without an answer,
-- the oldest first. `requests` is all that was sent.
pub record Account : Type 0 where
  pub session : AaaSession
  pub mapped : Bool
  pub waiting : Bool
  pub queued : ℕ
  pub pending : List Status
  pub requests : List AcctRequest

pub data AccountEvent : Type 0 where
  -- the timer expires, and its handler is run
  expire : AccountEvent
  interim : Option Counters → AccountEvent
  -- the answer to a pending request, or its end without one
  answered lost : ℕ → AccountEvent
  stopped : Option Counters → AccountEvent
  mapped_to : ℕ → AccountEvent

-- acct->acct_request, where there is a client
unfoldable pub ask : Status → Option Counters → Account → Account
ask st c a =
    if a.session.acct
    then record a {
      pending = a.pending ++ (st ∷ []);
      requests = a.requests ++ (request_of a.session st c ∷ []);
    }
    else a

-- timer.cancel(): a handler that is queued is run all the same.
abbrev cancel : Account → Account
cancel a = record a { waiting = false }

-- AAA_Session::start
unfoldable pub opened : AaaSession → Account
unfolding ask
opened s = ask start none (record {
  session = s;
  mapped = true;
  waiting = false;
  queued = 0;
  pending = [];
  requests = [];
})

unfoldable pub on_started : Account → Account
on_started a = record a { session = record a.session { to_stop_acct = true }; waiting = true }

abbrev pub on_interim_answer : Account → Account
on_interim_answer a = record a { waiting = true }

abbrev pub on_stopped : Account → Account
on_stopped a = cancel a

-- The handler that a request was made with.
unfoldable pub on_answer : Status → Account → Account
unfolding on_started
on_answer start a = on_started a
on_answer alive a = on_interim_answer a
on_answer stop a = on_stopped a

-- on_interim of a timer that was not cancelled
unfoldable pub on_interim : Option Counters → Account → Account
unfolding ask
on_interim c a = if a.session.acct then ask alive c (cancel a) else a

-- stopSession and AAA_Session::stop
unfoldable pub stop_account : Option Counters → Account → Account
unfolding ask
stop_account c a = ask stop c (cancel (record a { mapped = false }))

-- The handler of an expiry that is still queued, and the answer to a request that is still pending
unfoldable pub handled : Option Counters → ℕ → Account → Account
unfolding on_interim
handled c zero a = a
handled c (suc n) a = on_interim c (record a { queued = n })

unfoldable pub answer_of : ℕ → Option Status → Account → Account
unfolding on_answer without
answer_of i none a = a
answer_of i (some st) a = on_answer st (record a { pending = without i a.pending })

unfoldable pub account_step : AccountEvent → Account → Account
unfolding without handled answer_of stop_account
account_step expire a = if a.waiting then record a { waiting = false; queued = a.queued + 1 } else a
account_step (interim c) a = handled c a.queued a
account_step (answered i) a = answer_of i (get_elem? a.pending i) a
account_step (lost i) a = record a { pending = without i a.pending }
account_step (stopped c) a = if a.mapped then stop_account c a else a
account_step (mapped_to ifi) a =
    if a.mapped then record a { session = record a.session { ifindex = some ifi } } else a

unfoldable pub run_account : List AccountEvent → Account → Account
unfolding account_step
run_account [] a = a
run_account (e ∷ es) a = run_account es (account_step e a)
