-- ===== src/Aaa/Interim/Endless.antt =====
-- src/aaa_session.cpp: a session that goes on with its accounting after its end.
use pppcpd.Common.{
  ℕ, zero, suc, ◌+◌, ◌≡◌, refl, List, [], ◌∷◌, ◌++◌, none, true, false, without, arith,
}
use pppcpd.Aaa.{AaaSession, AcctRequest, start, alive, stop}
use pppcpd.Aaa.Methods.{request_of}
use pppcpd.Aaa.Interim.Cycle.Goes.{is_alive, sent_updates}
use pppcpd.Common.Counting.{count_list, count_list-append}
use pppcpd.Aaa.Interim.{
  Account, AccountEvent, expire, interim, answered, stopped, ask, opened, on_started, on_answer,
  on_interim, stop_account, handled, answer_of, account_step, run_account,
}

-- The answer to the Stop comes before the answer to the Start.
abbrev pub overtaken : List AccountEvent
overtaken = stopped none ∷ answered 1 ∷ answered 0 ∷ []

-- The timer expires, its handler sends an update, and that is answered; this so many times.
abbrev pub rounds : ℕ → List AccountEvent
rounds zero = []
rounds (suc n) = expire ∷ interim none ∷ answered 0 ∷ rounds n

-- AAA has let go of the session, but its timer runs.
abbrev stray : AaaSession → List AcctRequest → Account
stray s sent = record {
  session = s;
  mapped = false;
  waiting = true;
  queued = 0;
  pending = [];
  requests = sent;
}

run_account-append :
    (es fs : List AccountEvent) (a : Account)
    → run_account (es ++ fs) a ≡ run_account fs (run_account es a)
unfolding run_account
run_account-append [] fs a = refl
run_account-append (e ∷ es) fs a = run_account-append es fs (account_step e a)

overtaken-stray :
    (s : AaaSession)
    → s.acct ≡ true
    → run_account overtaken (opened s)
      ≡ stray
          (record s { to_stop_acct = true })
          (request_of s start none ∷ request_of s stop none ∷ [])
unfolding opened run_account account_step stop_account answer_of on_answer on_started without ask
overtaken-stray s client = rw client refl

rounds-stray :
    (n : ℕ) (s : AaaSession) (sent : List AcctRequest)
    → s.acct ≡ true
    → run_account (rounds (suc n)) (stray s sent)
      ≡ run_account (rounds n) (stray s (sent ++ (request_of s alive none ∷ [])))
unfolding run_account account_step handled on_interim answer_of on_answer without ask
rounds-stray n s sent client = rw client refl

rounds-sent :
    (n : ℕ) (s : AaaSession) (sent : List AcctRequest)
    → s.acct ≡ true
    → let a = run_account (rounds n) (stray s sent) in
      (a.mapped ≡ false) × (a.waiting ≡ true) × (sent_updates a ≡ count_list is_alive sent + n)
unfolding run_account
rounds-sent zero s sent client = (refl, refl, omega arith)
rounds-sent (suc n) s sent client =
    let (unmapped, waits, all) = rounds-sent n s (sent ++ (request_of s alive none ∷ [])) client in
    rw (rounds-stray n s sent client) (
      unmapped,
      waits,
      omega (arith, all, count_list-append is_alive sent (request_of s alive none ∷ [])),
    )

-- When a session is ended while its Start is still to be answered, and the answer to the Stop comes
-- first, its timer runs though AAA has let go of it: with every round of the timer and an answer it
-- sends one more update, as many as there are rounds, and the timer runs still.
pub run_account-endless :
    (s : AaaSession) (n : ℕ)
    → s.acct ≡ true
    → let a = run_account (overtaken ++ rounds n) (opened s) in
      (a.mapped ≡ false) × (a.waiting ≡ true) × (sent_updates a ≡ n)
run_account-endless s n client =
    let sent = request_of s start none ∷ request_of s stop none ∷ [] in
    let (unmapped, waits, all) = rounds-sent n (record s { to_stop_acct = true }) sent client in
    rw (run_account-append overtaken (rounds n) (opened s), overtaken-stray s client)
      (unmapped, waits, omega (arith, all))
