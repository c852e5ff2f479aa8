-- ===== src/Tests/Accounts.antt =====
-- The accounting of one session over time.
use pppcpd.Common.{◌≤◌, ◌≡◌, refl, [], ◌∷◌, ◌++◌, none, true, false, List, arith}
use pppcpd.Aaa.{AaaSession, bare_session, start}
use pppcpd.Aaa.Interim.{AccountEvent, expire, interim, answered, lost, stopped, opened, run_account}
use pppcpd.Aaa.Interim.Cycle.{updates, run_account-single}
use pppcpd.Aaa.Interim.Cycle.Goes.{run_account-goes_on, run_account-halts, sent_updates}
use pppcpd.Aaa.Interim.Endless.{overtaken, rounds, run_account-endless}

abbrev counted : AaaSession
counted = bare_session 1 (b'u' ∷ []) 0 true

-- The Start is answered, the timer expires, and the update is answered.
abbrev first_round : List AccountEvent
first_round = answered 0 ∷ expire ∷ interim none ∷ answered 0 ∷ []

run_account-single_example :
    updates (run_account (first_round ++ (stopped none ∷ [])) (opened counted)) ≤ 1
run_account-single_example = run_account-single counted (first_round ++ (stopped none ∷ []))

run_account-goes_on_example : updates (run_account first_round (opened counted)) ≡ 1
run_account-goes_on_example =
    run_account-goes_on counted first_round refl (refl, (refl, (refl, (refl, tt))))

run_account-halts_example :
    sent_updates (run_account (lost 0 ∷ first_round) (opened counted))
    ≡ sent_updates (opened counted)
unfolding opened updates
run_account-halts_example =
    run_account-halts 0 start (opened counted) first_round refl refl (omega arith)

run_account-endless_example :
    let a = run_account (overtaken ++ rounds 5) (opened counted) in
    (a.mapped ≡ false) × (a.waiting ≡ true) × (sent_updates a ≡ 5)
run_account-endless_example = run_account-endless counted 5 refl
