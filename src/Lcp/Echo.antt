-- ===== src/Lcp/Echo.antt =====
-- The echo timer of src/session.cpp over LCP_FSM::send_echo_req: a peer that does not answer.
use pppcpd.Common.{
  ℕ, zero, suc, ◌+◌, ◌<◌, ◌%◌, ◌^◌, ◌≡◌, refl, arith, List, [], ◌∷◌, ◌++◌, none, some,
}
use pppcpd.Common.{ltb-true, ltb-false, replicate}
use pppcpd.Common.Outcome.{Outcome, ok, ◌>>=◌}
use pppcpd.Fsm.{Action, no_action, layer_down, echo_timeout, echo_req}
use pppcpd.Link.{proto_lcp, Link, push, lcp_packet, opt_4b}
use pppcpd.Lcp.{send_echo_req, lcp_fsm, opt_magic, with_echoes}

-- Echo requests one after the other, without a reply between them, and what each of them reports.
unfoldable pub echo_run : ℕ → Link → Outcome (List Action × Link)
echo_run zero l = ok ([], l)
echo_run (suc n) l = do
  ((a, e), l') ← send_echo_req l
  (rest, l'') ← echo_run n l'
  ok (a ∷ rest, l'')

-- The link after one more request.
abbrev pub requested : Link → Link
requested l =
    push
      (lcp_packet proto_lcp echo_req (lcp_fsm l).session_id (lcp_fsm l).pkt_id
        (opt_4b opt_magic l.session.our_magic_number))
      (with_echoes (l.session.lcp.echo_counter + 1) l)

counted : (c : ℕ) → c < 10 → (c + 1) % 2 ^ 8 ≡ c + 1
counted c h = omega arith

pub send_echo-requested :
    (l : Link)
    → l.session.lcp.echo_counter < 9
    → send_echo_req l ≡ ok ((no_action, none), requested l)
unfolding send_echo_req
send_echo-requested l h =
    let c = l.session.lcp.echo_counter in
    rw (counted c (omega arith), ltb-false 9 (c + 1) (omega arith)) refl

pub send_echo-timeout :
    (l : Link)
    → l.session.lcp.echo_counter ≡ 9
    → send_echo_req l
      ≡ ok ((layer_down, some echo_timeout), with_echoes (l.session.lcp.echo_counter + 1) l)
unfolding send_echo_req
send_echo-timeout l h =
    let c = l.session.lcp.echo_counter in
    rw (counted c (omega arith), ltb-true 9 (c + 1) (omega arith)) refl

-- A peer that stops answering is found out: when `n` more requests bring the count of unanswered ones
-- to 9, all of them are sent and report nothing, and the next one reports that the layer is down.
pub echo_run_times_out :
    (n : ℕ) (l : Link)
    → l.session.lcp.echo_counter + n ≡ 9
    → (l' : Link) × (echo_run (suc n) l ≡ ok (replicate n no_action ++ (layer_down ∷ []), l'))
unfolding echo_run
echo_run_times_out zero l h =
    (with_echoes (l.session.lcp.echo_counter + 1) l, rw (send_echo-timeout l (omega arith)) refl)
echo_run_times_out (suc n) l h =
    let (l', e) = echo_run_times_out n (requested l) (omega arith) in
    (l', rw (send_echo-requested l (omega arith), e) refl)
