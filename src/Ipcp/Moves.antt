-- ===== src/Ipcp/Moves.antt =====
-- The automaton of src/ppp_fsm.cpp with the methods of IPCP: every packet makes one of the moves.
use pppcpd.Common.{ℕ, ◌+◌, ◌-◌, ◌%◌, ◌^◌, ◌≡◌, refl, inl, inr, List, [], ◌∷◌}
use pppcpd.Common.{Bool, ◌==◌, Bool-cases, Option-cases, set}
use pppcpd.Common.Bytes.{Bytes, load8, load16, bswap16}
use pppcpd.Common.Outcome.{ok, Holds, Holds-any}
use pppcpd.Common.Map.{ℕ_key, find}
use pppcpd.Fsm.{conf_req, conf_nak, code_at, identifier_at, session_hdr_size, receive}
use pppcpd.Fsm.Moves.{
  stays, MovesIn, state_in, IsLawful, carries_ours, after_ack-Move, after_refusal-Move, received,
}
use pppcpd.Link.{Link, lcp_size}
use pppcpd.Aaa.{Aaa, AaaSession}
use pppcpd.Ipcp.{
  ipcp_vtable, ipcp_check_conf, ipcp_answer, ipcp_send_conf_ack, ipcp_send_conf_nak, ipcp_naked,
  options_of, rejected_options, differs, corrected, assigned,
}

-- Which options of a request are acknowledged is another question, answered in Ipcp/Agreement.
abbrev pub AnyRequest : Bytes → Type 0
AnyRequest pkt = Unit

send_conf_nak-Moves :
    (a : Aaa) (b : Bool) (pkt : Bytes) (l : Link)
    → Holds
        (MovesIn (ipcp_vtable a) (AnyRequest pkt) conf_req b (state_in (ipcp_vtable a) l))
        (ipcp_send_conf_nak a pkt (ipcp_naked l))
unfolding ipcp_send_conf_nak
send_conf_nak-Moves a b pkt l = elim (Option-cases (find l.session.aaa_session_id a.sessions)) [
  | inl gone ↦ rw (gone, ipcp_send_conf_nak) (after_refusal-Move b (state_in (ipcp_vtable a) l))
  | inr (s, e) ↦
      let Q = MovesIn (ipcp_vtable a) (AnyRequest pkt) conf_req b (state_in (ipcp_vtable a) l) in
      let nak = set pkt code_at conf_nak in
      rw (e, ipcp_send_conf_nak)
        (Holds-any Q (load8 pkt code_at) _ (λ _. Holds-any Q (options_of nak) _ (λ opts.
          Holds-any Q (corrected s opts nak) _
            (λ out. after_refusal-Move b (state_in (ipcp_vtable a) l)))))
]

answer-Moves :
    (a : Aaa) (b : Bool) (s : AaaSession) (pkt : Bytes) (opts : List ℕ) (rejected : Bytes)
    (l : Link)
    → Holds
        (MovesIn (ipcp_vtable a) (AnyRequest pkt) conf_req b (state_in (ipcp_vtable a) l))
        (ipcp_answer a s pkt opts rejected l)
unfolding ipcp_answer ipcp_send_conf_ack
answer-Moves a b s pkt opts (x ∷ rejected) l =
    Holds-any (MovesIn (ipcp_vtable a) (AnyRequest pkt) conf_req b (state_in (ipcp_vtable a) l))
      (load8 pkt identifier_at) _ (λ _. stays)
answer-Moves a b s pkt opts [] l =
    let Q = MovesIn (ipcp_vtable a) (AnyRequest pkt) conf_req b (state_in (ipcp_vtable a) l) in
    Holds-any Q (differs s pkt opts) _ (λ d. elim (Bool-cases d) [
      | inl other ↦ rw other (send_conf_nak-Moves a b pkt l)
      | inr same ↦ rw same (
          Holds-any Q (load8 pkt code_at) _ (λ _. after_ack-Move tt b (state_in (ipcp_vtable a) l)))
    ])

ipcp_check_conf-Moves :
    (a : Aaa) (b : Bool) (pkt : Bytes) (l : Link)
    → Holds
        (MovesIn (ipcp_vtable a) (AnyRequest pkt) conf_req b (state_in (ipcp_vtable a) l))
        (ipcp_check_conf a pkt l)
unfolding ipcp_check_conf
ipcp_check_conf-Moves a b pkt l =
    let Q = MovesIn (ipcp_vtable a) (AnyRequest pkt) conf_req b (state_in (ipcp_vtable a) l) in
    Holds-any Q (load16 pkt (session_hdr_size + 2)) _ (λ v.
      elim (Bool-cases ((bswap16 v + (2 ^ 32 - lcp_size)) % 2 ^ 32 == 0)) [
        | inl none_there ↦ rw none_there stays
        | inr some_there ↦ elim (Option-cases (find l.session.aaa_session_id a.sessions)) [
          | inl gone ↦ rw (some_there, gone, ipcp_check_conf) stays
          | inr (s, e) ↦
              rw (some_there, e, ipcp_check_conf)
                (Holds-any Q (options_of pkt) _ (λ opts.
                  Holds-any Q (rejected_options s pkt opts) _
                    (λ rejected. answer-Moves a b s pkt opts rejected (assigned s l))))
        ]
      ])

ipcp-IsLawful : (a : Aaa) → IsLawful (ipcp_vtable a) AnyRequest
ipcp-IsLawful a = record {
  fsm-with_fsm = λ f l. refl;
  check_conf-Moves = ipcp_check_conf-Moves a;
  send_term_ack-IsQuiet = λ pkt l. (refl, refl);
  send_echo_rep-IsQuiet = λ pkt l. (refl, refl);
  recv_echo_rep-IsQuiet = λ pkt l. (refl, refl);
}

-- Every packet that IPCP gets to the end of, reading nothing outside it, makes one of the moves of
-- `Move`: the layer comes up, and the session is provisioned, only by a Configure-Ack with our
-- identifier in Ack-Sent, or by a Configure-Request in Ack-Rcvd.
pub ipcp-receive-Moves :
    (a : Aaa) (pkt : Bytes) (l : Link) (code : ℕ)
    → load8 pkt code_at ≡ ok code
    → Holds
        (MovesIn
          (ipcp_vtable a)
          (AnyRequest pkt)
          code
          (carries_ours (ipcp_vtable a) pkt l)
          (state_in (ipcp_vtable a) l))
        (receive (ipcp_vtable a) pkt l)
ipcp-receive-Moves a pkt l code e =
    received (ipcp_vtable a) AnyRequest (ipcp-IsLawful a) pkt l code e
