-- ===== src/Ppp/Logins.antt =====
-- Whose session a link is, through the packets of src/ppp_auth.cpp and src/ppp_chap.cpp.
use pppcpd.Common.{ℕ, ◌+◌, ◌-◌, ◌%◌, ◌^◌, List, [], ◌∷◌, none, some, inl, inr}
use pppcpd.Common.{◌==◌, Bool-cases}
use pppcpd.Common.Bytes.{Bytes, load8, load16, copy, bswap16}
use pppcpd.Common.Outcome.{Outcome, ok, Holds, Holds-any, Holds-bind, Holds-if}
use pppcpd.Encap.{Encap}
use pppcpd.Fsm.{FsmRet, code_at, identifier_at, session_hdr_size}
use pppcpd.Fsm.Keeps.{Kept}
use pppcpd.Link.{Link, push}
use pppcpd.Aaa.{Aaa, pap, chap}
use pppcpd.Aaa.Methods.{Call, start_session}
use pppcpd.Pap.{
  start_network, run_calls, pap_callback, pap_send_auth_ack, pap_send_auth_nak, pap_ask,
  pap_recv_auth_req, pap_receive, named, pap_started, pap_reply, authenticate_ack, authenticate_req,
  auth_size,
}
use pppcpd.Chap.{
  chap_callback, chap_send_auth_ack, chap_send_auth_nak, chap_ask, chap_recv_auth_req, chap_receive,
  chap_started, chap_reply, success_code, response_code, chap_size, value_size,
}
use pppcpd.Ppp.Owner.{Owns, start_network-Owns}

-- That a call with the AAA in its state leaves a property of the link standing.
abbrev pub Carries : (Link → Type 0) → Link × Aaa → Type 0
Carries P (l, a) = P l

abbrev pub Reports : (Link → Type 0) → FsmRet × (Link × Aaa) → Type 0
Reports P (r, x) = Carries P x

module _ (e : Encap) (i : ℕ) where
  pub run_calls-Owns :
      (f : Call → Link → Outcome (FsmRet × Link))
      → ((c : Call) (l : Link) → Owns e i l → Holds (Kept (Owns e i)) (f c l))
      → (calls : List Call) (l : Link) → Owns e i l
      → Holds (Owns e i) (run_calls f calls l)
  unfolding run_calls
  run_calls-Owns f keeps [] l p = p
  run_calls-Owns f keeps (c ∷ calls) l p =
      Holds-bind (Owns e i) (f c l) _ (keeps c l p) (λ r q. run_calls-Owns f keeps calls r.1 q)

  pap_send_auth_ack-Owns :
      (a : Aaa) (l : Link) → Owns e i l → Holds (Kept (Owns e i)) (pap_send_auth_ack a l)
  unfolding pap_send_auth_ack
  pap_send_auth_ack-Owns a l p =
      let l' = push (pap_reply authenticate_ack l.session.session_id) l in
      Holds-bind (Kept (Owns e i)) (start_network a l') _ (start_network-Owns e i a l' p) (λ t q. q)

  pub pap_callback-Owns :
      (a : Aaa) (c : Call) (l : Link) → Owns e i l → Holds (Kept (Owns e i)) (pap_callback a c l)
  unfolding pap_callback pap_send_auth_nak
  pap_callback-Owns a (sid, none) l p = pap_send_auth_ack-Owns a (pap_started sid l) p
  pap_callback-Owns a (sid, some err) l p = p

  pap_ask-Owns :
      (pkt : Bytes) (l : Link) (a : Aaa) → Owns e i l → Holds (Carries (Owns e i)) (pap_ask pkt l a)
  unfolding pap_ask
  pap_ask-Owns pkt l a p =
      let Q = Carries (Owns e i) in
      let at = session_hdr_size + auth_size in
      Holds-any Q (load8 pkt at) _ (λ user_len. Holds-any Q (copy pkt (at + 1) user_len) _ (λ user.
        Holds-any Q (load8 pkt (at + user_len + 1)) _ (λ pass_len.
          Holds-any Q (copy pkt (at + 1 + user_len + 1) pass_len) _ (λ pass.
            Holds-any Q (start_session user (pap pass) l.session.encap a) _ (λ s.
              Holds-bind Q (run_calls (pap_callback s.1) s.0 (named user l)) _
                (run_calls-Owns (pap_callback s.1) (pap_callback-Owns s.1) s.0 (named user l) p)
                (λ t q. q))))))

  pap_recv-Owns :
      (pkt : Bytes) (l : Link) (a : Aaa)
      → Owns e i l
      → Holds (Carries (Owns e i)) (pap_recv_auth_req pkt l a)
  unfolding pap_recv_auth_req
  pap_recv-Owns pkt l a p =
      Holds-if (Carries (Owns e i)) l.session.auth.started _ (pap_ask pkt l a)
        (Holds-bind (Carries (Owns e i)) (pap_send_auth_ack a l) (λ x. ok (x.1, a))
          (pap_send_auth_ack-Owns a l p) (λ t q. q))
        (pap_ask-Owns pkt l a p)

  pub pap_receive-Owns :
      (pkt : Bytes) (l : Link) (a : Aaa)
      → Owns e i l
      → Holds (Reports (Owns e i)) (pap_receive pkt l a)
  unfolding pap_receive
  pap_receive-Owns pkt l a p =
      let Q = Reports (Owns e i) in
      Holds-any Q (load8 pkt code_at) _ (λ code. elim (Bool-cases (code == authenticate_req)) [
        | inl asks ↦
            rw asks
              (Holds-bind Q (pap_recv_auth_req pkt l a) _ (pap_recv-Owns pkt l a p) (λ t q. q))
        | inr other ↦ rw other p
      ])

  chap_send_auth_ack-Owns :
      (a : Aaa) (l : Link) → Owns e i l → Holds (Kept (Owns e i)) (chap_send_auth_ack a l)
  unfolding chap_send_auth_ack
  chap_send_auth_ack-Owns a l p =
      let l' = push (chap_reply success_code l.session.session_id) l in
      Holds-bind (Kept (Owns e i)) (start_network a l') _ (start_network-Owns e i a l' p) (λ t q. q)

  pub chap_callback-Owns :
      (a : Aaa) (c : Call) (l : Link) → Owns e i l → Holds (Kept (Owns e i)) (chap_callback a c l)
  unfolding chap_callback chap_send_auth_nak
  chap_callback-Owns a (sid, none) l p = chap_send_auth_ack-Owns a (chap_started sid l) p
  chap_callback-Owns a (sid, some err) l p = p

  chap_ask-Owns :
      (pkt : Bytes) (l : Link) (a : Aaa)
      → Owns e i l
      → Holds (Carries (Owns e i)) (chap_ask pkt l a)
  unfolding chap_ask
  chap_ask-Owns pkt l a p =
      let Q = Carries (Owns e i) in
      let size = session_hdr_size + chap_size in
      Holds-any Q (load16 pkt (session_hdr_size + 2)) _ (λ v.
        Holds-any Q (copy pkt size ((bswap16 v + (2 ^ 8 - chap_size)) % 2 ^ 8)) _ (λ user.
          Holds-any Q (copy pkt (session_hdr_size + 5) value_size) _ (λ value.
            Holds-any Q (load8 pkt identifier_at) _ (λ id.
              let asked =
                start_session user (chap l.session.chap.challenge (id ∷ value)) l.session.encap a in
              Holds-any Q asked _ (λ s.
                Holds-bind Q (run_calls (chap_callback s.1) s.0 (named user l)) _
                  (run_calls-Owns (chap_callback s.1) (chap_callback-Owns s.1) s.0 (named user l) p)
                  (λ t q. q))))))

  chap_recv-Owns :
      (pkt : Bytes) (l : Link) (a : Aaa)
      → Owns e i l
      → Holds (Carries (Owns e i)) (chap_recv_auth_req pkt l a)
  unfolding chap_recv_auth_req
  chap_recv-Owns pkt l a p =
      Holds-if (Carries (Owns e i)) l.session.chap.started _ (chap_ask pkt l a)
        (Holds-bind (Carries (Owns e i)) (chap_send_auth_ack a l) (λ x. ok (x.1, a))
          (chap_send_auth_ack-Owns a l p) (λ t q. q))
        (chap_ask-Owns pkt l a p)

  pub chap_receive-Owns :
      (pkt : Bytes) (l : Link) (a : Aaa)
      → Owns e i l
      → Holds (Reports (Owns e i)) (chap_receive pkt l a)
  unfolding chap_receive
  chap_receive-Owns pkt l a p =
      let Q = Reports (Owns e i) in
      Holds-any Q (load8 pkt code_at) _ (λ code. elim (Bool-cases (code == response_code)) [
        | inl answers ↦
            rw answers
              (Holds-bind Q (chap_recv_auth_req pkt l a) _ (chap_recv-Owns pkt l a p) (λ t q. q))
        | inr other ↦ rw other p
      ])
