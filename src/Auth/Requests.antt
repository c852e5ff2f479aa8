-- ===== src/Auth/Requests.antt =====
-- The bytes of a request of PAP and of CHAP, and what recv_auth_req of src/ppp_auth.cpp and of
-- src/ppp_chap.cpp asks the AAA with.
use pppcpd.Common.{
  ℕ, ◌+◌, ◌-◌, ◌%◌, ◌^◌, ◌<◌, ◌≡◌, refl, sym, ap, ◌∙◌, arith, [], ◌∷◌, ◌++◌, append_assoc,
}
use pppcpd.Common.{none, false, length, length-append}
use pppcpd.Common.Bytes.{Bytes, load8, copy, be16, read16, load8-append, copy-append}
use pppcpd.Common.Outcome.{Outcome, ok, ◌>>=◌}
use pppcpd.Common.Map.{Str}
use pppcpd.Fsm.{no_action, FsmRet, session_hdr_size}
use pppcpd.Link.{Link, session_header, proto_pap, proto_chap}
use pppcpd.Aaa.{Aaa, Credentials, pap, chap}
use pppcpd.Aaa.Methods.{Call, start_session}
use pppcpd.Pap.{
  authenticate_req, auth_size, run_calls, pap_callback, pap_receive, pap_recv_auth_req, pap_ask,
  named,
}
use pppcpd.Chap.{
  response_code, chap_size, value_size, chap_callback, chap_receive, chap_recv_auth_req, chap_ask,
}

-- The AAA is asked with these credentials, and its calls run.
unfoldable pub asked :
    (Aaa → Call → Link → Outcome (FsmRet × Link))
    → Str
    → Credentials
    → Link
    → Aaa
    → Outcome (Link × Aaa)
asked callback user c l a = do
  (calls, a') ← start_session user c l.session.encap a
  l' ← run_calls (callback a') calls (named user l)
  ok (l', a')

-- The caller gets no action, whatever happened.
abbrev pub unreported : Outcome (Link × Aaa) → Outcome (FsmRet × (Link × Aaa))
unreported o = do r ← o; ok ((no_action, none), r)

abbrev pub pap_front : ℕ → ℕ → ℕ → Bytes
pap_front sid size id = session_header sid size proto_pap ++ (authenticate_req ∷ id ∷ be16 size)

-- An Authenticate-Request, whatever trails it.
abbrev pub pap_request : ℕ → ℕ → ℕ → Str → Str → Bytes → Bytes
pap_request sid size id user pass after =
    pap_front sid size id ++ (length user ∷ (user ++ (length pass ∷ (pass ++ after))))

module _ (sid size id : ℕ) (user pass : Str) (after : Bytes) where
  abbrev pkt : Bytes
  pkt = pap_request sid size id user pass after

  -- The packet up to the user name.
  abbrev head : Bytes
  head = pap_front sid size id ++ (length user ∷ [])

  user_found : copy pkt (session_hdr_size + auth_size + 1) (length user) ≡ ok user
  user_found = copy-append head user (length pass ∷ (pass ++ after)) 13 (length user) refl refl

  pass_len_found : load8 pkt (session_hdr_size + auth_size + length user + 1) ≡ ok (length pass)
  pass_len_found =
      rw
        (
          load8-append head (user ++ (length pass ∷ (pass ++ after)))
              (session_hdr_size + auth_size + length user + 1) (length user) (omega arith),
          load8-append user (length pass ∷ (pass ++ after)) (length user) 0 (omega arith),
        )
        refl

  pass_found : copy pkt (session_hdr_size + auth_size + 1 + length user + 1) (length pass) ≡ ok pass
  pass_found =
      let k = append_assoc user (length pass ∷ []) (pass ++ after) in
      rw (← k) (
        copy-append (head ++ (user ++ (length pass ∷ []))) pass after
          (session_hdr_size + auth_size + 1 + length user + 1) (length pass)
          (omega (
            arith,
            length-append head (user ++ (length pass ∷ [])),
            length-append user (length pass ∷ []),
          ))
          refl)

  pap_ask-asked : (l : Link) (a : Aaa) → pap_ask pkt l a ≡ asked pap_callback user (pap pass) l a
  unfolding pap_ask asked
  pap_ask-asked l a = rw (user_found, pass_len_found, pass_found) refl

pap_not_yet :
    (pkt : Bytes) (l : Link) (a : Aaa)
    → l.session.auth.started ≡ false
    → pap_recv_auth_req pkt l a ≡ pap_ask pkt l a
unfolding pap_recv_auth_req
pap_not_yet pkt l a e = rw e refl

-- An Authenticate-Request of a peer that is not let in yet is read to its end: the AAA is asked with
-- the name and the password in it, whatever trails them, and the calls of the AAA run.
pub pap_receive-asked :
    (sid size id : ℕ) (user pass : Str) (after : Bytes) (l : Link) (a : Aaa)
    → l.session.auth.started ≡ false
    → pap_receive (pap_request sid size id user pass after) l a
      ≡ unreported (asked pap_callback user (pap pass) l a)
unfolding pap_receive
pap_receive-asked sid size id user pass after l a e = ap unreported (
    pap_not_yet (pap_request sid size id user pass after) l a e
    ∙ pap_ask-asked sid size id user pass after l a)

abbrev pub chap_front : ℕ → ℕ → ℕ → ℕ → Bytes
chap_front sid size id len =
    session_header sid size proto_chap ++ (response_code ∷ id ∷ be16 len ++ (value_size ∷ []))

-- A Response, whatever trails it. Its length counts from the code to the end of the name.
abbrev pub chap_response : ℕ → ℕ → ℕ → Bytes → Str → Bytes → Bytes
chap_response sid size id value user after =
    chap_front sid size id (chap_size + length user) ++ (value ++ (user ++ after))

module _ (sid size id : ℕ) (value : Bytes) (user : Str) (after : Bytes)
    (sixteen : length value ≡ value_size) where
  abbrev response : Bytes
  response = chap_response sid size id value user after

  abbrev front : Bytes
  front = chap_front sid size id (chap_size + length user)

  value_found : copy response (session_hdr_size + 5) value_size ≡ ok value
  value_found =
      copy-append front value (user ++ after) (session_hdr_size + 5) value_size refl (sym sixteen)

  name_found : (n : ℕ) → n ≡ length user → copy response (session_hdr_size + chap_size) n ≡ ok user
  name_found n e =
      copy-append (front ++ value) user after (session_hdr_size + chap_size) n
        (omega (arith, length-append front value)) e

  chap_ask-asked :
      (l : Link) (a : Aaa)
      → length user + chap_size < 2 ^ 8
      → chap_ask response l a
        ≡ asked chap_callback user (chap l.session.chap.challenge (id ∷ value)) l a
  unfolding chap_ask asked
  chap_ask-asked l a h =
      let len = read16 (chap_size + length user) (omega arith) in
      let short = (chap_size + length user + (2 ^ 8 - chap_size)) % 2 ^ 8 in
      rw (len, name_found short (omega arith), value_found) refl

chap_not_yet :
    (pkt : Bytes) (l : Link) (a : Aaa)
    → l.session.chap.started ≡ false
    → chap_recv_auth_req pkt l a ≡ chap_ask pkt l a
unfolding chap_recv_auth_req
chap_not_yet pkt l a e = rw e refl

-- A Response with a value of 16 bytes and a name of at most 234 is read to its end: the AAA is
-- asked with the challenge that was sent and the identifier and the value in the packet.
pub chap_receive-asked :
    (sid size id : ℕ) (value : Bytes) (user : Str) (after : Bytes) (l : Link) (a : Aaa)
    → l.session.chap.started ≡ false
    → length value ≡ value_size
    → length user + chap_size < 2 ^ 8
    → chap_receive (chap_response sid size id value user after) l a
      ≡ unreported (asked chap_callback user (chap l.session.chap.challenge (id ∷ value)) l a)
unfolding chap_receive
chap_receive-asked sid size id value user after l a e v h = ap unreported (
    chap_not_yet (chap_response sid size id value user after) l a e
    ∙ chap_ask-asked sid size id value user after v l a h)
