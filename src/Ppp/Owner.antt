-- ===== src/Ppp/Owner.antt =====
-- Whose session a link is. The protocols of src/ppp_lcp.cpp, src/ppp_ipcp.cpp, src/ppp_auth.cpp and
-- src/ppp_chap.cpp change a session, but not its addresses and its id, by which the runtime finds it.
use pppcpd.Common.{ℕ, suc, ◌+◌, ◌-◌, ◌%◌, ◌^◌, ◌≡◌, List, [], ◌∷◌, inl, inr}
use pppcpd.Common.{zero, ◌==◌, ltb, Bool-cases, Option-cases, length, set}
use pppcpd.Common.Bytes.{Bytes, load8, load16, load32, copy, bswap16, bswap32}
use pppcpd.Common.Outcome.{Holds, Holds-any, Holds-bind}
use pppcpd.Common.Map.{ℕ_key, find}
use pppcpd.Encap.{Encap}
use pppcpd.Session.{Session}
use pppcpd.Fsm.{code_at, identifier_at, session_hdr_size, open_event, conf_nak}
use pppcpd.Fsm.Keeps.{Kept, IsSteady, open_event-Kept, layer_up_event-Kept}
use pppcpd.Link.{Link, options_at, lcp_size}
use pppcpd.Lcp.{
  lcp_vtable, opt_mru, opt_magic, check_conf, answer_conf, scan, read_option, send_conf_ack,
  send_conf_rej, send_conf_req, send_magic, recv_echo_rep, auth_option,
}
use pppcpd.Aaa.{Aaa, AaaSession}
use pppcpd.Pap.{start_network}
use pppcpd.Ipcp.{
  ipcp_vtable, ipcp_check_conf, ipcp_answer, ipcp_send_conf_ack, ipcp_send_conf_nak, ipcp_naked,
  ipcp_send_conf_req, options_of, rejected_options, differs, corrected, assigned,
}

-- A session with those addresses and that id.
abbrev pub IsOf : Encap → ℕ → Session → Type 0
IsOf e i s = (s.encap ≡ e) × (s.session_id ≡ i)

abbrev pub Owns : Encap → ℕ → Link → Type 0
Owns e i l = IsOf e i l.session

module _ (e : Encap) (i : ℕ) where
  abbrev Scanned : Session × Bytes → Type 0
  Scanned (s, rejected) = IsOf e i s

  read_option-IsOf :
      (pkt : Bytes) (at kind len : ℕ) (acc : Session × Bytes)
      → Scanned acc
      → Holds Scanned (read_option pkt at kind len acc)
  unfolding read_option
  read_option-IsOf pkt at kind len (s, rejected) p = elim (Bool-cases (kind == opt_mru)) [
    | inl a ↦ rw a (Holds-any Scanned (load16 pkt (at + 2)) _ (λ v. p))
    | inr a ↦ elim (Bool-cases (kind == opt_magic)) [
      | inl b ↦ rw (a, b) (Holds-any Scanned (load32 pkt (at + 2)) _ (λ v. p))
      | inr b ↦ rw (a, b) (Holds-any Scanned (copy pkt at len) _ (λ v. p))
    ]
  ]

  scan-IsOf :
      (fuel : ℕ) (pkt : Bytes) (len offset : ℕ) (acc : Session × Bytes)
      → Scanned acc
      → Holds Scanned (scan fuel pkt len offset acc)
  unfolding scan
  scan-IsOf zero pkt len offset acc p = tt
  scan-IsOf (suc fuel) pkt len offset acc p = elim (Bool-cases (ltb offset len)) [
    | inr past ↦ rw past p
    | inl more ↦ rw more (
        Holds-any Scanned (load8 pkt (options_at + offset + 1)) _ (λ n.
          Holds-any Scanned (load8 pkt (options_at + offset)) _ (λ kind.
            Holds-bind Scanned (read_option pkt (options_at + offset) kind n acc) _
              (read_option-IsOf pkt (options_at + offset) kind n acc p)
              (λ acc' q. scan-IsOf fuel pkt len (offset + n) acc' q))))
  ]

  answer_conf-Owns :
      (pkt : Bytes) (acc : Session × Bytes) (l : Link)
      → Scanned acc
      → Holds (Kept (Owns e i)) (answer_conf pkt acc l)
  unfolding answer_conf send_conf_ack send_conf_rej
  answer_conf-Owns pkt (s, []) l p = Holds-any (Kept (Owns e i)) (load8 pkt code_at) _ (λ c. p)
  answer_conf-Owns pkt (s, b ∷ rejected) l p =
      Holds-any (Kept (Owns e i)) (load8 pkt identifier_at) _ (λ c. p)

  check_conf-Owns :
      (pkt : Bytes) (l : Link) → Owns e i l → Holds (Kept (Owns e i)) (check_conf pkt l)
  unfolding check_conf
  check_conf-Owns pkt l p = Holds-any (Kept (Owns e i)) (load16 pkt (session_hdr_size + 2)) _ (λ v.
      let len = (bswap16 v + (2 ^ 32 - lcp_size)) % 2 ^ 32 in
      elim (Bool-cases (len == 0)) [
        | inl none_there ↦ rw none_there p
        | inr some_there ↦ rw some_there (
            Holds-bind (Kept (Owns e i)) (scan (suc (length pkt)) pkt len 0 (l.session, [])) _
              (scan-IsOf (suc (length pkt)) pkt len 0 (l.session, []) p)
              (λ acc q. answer_conf-Owns pkt acc l q))
      ])

  send_magic-Owns :
      (code : ℕ) (pkt : Bytes) (l : Link)
      → Owns e i l
      → Holds (Kept (Owns e i)) (send_magic code pkt l)
  unfolding send_magic
  send_magic-Owns code pkt l p = Holds-any (Kept (Owns e i)) (load8 pkt code_at) _ (λ c.
      Holds-any (Kept (Owns e i)) (load32 pkt (session_hdr_size + lcp_size)) _ (λ m.
        elim (Bool-cases (m == bswap32 l.session.peer_magic_number)) [
          | inl right ↦ rw right p
          | inr wrong ↦ rw wrong p
        ]))

  send_conf_req-Owns : (l : Link) → Owns e i l → Holds (Kept (Owns e i)) (send_conf_req l)
  unfolding send_conf_req
  send_conf_req-Owns l p = elim (Option-cases (auth_option l.lcp_conf)) [
    | inl unset ↦ rw (unset, send_conf_req) p
    | inr (auth, set) ↦ rw (set, send_conf_req) p
  ]

  recv_echo_rep-Owns :
      (pkt : Bytes) (l : Link) → Owns e i l → Holds (Kept (Owns e i)) (recv_echo_rep pkt l)
  unfolding recv_echo_rep
  recv_echo_rep-Owns pkt l p = p

  pub lcp-IsSteady : IsSteady lcp_vtable (Owns e i)
  lcp-IsSteady = record {
    with_fsm-Kept = λ f l p. p;
    send_conf_req-Kept = send_conf_req-Owns;
    check_conf-Kept = check_conf-Owns;
    send_term_ack-Kept = send_magic-Owns _;
    send_echo_rep-Kept = send_magic-Owns _;
    recv_echo_rep-Kept = recv_echo_rep-Owns;
  }

  ipcp_send_conf_nak-Owns :
      (a : Aaa) (pkt : Bytes) (l : Link)
      → Owns e i l
      → Holds (Kept (Owns e i)) (ipcp_send_conf_nak a pkt l)
  unfolding ipcp_send_conf_nak
  ipcp_send_conf_nak-Owns a pkt l p =
      elim (Option-cases (find l.session.aaa_session_id a.sessions)) [
        | inl gone ↦ rw (gone, ipcp_send_conf_nak) p
        | inr (s, there) ↦
            let nak = set pkt code_at conf_nak in
            rw (there, ipcp_send_conf_nak)
              (Holds-any (Kept (Owns e i)) (load8 pkt code_at) _ (λ c.
                Holds-any (Kept (Owns e i)) (options_of nak) _
                  (λ opts. Holds-any (Kept (Owns e i)) (corrected s opts nak) _ (λ out. p))))
      ]

  ipcp_answer-Owns :
      (a : Aaa) (s : AaaSession) (pkt : Bytes) (opts : List ℕ) (rejected : Bytes) (l : Link)
      → Owns e i l
      → Holds (Kept (Owns e i)) (ipcp_answer a s pkt opts rejected l)
  unfolding ipcp_answer ipcp_send_conf_ack
  ipcp_answer-Owns a s pkt opts (x ∷ rejected) l p =
      Holds-any (Kept (Owns e i)) (load8 pkt identifier_at) _ (λ c. p)
  ipcp_answer-Owns a s pkt opts [] l p = Holds-any (Kept (Owns e i)) (differs s pkt opts) _ (λ d.
      elim (Bool-cases d) [
        | inl other ↦ rw other (ipcp_send_conf_nak-Owns a pkt (ipcp_naked l) p)
        | inr same ↦ rw same (Holds-any (Kept (Owns e i)) (load8 pkt code_at) _ (λ c. p))
      ])

  ipcp_check_conf-Owns :
      (a : Aaa) (pkt : Bytes) (l : Link)
      → Owns e i l
      → Holds (Kept (Owns e i)) (ipcp_check_conf a pkt l)
  unfolding ipcp_check_conf
  ipcp_check_conf-Owns a pkt l p =
      Holds-any (Kept (Owns e i)) (load16 pkt (session_hdr_size + 2)) _ (λ v.
        elim (Bool-cases ((bswap16 v + (2 ^ 32 - lcp_size)) % 2 ^ 32 == 0)) [
          | inl none_there ↦ rw none_there p
          | inr some_there ↦ elim (Option-cases (find l.session.aaa_session_id a.sessions)) [
            | inl gone ↦ rw (some_there, gone, ipcp_check_conf) p
            | inr (s, there) ↦
                rw (some_there, there, ipcp_check_conf)
                  (Holds-any (Kept (Owns e i)) (options_of pkt) _ (λ opts.
                    Holds-any (Kept (Owns e i)) (rejected_options s pkt opts) _
                      (λ rejected. ipcp_answer-Owns a s pkt opts rejected (assigned s l) p)))
          ]
        ])

  ipcp_send_conf_req-Owns : (l : Link) → Owns e i l → Holds (Kept (Owns e i)) (ipcp_send_conf_req l)
  unfolding ipcp_send_conf_req
  ipcp_send_conf_req-Owns l p = p

  pub ipcp-IsSteady : (a : Aaa) → IsSteady (ipcp_vtable a) (Owns e i)
  ipcp-IsSteady a = record {
    with_fsm-Kept = λ f l p. p;
    send_conf_req-Kept = ipcp_send_conf_req-Owns;
    check_conf-Kept = ipcp_check_conf-Owns a;
    send_term_ack-Kept = λ pkt l p. p;
    send_echo_rep-Kept = λ pkt l p. p;
    recv_echo_rep-Kept = λ pkt l p. p;
  }

  pub start_network-Owns : (a : Aaa) (l : Link) → Owns e i l → Holds (Owns e i) (start_network a l)
  start_network-Owns a l p =
      Holds-bind (Owns e i) (open_event (ipcp_vtable a) l) _
        (open_event-Kept (ipcp_vtable a) (Owns e i) (ipcp-IsSteady a) l p)
        (λ l' q. layer_up_event-Kept (ipcp_vtable a) (Owns e i) (ipcp-IsSteady a) l' q)
