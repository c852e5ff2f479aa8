-- ===== src/Lcp/Moves.antt =====
-- The moves of the automaton of src/ppp_fsm.cpp with LCP, and what LCP's methods contribute to them.
use pppcpd.Common.{ℕ, zero, suc, ◌+◌, ◌-◌, ◌^◌, ◌%◌, ◌≡◌, refl, inl, inr, [], ◌∷◌}
use pppcpd.Common.{Bool, ◌==◌, ltb, Bool-cases, length}
use pppcpd.Common.Bytes.{Bytes, load8, load16, load32, copy, bswap16, bswap32}
use pppcpd.Common.Outcome.{Holds, Holds-bind, Holds-any, Holds-known, Holds-both}
use pppcpd.Session.{Session}
use pppcpd.Fsm.{conf_req, code_at, identifier_at, session_hdr_size, term_ack, echo_reply}
use pppcpd.Fsm.Moves.{
  stays, MovesIn, IsQuiet, state_in, IsLawful, after_ack-Move, after_refusal-Move,
}
use pppcpd.Link.{Link, options_at, lcp_size}
use pppcpd.Lcp.Known.{HasKnownOptions, IsAcceptance, scan-IsAcceptance}
use pppcpd.Lcp.{
  lcp_vtable, recv_echo_rep, check_conf, scan, read_option, answer_conf, send_conf_ack,
  send_conf_rej, send_magic, opt_mru, opt_magic,
}

-- The options of a request leave the automaton alone.
abbrev Kept : Session → Session × Bytes → Type 0
Kept s (s', rejected) = s'.lcp ≡ s.lcp

read_option-Kept :
    (pkt : Bytes) (at kind len : ℕ) (s : Session) (acc : Session × Bytes)
    → Kept s acc
    → Holds (Kept s) (read_option pkt at kind len acc)
unfolding read_option
read_option-Kept pkt at kind len s acc k = elim (Bool-cases (kind == opt_mru)) [
  | inl m ↦ rw m (Holds-any (Kept s) (load16 pkt (at + 2)) _ (λ v. k))
  | inr m ↦ elim (Bool-cases (kind == opt_magic)) [
    | inl g ↦ rw (m, g) (Holds-any (Kept s) (load32 pkt (at + 2)) _ (λ v. k))
    | inr g ↦ rw (m, g) (Holds-any (Kept s) (copy pkt at len) _ (λ v. k))
  ]
]

scan-Kept :
    (fuel : ℕ) (pkt : Bytes) (len offset : ℕ) (s : Session) (acc : Session × Bytes)
    → Kept s acc
    → Holds (Kept s) (scan fuel pkt len offset acc)
unfolding scan
scan-Kept zero pkt len offset s acc k = tt
scan-Kept (suc fuel) pkt len offset s acc k = elim (Bool-cases (ltb offset len)) [
  | inr over ↦ rw over k
  | inl more ↦ rw more (
      Holds-any (Kept s) (load8 pkt (options_at + offset + 1)) _ (λ n.
        Holds-any (Kept s) (load8 pkt (options_at + offset)) _ (λ kind.
          Holds-bind (Kept s) (read_option pkt (options_at + offset) kind n acc) _
            (read_option-Kept pkt (options_at + offset) kind n s acc k)
            (λ acc' k'. scan-Kept fuel pkt len (offset + n) s acc' k'))))
]

answer_conf-Moves :
    (b : Bool) (pkt : Bytes) (s : Session) (rejected : Bytes) (l : Link)
    → s.lcp ≡ l.session.lcp
    → (rejected ≡ [] → HasKnownOptions pkt)
    → Holds
        (MovesIn lcp_vtable (HasKnownOptions pkt) conf_req b (state_in lcp_vtable l))
        (answer_conf pkt (s, rejected) l)
unfolding answer_conf send_conf_ack send_conf_rej
answer_conf-Moves b pkt s [] l k known =
    Holds-any (MovesIn lcp_vtable (HasKnownOptions pkt) conf_req b (state_in lcp_vtable l))
      (load8 pkt code_at) _ (λ _. after_ack-Move (known refl) b (state_in lcp_vtable l))
answer_conf-Moves b pkt s (x ∷ rejected) l k known =
    Holds-any (MovesIn lcp_vtable (HasKnownOptions pkt) conf_req b (state_in lcp_vtable l))
      (load8 pkt identifier_at) _ (λ _. after_refusal-Move b (state_in lcp_vtable l))

pub check_conf-Moves :
    (b : Bool) (pkt : Bytes) (l : Link)
    → Holds
        (MovesIn lcp_vtable (HasKnownOptions pkt) conf_req b (state_in lcp_vtable l))
        (check_conf pkt l)
unfolding check_conf
check_conf-Moves b pkt l =
    Holds-known (MovesIn lcp_vtable (HasKnownOptions pkt) conf_req b (state_in lcp_vtable l))
      (load16 pkt (session_hdr_size + 2)) _
      (λ v field.
        let len = (bswap16 v + (2 ^ 32 - lcp_size)) % 2 ^ 32 in
        elim (Bool-cases (len == 0)) [
          | inl none_there ↦ rw none_there stays
          | inr some_there ↦ rw some_there (
              Holds-bind
                (MovesIn lcp_vtable (HasKnownOptions pkt) conf_req b (state_in lcp_vtable l))
                (scan (suc (length pkt)) pkt len 0 (l.session, [])) _
                (Holds-both (Kept l.session) (IsAcceptance pkt len 0 [])
                  (scan (suc (length pkt)) pkt len 0 (l.session, []))
                  (scan-Kept (suc (length pkt)) pkt len 0 l.session (l.session, []) refl)
                  (scan-IsAcceptance (suc (length pkt)) pkt len 0 l.session []))
                (λ acc (k, known).
                  answer_conf-Moves b pkt acc.0 acc.1 l k (λ e. (v, field, (known e).1))))
        ])

pub send_magic-IsQuiet :
    (code : ℕ) (pkt : Bytes) (l : Link)
    → Holds (IsQuiet lcp_vtable (state_in lcp_vtable l)) (send_magic code pkt l)
unfolding send_magic
send_magic-IsQuiet code pkt l = Holds-any _ (load8 pkt code_at) _ (λ _.
    Holds-any _ (load32 pkt (session_hdr_size + lcp_size)) _ (λ m.
      elim (Bool-cases (m == bswap32 l.session.peer_magic_number)) [
        | inl same ↦ rw same (refl, refl)
        | inr other ↦ rw other (refl, refl)
      ]))

pub lcp-IsLawful : IsLawful lcp_vtable HasKnownOptions
unfolding recv_echo_rep
lcp-IsLawful = record {
  fsm-with_fsm = λ f l. refl;
  check_conf-Moves = check_conf-Moves;
  send_term_ack-IsQuiet = send_magic-IsQuiet term_ack;
  send_echo_rep-IsQuiet = send_magic-IsQuiet echo_reply;
  recv_echo_rep-IsQuiet = λ pkt l. (refl, refl);
}
