-- ===== src/Lcp/Options.antt =====
-- The options of a Configure-Request as a list, and the loop of LCP_FSM::check_conf over their bytes.
use pppcpd.Common.{
  ℕ, zero, suc, ◌+◌, ◌-◌, ◌*◌, ◌/◌, ◌%◌, ◌^◌, ◌<◌, ◌≡◌, ◌≢◌, refl, sym, ◌∙◌, ap, arith, List, [],
  ◌∷◌, ◌++◌,
}
use pppcpd.Common.{ltb-true, ltb-false, ==_false}
use pppcpd.Common.{length, All, none, length-append, append_assoc, append-nil}
use pppcpd.Common.Bytes.{Bytes, load8, load16, bswap16, read16, read32, load8-append, copy-append}
use pppcpd.Common.Outcome.{Outcome, ok, stuck}
use pppcpd.Session.{Session}
use pppcpd.Fsm.{conf_req, conf_ack, no_action, FsmRet, session_hdr_size}
use pppcpd.Fsm.Moves.{on_our_ack, on_our_ack-action, on_our_ack-state}
use pppcpd.Link.{
  Link, push, rej_packet, opt_2b, opt_4b, options_at, lcp_size, lcp_header, session_header,
  proto_lcp,
}
use pppcpd.Lcp.{
  scan, read_option, opt_mru, opt_magic, check_conf, answer_conf, send_conf_ack, send_conf_rej,
  lcp_fsm, with_lcp_fsm, unacked,
}

pub data LcpOption : Type 0 where
  mru magic : ℕ → LcpOption
  other : ℕ → Bytes → LcpOption

abbrev pub encode : LcpOption → Bytes
encode (mru v) = opt_2b opt_mru v
encode (magic v) = opt_4b opt_magic v
encode (other kind body) = kind ∷ (length body + 2) ∷ body

-- What fits into an option's fields.
abbrev pub IsOption : LcpOption → Type 0
IsOption (mru v) = v < 2 ^ 16
IsOption (magic v) = v < 2 ^ 32
IsOption (other kind body) = (kind ≢ opt_mru) × (kind ≢ opt_magic) × (length body + 2 < 256)

abbrev pub encode_all : List LcpOption → Bytes
encode_all [] = []
encode_all (o ∷ os) = encode o ++ encode_all os

-- The session takes over an MRU and a magic number; every other option is to be rejected.
abbrev pub taken_over : LcpOption → Session × Bytes → Session × Bytes
taken_over (mru v) (s, r) = (record s { peer_mru = v }, r)
taken_over (magic v) (s, r) = (record s { peer_magic_number = v }, r)
taken_over (other kind body) (s, r) = (s, r ++ encode (other kind body))

abbrev pub take_over : List LcpOption → Session × Bytes → Session × Bytes
take_over [] acc = acc
take_over (o ∷ os) acc = take_over os (taken_over o acc)

read_option_lem :
    (before after : Bytes) (at : ℕ) (o : LcpOption) (acc : Session × Bytes)
    → at ≡ length before
    → IsOption o
    → (load8 (before ++ (encode o ++ after)) (at + 1) ≡ ok (length (encode o)))
      × ((k : ℕ) × (load8 (before ++ (encode o ++ after)) at ≡ ok k)
          × (read_option (before ++ (encode o ++ after)) at k (length (encode o)) acc
              ≡ ok (taken_over o acc)))
unfolding read_option
read_option_lem before after at (mru v) (s, r) e h =
    let tail = encode (mru v) ++ after in
    (
      load8-append before tail (at + 1) 1 (omega arith),
      (
        opt_mru,
        load8-append before tail at 0 (omega arith),
        rw
            (
              load8-append before tail (at + 2) 2 (omega arith),
              load8-append before tail (at + 2 + 1) 3 (omega arith),
              read16 v h,
            )
            refl,
      ),
    )
read_option_lem before after at (magic v) (s, r) e h =
    let tail = encode (magic v) ++ after in
    (
      load8-append before tail (at + 1) 1 (omega arith),
      (
        opt_magic,
        load8-append before tail at 0 (omega arith),
        rw
            (
              load8-append before tail (at + 2) 2 (omega arith),
              load8-append before tail (at + 2 + 1) 3 (omega arith),
              load8-append before tail (at + 2 + 2) 4 (omega arith),
              load8-append before tail (at + 2 + 2 + 1) 5 (omega arith),
              read32 v h,
            )
            refl,
      ),
    )
read_option_lem before after at (other kind body) (s, r) e (h, k, b) =
    let tail = encode (other kind body) ++ after in
    (
      rw (load8-append before tail (at + 1) 1 (omega arith)) (ap ok (omega arith)),
      (
        kind,
        load8-append before tail at 0 (omega arith),
        rw
            (
              ==_false kind opt_mru h,
              ==_false kind opt_magic k,
              copy-append before (encode (other kind body)) after at
                  (length (encode (other kind body))) e refl,
            )
            refl,
      ),
    )

scan_step :
    (fuel : ℕ) (pkt : Bytes) (len offset n kind : ℕ) (acc acc' : Session × Bytes)
    → offset < len
    → load8 pkt (options_at + offset + 1) ≡ ok n
    → load8 pkt (options_at + offset) ≡ ok kind
    → read_option pkt (options_at + offset) kind n acc ≡ ok acc'
    → scan (suc fuel) pkt len offset acc ≡ scan fuel pkt len (offset + n) acc'
unfolding scan
scan_step fuel pkt len offset n kind acc acc' l a b c = rw (ltb-true offset len l, a, b, c) refl

encode_long : (o : LcpOption) → 0 < length (encode o)
encode_long (mru v) = omega arith
encode_long (magic v) = omega arith
encode_long (other kind body) = omega arith

-- The loop takes every option over, in order, with a round for each byte and one that ends it.
scan-take_over :
    (os : List LcpOption) (fuel len offset : ℕ) (pkt before after : Bytes) (acc : Session × Bytes)
    → pkt ≡ before ++ (encode_all os ++ after)
    → len ≡ offset + length (encode_all os)
    → length before ≡ options_at + offset
    → All IsOption os
    → length (encode_all os) < fuel
    → scan fuel pkt len offset acc ≡ ok (take_over os acc)
unfolding scan
scan-take_over os zero len offset pkt before after acc p q e h f = absurd (omega arith)
scan-take_over [] (suc fuel) len offset pkt before after acc p q e h f =
    rw (ltb-false offset len (omega arith)) refl
scan-take_over (o ∷ os) (suc fuel) len offset pkt before after acc p q e (h, hs) f =
    let n = length (encode o) in
    let long = encode_long o in
    let sum = length-append (encode o) (encode_all os) in
    let p' : pkt ≡ before ++ (encode o ++ (encode_all os ++ after)) =
      p ∙ ap (λ x. before ++ x) (append_assoc (encode o) (encode_all os) after) in
    let p'' : pkt ≡ (before ++ encode o) ++ (encode_all os ++ after) =
      p' ∙ sym (append_assoc before (encode o) (encode_all os ++ after)) in
    let (a, (kind, b, c)) =
      read_option_lem before (encode_all os ++ after) (options_at + offset) o acc (sym e) h in
    let at_option : (scan (suc fuel) pkt len offset acc
        ≡ scan fuel pkt len (offset + n) (taken_over o acc)) =
      scan_step fuel pkt len offset n kind acc (taken_over o acc) (omega (arith, sum, long))
        (rw p' a) (rw p' b) (rw p' c) in
    at_option
    ∙ scan-take_over os fuel len (offset + n) pkt (before ++ encode o) after (taken_over o acc) p''
        (omega (arith, sum)) (omega (arith, length-append before (encode o))) hs
        (omega (arith, sum, long))

check_step :
    (pkt : Bytes) (l : Link) (v n : ℕ) (acc : Session × Bytes)
    → load16 pkt (session_hdr_size + 2) ≡ ok v
    → (bswap16 v + (2 ^ 32 - lcp_size)) % 2 ^ 32 ≡ n
    → 0 < n
    → scan (suc (length pkt)) pkt n 0 (l.session, []) ≡ ok acc
    → check_conf pkt l ≡ answer_conf pkt acc l
unfolding check_conf
check_step pkt l v n acc a b z c = rw (a, b, ==_false n 0 (λ e. omega arith), c) refl

-- The options that are to go back, in their order.
abbrev pub rejected_of : List LcpOption → Bytes
rejected_of [] = []
rejected_of (mru v ∷ os) = rejected_of os
rejected_of (magic v ∷ os) = rejected_of os
rejected_of (other kind body ∷ os) = encode (other kind body) ++ rejected_of os

take_over-rejected :
    (os : List LcpOption) (s : Session) (r : Bytes) → (take_over os (s, r)).1 ≡ r ++ rejected_of os
take_over-rejected [] s r = sym (append-nil r)
take_over-rejected (mru v ∷ os) s r = take_over-rejected os (record s { peer_mru = v }) r
take_over-rejected (magic v ∷ os) s r = take_over-rejected os (record s { peer_magic_number = v }) r
take_over-rejected (other kind body ∷ os) s r =
    take_over-rejected os s (r ++ encode (other kind body))
    ∙ append_assoc r (encode (other kind body)) (rejected_of os)

-- A packet of that code with these options, and what trails them.
abbrev pub lcp_options : ℕ → ℕ → ℕ → ℕ → List LcpOption → Bytes → Bytes
lcp_options code sid size id os after =
    (session_header sid size proto_lcp ++ lcp_header code id (lcp_size + length (encode_all os)))
    ++ (encode_all os ++ after)

-- The answer: the request as a Configure-Ack if nothing is to go back, or a Configure-Reject of what is.
abbrev pub replied :
    Bytes → ℕ → ℕ → ℕ → List LcpOption → Bytes → Session → Link → Outcome (FsmRet × Link)
replied [] sid size id os after s l = ok (
  ((on_our_ack (lcp_fsm l).state).0, none),
  push (lcp_options conf_ack sid size id os after) (
      with_lcp_fsm (record s.lcp.fsm { state = (on_our_ack (lcp_fsm l).state).1; nak_counter = 0 })
        (record l { session = s })),
)
replied (b ∷ rejected) sid size id os after s l = ok (
  (no_action, none),
  push (rej_packet proto_lcp s.lcp.fsm.session_id id (b ∷ rejected))
      (unacked (lcp_fsm l).state (record l { session = s })),
)

answer_conf-replied :
    (r : Bytes) (sid size id : ℕ) (os : List LcpOption) (after : Bytes) (s : Session) (l : Link)
    → answer_conf (lcp_options conf_req sid size id os after) (s, r) l
      ≡ replied r sid size id os after s l
unfolding answer_conf send_conf_ack send_conf_rej
answer_conf-replied [] sid size id os after s l =
    rw (← on_our_ack-action (lcp_fsm l).state, ← on_our_ack-state (lcp_fsm l).state) refl
answer_conf-replied (b ∷ r) sid size id os after s l = refl

scanned :
    (os : List LcpOption) (sid size id : ℕ) (after : Bytes) (l : Link)
    → All IsOption os
    → 0 < length (encode_all os)
    → length (encode_all os) + lcp_size < 2 ^ 16
    → let pkt = lcp_options conf_req sid size id os after in
      check_conf pkt l ≡ answer_conf pkt (take_over os (l.session, [])) l
scanned os sid size id after l h z b =
    let n = length (encode_all os) in
    let before = session_header sid size proto_lcp ++ lcp_header conf_req id (lcp_size + n) in
    let pkt = before ++ (encode_all os ++ after) in
    let v = (lcp_size + n) / 256 % 256 + (lcp_size + n) % 256 * 256 in
    let back = read16 (lcp_size + n) (omega arith) in
    check_step pkt l v n (take_over os (l.session, [])) refl (omega (arith, back)) z (
      scan-take_over os (suc (length pkt)) n 0 pkt before after (l.session, []) refl (omega arith)
        (omega arith) h
        (omega (
          arith,
          length-append before (encode_all os ++ after),
          length-append (encode_all os) after,
        )))

-- A Configure-Request whose length field is the sum of its options is answered for exactly those:
-- check_conf ends, and the session has the last MRU and magic number among them. If there is no other
-- kind of option, the request goes back as a Configure-Ack, and the layer comes up if the peer has
-- acknowledged ours; if there is, a Configure-Reject carries those options alone, as they are and in
-- order. What trails the options is not looked at.
pub check_conf-take_over :
    (os : List LcpOption) (sid size id : ℕ) (after : Bytes) (l : Link)
    → All IsOption os
    → 0 < length (encode_all os)
    → length (encode_all os) + lcp_size < 2 ^ 16
    → check_conf (lcp_options conf_req sid size id os after) l
      ≡ replied (rejected_of os) sid size id os after (take_over os (l.session, [])).0 l
check_conf-take_over os sid size id after l h z b =
    let acc = take_over os (l.session, []) in
    scanned os sid size id after l h z b
    ∙ answer_conf-replied acc.1 sid size id os after acc.0 l
    ∙ ap (λ r. replied r sid size id os after acc.0 l) (take_over-rejected os l.session [])

load8-lt : (xs : Bytes) (i k : ℕ) → load8 xs i ≡ ok k → i < length xs
load8-lt [] i k e = cc
load8-lt (x ∷ xs) zero k e = omega arith
load8-lt (x ∷ xs) (suc i) k e = omega (arith, load8-lt xs i k e)

-- An option of length 0 of a kind that is to be rejected is never got past: however many rounds the
-- loop of check_conf is given, it does not end.
pub scan_zero_length :
    (fuel : ℕ) (pkt : Bytes) (len offset kind : ℕ) (acc : Session × Bytes)
    → offset < len
    → load8 pkt (options_at + offset) ≡ ok kind
    → load8 pkt (options_at + offset + 1) ≡ ok 0
    → kind ≢ opt_mru
    → kind ≢ opt_magic
    → scan fuel pkt len offset acc ≡ stuck
unfolding scan
scan_zero_length zero pkt len offset kind acc l a b h k = refl
scan_zero_length (suc fuel) pkt len offset kind (s, r) l a b h k =
    scan_step fuel pkt len offset 0 kind (s, r) (s, r ++ []) l b a read
    ∙ scan_zero_length fuel pkt len (offset + 0) kind (s, r ++ []) (omega arith) (rw same a)
        (rw same b) h k
  where
    same : offset + 0 ≡ offset
    same = omega arith

    read : read_option pkt (options_at + offset) kind 0 (s, r) ≡ ok (s, r ++ [])
    read =
        unfold read_option in
        rw
          (
            ==_false kind opt_mru h,
            ==_false kind opt_magic k,
            ltb-false (length pkt) (options_at + offset + 0)
                (omega (arith, load8-lt pkt (options_at + offset) kind a)),
          )
          refl
