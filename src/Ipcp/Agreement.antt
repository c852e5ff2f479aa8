-- ===== src/Ipcp/Agreement.antt =====
-- The negotiation of the address and the name servers: IPCP_FSM::check_conf and send_conf_nak.
use pppcpd.Common.{ℕ, suc, ◌+◌, ◌-◌, ◌*◌, ◌/◌, ◌%◌, ◌^◌, ◌<◌, ◌≡◌, refl, arith, List, [], ◌++◌}
use pppcpd.Common.{some, none, ==_false, Bool-cases, inl, inr, ◌∙◌, if◌then◌else◌, length, All}
use pppcpd.Common.{length-append}
use pppcpd.Common.Bytes.{Bytes, bswap16, read16}
use pppcpd.Common.Outcome.{Outcome, ok}
use pppcpd.Common.Map.{ℕ_key, find}
use pppcpd.Fsm.{no_action, FsmRet, conf_req, conf_ack, conf_nak}
use pppcpd.Fsm.Moves.{on_our_ack, on_our_ack-action, on_our_ack-state}
use pppcpd.Link.{Link, lcp_size, lcp_header, session_header, push, options_at}
use pppcpd.Aaa.{Aaa, AaaSession}
use pppcpd.Ipcp.{
  proto_ipcp, ipcp_fsm, with_ipcp_fsm, ipcp_check_conf, ipcp_answer, ipcp_send_conf_ack,
  ipcp_send_conf_nak, ipcp_acked, ipcp_naked, options_of, assigned,
}
use pppcpd.Ipcp.Options.{
  Wish, IsWish, encode_wishes, agrees, grant, IsAddressed, places, parse-places,
  rejected_options_none, differs-agrees, corrected-grant, agrees-grant, length-grant, grant-IsWish,
}

-- A packet of that code with these options, and what trails them.
abbrev pub ipcp_packet : ℕ → ℕ → ℕ → ℕ → List Wish → Bytes → Bytes
ipcp_packet code sid size id ws after =
    (session_header sid size proto_ipcp
      ++ lcp_header code id (lcp_size + length (encode_wishes ws)))
    ++ (encode_wishes ws ++ after)

-- The answer that grants `ws`: the request goes back, as a Configure-Ack.
abbrev pub acknowledged :
    AaaSession → List Wish → ℕ → ℕ → ℕ → Bytes → Link → Outcome (FsmRet × Link)
acknowledged s ws sid size id after l = ok (
  ((on_our_ack (ipcp_fsm l).state).0, none),
  push (ipcp_packet conf_ack sid size id ws after) (
      with_ipcp_fsm
        (record (ipcp_fsm l) { state = (on_our_ack (ipcp_fsm l).state).1; nak_counter = 0 })
        (assigned s l)),
)

-- What a request for the parameters `ws` comes to in a session with the AAA session `s`.
abbrev pub settled :
    AaaSession → List Wish → ℕ → ℕ → ℕ → Bytes → Aaa → Link → Outcome (FsmRet × Link)
settled s ws sid size id after a l =
    if agrees s ws
    then acknowledged s ws sid size id after l
    else ok (
      (no_action, none),
      push (ipcp_packet conf_nak sid size id (grant s ws) after) (ipcp_naked (assigned s l)),
    )

module _ (s : AaaSession) (ws : List Wish) (sid size id : ℕ) (after : Bytes)
    (fits : length (encode_wishes ws) + lcp_size < 2 ^ 16) where
  abbrev packet_of : ℕ → Bytes
  packet_of code = ipcp_packet code sid size id ws after

  abbrev front : ℕ → Bytes
  front code =
      session_header sid size proto_ipcp
      ++ lcp_header code id (lcp_size + length (encode_wishes ws))

  abbrev field : ℕ
  field =
      (lcp_size + length (encode_wishes ws)) / 256 % 256
      + (lcp_size + length (encode_wishes ws)) % 256 * 256

  field_read : bswap16 field ≡ lcp_size + length (encode_wishes ws)
  field_read = read16 (lcp_size + length (encode_wishes ws)) (omega arith)

  long_enough : (code : ℕ) → length (encode_wishes ws) < suc (length (packet_of code))
  long_enough code = omega (
    arith,
    length-append (front code) (encode_wishes ws ++ after),
    length-append (encode_wishes ws) after,
  )

  options_found : (code : ℕ) → options_of (packet_of code) ≡ ok (places options_at ws)
  options_found code = rw field_read (
      parse-places ws (suc (length (packet_of code))) (lcp_size + length (encode_wishes ws)) 0
        (packet_of code) (front code) after refl (omega arith) (omega arith) (long_enough code))

  granted_packet :
      front conf_nak ++ (encode_wishes (grant s ws) ++ after)
      ≡ ipcp_packet conf_nak sid size id (grant s ws) after
  granted_packet = rw (length-grant s ws) refl

  naked :
      (a : Aaa) (l : Link)
      → All IsWish ws
      → find l.session.aaa_session_id a.sessions ≡ some s
      → ipcp_send_conf_nak a (packet_of conf_req) l
        ≡ ok ((no_action, none), push (ipcp_packet conf_nak sid size id (grant s ws) after) l)
  unfolding ipcp_send_conf_nak
  naked a l h e =
      rw
        (
          e,
          ipcp_send_conf_nak,
          options_found conf_nak,
          corrected-grant s ws options_at (front conf_nak) after (omega arith) h,
        )
        (rw granted_packet refl)

  acked :
      (l : Link)
      → ipcp_send_conf_ack (packet_of conf_req) (ipcp_acked (assigned s l))
        ≡ acknowledged s ws sid size id after l
  unfolding ipcp_send_conf_ack
  acked l = rw (← on_our_ack-action (ipcp_fsm l).state, ← on_our_ack-state (ipcp_fsm l).state) refl

  answered :
      (a : Aaa) (l : Link)
      → IsAddressed s
      → All IsWish ws
      → find l.session.aaa_session_id a.sessions ≡ some s
      → ipcp_answer a s (packet_of conf_req) (places options_at ws) [] (assigned s l)
        ≡ settled s ws sid size id after a l
  unfolding ipcp_answer
  answered a l i h e = elim (Bool-cases (agrees s ws)) [
    | inl same ↦
        rw (differs-agrees s ws options_at (front conf_req) after i (omega arith) h, same) (acked l)
    | inr other ↦
        rw (differs-agrees s ws options_at (front conf_req) after i (omega arith) h, other)
          (naked a (ipcp_naked (assigned s l)) h e)
  ]

  negotiated :
      (a : Aaa) (l : Link)
      → IsAddressed s
      → All IsWish ws
      → 0 < length (encode_wishes ws)
      → find l.session.aaa_session_id a.sessions ≡ some s
      → ipcp_check_conf a (packet_of conf_req) l ≡ settled s ws sid size id after a l
  unfolding ipcp_check_conf
  negotiated a l i h z e =
      rw
        (
          field_read,
          ==_false ((lcp_size + length (encode_wishes ws) + (2 ^ 32 - lcp_size)) % 2 ^ 32) 0
              (λ x. omega arith),
          e,
          ipcp_check_conf,
          options_found conf_req,
          rejected_options_none s ws options_at (front conf_req) after (omega arith) h,
        )
        (answered a l i h e)

-- A Configure-Request for the address and the name servers alone is always answered. It is
-- acknowledged, by the same packet as a Configure-Ack, if every value is the one that the AAA session
-- gives, and the layer comes up if the peer has acknowledged our request before; if not, a Configure-Nak goes back
-- that is the same request with those values instead, and a peer that asks for them is acknowledged.
pub ipcp_check_conf-settled :
    (a : Aaa) (s : AaaSession) (ws : List Wish) (sid size id : ℕ) (after : Bytes) (l : Link)
    → length (encode_wishes ws) + lcp_size < 2 ^ 16
    → 0 < length (encode_wishes ws)
    → IsAddressed s
    → All IsWish ws
    → find l.session.aaa_session_id a.sessions ≡ some s
    → (ipcp_check_conf a (ipcp_packet conf_req sid size id ws after) l
        ≡ settled s ws sid size id after a l)
      × (ipcp_check_conf a (ipcp_packet conf_req sid size id (grant s ws) after) l
          ≡ acknowledged s (grant s ws) sid size id after l)
ipcp_check_conf-settled a s ws sid size id after l f z i h e = (
  negotiated s ws sid size id after f a l i h z e,
  negotiated s (grant s ws) sid size id after (omega (arith, length-grant s ws)) a l i
        (grant-IsWish s ws i h) (omega (arith, length-grant s ws)) e
      ∙ rw (agrees-grant s ws) refl,
)
