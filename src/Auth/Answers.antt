-- ===== src/Auth/Answers.antt =====
-- The answers of RADIUS as they reach a peer: processRadiusAnswer of src/aaa.cpp, and auth_callback of
-- src/ppp_auth.cpp and src/ppp_chap.cpp.
use pppcpd.Common.{ℕ, ◌≡◌, ◌⊎◌, List, some}
use pppcpd.Common.{◌==◌, if◌then◌else◌}
use pppcpd.Common.Outcome.{Outcome, ok}
use pppcpd.Common.Map.{Str, ℕ_key, find}
use pppcpd.Fsm.{FsmRet}
use pppcpd.Link.{Link, push}
use pppcpd.Aaa.{Aaa, AaaSession, RadiusResponse, uint32_max}
use pppcpd.Aaa.Methods.{Call, process_radius_answer, access_accept}
use pppcpd.Aaa.Exclusive.{IsFree}
use pppcpd.Aaa.Steps.{AreUsedUp}
use pppcpd.Pap.{run_calls, pap_reply, authenticate_ack, authenticate_nak, pap_started}
use pppcpd.Chap.{chap_reply, success_code, failure_code, chap_started}
use pppcpd.Auth.Network.{requested}

abbrev pub Callback : Type 0
Callback = Call → Link → Outcome (FsmRet × Link)

-- Nothing for Access-Accept, the Nak for any other code.
abbrev pub refused_first : (Link → Link) → ℕ → Link → Link
refused_first nak code l = if code == access_accept then l else nak l

-- How an answer ends: every session id is in use, nothing changes in the AAA and the peer gets a Nak;
-- or a session for the user is made under a free id, and the peer is let in to it.
abbrev pub IsSettled :
    (Aaa → Callback)
    → (Link → Link)
    → (ℕ → Link → Link)
    → Str
    → ℕ
    → Aaa
    → Link
    → List Call × Aaa
    → Type 0
IsSettled callback nak enter user code a l (calls, a') =
    (AreUsedUp a
      × (a' ≡ a)
      × (run_calls (callback a') calls l ≡ ok (nak (refused_first nak code l))))
    ⊎ ((i : ℕ) × IsFree 0 uint32_max a.sessions i
        × ((s : AaaSession) × (find i a'.sessions ≡ some s) × (s.username ≡ user))
        × (run_calls (callback a') calls l ≡ ok (enter i (refused_first nak code l))))

abbrev pub Settled :
    (Aaa → Callback)
    → (Link → Link)
    → (ℕ → Link → Link)
    → Str
    → ℕ
    → RadiusResponse
    → Aaa
    → Link
    → Type 0
Settled callback nak enter user code res a l =
    (r : List Call × Aaa) × (process_radius_answer user code res a ≡ ok r)
    × IsSettled callback nak enter user code a l r

abbrev pub pap_nak : Link → Link
pap_nak l = push (pap_reply authenticate_nak l.session.session_id) l

abbrev pub pap_enter : ℕ → Link → Link
pap_enter i l = requested (push (pap_reply authenticate_ack l.session.session_id) (pap_started i l))

abbrev pub chap_nak : Link → Link
chap_nak l = push (chap_reply failure_code l.session.session_id) l

abbrev pub chap_enter : ℕ → Link → Link
chap_enter i l = requested (push (chap_reply success_code l.session.session_id) (chap_started i l))
