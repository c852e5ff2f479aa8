-- ===== src/RadiusClient.antt =====
-- src/auth_client.cpp and src/auth_client.hpp: the requests to a RADIUS server and their answers.
-- A handler is a number; the calls of handlers are listed in their order. What md5 gives, and the
-- authenticators that the random device gives, are arguments.
pub mod Laws
use pppcpd.Common.{ℕ, ◌+◌, ◌-◌, ◌%◌, ◌/◌, ◌^◌, List, [], ◌∷◌, ◌++◌, Option, none, some}
use pppcpd.Common.{Bool, true, false, ltb, if◌then◌else◌, length, take, replicate}
use pppcpd.Common.Bytes.{Bytes, load8, load16, copy, be16, bswap16}
use pppcpd.Common.Outcome.{Outcome, ok, fault, ◌>>=◌}
use pppcpd.Common.Map.{Map, Str, str_eq, ℕ_key, find, emplace, erase}

-- response_t
pub record Pending : Type 0 where
  pub handler : ℕ
  pub auth : Bytes

-- The call of a handler: its response with the code and the attributes, or its error.
pub data Notice : Type 0 where
  answered : ℕ → ℕ → Bytes → Notice
  timed_out : ℕ → Notice

-- AuthClient; `sent` lists the datagrams with the endpoint that each went to, the newest last.
pub record AuthClient : Type 0 where
  pub last_id : ℕ
  pub secret : Str
  pub callbacks : Map ℕ Pending
  pub endpoint : ℕ
  pub sent : List (ℕ × Bytes)
  pub called : List Notice

-- RADIUS_CODE
abbrev pub access_request : ℕ
access_request = 1

abbrev pub accounting_request : ℕ
accounting_request = 4

-- sizeof( RadiusPacket ), and the bytes before its authenticator
abbrev pub radius_size : ℕ
radius_size = 20

abbrev pub head_size : ℕ
head_size = 4

abbrev pub radius_head : ℕ → ℕ → ℕ → Bytes
radius_head code id len = code ∷ id ∷ be16 len

-- last_id is an uint8_t.
abbrev pub next_request_id : AuthClient → ℕ
next_request_id c = (c.last_id + 1) % 2 ^ 8

abbrev pub entered : ℕ → Bytes → Map ℕ Pending × Bool → AuthClient → AuthClient
entered id pkt (m, false) c = record c { last_id = id }
entered id pkt (m, true) c = record c {
  last_id = id;
  callbacks = m;
  sent = c.sent ++ ((c.endpoint, pkt) ∷ []);
}

-- request; `serialize` gives the attributes under the authenticator.
unfoldable pub request : (Bytes → Bytes) → Bytes → ℕ → AuthClient → AuthClient
request serialize auth handler c =
    let id = next_request_id c in
    let avps = serialize auth in
    let pkt = radius_head access_request id (radius_size + length avps) ++ auth ++ avps in
    entered id pkt (emplace id (record { handler = handler; auth = auth }) c.callbacks) c

-- acct_auth_process
unfoldable pub acct_auth_process : (Str → Str) → Bytes → Bytes → Str → Str
acct_auth_process md5 pkt avps secret = md5 (take head_size pkt ++ replicate 16 0 ++ avps ++ secret)

-- acct_request: the attributes are made under an authenticator of zeros, the digest takes its place.
unfoldable pub acct_request : (Str → Str) → (Bytes → Bytes) → ℕ → AuthClient → AuthClient
unfolding acct_auth_process
acct_request md5 serialize handler c =
    let id = next_request_id c in
    let avps = serialize (replicate 16 0) in
    let head = radius_head accounting_request id (radius_size + length avps) in
    let auth = acct_auth_process md5 head avps c.secret in
    entered id (head ++ auth ++ avps)
      (emplace id (record { handler = handler; auth = auth }) c.callbacks) c

-- checkRadiusAnswer
unfoldable pub check_radius_answer : (Str → Str) → Bytes → Str → Bytes → Bytes → Bytes → Bool
check_radius_answer md5 buf secret req_auth res_auth avps =
    str_eq res_auth (md5 (take head_size buf ++ req_auth ++ avps ++ secret))

-- The endpoint of the server is also where the receiving call stores the sender.
abbrev pub heard_from : ℕ → AuthClient → AuthClient
heard_from sender c = record c { endpoint = sender }

-- The buffer that datagrams are received in: what is behind its end is not read.
abbrev pub buffer_size : ℕ
buffer_size = 1500

unfoldable pub buffer : Bytes → Bytes
buffer bytes = take buffer_size bytes

-- on_rcv behind the identifier: `buf` is the whole buffer, whatever size was received. A length below
-- the header's makes a range that runs backwards, whose exception ends the process; it stands as a fault.
unfoldable pub answer_to : (Str → Str) → Bytes → ℕ → AuthClient → Outcome AuthClient
unfolding check_radius_answer
answer_to md5 buf id c = elim (find id c.callbacks) [
  | none ↦ ok c
  | some p ↦ (do
    v ← load16 buf 2
    let len = bswap16 v
    avps ← (if ltb len radius_size then fault else copy buf radius_size (len - radius_size))
    auth ← copy buf head_size 16
    code ← load8 buf 0
    ok (
        if check_radius_answer md5 buf c.secret p.auth auth avps
        then record c { called = c.called ++ (answered p.handler code avps ∷ []) }
        else c))
]

-- on_rcv; a length above the buffer's makes a range that leaves it, which stands as a fault.
unfoldable pub on_rcv : (Str → Str) → ℕ → Bytes → AuthClient → Outcome AuthClient
unfolding buffer
on_rcv md5 sender bytes c = do
  id ← load8 (buffer bytes) 1
  answer_to md5 (buffer bytes) id (heard_from sender c)

abbrev pub called_off : Bool → Option Pending → AuthClient → AuthClient
called_off true p c = c
called_off false none c = c
called_off false (some p) c = record c { called = c.called ++ (timed_out p.handler ∷ []) }

-- expire_check; an answer cancels the timer.
unfoldable pub expire_check : Bool → ℕ → AuthClient → AuthClient
expire_check cancelled id c = record (called_off cancelled (find id c.callbacks) c) {
  callbacks = erase id c.callbacks;
}
