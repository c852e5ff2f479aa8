-- ===== src/Tests/Servers.antt =====
-- A client of a RADIUS server, and what it receives.
use pppcpd.Common.{◌≡◌, refl, [], ◌∷◌, ◌++◌, arith, none, some, replicate, false}
use pppcpd.Common.Bytes.{Bytes}
use pppcpd.Common.Map.{Str, ℕ_key, find}
use pppcpd.Common.Outcome.{ok, Holds}
use pppcpd.RadiusClient.{
  Pending, answered, AuthClient, request, next_request_id, expire_check, heard_from, on_rcv,
  answer_to, buffer,
}
use pppcpd.RadiusClient.Laws.{
  IsReceived, IsUnanswered, packet, genuine, on_rcv-Received, request-expire_check, on_rcv-request,
  on_rcv-genuine,
}

abbrev digest : Str → Str
digest s = replicate 16 0x5a

abbrev pending : Pending
pending = record { handler = 3; auth = replicate 16 1 }

abbrev client : AuthClient
client = record {
  last_id = 6;
  secret = b'k' ∷ [];
  callbacks = (6, pending) ∷ [];
  endpoint = 100;
  sent = [];
  called = [];
}

abbrev made : Bytes → Bytes
made auth = 1 ∷ 3 ∷ 117 ∷ []

six_outstanding : find 6 client.callbacks ≡ some pending
unfolding find
six_outstanding = refl

seven_free : find (next_request_id client) client.callbacks ≡ none
unfolding find
seven_free = refl

-- An Access-Accept.
abbrev accept : Bytes
accept = genuine digest client.secret 2 6 pending (8 ∷ 3 ∷ 9 ∷ []) []

on_rcv-genuine_example :
    on_rcv digest 100 accept client
    ≡ ok (record (heard_from 100 client) { called = answered 3 2 (8 ∷ 3 ∷ 9 ∷ []) ∷ [] })
on_rcv-genuine_example =
    on_rcv-genuine digest 100 2 6 pending (8 ∷ 3 ∷ 9 ∷ []) [] client (λ s. refl) (omega arith)
      six_outstanding

on_rcv-Received_example :
    Holds (IsReceived digest 100 (buffer accept) client) (on_rcv digest 100 accept client)
on_rcv-Received_example = on_rcv-Received digest 100 accept client

request-expire_check_example :
    IsUnanswered 4 client
      (expire_check false (next_request_id client) (request made (replicate 16 2) 4 client))
request-expire_check_example = request-expire_check made (replicate 16 2) 4 client seven_free

abbrev wrapping : AuthClient
wrapping = record client { last_id = 5 }

-- A datagram of nobody's, with an id that is not in use.
abbrev stray : Bytes
stray = replicate 20 9

stray_read : on_rcv digest 666 stray client ≡ ok (heard_from 666 client)
unfolding on_rcv answer_to find buffer
stray_read = refl

on_rcv-request_example :
    (request made (replicate 16 2) 4 (heard_from 666 client)).sent
    ≡ client.sent ++ ((666, packet made (replicate 16 2) 4 client) ∷ [])
on_rcv-request_example =
    on_rcv-request digest 666 stray client (heard_from 666 client) made (replicate 16 2) 4
      stray_read seven_free
