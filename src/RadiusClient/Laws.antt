-- ===== src/RadiusClient/Laws.antt =====
-- What the handlers of src/auth_client.cpp can rely on.
use pppcpd.Common.{
  ℕ, ◌+◌, ◌-◌, ◌≡◌, ◌⊎◌, refl, sym, ◌∙◌, arith, [], ◌∷◌, ◌++◌, none, some, inl, inr,
}
use pppcpd.Common.{
  true, false, ◌==◌, ==_iff, ltb-false, if◌then◌else◌, length, take, Bool-cases, Option-cases,
  length-append, take_append, ltb, ◌≤◌, ap,
}
use pppcpd.Common.Bytes.{Bytes, load8, load16, copy, bswap16, read16, copy-append}
use pppcpd.Common.Outcome.{ok, Holds, Holds-known}
use pppcpd.Common.Map.{
  Str, str_eq, str_eq_iff, ℕ_key, find, insert, find-insert, find-erase, beq_refl,
}
use pppcpd.Common.Counting.{emplace_fresh, emplace_present}
use pppcpd.RadiusClient.{
  Pending, answered, timed_out, AuthClient, radius_size, head_size, radius_head, access_request,
  next_request_id, request, buffer, buffer_size, check_radius_answer, heard_from, answer_to, on_rcv,
  expire_check,
}

-- A datagram that a server which knows the secret made for the request `p`: its attributes are what its
-- length field leaves behind the header, and the digest is over them.
pub record IsGenuine (md5 : Str → Str) (buf : Bytes) (c : AuthClient) (code id : ℕ) (p : Pending)
    (avps : Bytes) : Type 0 where
  pub its_code : load8 buf 0 ≡ ok code
  pub its_id : load8 buf 1 ≡ ok id
  pub outstanding : find id c.callbacks ≡ some p
  pub carried :
      (v : ℕ) × (load16 buf 2 ≡ ok v)
      × (radius_size ≤ bswap16 v)
      × (copy buf radius_size (bswap16 v - radius_size) ≡ ok avps)
  pub signed : copy buf head_size 16 ≡ ok (md5 (take head_size buf ++ p.auth ++ avps ++ c.secret))

-- What a datagram comes to. Its sender is the next request's server; apart from that nothing happens, or
-- it is genuine and the handler of its request is called.
pub record IsReceived (md5 : Str → Str) (sender : ℕ) (buf : Bytes) (c c' : AuthClient)
    : Type 0 where
  pub same_requests : c'.callbacks ≡ c.callbacks
  pub same_id : c'.last_id ≡ c.last_id
  pub same_sent : c'.sent ≡ c.sent
  pub sender_stored : c'.endpoint ≡ sender
  pub calls :
      (c'.called ≡ c.called)
      ⊎ ((code : ℕ) × (id : ℕ) × (p : Pending) × (avps : Bytes) × IsGenuine md5 buf c code id p avps
          × (c'.called ≡ c.called ++ (answered p.handler code avps ∷ [])))

module _ (md5 : Str → Str) (sender : ℕ) (buf : Bytes) (c : AuthClient) where
  abbrev Received : AuthClient → Type 0
  Received = IsReceived md5 sender buf c

  unheard : Received (heard_from sender c)
  unheard = record {
    same_requests = refl;
    same_id = refl;
    same_sent = refl;
    sender_stored = refl;
    calls = inl refl;
  }

  checked :
      (code id : ℕ) (p : Pending) (avps auth : Bytes)
      → load8 buf 0 ≡ ok code
      → load8 buf 1 ≡ ok id
      → find id c.callbacks ≡ some p
      → ((v : ℕ) × (load16 buf 2 ≡ ok v)
          × (radius_size ≤ bswap16 v)
          × (copy buf radius_size (bswap16 v - radius_size) ≡ ok avps))
      → copy buf head_size 16 ≡ ok auth
      → Received (
          if check_radius_answer md5 buf c.secret p.auth auth avps
          then record (heard_from sender c) {
            called = c.called ++ (answered p.handler code avps ∷ []);
          }
          else heard_from sender c)
  unfolding check_radius_answer
  checked code id p avps auth a b f k g =
      let digest = md5 (take head_size buf ++ p.auth ++ avps ++ c.secret) in
      elim (Bool-cases (str_eq auth digest)) [
        | inr wrong ↦ rw wrong unheard
        | inl right ↦
            let same : auth ≡ digest = (str_eq_iff auth digest).0 right in
            rw right (record {
              same_requests = refl;
              same_id = refl;
              same_sent = refl;
              sender_stored = refl;
              calls = inr (
                code,
                id,
                p,
                avps,
                record {
                  its_code = a;
                  its_id = b;
                  outstanding = f;
                  carried = k;
                  signed = rw same at g;
                },
                refl,
              );
            })
      ]

  answer_to-Received :
      (id : ℕ) → load8 buf 1 ≡ ok id → Holds Received (answer_to md5 buf id (heard_from sender c))
  unfolding answer_to
  answer_to-Received id b = elim (Option-cases (find id c.callbacks)) [
    | inl unknown ↦ rw (unknown, answer_to) unheard
    | inr (p, f) ↦
        rw (f, answer_to)
          (Holds-known Received (load16 buf 2) _ (λ v field.
            elim (Bool-cases (ltb (bswap16 v) radius_size)) [
              | inl short ↦ rw short tt
              | inr long ↦ rw long (
                  Holds-known Received (copy buf radius_size (bswap16 v - radius_size)) _ (λ avps k.
                    Holds-known Received (copy buf head_size 16) _ (λ auth g.
                      Holds-known Received (load8 buf 0) _ (λ code a.
                        checked code id p avps auth a b f (v, field, ground arith, k) g))))
            ]))
  ]

-- A datagram that is read to its end without a fault calls a handler only if it carries the id of an
-- outstanding request, and the digest over its first four bytes, that request's authenticator, its own
-- attributes up to the end that its length field gives, and the secret; and it calls that request's
-- handler alone, with its code and these attributes. No datagram changes the table of requests. But
-- whoever sent it is taken for the server from then on.
pub on_rcv-Received :
    (md5 : Str → Str) (sender : ℕ) (buf : Bytes) (c : AuthClient)
    → Holds (IsReceived md5 sender (buffer buf) c) (on_rcv md5 sender buf c)
unfolding on_rcv
on_rcv-Received md5 sender buf c =
    Holds-known (IsReceived md5 sender (buffer buf) c) (load8 (buffer buf) 1)
      (λ id. answer_to md5 (buffer buf) id (heard_from sender c))
      (λ id b. answer_to-Received md5 sender (buffer buf) c id b)

module _ (serialize : Bytes → Bytes) (auth : Bytes) (handler : ℕ) (c : AuthClient) where
  abbrev asking : AuthClient
  asking = request serialize auth handler c

  abbrev pub packet : Bytes
  packet =
      radius_head access_request (next_request_id c) (radius_size + length (serialize auth))
      ++ auth
      ++ serialize auth

  abbrev entry : Pending
  entry = record { handler = handler; auth = auth }

  asked_fresh :
      find (next_request_id c) c.callbacks ≡ none
      → asking ≡ record c {
        last_id = next_request_id c;
        callbacks = insert (next_request_id c) entry c.callbacks;
        sent = c.sent ++ ((c.endpoint, packet) ∷ []);
      }
  unfolding request
  asked_fresh h = rw (emplace_fresh (next_request_id c) entry c.callbacks h) refl

  asked_busy :
      (p : Pending)
      → find (next_request_id c) c.callbacks ≡ some p
      → asking ≡ record c { last_id = next_request_id c }
  unfolding request
  asked_busy p h = rw (emplace_present (next_request_id c) entry p c.callbacks h) refl

-- What becomes of a request that nobody answers, once its timer has run out.
abbrev pub IsUnanswered : ℕ → AuthClient → AuthClient → Type 0
IsUnanswered handler c c' =
    (c'.called ≡ c.called ++ (timed_out handler ∷ []))
    × ((j : ℕ) → find j c'.callbacks ≡ find j c.callbacks)

-- A request whose id is free and which nobody answers is over with its timer: its handler gets the one
-- error, and the table is what it was before.
pub request-expire_check :
    (serialize : Bytes → Bytes) (auth : Bytes) (handler : ℕ) (c : AuthClient)
    → find (next_request_id c) c.callbacks ≡ none
    → IsUnanswered handler c
        (expire_check false (next_request_id c) (request serialize auth handler c))
unfolding expire_check
request-expire_check serialize auth handler c h =
    let id = next_request_id c in
    let p = entry serialize auth handler c in
    let found : find id (insert id p c.callbacks) ≡ some p =
      find-insert id id p c.callbacks h ∙ rw (beq_refl id) refl in
    rw (asked_fresh serialize auth handler c h, found)
      (
        refl,
        λ j.
            rw (find-erase id j (insert id p c.callbacks), find-insert id j p c.callbacks h)
              (elim (Bool-cases (id == j)) [
                | inl same ↦ rw (same, ← (==_iff id j).0 same) (sym h)
                | inr other ↦ rw other refl
              ]),
      )

-- A request while the next of the 256 ids is still in use is dropped in silence: nothing is sent, no
-- entry is made, and neither handler of it will be called.
pub request_dropped :
    (serialize : Bytes → Bytes) (auth : Bytes) (handler : ℕ) (c : AuthClient) (p : Pending)
    → find (next_request_id c) c.callbacks ≡ some p
    → let c' = request serialize auth handler c in
      (c'.sent ≡ c.sent) × (c'.callbacks ≡ c.callbacks) × (c'.called ≡ c.called)
request_dropped serialize auth handler c p h =
    rw (asked_busy serialize auth handler c p h) (refl, refl, refl)

-- After a datagram that is read without a fault, be it genuine or not, the next Access-Request, if its
-- id is free, goes to the datagram's sender, with the attributes that are meant for the server.
pub on_rcv-request :
    (md5 : Str → Str) (sender : ℕ) (buf : Bytes) (c c' : AuthClient) (serialize : Bytes → Bytes)
    (auth : Bytes) (handler : ℕ)
    → on_rcv md5 sender buf c ≡ ok c'
    → find (next_request_id c) c.callbacks ≡ none
    → (request serialize auth handler c').sent
      ≡ c.sent ++ ((sender, packet serialize auth handler c) ∷ [])
on_rcv-request md5 sender buf c c' serialize auth handler e h =
    let x : IsReceived md5 sender (buffer buf) c c' = rw e at (on_rcv-Received md5 sender buf c) in
    let free : find (next_request_id c') c'.callbacks ≡ none = rw (x.same_id, x.same_requests) h in
    rw (asked_fresh serialize auth handler c' free, x.same_id, x.same_sent, x.sender_stored) refl

-- The answer of a server that knows the secret, in the format of the RFC, with what the buffer held
-- behind it before.
abbrev pub genuine : (Str → Str) → Str → ℕ → ℕ → Pending → Bytes → Bytes → Bytes
genuine md5 secret code id p avps after =
    let head = radius_head code id (radius_size + length avps) in
    head ++ (md5 (head ++ p.auth ++ avps ++ secret) ++ (avps ++ after))

-- What the buffer holds of such an answer, if it fits.
buffer-genuine :
    (md5 : Str → Str) (secret : Str) (code id : ℕ) (p : Pending) (avps after : Bytes)
    → ((s : Str) → length (md5 s) ≡ 16)
    → length avps + radius_size ≤ buffer_size
    → (rest : Bytes) × (buffer (genuine md5 secret code id p avps after)
        ≡ genuine md5 secret code id p avps rest)
unfolding buffer
buffer-genuine md5 secret code id p avps after digest h =
    let head = radius_head code id (radius_size + length avps) in
    let auth = md5 (head ++ p.auth ++ avps ++ secret) in
    let size = digest (head ++ p.auth ++ avps ++ secret) in
    let room : ℕ = buffer_size - head_size - length auth - length avps in
    let first : take buffer_size (head ++ (auth ++ (avps ++ after)))
        ≡ head ++ take (buffer_size - head_size) (auth ++ (avps ++ after)) =
      refl in
    let second : take (buffer_size - head_size) (auth ++ (avps ++ after))
        ≡ auth ++ take (buffer_size - head_size - length auth) (avps ++ after) =
      take_append auth (avps ++ after) (buffer_size - head_size) (omega (arith, size)) in
    let third : take (buffer_size - head_size - length auth) (avps ++ after)
        ≡ avps ++ take room after =
      take_append avps after (buffer_size - head_size - length auth) (omega (arith, size)) in
    (take room after, first ∙ ap (λ t. head ++ t) (second ∙ ap (λ t. auth ++ t) third))

genuine_taken :
    (md5 : Str → Str) (sender code id : ℕ) (p : Pending) (avps after : Bytes) (c : AuthClient)
    → ((s : Str) → length (md5 s) ≡ 16)
    → length avps + radius_size ≤ buffer_size
    → find id c.callbacks ≡ some p
    → answer_to md5 (genuine md5 c.secret code id p avps after) id (heard_from sender c)
      ≡ ok (record (heard_from sender c) {
        called = c.called ++ (answered p.handler code avps ∷ []);
      })
unfolding answer_to check_radius_answer
genuine_taken md5 sender code id p avps after c digest h f =
    let head = radius_head code id (radius_size + length avps) in
    let auth = md5 (head ++ p.auth ++ avps ++ c.secret) in
    let size = digest (head ++ p.auth ++ avps ++ c.secret) in
    let field = read16 (radius_size + length avps) (omega arith) in
    let body : copy (head ++ (auth ++ (avps ++ after))) radius_size
          (radius_size + length avps - radius_size)
        ≡ ok avps =
      copy-append (head ++ auth) avps after radius_size (radius_size + length avps - radius_size)
        (omega (arith, length-append head auth, size)) (omega arith) in
    let signed : copy (head ++ (auth ++ (avps ++ after))) head_size 16 ≡ ok auth =
      copy-append head auth (avps ++ after) head_size 16 refl (sym size) in
    let same : str_eq auth auth ≡ true = (str_eq_iff auth auth).1 refl in
    rw
      (
        f,
        answer_to,
        field,
        ltb-false (radius_size + length avps) radius_size (omega arith),
        body,
        signed,
        same,
      )
      refl

-- The answer of a server that knows the secret is taken: the handler of the outstanding request with
-- its id is called with the code and the attributes of the answer, for digests of 16 bytes and an
-- answer that fits the buffer of 1500 bytes.
pub on_rcv-genuine :
    (md5 : Str → Str) (sender code id : ℕ) (p : Pending) (avps after : Bytes) (c : AuthClient)
    → ((s : Str) → length (md5 s) ≡ 16)
    → length avps + radius_size ≤ buffer_size
    → find id c.callbacks ≡ some p
    → on_rcv md5 sender (genuine md5 c.secret code id p avps after) c
      ≡ ok (record (heard_from sender c) {
        called = c.called ++ (answered p.handler code avps ∷ []);
      })
unfolding on_rcv
on_rcv-genuine md5 sender code id p avps after c digest h f =
    let (rest, held) = buffer-genuine md5 c.secret code id p avps after digest h in
    rw held (genuine_taken md5 sender code id p avps rest c digest h f)
