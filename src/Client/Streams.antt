-- ===== src/Client/Streams.antt =====
-- The stream identifiers of a client's calls, and what a failed call leaves behind.
use bhttp_1_http_in_binary.Base.{
  ℕ, sym, suc, ◌≤◌, ◌<◌, ◌^◌, ◌≡◌, refl, ap, ◌∙◌, arith, true, false, ◌||◌, Option, none, some,
  List, [], ◌∷◌, Bytes, Error, success, failure, Outcome, ok, err, state_of, Outcome-cases,
  Result-cases, Bool-cases, inl, inr, ◌⊎◌, if◌then◌else◌, ◌==◌, wrapped,
}
use bhttp_1_http_in_binary.Stream.{Sink}
use bhttp_1_http_in_binary.Protocol.Headers.{Header}
use bhttp_1_http_in_binary.Protocol.Messages.{encode_request}
use bhttp_1_http_in_binary.Conn.{write_conn}
use bhttp_1_http_in_binary.Client.{
  Client, Call, Answer, Download, get_request, get, exchange, conclude, read_answer, take_stream,
  fail_client, request_frame,
}

-- The stream that the next call takes, if it takes one.
abbrev pub stream_of : Client → Option ℕ
stream_of c = if c.broken || c.exhausted then none else some c.next

abbrev prepend : Option ℕ → List ℕ → List ℕ
prepend none ids = ids
prepend (some i) ids = i ∷ ids

-- The streams of a run of calls, whatever each of them returns.
abbrev pub streams_used : List (Bytes × List Header) → Call → List ℕ
streams_used [] s = []
streams_used ((path, headers) ∷ calls) s =
    prepend (stream_of s.0) (streams_used calls (state_of (get path headers s)))

-- From `low` on, each is larger than the one before, and all fit in 32 bits.
abbrev pub Ascending : ℕ → List ℕ → Type 0
Ascending low [] = Unit {0}
Ascending low (i ∷ ids) = (low ≤ i) × (i < 2 ^ 32) × Ascending (suc i) ids

-- The fields that say which stream is next.
abbrev Keeps : Client → Outcome Call Answer → Type 0
Keeps c o = ((state_of o).0.next ≡ c.next) × ((state_of o).0.exhausted ≡ c.exhausted)

conclude-Keeps : (c : Client) (o : Outcome Download Answer) → Keeps c (conclude c o)
unfolding fail_client
conclude-Keeps c (ok a d) = (refl, refl)
conclude-Keeps c (err e d) = (refl, refl)

exchange-Keeps :
    (id : ℕ) (payload : Bytes) (c : Client) (body : Sink) → Keeps c (exchange id payload (c, body))
unfolding exchange fail_client
exchange-Keeps id payload c body =
    elim (Outcome-cases (write_conn (request_frame id payload) c.conn)) [
      | inl (a, conn, r) ↦
          rw r (conclude-Keeps c (read_answer id (record { conn = conn; body = body })))
      | inr (e, conn, r) ↦ rw r (refl, refl)
    ]

module _ (path : Bytes) (headers : List Header) (c : Client) (body : Sink) where
  get-broken : c.broken ≡ true → state_of (get path headers (c, body)) ≡ (c, body)
  unfolding get
  get-broken b = rw b refl

  get-exhausted :
      c.broken ≡ false
      → c.exhausted ≡ true
      → state_of (get path headers (c, body)) ≡ (fail_client c, body)
  unfolding get
  get-exhausted b x = rw (b, x) refl

  get-sends :
      {payload : Bytes}
      → c.broken ≡ false
      → c.exhausted ≡ false
      → encode_request (get_request path headers) ≡ success payload
      → get path headers (c, body) ≡ exchange c.next payload (take_stream c, body)
  unfolding get
  get-sends b x r = rw (b, x) (rw r refl)

  get-refuses :
      {e : Error}
      → c.broken ≡ false
      → c.exhausted ≡ false
      → encode_request (get_request path headers) ≡ failure e
      → get path headers (c, body) ≡ err (wrapped e) (take_stream c, body)
  unfolding get
  get-refuses b x r = rw (b, x) (rw r refl)

  get-takes :
      c.broken ≡ false → c.exhausted ≡ false → Keeps (take_stream c) (get path headers (c, body))
  get-takes b x = elim (Result-cases (encode_request (get_request path headers))) [
    | inl (payload, r) ↦ rw (get-sends b x r) (exchange-Keeps c.next payload (take_stream c) body)
    | inr (e, r) ↦ rw (get-refuses b x r) (refl, refl)
  ]

stream_of-none : (c : Client) → (c.broken ≡ true) ⊎ (c.exhausted ≡ true) → stream_of c ≡ none
stream_of-none c h = ground arith

-- Once the last stream is taken, no more are.
streams_used-exhausted :
    (calls : List (Bytes × List Header)) (c : Client) (body : Sink)
    → c.exhausted ≡ true
    → streams_used calls (c, body) ≡ []
unfolding fail_client
streams_used-exhausted [] c body x = refl
streams_used-exhausted ((path, headers) ∷ calls) c body x =
    rw (stream_of-none c (inr x)) (elim (Bool-cases c.broken) [
      | inl b ↦ rw (get-broken path headers c body b) (streams_used-exhausted calls c body x)
      | inr works ↦
          rw (get-exhausted path headers c body works x)
            (streams_used-exhausted calls (fail_client c) body x)
    ])

Ascending-from : (low next : ℕ) (ids : List ℕ) → low ≡ next → Ascending next ids → Ascending low ids
Ascending-from low next ids e h = rw e h

-- However a client's calls end, no stream is used twice: each call that takes a stream takes a
-- larger one than all before it, and a 32-bit one, from the next one of the client on, which is
-- below 2^32.
pub streams_used-Ascending :
    (calls : List (Bytes × List Header)) (c : Client) (body : Sink)
    → c.next < 2 ^ 32
    → Ascending c.next (streams_used calls (c, body))
unfolding fail_client take_stream
streams_used-Ascending [] c body h = tt
streams_used-Ascending ((path, headers) ∷ calls) c body h = elim (Bool-cases c.broken) [
  | inl b ↦
      rw (stream_of-none c (inl b))
        (rw (get-broken path headers c body b) (streams_used-Ascending calls c body h))
  | inr works ↦ elim (Bool-cases c.exhausted) [
    | inl x ↦ rw (stream_of-none c (inr x)) (
        rw (get-exhausted path headers c body works x)
          (streams_used-Ascending calls (fail_client c) body h))
    | inr left ↦
        let takes : stream_of c ≡ some c.next = ground arith in
        let s' = state_of (get path headers (c, body)) in
        let (next, exhausted) = get-takes path headers c body works left in
        rw takes (
          omega arith,
          h,
          elim (Bool-cases (c.next == 0xffffffff)) [
            | inl last ↦ rw (streams_used-exhausted calls s'.0 s'.1 (exhausted ∙ rw last refl)) tt
            | inr later ↦
                let step : suc c.next ≡ s'.0.next = ground (arith, next) in
                Ascending-from (suc c.next) s'.0.next (streams_used calls s') step
                  (streams_used-Ascending calls s'.0 s'.1 (ground (arith, step)))
          ],
        )
  ]
]

-- The connection is given up for good.
abbrev pub IsDropped : Client → Type 0
IsDropped c = (c.broken ≡ true) × (c.conn.closed ≡ true)

-- A failure that has its reason on the connection.
abbrev DropsOnError : Outcome Call Answer → Type 0
DropsOnError (ok a s) = Unit {0}
DropsOnError (err e s) = IsDropped s.0

conclude-DropsOnError : (c : Client) (o : Outcome Download Answer) → DropsOnError (conclude c o)
unfolding fail_client
conclude-DropsOnError c (ok a d) = tt
conclude-DropsOnError c (err e d) = (refl, refl)

exchange-DropsOnError :
    (id : ℕ) (payload : Bytes) (c : Client) (body : Sink)
    → DropsOnError (exchange id payload (c, body))
unfolding exchange fail_client
exchange-DropsOnError id payload c body =
    elim (Outcome-cases (write_conn (request_frame id payload) c.conn)) [
      | inl (a, conn, r) ↦
          rw r (conclude-DropsOnError c (read_answer id (record { conn = conn; body = body })))
      | inr (e, conn, r) ↦ rw r (refl, refl)
    ]

-- After a call that fails, either the client was broken before and is as it was, or the request
-- could not be built and only its stream is gone, or the client is broken and its connection
-- closed now.
pub get-err :
    (path : Bytes) (headers : List Header) (c c' : Client) (body body' : Sink) (e : Error)
    → get path headers (c, body) ≡ err e (c', body')
    → ((c.broken ≡ true) × (c' ≡ c))
      ⊎ (((x : Error) × (encode_request (get_request path headers) ≡ failure x)
            × (c' ≡ take_stream c))
          ⊎ IsDropped c')
unfolding fail_client
get-err path headers c c' body body' e h =
    let s = state_of (get path headers (c, body)) in
    let ends : s.0 ≡ c' = ap (λ (o : Outcome Call Answer). (state_of o).0) h in
    elim (Bool-cases c.broken) [
      | inl b ↦
          let same = ap (λ (x : Call). x.0) (get-broken path headers c body b) in
          inl (b, sym ends ∙ same)
      | inr works ↦ inr (elim (Bool-cases c.exhausted) [
        | inl x ↦
            let same = ap (λ (y : Call). y.0) (get-exhausted path headers c body works x) in
            inr (rw (sym ends ∙ same) (refl, refl))
        | inr left ↦ elim (Result-cases (encode_request (get_request path headers))) [
          | inl (payload, r) ↦ inr (
              rw (sym (get-sends path headers c body works left r) ∙ h) at
                (exchange-DropsOnError c.next payload (take_stream c) body))
          | inr (x, r) ↦ inl (
            x,
            r,
            sym ends
                ∙ ap (λ (o : Outcome Call Answer). (state_of o).0)
                    (get-refuses path headers c body works left r),
          )
        ]
      ])
    ]
