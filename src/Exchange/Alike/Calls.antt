-- ===== src/Exchange/Alike/Calls.antt =====
-- The client's calls do the same on two streams that are heard alike, one call after the other.
use bhttp_1_http_in_binary.Base.{
  ℕ, ◌≡◌, refl, ap, ◌∙◌, Bool, true, false, Bool-cases, inl, inr, ◌⊎◌, List, [], ◌∷◌, Bytes, Error,
  broken, exhausted, wrapped, Outcome, ok, err, Outcome-cases, Result, Result-cases, success,
  failure, fold_outcome, if◌then◌else◌,
}
use bhttp_1_http_in_binary.Stream.{Source, Sink}
use bhttp_1_http_in_binary.Frame.Writer.{write}
use bhttp_1_http_in_binary.Protocol.Headers.{Header}
use bhttp_1_http_in_binary.Protocol.Messages.{encode_request}
use bhttp_1_http_in_binary.Conn.{write_conn}
use bhttp_1_http_in_binary.Client.{
  Download, Answer, read_answer, Client, fail_client, take_stream, Call, request_frame, conclude,
  exchange, get_request, get,
}
use bhttp_1_http_in_binary.Exchange.Alike.{HeardAlike, both_ok, both_err}
use bhttp_1_http_in_binary.Exchange.Alike.Frames.{on_stream}
use bhttp_1_http_in_binary.Exchange.Alike.Answers.{
  download_on, BothDownloads, read_answer-DownloadAlike,
}

-- A client and the writer of a body.
abbrev pub call_on : Source → Call → Call
call_on t (c, body) = (record c { conn = on_stream t c.conn }, body)

-- The streams are heard alike, or the client is broken, so that nothing is read any more.
abbrev pub StillAlike : Call → Source → Type 0
StillAlike (c, body) t = HeardAlike c.conn.source t ⊎ (c.broken ≡ true)

-- Two calls that end in the same way, up to what is still to come.
pub data Agree (o o' : Outcome Call Answer) : Type 0 where
  both_answer :
      (a : Answer) (s : Call) (t : Source)
      → o ≡ ok a s
      → o' ≡ ok a (call_on t s)
      → StillAlike s t
      → Agree o o'
  both_fail :
      (e : Error) (s : Call) (t : Source)
      → o ≡ err e s
      → o' ≡ err e (call_on t s)
      → StillAlike s t
      → Agree o o'

conclude-Agree :
    (c : Client) (t : Source) (o o' : Outcome Download Answer)
    → BothDownloads o o'
    → Agree (conclude c o) (conclude (record c { conn = on_stream t c.conn }) o')
unfolding fail_client
conclude-Agree c t o o' (both_ok a d u e e' h) =
    rw (e, e') (both_answer a (record c { conn = d.conn }, d.body) u refl refl (inl h))
conclude-Agree c t o o' (both_err x d u e e') =
    rw (e, e')
      (both_fail x (fail_client (record c { conn = d.conn }), d.body) u refl refl (inr refl))

exchange-Agree :
    (id : ℕ) (payload : Bytes) (c : Client) (body : Sink) (t : Source)
    → HeardAlike c.conn.source t
    → Agree (exchange id payload (c, body)) (exchange id payload (call_on t (c, body)))
unfolding exchange write_conn fail_client
exchange-Agree id payload c body t h =
    elim (Outcome-cases (write (request_frame id payload) c.conn.sink)) [
      | inr (x, w, e) ↦
          let failed = record c { conn = record c.conn { sink = w } } in
          rw e (both_fail (wrapped x) (fail_client failed, body) t refl refl (inr refl))
      | inl (a, w, e) ↦
          let d : Download = record { conn = record c.conn { sink = w }; body = body } in
          rw e (
            conclude-Agree c t (read_answer id d) (read_answer id (download_on t d))
              ((read_answer-DownloadAlike id).on d t h))
    ]

if_true : {A : Type 0} {b : Bool} (x y : A) → b ≡ true → (if b then x else y) ≡ x
if_true x y e = rw e refl

if_false : {A : Type 0} {b : Bool} (x y : A) → b ≡ false → (if b then x else y) ≡ y
if_false x y e = rw e refl

Agree-same : (o o' p p' : Outcome Call Answer) → o ≡ p → o' ≡ p' → Agree p p' → Agree o o'
Agree-same o o' p p' e e' g = rw (e, e') g

-- A call of a client that is broken, or has no streams left, and one that gets to its request.
get-broken :
    (path : Bytes) (headers : List Header) (c : Client) (body : Sink)
    → c.broken ≡ true
    → get path headers (c, body) ≡ err broken (c, body)
unfolding get
get-broken path headers c body e = if_true _ _ e

get-exhausted :
    (path : Bytes) (headers : List Header) (c : Client) (body : Sink)
    → c.broken ≡ false
    → c.exhausted ≡ true
    → get path headers (c, body) ≡ err exhausted (fail_client c, body)
unfolding get
get-exhausted path headers c body works e = if_false _ _ works ∙ if_true _ _ e

pub get-unencodable :
    (path : Bytes) (headers : List Header) (c : Client) (body : Sink) (x : Error)
    → c.broken ≡ false
    → c.exhausted ≡ false
    → encode_request (get_request path headers) ≡ failure x
    → get path headers (c, body) ≡ err (wrapped x) (take_stream c, body)
unfolding get
get-unencodable path headers c body x works left e =
    if_false _ _ works ∙ (if_false _ _ left ∙ (rw e refl))

get-exchange :
    (path : Bytes) (headers : List Header) (c : Client) (body : Sink) (payload : Bytes)
    → c.broken ≡ false
    → c.exhausted ≡ false
    → encode_request (get_request path headers) ≡ success payload
    → get path headers (c, body) ≡ exchange c.next payload (take_stream c, body)
unfolding get
get-exchange path headers c body payload works left e =
    if_false _ _ works ∙ (if_false _ _ left ∙ (rw e refl))

get-works :
    (path : Bytes) (headers : List Header) (c : Client) (body : Sink) (t : Source)
    → c.broken ≡ false
    → HeardAlike c.conn.source t
    → Agree (get path headers (c, body)) (get path headers (call_on t (c, body)))
unfolding take_stream fail_client
get-works path headers c body t works h =
    let c' = record c { conn = on_stream t c.conn } in
    elim (Bool-cases c.exhausted) [
      | inl none_left ↦
          both_fail exhausted (fail_client c, body) t
            (get-exhausted path headers c body works none_left)
            (get-exhausted path headers c' body works none_left) (inr refl)
      | inr left ↦ elim (Result-cases (encode_request (get_request path headers))) [
        | inr (x, e) ↦
            both_fail (wrapped x) (take_stream c, body) t
              (get-unencodable path headers c body x works left e)
              (get-unencodable path headers c' body x works left e) (inl h)
        | inl (payload, e) ↦
            Agree-same _ _ _ _ (get-exchange path headers c body payload works left e)
              (get-exchange path headers c' body payload works left e)
              (exchange-Agree c.next payload (take_stream c) body t h)
      ]
    ]

get-Agree :
    (path : Bytes) (headers : List Header) (s : Call) (t : Source)
    → StillAlike s t
    → Agree (get path headers s) (get path headers (call_on t s))
get-Agree path headers (c, body) t h = elim (Bool-cases c.broken) [
  | inl e ↦
      both_fail broken (c, body) t (get-broken path headers c body e)
        (get-broken path headers (record c { conn = on_stream t c.conn }) body e) (inr e)
  | inr works ↦ elim h [
    | inl alike ↦ get-works path headers c body t works alike
    | inr e ↦ absurd (cc (works, e))
  ]
]

-- Calls one after the other, whatever comes of them, with the same writer of bodies.
unfoldable pub gets : List (Bytes × List Header) → Call → List (Result Answer) × Call
gets [] s = ([], s)
gets ((path, headers) ∷ calls) s =
    fold_outcome (get path headers s)
      (λ a s'. let rest = gets calls s' in (success a ∷ rest.0, rest.1))
      (λ e s'. let rest = gets calls s' in (failure e ∷ rest.0, rest.1))

-- The results, the bodies and what has been sent.
abbrev pub SameGets : List (Result Answer) × Call → List (Result Answer) × Call → Type 0
SameGets (rs, (c, body)) (rs', (c', body')) =
    (rs ≡ rs') × (body ≡ body') × (c.conn.sink ≡ c'.conn.sink)

pub gets-SameGets :
    (calls : List (Bytes × List Header)) (s : Call) (t : Source)
    → StillAlike s t
    → SameGets (gets calls s) (gets calls (call_on t s))
unfolding gets
gets-SameGets [] s t h = (refl, refl, refl)
gets-SameGets ((path, headers) ∷ calls) s t h = elim (get-Agree path headers s t h) [
  | both_answer a s' t' e e' h' ↦
      let (results, bodies, sinks) = gets-SameGets calls s' t' h' in
      rw (e, e') (ap (◌∷◌ (success a)) results, bodies, sinks)
  | both_fail x s' t' e e' h' ↦
      let (results, bodies, sinks) = gets-SameGets calls s' t' h' in
      rw (e, e') (ap (◌∷◌ (failure x)) results, bodies, sinks)
]
