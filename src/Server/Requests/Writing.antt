-- ===== src/Server/Requests/Writing.antt =====
-- What holds of all that serving a request does to a connection, if it holds of each frame that is
-- written: request.go of internal/server touches a connection in no other way.
use bhttp_1_http_in_binary.Base.{
  ℕ, zero, suc, ◌≡◌, refl, Bool, true, false, Error, Result, success, failure, Outcome, ok, err,
  Exec, after, pure, fail, from_result, ◌>>=◌, fold_outcome, fold_result, if◌then◌else◌, bad_path,
  not_found, List, body_error, out_of_fuel, min, inl, inr, ◌⊎◌,
}
use bhttp_1_http_in_binary.Stream.{Source, chunked}
use bhttp_1_http_in_binary.Frame.{Frame, max_payload, type_response, type_data}
use bhttp_1_http_in_binary.Protocol.Headers.{Header}
use bhttp_1_http_in_binary.Protocol.Messages.{encode_response, decode_request, Request}
use bhttp_1_http_in_binary.Server.Paths.{FilePath}
use bhttp_1_http_in_binary.Server.Resolver.{FileSystem, open_path}
use bhttp_1_http_in_binary.Server.Requests.{
  send_response, send_status, send_body, send_file, answer_miss, answer_request, serve_request,
  wrong_flags, status_headers,
}
use bhttp_1_http_in_binary.Conn.{Conn, write_conn}

-- A frame that answers a request.
abbrev pub IsAnswerFrame : Frame → Type 0
IsAnswerFrame f = (f.typ ≡ type_response) ⊎ (f.typ ≡ type_data)

-- What holds of the state that code leaves, on either way out.
abbrev pub Leaves : {S A : Type 0} → (S → Type 0) → (Error → S → Type 0) → Outcome S A → Type 0
Leaves done broken (ok a s) = done s
Leaves done broken (err e s) = broken e s

-- How a connection may change: not at all, in steps, by writing an answer, and by an error.
pub record Change : Type 1 where
  pub becomes : Conn → Conn → Type 0
  pub breaks : Error → Conn → Conn → Type 0
  pub same : (c : Conn) → becomes c c
  pub stops : (e : Error) (c : Conn) → breaks e c c
  pub then_also : (a b c : Conn) → becomes a b → becomes b c → becomes a c
  pub then_breaks : (e : Error) (a b c : Conn) → becomes a b → breaks e b c → breaks e a c
  pub writes :
      (f : Frame) (c : Conn)
      → IsAnswerFrame f
      → Leaves (becomes c) (λ e. breaks e c) (write_conn f c)

module _ (r : Change) where
  -- Code that changes a connection in this way only.
  pub record Only {A : Type 0} (m : Exec Conn A) : Type 0 where
    pub at : (c : Conn) → Leaves (r.becomes c) (λ e. r.breaks e c) (m c)

  Only-pure : {A : Type 0} (a : A) → Only (pure a)
  Only-pure a = record { at = λ c. r.same c }

  Only-fail : {A : Type 0} (e : Error) → Only {A = A} (fail e)
  Only-fail e = record { at = λ c. r.stops e c }

  Only-from_result : {A : Type 0} (x : Result A) → Only (from_result x)
  Only-from_result (success a) = record { at = λ c. r.same c }
  Only-from_result (failure e) = record { at = λ c. r.stops e c }

  Only-if :
      {A : Type 0} (b : Bool) (m k : Exec Conn A) → Only m → Only k → Only (if b then m else k)
  Only-if true m k h h' = h
  Only-if false m k h h' = h'

  Leaves-later :
      {A : Type 0} (c s : Conn) (o : Outcome Conn A)
      → r.becomes c s
      → Leaves (r.becomes s) (λ e. r.breaks e s) o
      → Leaves (r.becomes c) (λ e. r.breaks e c) o
  Leaves-later c s (ok a t) h k = r.then_also c s t h k
  Leaves-later c s (err e t) h k = r.then_breaks e c s t h k

  Leaves-after :
      {A B : Type 0} (f : A → Exec Conn B) (c : Conn)
      → ((a : A) → Only (f a))
      → (o : Outcome Conn A) → Leaves (r.becomes c) (λ e. r.breaks e c) o
      → Leaves (r.becomes c) (λ e. r.breaks e c) (after o f)
  Leaves-after f c hf (ok a s) h = Leaves-later c s (f a s) h ((hf a).at s)
  Leaves-after f c hf (err e s) h = h

  Only-bind :
      {A B : Type 0} (m : Exec Conn A) (f : A → Exec Conn B)
      → Only m
      → ((a : A) → Only (f a))
      → Only (m >>= f)
  Only-bind m f h hf = record { at = λ c. Leaves-after f c hf (m c) (h.at c) }

  Only-fold_result :
      {A B : Type 0} (x : Result A) (f : A → Exec Conn B) (g : Error → Exec Conn B)
      → ((a : A) → Only (f a))
      → ((e : Error) → Only (g e))
      → Only (fold_result x f g)
  Only-fold_result (success a) f g hf hg = hf a
  Only-fold_result (failure e) f g hf hg = hg e

  Only-write_conn : (f : Frame) → IsAnswerFrame f → Only (write_conn f)
  Only-write_conn f is = record { at = λ c. r.writes f c is }

  Only-send_response :
      (stream status : ℕ) (hs : List Header) (end : Bool)
      → Only (send_response stream status hs end)
  unfolding send_response
  Only-send_response stream status hs end =
      Only-bind _ _ (Only-from_result (encode_response (record { status = status; headers = hs })))
        (λ payload. Only-write_conn _ (inl refl))

  pub Only-send_status : (stream status : ℕ) → Only (send_status stream status)
  unfolding send_status
  Only-send_status stream status = Only-send_response stream status status_headers true

  Only-fold_read :
      (o : Outcome Source (List ℕ)) (f : List ℕ → Source → Exec Conn (Unit {0}))
      (g : Error → Source → Exec Conn (Unit {0}))
      → ((a : List ℕ) (s : Source) → Only (f a s))
      → ((e : Error) (s : Source) → Only (g e s))
      → Only (fold_outcome o f g)
  Only-fold_read (ok a s) f g hf hg = hf a s
  Only-fold_read (err e s) f g hf hg = hg e s

  Only-send_body : (fuel stream n : ℕ) (file : Source) → Only (send_body fuel stream n file)
  unfolding send_body
  Only-send_body zero stream zero file = Only-pure tt
  Only-send_body zero stream (suc n) file = Only-fail out_of_fuel
  Only-send_body (suc fuel) stream zero file = Only-pure tt
  Only-send_body (suc fuel) stream (suc n) file =
      Only-fold_read (chunked.read_full (min max_payload (suc n)) file) _ _
        (λ chunk u.
          Only-bind _ _ (Only-write_conn _ (inr refl)) (λ _. Only-send_body fuel stream _ u))
        (λ e u. Only-fail (body_error e))

  Only-answer_miss : (stream : ℕ) (e : Error) → Only (answer_miss stream e)
  unfolding answer_miss
  Only-answer_miss stream bad_path = Only-send_status stream 400
  Only-answer_miss stream not_found = Only-send_status stream 404
  Only-answer_miss stream _ = Only-send_status stream 500

module _ (r : Change) (fs : FileSystem) (root : FilePath) where
  Only-answer_request : (stream : ℕ) (req : Request) → Only r (answer_request fs root stream req)
  unfolding answer_request send_file
  Only-answer_request stream req =
      Only-fold_result r (open_path fs root req.path) _ _
        (λ o.
          Only-bind r _ _ (Only-send_response r stream 200 _ _)
            (λ _. Only-send_body r o.1.size stream o.1.size o.0.content))
        (λ e. Only-answer_miss r stream e)

  pub Only-serve_request : (f : Frame) → Only r (serve_request fs root f)
  unfolding serve_request
  Only-serve_request f = Only-if r (wrong_flags f.flags) _ _ (Only-send_status r f.stream_id 400) (
      Only-fold_result r (decode_request f.payload) _ _ (λ req. Only-answer_request f.stream_id req)
        (λ e. Only-send_status r f.stream_id 400))
