-- ===== src/Exchange/Session.antt =====
-- A client's calls one after the other on one connection, what each of them should come to, and
-- which bytes they are on the wire.
pub mod Requests
pub mod Replies
pub mod Gotten
pub mod Relayed
use bhttp_1_http_in_binary.Base.{
  ℕ, suc, ◌≡◌, ◌≢◌, refl, ap, ◌∙◌, arith, List, [], ◌∷◌, ◌++◌, Bytes, Error, wrapped, Result,
  success, failure, Result-cases, fold_result, inl, inr, length, take, take-append, join,
}
use mathlib.Core.List.{map}
use bhttp_1_http_in_binary.Frame.{encode}
use bhttp_1_http_in_binary.Protocol.Headers.{Header}
use bhttp_1_http_in_binary.Protocol.Messages.{encode_request}
use bhttp_1_http_in_binary.Conn.{Conn}
use bhttp_1_http_in_binary.Server.Paths.{FilePath}
use bhttp_1_http_in_binary.Server.Resolver.{FileInfo, File, FileSystem, open_path}
use bhttp_1_http_in_binary.Server.Mime.{content_type, length-content_type}
use bhttp_1_http_in_binary.Server.Requests.{answer_request, file_headers, status_headers}
use bhttp_1_http_in_binary.Client.{Answer, get_request, request_frame}
use bhttp_1_http_in_binary.Client.Lengths.{check_length}
use bhttp_1_http_in_binary.Exchange.{AnswerWire}
use bhttp_1_http_in_binary.Exchange.Sent.{send_file-Answers, send_status-Answers}
use bhttp_1_http_in_binary.Exchange.Sent.Body.{IsHealthy, Sends}
use bhttp_1_http_in_binary.Exchange.Received.{answer_of}
use bhttp_1_http_in_binary.Exchange.Fetch.{
  miss_status, answer_miss-miss_status, valid_status-miss_status, check_length-file_headers,
  check_length-status_headers,
}
use bhttp_1_http_in_binary.Exchange.Pipeline.Steady.{IsSteady}

-- A call's path and headers.
abbrev pub Asking : Type 0
Asking = Bytes × List Header

-- The bytes of a call's request, none if it cannot be encoded.
unfoldable pub request_bytes : ℕ → Asking → Bytes
request_bytes id (path, headers) =
    fold_result (encode_request (get_request path headers))
      (λ payload. fold_result (encode (request_frame id payload)) (λ b. b) (λ e. [])) (λ e. [])

-- The requests of all the calls, each on the stream behind the one before.
unfoldable pub requests_from : ℕ → List Asking → Bytes
requests_from id [] = []
requests_from id (call ∷ calls) = request_bytes id call ++ requests_from (suc id) calls

module _ (fs : FileSystem) (root : FilePath) where
  -- The answer that a path should get, and the body.
  unfoldable pub answer_to : Bytes → Answer × Bytes
  answer_to path =
      fold_result (open_path fs root path)
        (λ opened.
          let content = take opened.1.size (join opened.0.content.chunks) in
          (
            answer_of 200 (file_headers (content_type opened.1.name) opened.1.size) content,
            content,
          ))
        (λ e. (answer_of (miss_status e) status_headers [], []))

  -- What `Get` should return: an answer, or that the request cannot be encoded.
  unfoldable pub result_of : Asking → Result Answer
  result_of (path, headers) =
      fold_result (encode_request (get_request path headers))
        (λ payload. success (answer_to path).0) (λ e. failure (wrapped e))

  -- What `Get` should write to the writer of bodies.
  unfoldable pub body_of : Asking → Bytes
  body_of (path, headers) =
      fold_result (encode_request (get_request path headers)) (λ payload. (answer_to path).1)
        (λ e. [])

  -- The bytes on the wire are the answer that the path should get.
  pub record IsAnswer (id : ℕ) (path wire : Bytes) : Type 0 where
    pub status : ℕ
    pub headers : List Header
    pub content : Bytes
    pub carries : AnswerWire id status headers content wire
    pub agrees : check_length headers (length content) ≡ success tt
    pub is : answer_to path ≡ (answer_of status headers content, content)

  -- `answerRequest` sends the answer that the path should get.
  pub answer_request-IsAnswer :
      (id : ℕ) (path : Bytes) (headers : List Header) (c : Conn)
      → IsSteady fs root
      → id ≢ 0
      → IsHealthy c
      → (wire : Bytes) × IsAnswer id path wire
        × Sends c wire (answer_request fs root id (get_request path headers) c)
  unfolding answer_request answer_to
  answer_request-IsAnswer id path headers c steady nonzero h =
      elim (Result-cases (open_path fs root path)) [
        | inr (e, missing) ↦
            let (wire, carries, sends) =
              send_status-Answers id (miss_status e) c nonzero (valid_status-miss_status e) h in
            (
              wire,
              record {
                status = miss_status e;
                headers = status_headers;
                content = [];
                carries = carries;
                agrees = check_length-status_headers;
                is = rw missing refl;
              },
              rw (missing, answer_miss-miss_status) sends,
            )
        | inl ((file, info), found) ↦
            let whole = steady path file info found in
            let (wire, carries, sends) =
              send_file-Answers id (content_type info.name) nonzero (length-content_type info.name)
                info.size whole.content whole.extra file.content c whole.in_range whole.has_size
                whole.has_bytes h in
            let prefix : take info.size (join file.content.chunks) ≡ whole.content =
              rw whole.has_bytes (take-append info.size whole.content whole.extra whole.has_size) in
            (
              wire,
              record {
                status = 200;
                headers = file_headers (content_type info.name) info.size;
                content = whole.content;
                carries = carries;
                agrees =
                    rw whole.has_size
                      (check_length-file_headers (content_type info.name) info.size whole.in_range);
                is = rw (found, prefix) refl;
              },
              rw found sends,
            )
      ]
