-- ===== src/Exchange/Pipeline/Steady.antt =====
-- Files that do not end early, and the answer that every request then gets.
use bhttp_1_http_in_binary.Base.{
  ℕ, ◌<◌, ◌^◌, ◌≡◌, ◌≢◌, refl, true, List, [], ◌++◌, Bytes, success, length, Outcome, join,
  Bool-cases, Result-cases, inl, inr,
}
use bhttp_1_http_in_binary.Frame.{Frame}
use bhttp_1_http_in_binary.Protocol.Headers.{Header}
use bhttp_1_http_in_binary.Protocol.Messages.{decode_request, valid_status}
use bhttp_1_http_in_binary.Conn.{Conn}
use bhttp_1_http_in_binary.Server.Paths.{FilePath}
use bhttp_1_http_in_binary.Server.Resolver.{FileInfo, File, FileSystem, open_path}
use bhttp_1_http_in_binary.Server.Mime.{content_type, length-content_type}
use bhttp_1_http_in_binary.Server.Requests.{
  serve_request, answer_request, wrong_flags, file_headers, status_headers, send_status,
}
use bhttp_1_http_in_binary.Exchange.Sent.{Answers, send_file-Answers, send_status-Answers}
use bhttp_1_http_in_binary.Exchange.Sent.Body.{IsHealthy}
use bhttp_1_http_in_binary.Exchange.Fetch.{
  miss_status, answer_miss-miss_status, valid_status-miss_status,
}

-- A file with all the bytes that its size promises.
pub record IsWhole (file : File) (info : FileInfo) : Type 0 where
  pub in_range : info.size < 2 ^ 63
  pub content : Bytes
  pub extra : Bytes
  pub has_size : length content ≡ info.size
  pub has_bytes : join file.content.chunks ≡ content ++ extra

-- No file that is opened ends early.
abbrev pub IsSteady : FileSystem → FilePath → Type 0
IsSteady fs root =
    (path : Bytes) (file : File) (info : FileInfo)
    → open_path fs root path ≡ success (file, info)
    → IsWhole file info

abbrev pub AnswersSomehow : ℕ → Conn → Outcome Conn (Unit {0}) → Type 0
AnswersSomehow id c o =
    (status : ℕ) × (hs : List Header) × (content : Bytes) × Answers id status hs content c o

module _ (fs : FileSystem) (root : FilePath) (steady : IsSteady fs root) where
  answer_status :
      (id status : ℕ) (c : Conn)
      → id ≢ 0
      → valid_status status ≡ true
      → IsHealthy c
      → AnswersSomehow id c (send_status id status c)
  answer_status id status c nonzero valid h =
      (status, status_headers, [], send_status-Answers id status c nonzero valid h)

  -- Whatever a request says, on a healthy connection it gets one whole answer, on its own stream,
  -- provided that the stream is not 0 and no file ends early.
  pub serve_request-Answers :
      (f : Frame) (c : Conn)
      → f.stream_id ≢ 0
      → IsHealthy c
      → AnswersSomehow f.stream_id c (serve_request fs root f c)
  unfolding serve_request answer_request valid_status
  serve_request-Answers f c nonzero h = elim (Bool-cases (wrong_flags f.flags)) [
    | inl wrong ↦ rw wrong (answer_status f.stream_id 400 c nonzero refl h)
    | inr right ↦ elim (Result-cases (decode_request f.payload)) [
      | inr (e, bad) ↦ rw (right, bad) (answer_status f.stream_id 400 c nonzero refl h)
      | inl (req, good) ↦ elim (Result-cases (open_path fs root req.path)) [
        | inr (e, missing) ↦
            rw (right, good, missing, answer_miss-miss_status)
              (answer_status f.stream_id (miss_status e) c nonzero (valid_status-miss_status e) h)
        | inl ((file, info), found) ↦
            let whole = steady req.path file info found in
            rw (right, good, found)
              (
                200,
                file_headers (content_type info.name) info.size,
                whole.content,
                send_file-Answers f.stream_id (content_type info.name) nonzero
                    (length-content_type info.name) info.size whole.content whole.extra file.content
                    c whole.in_range whole.has_size whole.has_bytes h,
              )
      ]
    ]
  ]
