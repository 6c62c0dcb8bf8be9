-- ===== src/Exchange.antt =====
-- The contract between the server and the client about one answer: which bytes on the wire carry a
-- status, headers and a body on a stream. The server's side of it is in `Exchange/Sent.antt`, the
-- client's in `Exchange/Received.antt`, and `Exchange/Fetch.antt` joins the two for one call,
-- `Exchange/Session.antt` for many.
pub mod Sent
pub mod Bodies
pub mod Received
pub mod Fetch
pub mod Pipeline
pub mod Session
pub mod Violations
pub mod Alike
pub mod Output
use bhttp_1_http_in_binary.Base.{ℕ, true, false, ◌≡◌, List, [], ◌∷◌, ◌++◌, Bytes, success}
use bhttp_1_http_in_binary.Frame.{encode}
use bhttp_1_http_in_binary.Protocol.Headers.{Header}
use bhttp_1_http_in_binary.Protocol.Messages.{encode_response}
use bhttp_1_http_in_binary.Server.Requests.{response_frame, data_frame}

-- DATA frames that carry a body, the last of them with END_STREAM.
pub data BodyWire (stream : ℕ) : Bytes → Bytes → Type 0 where
  last :
      {chunk b : Bytes}
      → encode (data_frame stream chunk true) ≡ success b
      → BodyWire stream chunk b
  more :
      {content wire : Bytes} (chunk b content' wire' : Bytes)
      → encode (data_frame stream chunk false) ≡ success b
      → BodyWire stream content' wire'
      → content ≡ chunk ++ content'
      → wire ≡ b ++ wire'
      → BodyWire stream content wire

-- A RESPONSE frame, which ends the stream if there is no body, and the body behind it.
pub data AnswerWire (stream status : ℕ) (headers : List Header) : Bytes → Bytes → Type 0 where
  no_body :
      {b : Bytes} (payload : Bytes)
      → encode_response (record { status = status; headers = headers }) ≡ success payload
      → encode (response_frame stream payload true) ≡ success b
      → AnswerWire stream status headers [] b
  with_body :
      {content wire : Bytes} (payload b wire' : Bytes)
      → encode_response (record { status = status; headers = headers }) ≡ success payload
      → encode (response_frame stream payload false) ≡ success b
      → BodyWire stream content wire'
      → wire ≡ b ++ wire'
      → AnswerWire stream status headers content wire
