-- ===== src/Conn.antt =====
-- One end of a TCP connection: what the peer sends, what has been written to it, and whether our
-- side, or all of it, is closed. Deadlines show as the faults of the two streams; log lines are
-- left out. The server's `write`, `fail` and `drain` (internal/server/server.go) and the client's
-- `sendError` (internal/client/client.go) work on it in the same way.
use bhttp_1_http_in_binary.Base.{ℕ, ◌*◌, Bool, true, Bytes, Exec, zoom, fold_outcome, fold_result}
use bhttp_1_http_in_binary.Stream.{Source, Sink, discard}
use bhttp_1_http_in_binary.Frame.{Frame, type_error}
use bhttp_1_http_in_binary.Frame.Reader.{read}
use bhttp_1_http_in_binary.Frame.Writer.{write}
use bhttp_1_http_in_binary.Protocol.Messages.{encode_conn_error}

pub record Conn : Type 0 where
  pub source : Source
  pub sink : Sink
  pub half_closed : Bool
  pub closed : Bool

abbrev pub drain_bytes : ℕ
drain_bytes = 64 * 1024

unfoldable pub read_conn : Exec Conn Frame
read_conn = zoom (λ c. c.source) (λ c s. record c { source = s }) read

unfoldable pub write_conn : Frame → Exec Conn (Unit {0})
write_conn f = zoom (λ c. c.sink) (λ c w. record c { sink = w }) (write f)

-- Half-close, and discard what the peer still sends, up to a limit. In the code that is what is
-- behind the bytes that bufio holds; nothing reads the connection afterwards.
unfoldable pub drain : Conn → Conn
drain c =
    fold_outcome (discard drain_bytes c.source.fault c.source.chunks)
      (λ _ s. record c { source = s; half_closed = true })
      (λ e s. record c { source = s; half_closed = true })

abbrev pub error_frame : Bytes → Frame
error_frame payload = record { typ = type_error; flags = 0; stream_id = 0; payload = payload }

-- The connection-level error, and a drain if it went out.
unfoldable pub report_error : ℕ → Bytes → Conn → Conn
report_error code message c =
    fold_result (encode_conn_error (record { code = code; message = message }))
      (λ payload. fold_outcome (write_conn (error_frame payload) c) (λ _ c'. drain c') (λ e c'. c'))
      (λ e. c)
