-- ===== src/Server/Loop.antt =====
-- `handle` of internal/server/server.go: one connection for its whole life, and what it does about
-- errors. The loop takes fuel; a round reads twelve bytes at least, or is the last.
pub mod Ending
use bhttp_1_http_in_binary.Base.{
  ℕ, zero, suc, ◌||◌, Bool, true, Bytes, codes, Error, eof, truncated, stream_zero, oversize,
  body_error, out_of_fuel, Outcome, ok, err, fold_outcome, Exec, ◌==◌, if◌then◌else◌, length, join,
}
use bhttp_1_http_in_binary.Frame.{Frame, type_request, type_response, type_data, type_error}
use bhttp_1_http_in_binary.Protocol.Messages.{
  code_frame_too_large, code_invalid_stream_id, code_protocol_error,
}
use bhttp_1_http_in_binary.Server.Paths.{FilePath}
use bhttp_1_http_in_binary.Server.Resolver.{FileSystem}
use bhttp_1_http_in_binary.Conn.{Conn, read_conn, report_error}
use bhttp_1_http_in_binary.Server.Requests.{send_status, serve_request}

abbrev pub stream_zero_message : Bytes
stream_zero_message = codes "stream id 0 is not valid here"

abbrev pub too_large_message : Bytes
too_large_message = codes "frame payload is too large"

abbrev pub broken_body_message : Bytes
broken_body_message = codes "could not finish sending the response"

-- Nobody answers an error frame, so an oversized one just ends things.
unfoldable pub on_read_error : Error → Conn → Conn
on_read_error stream_zero c = report_error code_invalid_stream_id stream_zero_message c
on_read_error (oversize t n) c =
    if t == type_error then c else report_error code_frame_too_large too_large_message c
on_read_error _ c = c

-- The headers are out already, so an error frame is the only signal left.
unfoldable pub on_serve_error : Error → Conn → Conn
on_serve_error (body_error e) c = report_error code_protocol_error broken_body_message c
on_serve_error _ c = c

-- `defer conn.Close()`
abbrev pub close : Conn → Outcome Conn (Unit {0})
close c = ok tt (record c { closed = true })

module _ (fs : FileSystem) (root : FilePath) where
  -- The switch on the type of a frame, with the rest of the loop.
  unfoldable pub dispatch : Exec Conn (Unit {0}) → Frame → Exec Conn (Unit {0})
  unfolding on_serve_error
  dispatch again f c =
      if f.typ == type_request
      then fold_outcome (serve_request fs root f c) (λ _ c'. again c')
          (λ e c'. close (on_serve_error e c'))
      else if f.typ == type_response || f.typ == type_data
      then fold_outcome (send_status f.stream_id 400 c) (λ _ c'. again c') (λ e c'. close c')
      else if f.typ == type_error
      then close c
      else again c

  unfoldable pub handle_loop : ℕ → Exec Conn (Unit {0})
  unfolding on_read_error dispatch
  handle_loop zero c = err out_of_fuel c
  handle_loop (suc fuel) c =
      fold_outcome (read_conn c) (λ f c'. dispatch (handle_loop fuel) f c')
        (λ e c'. close (on_read_error e c'))

  unfoldable pub handle : Exec Conn (Unit {0})
  unfolding handle_loop
  handle c = handle_loop (suc (length (join c.source.chunks))) c
