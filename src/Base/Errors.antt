-- ===== src/Base/Errors.antt =====
-- The values of Go's type `error` that the program makes or tells apart. A message's text is left
-- out, except where it goes on the wire.
use Prim.Native.Nat.{ℕ}
use mathlib.Core.List.{List}

pub data Error : Type 0 where
  -- io.EOF, io.ErrUnexpectedEOF, io.ErrShortWrite, a net.Error that is a timeout, any other
  eof unexpected_eof short_write timeout conn_failed : Error
  -- frame.ErrTruncated, ErrPayloadTooLarge, ErrStreamZero, OversizeError{Type, Length}
  truncated payload_too_large stream_zero : Error
  oversize : ℕ → ℕ → Error
  -- protocol.ErrMalformed, ErrTooLarge, and the unnamed errors of the Encode methods
  malformed too_large unencodable : Error
  -- server: errBadPath, errNotFound, the unnamed error of newResolver, *bodyError{err}
  bad_path not_found not_a_directory : Error
  body_error : Error → Error
  -- fs.ErrNotExist, syscall.ENOTDIR, syscall.ENAMETOOLONG, any other of the file system
  not_exist not_dir name_too_long fs_failed : Error
  -- client: ErrBroken, RemoteError{Code, Message}, and the unnamed errors in the order of the text
  broken : Error
  remote : ℕ → List ℕ → Error
  exhausted unexpected_request unexpected_frame used_stream_zero closed_early : Error
  declared_payload : ℕ → Error
  bad_length wrong_length : Error
  -- fmt.Errorf with %w
  wrapped : Error → Error
  -- no Go value: a loop of the model ran out of its fuel
  out_of_fuel : Error
