-- ===== src/Frame/Writer.antt =====
-- internal/frame/writer.go
pub mod Delivery
use bhttp_1_http_in_binary.Base.{
  ◌∷◌, [], List, ◌++◌, min, Bytes, Exec, Outcome, ok, err, short_write, from_result, ◌>>=◌, ◌==◌,
  if◌then◌else◌, length, take, drop,
}
use bhttp_1_http_in_binary.Stream.{Grant, accept, refuse, Sink}
use bhttp_1_http_in_binary.Frame.{Frame, encode}

-- The loop of `writeAll`, one round for each Write. A grant of more than there is takes all there
-- is. A Write that takes nothing is io.ErrShortWrite.
unfoldable pub write_loop : List Grant → Bytes → Bytes → Outcome Sink (Unit {0})
write_loop gs out [] = ok tt (record { written = out; grants = gs })
write_loop [] out (b ∷ bs) = ok tt (record { written = out ++ (b ∷ bs); grants = [] })
write_loop (accept n ∷ gs) out (b ∷ bs) =
    let m = min n (length (b ∷ bs)) in
    let rest = write_loop gs (out ++ take m (b ∷ bs)) (drop m (b ∷ bs)) in
    if m == 0 then err short_write (record { written = out; grants = gs }) else rest
write_loop (refuse n e ∷ gs) out (b ∷ bs) =
    err e (record { written = out ++ take n (b ∷ bs); grants = gs })

unfoldable pub write_all : Bytes → Exec Sink (Unit {0})
unfolding write_loop
write_all b w = write_loop w.grants w.written b

unfoldable pub write : Frame → Exec Sink (Unit {0})
unfolding write_all
write f = from_result (encode f) >>= write_all
