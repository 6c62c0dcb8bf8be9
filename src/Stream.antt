-- ===== src/Stream.antt =====
-- The two ends of a connection as Go's io package shows them: an io.Reader that hands out the
-- peer's bytes in pieces, and an io.Writer that takes some of what it is given. io.ReadFull and
-- io.CopyN(io.Discard, ...) are the loops of the standard library over such a reader.
pub mod Flat
pub mod Simulation
use bhttp_1_http_in_binary.Base.{
  short_write, ltb, ℕ, zero, suc, ◌-◌, Bytes, List, [], ◌∷◌, ◌++◌, Error, eof, unexpected_eof,
  Outcome, ok, err, Exec, leb, if◌then◌else◌, length, take, drop,
}

-- Each piece is what one Read may return, or more than the caller has room for. When the pieces
-- are used up a Read returns `fault`: io.EOF after a close, or a timeout, or another failure.
pub record Source : Type 0 where
  pub chunks : List Bytes
  pub fault : Error

-- What a caller of io.Reader asks for. The two functions stand for io.ReadFull and io.CopyN.
pub record ByteReader (S : Type 0) : Type 0 where
  pub read_full : ℕ → Exec S Bytes
  pub copy_n : ℕ → Exec S (Unit {0})

-- io.ReadAtLeast: an EOF after some bytes is io.ErrUnexpectedEOF.
unfoldable pub short_read : Bytes → Error → Error
short_read (b ∷ bs) eof = unexpected_eof
short_read _ e = e

-- io.ReadFull, with so many bytes still missing behind `got`.
unfoldable pub fill : ℕ → Bytes → Error → List Bytes → Outcome Source Bytes
fill zero got fault cs = ok got (record { chunks = cs; fault = fault })
fill (suc n) got fault [] = err (short_read got fault) (record { chunks = []; fault = fault })
fill (suc n) got fault (c ∷ cs) =
    let rest = fill (suc n - length c) (got ++ c) fault cs in
    let cut = ok (got ++ take (suc n) c) (record { chunks = drop (suc n) c ∷ cs; fault = fault }) in
    if leb (length c) (suc n) then rest else cut

-- io.CopyN to io.Discard. Its error is the reader's own, also after some bytes.
unfoldable pub discard : ℕ → Error → List Bytes → Outcome Source (Unit {0})
discard zero fault cs = ok tt (record { chunks = cs; fault = fault })
discard (suc n) fault [] = err fault (record { chunks = []; fault = fault })
discard (suc n) fault (c ∷ cs) =
    let rest = discard (suc n - length c) fault cs in
    let cut = ok tt (record { chunks = drop (suc n) c ∷ cs; fault = fault }) in
    if leb (length c) (suc n) then rest else cut

unfoldable pub chunked : ByteReader Source
unfolding fill discard
chunked = record {
  read_full = λ n s. fill n [] s.fault s.chunks;
  copy_n = λ n s. discard n s.fault s.chunks;
}

-- One Write call: it takes at most so many bytes, and may then report an error.
pub data Grant : Type 0 where
  accept : ℕ → Grant
  refuse : ℕ → Error → Grant

-- What has been written so far, and how the coming Write calls go. Behind the last grant the
-- writer takes everything.
pub record Sink : Type 0 where
  pub written : Bytes
  pub grants : List Grant

-- One Write; an io.Writer that takes less than it is given says why.
unfoldable pub write_grant : List Grant → Bytes → Bytes → Outcome Sink (Unit {0})
write_grant [] out b = ok tt (record { written = out ++ b; grants = [] })
write_grant (accept n ∷ gs) out b =
    if ltb n (length b)
    then err short_write (record { written = out ++ take n b; grants = gs })
    else ok tt (record { written = out ++ b; grants = gs })
write_grant (refuse n e ∷ gs) out b = err e (record { written = out ++ take n b; grants = gs })

unfoldable pub write_once : Bytes → Exec Sink (Unit {0})
unfolding write_grant
write_once b w = write_grant w.grants w.written b
