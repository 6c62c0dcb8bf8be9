-- ===== src/Lib.antt =====
-- BHTTP/1: HTTP requests and answers as binary frames over TCP. A client and a server in Go.
--
-- The program in short. A frame is a header of twelve bytes (length, type, flags, two reserved
-- bytes, stream) and a payload. The payloads of REQUEST, RESPONSE and ERROR frames are encoded
-- messages; DATA frames carry a body. The server reads frames off a connection, answers each
-- request on its stream with a RESPONSE frame and DATA frames, and reports what breaks the
-- protocol with an ERROR frame before it closes. The client takes a fresh stream for each call,
-- reads its answer, and gives the connection up on the first failure.
--
-- The parts, from below:
--
-- - Base: lists, byte strings, errors, decimal numbers (Base/Decimal, for strconv), signed
--   numbers (Base/Ints), and the two shapes of Go code. `Result` is a value or an error; `Exec S
--   A` is code that changes a state `S` and may fail, with the state on both ways out.
-- - Stream: io.Reader as a list of pieces and the fault behind them (`Source`), io.Writer as what
--   has been written and a list of grants, one for each coming Write (`Sink`). io.ReadFull and
--   io.CopyN on the pieces are proved to do the same as on the bytes (Stream/Simulation), so
--   proofs about readers are done on byte strings and hold for every way in which the bytes
--   arrive.
-- - Frame: internal/frame. `encode` is Encode, `Reader.read` is Read, `Writer.write` is Write.
-- - Protocol: internal/protocol. The cursor, the header table, the rules for names and values,
--   and `encode_request`, `decode_request` and so on for Request, Response and ConnError.
-- - Conn: a connection, with the parts of internal/server/server.go and internal/client/client.go
--   that work on it in the same way: write, fail and sendError, drain.
-- - Server: Server/Resolver is internal/server/resolver.go, Server/Mime is mime.go,
--   Server/Requests is request.go, Server/Loop is handle of server.go, Server/Startup is New and
--   newResolver, and Server/Lifecycle is Serve, Close, track and untrack as a step relation: in
--   Server/Lifecycle.antt a connection arrives at any time, and its handler waits for its peer
--   until the connection ends or is closed, and Server/Lifecycle/Serving adds the listener and
--   the loop of Serve in front of that, with what an Accept can return. Server/Paths has what
--   they use of the packages strings and path/filepath.
-- - Client: internal/client/client.go. `get` is Get, `read_answer` is readResponse, `Lengths` is
--   checkLength.
-- - Exchange: the contract between the two about the bytes of an answer (`AnswerWire`).
--   Exchange/Sent has the server's side, Exchange/Bodies and Exchange/Received the client's,
--   Exchange/Fetch joins them, Exchange/Pipeline is about many requests on one connection,
--   Exchange/Session about many calls of one client against the server, Exchange/Violations about
--   bytes that break the protocol. Exchange/Output is about the frames that the server writes,
--   whatever arrives and however the writes go. Exchange/Alike is about the calls of a client on
--   two streams that hold the same frames, with others of unknown types between them.
-- - Wire: internal/wire/tap.go. Wire.antt is the framer, and what it shows is data (`Shown`).
--   Wire/Text is the text that printFrame and printRaw make of that, Wire/Tap the two framers of
--   a Tap under one counter and the connection that it wraps.
-- - Chaos: internal/chaos/chaos.go. Chaos.antt is the pump, over a source of random numbers.
--   Chaos/Sending and Chaos/Written are about what it writes, Chaos/Heard about what a reader of
--   frames makes of that. Chaos/Relay is Serve and relay, with both directions.
-- - Cli: the command lines under cmd, with what they use of the packages flag and net (Cli/Flags,
--   Cli/Addresses). `Cli.Bcurl.run` and so on map arguments to an exit status and what was done.
-- - Tests: runs on concrete inputs.
--
-- Parameters. math/rand is a record of two functions, and `IsRandom` what it promises. Dialing
-- and listening, filepath.Abs, the tables of Unicode, the texts of errors and of quoted values,
-- and what strconv.ParseInt and time.ParseDuration make of a flag's value are functions that can
-- be anything. The file system is a record of functions (EvalSymlinks, Stat, Open) that can be
-- anything and need not agree with one another, but stay the same while a connection is served,
-- so that a tree that changes between two requests is not covered; paths are those of Unix. What
-- is asked of it is named: `IsSteady` says that a file that is opened has the bytes that its size
-- promises. `IsHealthy` says that a connection takes at least a byte in each Write, and `IsOpen`
-- that the writer of a body has no complaint.
--
-- Fuel. The loops of Read, sendFile, handle and readResponse are functions on fuel. Read, handle
-- and readResponse get one more than the number of bytes that are still to come, and each round
-- takes the twelve bytes of a header at least, and so do the loops of the relay and of the tap.
-- sendFile gets the size of the file, and each round sends a byte at least.
--
-- Numbers. Bytes are numbers below 256, and the big-endian numbers are cut to their width where
-- Go cuts them. The counts of the client and the sizes of files are int64 in Go, which the
-- theorems about them take into account by a bound of 2 ^ 63.
--
-- Not modelled: time (a deadline that passes is a fault of a stream, and pauses are left out),
-- log lines and with them `printable`, the texts of errors and with them `typeLabel`; what the
-- flag package prints, and the hexdump that bcurl -v puts between its own messages (Wire/Tap is
-- about a connection with a tap); signals, which call Close; the names that only Windows refuses.
pub mod Base
pub mod Stream
pub mod Frame
pub mod Protocol
pub mod Conn
pub mod Server
pub mod Client
pub mod Exchange
pub mod Wire
pub mod Chaos
pub mod Cli
pub mod Tests
