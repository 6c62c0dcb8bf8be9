-- ===== src/Chaos/Relay.antt =====
-- Serve and relay of internal/chaos/chaos.go. The two goroutines of a relay share nothing: one reads
-- from the client and writes to the server, and the other one the other way round.
pub mod Through
use bhttp_1_http_in_binary.Base.{
  ℕ, suc, ◌+◌, true, Option, none, some, List, [], ◌∷◌, Bytes, Result, Error, fold_outcome,
  fold_result,
}
use bhttp_1_http_in_binary.Stream.{Sink, write_once}
use bhttp_1_http_in_binary.Conn.{Conn}
use bhttp_1_http_in_binary.Chaos.{Random, Options, Pump, run}

-- io.Copy: what comes is written, until there is no more, or a Write fails.
unfoldable pub copy_loop : List Bytes → Sink → Sink
copy_loop [] w = w
copy_loop (c ∷ cs) w = fold_outcome (write_once c w) (λ _ w'. copy_loop cs w') (λ e w'. w')

unfoldable pub half_close : Conn → Conn
half_close c = record c { half_closed = true }

abbrev pub close_conn : Conn → Conn
close_conn c = record c { closed = true }

-- The end of a relay: both connections, and what the pump has counted.
pub record Relayed (R : Type 0) : Type 0 where
  pub client : Conn
  pub server : Option Conn
  pub pump : Option (Pump R)

-- The goroutine of the requests.
unfoldable pub pass_requests : Conn → Conn → Conn
unfolding copy_loop half_close
pass_requests client server =
    half_close (record server { sink = copy_loop client.source.chunks server.sink })

unfoldable pub new_pump : {R : Type 0} → Conn → R → Pump R
new_pump client rng = record { out = client.sink; rng = rng; frames = 0; injected = 0; writes = 0 }

-- The goroutine of the answers.
unfoldable pub pass_answers : {R : Type 0} → Conn → Pump R → Conn
unfolding half_close
pass_answers client p = half_close (record client { sink = p.out })

module _ {R : Type 0} (rand : Random R) (o : Options) (dial : Result Conn) where
  unfoldable pub relay : R → Conn → Relayed R
  unfolding pass_requests pass_answers new_pump
  relay rng client =
      fold_result dial
        (λ server.
          let p = run rand o server.source (new_pump client rng) in
          record {
            client = close_conn (pass_answers client p);
            server = some (close_conn (pass_requests client server));
            pump = some p;
          })
        (λ e. record { client = close_conn client; server = none; pump = none })

-- What Accept returns: a connection, the error of a listener that is closed, or another one.
pub data Accepted : Type 0 where
  connection : Conn → Accepted
  listener_closed : Accepted
  accept_failed : Error → Accepted

-- Serve is still in Accept, or has returned.
pub data Served : Type 0 where
  still_accepting : Served
  returned : Option Error → Served

-- The connections that get a relay, each with its number, and how Serve ends. The random numbers of
-- a relay are those of the seed and its number.
unfoldable pub serve : ℕ → List Accepted → List (ℕ × Conn) × Served
serve n [] = ([], still_accepting)
serve n (connection c ∷ rest) = let (relays, end) = serve (n + 1) rest in ((n + 1, c) ∷ relays, end)
serve n (listener_closed ∷ rest) = ([], returned none)
serve n (accept_failed e ∷ rest) = ([], returned (some e))
